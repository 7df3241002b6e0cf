-- ===== src/Scheduler/Invariant.antt =====
-- The scheduler's invariant, class by class, and the operations on the queues that keep it.
use share_bridge.Prelude.{
  ℕ, ◌+◌, ◌≤◌, ◌<◌, ◌≡◌, refl, sym, subst, ◌∙◌, inl, inr, false, List, [], ◌∷◌, ◌++◌, Option, none,
  some, arith, if◌then◌else◌, length, ◌=?◌, same_refl, Bool-cases,
}
use share_bridge.Lane.{TrafficClass, class_key, same_class_iff}
use share_bridge.Scheduler.State.{Scheduler, Request, Waiter}
use share_bridge.Scheduler.Admission.{enqueue, cap_or_zero}
use share_bridge.Scheduler.Turns.{OnTurn}

-- A payload that Send lets through to the class.
pub record Fits (c : TrafficClass) (class : TrafficClass) (payload : List ℕ) : Type 0 where
  pub own : class ≡ c
  pub some_bytes : 0 < length payload
  pub small : length payload ≤ cap_or_zero c

abbrev pub AllRequests : TrafficClass → List Request → Type 0
AllRequests c [] = Unit
AllRequests c (r ∷ rs) = Fits c r.class r.payload × AllRequests c rs

abbrev pub AllWaiters : TrafficClass → List Waiter → Type 0
AllWaiters c [] = Unit
AllWaiters c (w ∷ ws) = Fits c w.class w.payload × AllWaiters c ws

-- The bytes of a queue.
abbrev pub total : List Request → ℕ
total [] = 0
total (r ∷ rs) = length r.payload + total rs

-- The bytes of a class that are being written.
abbrev pub in_flight : TrafficClass → Option Request → ℕ
in_flight c none = 0
in_flight c (some r) = if r.class =? c then length r.payload else 0

-- The first waiter does not fit.
abbrev pub Blocked : ℕ → ℕ → List Waiter → Type 0
Blocked cap bytes [] = Unit
Blocked cap bytes (w ∷ ws) = cap < bytes + length w.payload

-- The queue of a class: its own requests, counted with what is being written, within the cap.
pub record QueueOk (c : TrafficClass) (queue : List Request) (bytes : ℕ) (active : Option Request)
    : Type 0 where
  pub queued : AllRequests c queue
  pub accounted : bytes ≡ total queue + in_flight c active
  pub within : bytes ≤ cap_or_zero c

pub record ClassOk (s : Scheduler) (c : TrafficClass) : Type 0 where
  pub queue : QueueOk c (s.queues c) (s.bytes c) s.active
  pub waiting : AllWaiters c (s.admission_waiters c)
  pub blocked : s.terminal ≡ none → Blocked (cap_or_zero c) (s.bytes c) (s.admission_waiters c)

pub record Inv (s : Scheduler) : Type 0 where
  pub classes : (c : TrafficClass) → ClassOk s c
  pub turns : OnTurn s.choice

pub AllRequests-append :
    (c : TrafficClass) (rs ts : List Request)
    → AllRequests c rs
    → AllRequests c ts
    → AllRequests c (rs ++ ts)
AllRequests-append c [] ts a b = b
AllRequests-append c (r ∷ rs) ts a b = (a.0, AllRequests-append c rs ts a.1 b)

pub AllWaiters-append :
    (c : TrafficClass) (ws vs : List Waiter)
    → AllWaiters c ws
    → AllWaiters c vs
    → AllWaiters c (ws ++ vs)
AllWaiters-append c [] vs a b = b
AllWaiters-append c (w ∷ ws) vs a b = (a.0, AllWaiters-append c ws vs a.1 b)

pub total-append : (rs ts : List Request) → total (rs ++ ts) ≡ total rs + total ts
total-append [] ts = omega arith
total-append (r ∷ rs) ts = omega (arith, total-append rs ts)

-- One more request at the end of a queue that has room.
pub enqueue-QueueOk :
    (call : ℕ) (c class : TrafficClass) (kind : ℕ) (payload : List ℕ) (s : Scheduler)
    → Fits c class payload
    → s.bytes c + length payload ≤ cap_or_zero c
    → QueueOk c (s.queues c) (s.bytes c) s.active
    → let t = enqueue call class kind payload s in QueueOk c (t.queues c) (t.bytes c) t.active
unfolding enqueue
enqueue-QueueOk call c class kind payload s f room q =
    subst
      (λ (d : TrafficClass).
        let t = enqueue call d kind payload s in QueueOk c (t.queues c) (t.bytes c) t.active)
      (sym f.own)
      (simp same_refl (record {
        queued =
            AllRequests-append c (s.queues c) _ q.queued
              ((record { own = refl; some_bytes = f.some_bytes; small = f.small }), tt);
        accounted = omega (
          arith,
          q.accounted,
          total-append (s.queues c)
              (record { call = call; class = c; kind = kind; payload = payload } ∷ []),
        );
        within = room;
      }))

-- `t` differs from `s` at the class `d` only, and in the choice's fields and the answers.
pub record OnlyAt (d : TrafficClass) (s t : Scheduler) : Type 0 where
  pub same_queue : (c : TrafficClass) → (d =? c) ≡ false → t.queues c ≡ s.queues c
  pub same_bytes : (c : TrafficClass) → (d =? c) ≡ false → t.bytes c ≡ s.bytes c
  pub same_waiters :
      (c : TrafficClass) → (d =? c) ≡ false → t.admission_waiters c ≡ s.admission_waiters c
  pub same_active : t.active ≡ s.active
  pub same_terminal : t.terminal ≡ s.terminal

pub OnlyAt-refl : (d : TrafficClass) (s : Scheduler) → OnlyAt d s s
OnlyAt-refl d s = record {
  same_queue = λ c n. refl;
  same_bytes = λ c n. refl;
  same_waiters = λ c n. refl;
  same_active = refl;
  same_terminal = refl;
}

pub OnlyAt-trans :
    {d : TrafficClass} {s t u : Scheduler} → OnlyAt d s t → OnlyAt d t u → OnlyAt d s u
OnlyAt-trans p q = record {
  same_queue = λ c n. q.same_queue c n ∙ p.same_queue c n;
  same_bytes = λ c n. q.same_bytes c n ∙ p.same_bytes c n;
  same_waiters = λ c n. q.same_waiters c n ∙ p.same_waiters c n;
  same_active = q.same_active ∙ p.same_active;
  same_terminal = q.same_terminal ∙ p.same_terminal;
}

-- The classes that an operation leaves alone stay as good as they were.
ClassOk-other :
    (c d : TrafficClass) (s t : Scheduler)
    → OnlyAt d s t
    → (d =? c) ≡ false
    → ClassOk s c
    → ClassOk t c
ClassOk-other c d s t o n k =
    let q = o.same_queue c n in
    let b = o.same_bytes c n in
    let w = o.same_waiters c n in
    record {
      queue = rw (q, b, o.same_active) k.queue;
      waiting = rw w k.waiting;
      blocked = rw (o.same_terminal, b, w) k.blocked;
    }

-- The classes other than `d` were good, and `d` is good now.
pub Inv-but :
    (d : TrafficClass) (s t : Scheduler)
    → OnlyAt d s t
    → ((c : TrafficClass) → (d =? c) ≡ false → ClassOk s c)
    → ClassOk t d
    → OnTurn t.choice
    → Inv t
Inv-but d s t o i k turns = record {
  classes = λ c. elim (Bool-cases (d =? c)) [
    | inl e ↦ subst (ClassOk t) ((same_class_iff d c).0 e) k
    | inr n ↦ ClassOk-other c d s t o n (i c n)
  ];
  turns = turns;
}

pub Inv-at :
    (d : TrafficClass) (s t : Scheduler)
    → OnlyAt d s t
    → Inv s
    → ClassOk t d
    → OnTurn t.choice
    → Inv t
Inv-at d s t o i k turns = Inv-but d s t o (λ c _. i.classes c) k turns

pub enqueue-OnlyAt :
    (call : ℕ) (class : TrafficClass) (kind : ℕ) (payload : List ℕ) (s : Scheduler)
    → OnlyAt class s (enqueue call class kind payload s)
unfolding enqueue
enqueue-OnlyAt call class kind payload s = record {
  same_queue = λ c n. rw n;
  same_bytes = λ c n. rw n;
  same_waiters = λ c n. refl;
  same_active = refl;
  same_terminal = refl;
}
