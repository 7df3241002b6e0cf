-- ===== src/Scheduler/Admitted.antt =====
-- The admission of waiters, and the steps that go through it, keep the scheduler's invariant.
use share_bridge.Prelude.{
  ℕ, ◌+◌, ◌≡◌, refl, subst, ◌∙◌, inl, inr, true, false, List, [], ◌∷◌, ◌++◌, Option, none, some,
  arith, leb, length, ◌=?◌, same_refl, Bool-cases, Option-cases, ◌&&◌,
}
use share_bridge.Lane.{TrafficClass, class_key}
use share_bridge.Scheduler.State.{Scheduler, Waiter, SendError, put, class_cap, is_empty}
use share_bridge.Scheduler.Admission.{enqueue, cap_or_zero, admit_loop, admit_waiters, resolve}
use share_bridge.Scheduler.Steps.{validate, admit_or_wait, send_locked, send}
use share_bridge.Scheduler.Turns.{OnTurn}
use share_bridge.Scheduler.Invariant.{
  Fits, AllWaiters, Blocked, QueueOk, ClassOk, Inv, AllWaiters-append, enqueue-QueueOk, OnlyAt,
  OnlyAt-refl, OnlyAt-trans, Inv-at, Inv-but, enqueue-OnlyAt,
}

-- What the admission loop leaves behind, for the waiters `left`.
pub record Admitted (c : TrafficClass) (s t : Scheduler) (left : List Waiter) : Type 0 where
  pub only : OnlyAt c s t
  pub queue : QueueOk c (t.queues c) (t.bytes c) t.active
  pub waiting : AllWaiters c left
  pub blocked : Blocked (cap_or_zero c) (t.bytes c) left
  pub choice : t.choice ≡ s.choice
  pub waiters : t.admission_waiters ≡ s.admission_waiters

admit_loop-Admitted :
    (c : TrafficClass) (ws : List Waiter) (s : Scheduler)
    → QueueOk c (s.queues c) (s.bytes c) s.active
    → AllWaiters c ws
    → Admitted c s (admit_loop c ws s).1 (admit_loop c ws s).0
unfolding admit_loop
admit_loop-Admitted c [] s q a = record {
  only = OnlyAt-refl c s;
  queue = q;
  waiting = tt;
  blocked = tt;
  choice = refl;
  waiters = refl;
}
admit_loop-Admitted c (w ∷ ws) s q a =
    elim (Bool-cases (leb (s.bytes c + length w.payload) (cap_or_zero c))) [
      | inr e ↦
          rw (e, admit_loop)
            (record {
              only = OnlyAt-refl c s;
              queue = q;
              waiting = a;
              blocked = ground arith;
              choice = refl;
              waiters = refl;
            })
      | inl e ↦
          let s' = enqueue w.call w.class w.kind w.payload s in
          let ih =
            admit_loop-Admitted c ws s'
              (enqueue-QueueOk w.call c w.class w.kind w.payload s a.0 (ground arith) q) a.1 in
          rw (e, admit_loop)
            (record {
              only =
                  OnlyAt-trans
                    (subst (λ d. OnlyAt d s s') a.0.own
                      (enqueue-OnlyAt w.call w.class w.kind w.payload s))
                    ih.only;
              queue = ih.queue;
              waiting = ih.waiting;
              blocked = ih.blocked;
              choice = ih.choice ∙ unfold enqueue in refl;
              waiters = ih.waiters ∙ unfold enqueue in refl;
            })
    ]

-- Admission keeps the class good, and leaves a first waiter only if it does not fit.
pub admit_waiters-ClassOk :
    (c : TrafficClass) (s : Scheduler)
    → QueueOk c (s.queues c) (s.bytes c) s.active
    → AllWaiters c (s.admission_waiters c)
    → OnlyAt c s (admit_waiters c s) × ClassOk (admit_waiters c s) c
unfolding admit_waiters
admit_waiters-ClassOk c s q a =
    let p = admit_loop c (s.admission_waiters c) s in
    let h = admit_loop-Admitted c (s.admission_waiters c) s q a in
    (
      record {
        same_queue = h.only.same_queue;
        same_bytes = h.only.same_bytes;
        same_waiters = λ d n. rw n (h.only.same_waiters d n);
        same_active = h.only.same_active;
        same_terminal = h.only.same_terminal;
      },
      record {
        queue = h.queue;
        waiting = simp same_refl h.waiting;
        blocked = λ _. simp same_refl h.blocked;
      },
    )

choice-admit_waiters :
    (c : TrafficClass) (s : Scheduler)
    → QueueOk c (s.queues c) (s.bytes c) s.active
    → AllWaiters c (s.admission_waiters c)
    → (admit_waiters c s).choice ≡ s.choice
unfolding admit_waiters
choice-admit_waiters c s q a = (admit_loop-Admitted c (s.admission_waiters c) s q a).choice

-- Answers are no part of the invariant.
pub resolve-Inv : (call : ℕ) (e : Option SendError) (s : Scheduler) → Inv s → Inv (resolve call e s)
unfolding resolve
resolve-Inv call e s i = record {
  classes = λ c.
      let k = i.classes c in record { queue = k.queue; waiting = k.waiting; blocked = k.blocked };
  turns = i.turns;
}

-- Admission makes a class good that was good but for its first waiter.
pub admit_waiters-Inv :
    (d : TrafficClass) (s t : Scheduler)
    → OnlyAt d s t
    → ((c : TrafficClass) → (d =? c) ≡ false → ClassOk s c)
    → QueueOk d (t.queues d) (t.bytes d) t.active
    → AllWaiters d (t.admission_waiters d)
    → OnTurn t.choice
    → Inv (admit_waiters d t)
admit_waiters-Inv d s t o i q a turns =
    let (only, k) = admit_waiters-ClassOk d t q a in
    Inv-but d s (admit_waiters d t) (OnlyAt-trans o only) i k
      (rw (choice-admit_waiters d t q a) turns)

-- What Send lets through fits its class.
validate-Fits :
    (class : TrafficClass) (kind : ℕ) (payload : List ℕ) (ctx_err : Option SendError) (cap : ℕ)
    → validate class kind payload ctx_err ≡ none
    → class_cap class ≡ some cap
    → Fits class class payload × (cap_or_zero class ≡ cap)
unfolding validate cap_or_zero
validate-Fits class kind payload ctx_err cap v k =
    (record { own = refl; some_bytes = ground arith; small = ground arith }, ground arith)

Blocked-empty : (cap bytes : ℕ) (ws : List Waiter) → is_empty ws ≡ true → Blocked cap bytes ws
Blocked-empty cap bytes [] e = tt
Blocked-empty cap bytes (w ∷ ws) e = absurd (cc)

Blocked-append :
    (cap bytes : ℕ) (ws : List Waiter) (w : Waiter)
    → (is_empty ws && leb (bytes + length w.payload) cap) ≡ false
    → Blocked cap bytes ws
    → Blocked cap bytes (ws ++ w ∷ [])
Blocked-append cap bytes [] w e b = ground arith
Blocked-append cap bytes (v ∷ ws) w e b = b

admit_or_wait-Inv :
    (call : ℕ) (class : TrafficClass) (kind : ℕ) (payload : List ℕ) (s : Scheduler)
    → Fits class class payload
    → Inv s
    → Inv (admit_or_wait call class kind payload (cap_or_zero class) s)
unfolding admit_or_wait
admit_or_wait-Inv call class kind payload s f i =
    let k = i.classes class in
    let waiter : Waiter = record { call = call; class = class; kind = kind; payload = payload } in
    elim (Bool-cases (
      is_empty (s.admission_waiters class)
      && leb (s.bytes class + length payload) (cap_or_zero class))) [
        | inl e ↦
            rw (e, admit_or_wait)
              (Inv-at class s (enqueue call class kind payload s)
                (enqueue-OnlyAt call class kind payload s) i
                (record {
                  queue = enqueue-QueueOk call class class kind payload s f (ground arith) k.queue;
                  waiting = k.waiting;
                  blocked = λ _. Blocked-empty _ _ (s.admission_waiters class) (ground arith);
                })
                i.turns)
        | inr e ↦
            rw (e, admit_or_wait)
              (Inv-at class s
                (record s {
                  admission_waiters =
                      put class (s.admission_waiters class ++ waiter ∷ []) s.admission_waiters;
                })
                (record {
                  same_queue = λ c n. refl;
                  same_bytes = λ c n. refl;
                  same_waiters = λ c n. rw n;
                  same_active = refl;
                  same_terminal = refl;
                })
                i
                (record {
                  queue = k.queue;
                  waiting = simp same_refl (
                      AllWaiters-append class (s.admission_waiters class) (waiter ∷ []) k.waiting
                        (f, tt));
                  blocked = λ o. simp same_refl (
                      Blocked-append (cap_or_zero class) (s.bytes class) (s.admission_waiters class)
                        waiter e (k.blocked o));
                })
                i.turns)
      ]

pub send-Inv :
    (call : ℕ) (class : TrafficClass) (kind : ℕ) (payload : List ℕ) (ctx_err : Option SendError)
    (s : Scheduler)
    → Inv s
    → Inv (send call class kind payload ctx_err s)
unfolding send
send-Inv call class kind payload ctx_err s i =
    elim (Option-cases (validate class kind payload ctx_err)) [
      | inr (e, v) ↦ rw (v, send) (resolve-Inv call (some e) s i)
      | inl v ↦ elim (Option-cases (class_cap class)) [
        | inl k ↦ rw (v, k, send) i
        | inr (cap, k) ↦
            let (f, c) = validate-Fits class kind payload ctx_err cap v k in
            rw (v, k, send)
              (elim (Option-cases s.terminal) [
                | inr (e, t) ↦ rw (t, send_locked) (resolve-Inv call (some e) s i)
                | inl t ↦
                    rw (t, send_locked) (rw (← c) (admit_or_wait-Inv call class kind payload s f i))
              ])
      ]
    ]
