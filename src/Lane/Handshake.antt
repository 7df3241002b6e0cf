-- ===== src/Lane/Handshake.antt =====
-- InstallHandshakeResponder of agent/internal/multilane/lane.go. A message is given by what
-- json.Unmarshal makes of it; whether SendText succeeds is the transport's choice for each message.
use share_bridge.Prelude.{
  ℕ, ◌+◌, ◌≡◌, refl, ◌⊎◌, inr, Bool, true, false, not, List, [], ◌∷◌, ◌++◌, String, Option, none,
  some, arith, ◌=?◌, string_key, if◌then◌else◌,
}
use text.Mathlib.TextEquality.{eq_iff}
use share_bridge.Prelude.Int.{ℤ, pos, same_int, same_int_iff}

abbrev pub protocol_version : ℤ
protocol_version = pos 2

pub record TransportHandshake : Type 0 where
  pub type : String
  pub version : ℤ

-- What is sent on the control lane.
pub data Reply : Type 0 where
  ready : ℤ → Reply
  expected_hello : Reply
  incompatible : ℤ → Reply

-- Which handler the control endpoint calls.
pub data Handler : Type 0 where
  no_handler responder : Handler

pub record Channels : Type 0 where
  pub handler : Handler
  pub fired : Bool
  pub sent : List Reply
  pub closes : ℕ
  pub ready_calls : ℕ

-- The set before the call. A nil set is left alone, so it has no state here.
abbrev pub fresh : Channels
fresh = record {
  handler = Handler.no_handler;
  fired = false;
  sent = [];
  closes = 0;
  ready_calls = 0;
}

pub close : Channels → Channels
close s = record s { closes = s.closes + 1 }

-- SendText records the message when the transport takes it.
pub send_text : Reply → Bool → Channels → Channels
send_text r takes s = if takes then record s { sent = s.sent ++ r ∷ [] } else s

-- The body of first.Do.
pub respond : Option TransportHandshake → Bool → Channels → Channels
unfolding close send_text
respond none takes s = close (send_text expected_hello takes s)
respond (some hello) takes s =
    if not (hello.type =? "transport_hello")
    then close (send_text expected_hello takes s)
    else if not (same_int hello.version protocol_version)
    then close (send_text (incompatible hello.version) takes s)
    else if not takes
    then close s
    else let sent = send_text (ready protocol_version) takes s in
      record sent { handler = Handler.no_handler; ready_calls = sent.ready_calls + 1 }

pub install : Bool → Channels → Channels
unfolding close
install has_control s = if has_control then record s { handler = Handler.responder } else close s

-- One control message.
pub deliver : Option TransportHandshake × Bool → Channels → Channels
unfolding respond
deliver (m, takes) s = elim s.handler [
  | Handler.no_handler ↦ s
  | Handler.responder ↦ if s.fired then s else respond m takes (record s { fired = true })
]

pub deliver_all : List (Option TransportHandshake × Bool) → Channels → Channels
deliver_all [] s = s
deliver_all (m ∷ ms) s = deliver_all ms (deliver m s)

-- A hello of the protocol's version.
abbrev pub IsHello : Option TransportHandshake → Type 0
IsHello m = m ≡ some (record { type = "transport_hello"; version = protocol_version })

-- The responder is done: a later message changes nothing.
abbrev IsSpent : Channels → Type 0
IsSpent s = (s.handler ≡ Handler.no_handler) ⊎ (s.fired ≡ true)

deliver_spent : (m : Option TransportHandshake × Bool) (s : Channels) → IsSpent s → deliver m s ≡ s
unfolding deliver
deliver_spent (m, takes) s h = ground arith

deliver_all_spent :
    (ms : List (Option TransportHandshake × Bool)) (s : Channels) → IsSpent s → deliver_all ms s ≡ s
unfolding deliver_all
deliver_all_spent [] s h = refl
deliver_all_spent (m ∷ ms) s h = ground (arith, deliver_spent m s h, deliver_all_spent ms s h)

deliver-IsSpent : (m : Option TransportHandshake × Bool) (s : Channels) → IsSpent (deliver m s)
unfolding deliver
deliver-IsSpent (none, takes) s = ground arith
deliver-IsSpent (some m, takes) s = ground arith

-- What the first message does, in a state `s` of the channels.
abbrev pub Outcome : Option TransportHandshake → Bool → Channels → Type 0
Outcome m takes s =
    (IsHello m
      × (takes ≡ true)
      × (s.ready_calls ≡ 1)
      × (s.closes ≡ 0)
      × (s.sent ≡ ready protocol_version ∷ []))
    ⊎ (¬ (IsHello m × (takes ≡ true)) × (s.ready_calls ≡ 0) × (s.closes ≡ 1))

deliver_first :
    (m : Option TransportHandshake) (takes : Bool)
    → Outcome m takes (deliver (m, takes) (install true fresh))
unfolding deliver install
deliver_first none takes = inr ((λ h. cc), ground arith, ground arith)
deliver_first (some hello) takes =
    ground (arith, eq_iff hello.type "transport_hello", same_int_iff hello.version protocol_version)

-- Only the first control message counts, whatever follows it. If it is a hello of this version and
-- the acknowledgement is sent, that acknowledgement is all that is sent, the set stays open, and
-- onReady is called once; otherwise onReady is never called and the set is closed once.
pub handshake-Outcome :
    (m : Option TransportHandshake) (takes : Bool) (ms : List (Option TransportHandshake × Bool))
    → Outcome m takes (deliver_all ((m, takes) ∷ ms) (install true fresh))
unfolding deliver_all
handshake-Outcome m takes ms =
    let first = deliver (m, takes) (install true fresh) in
    rw (deliver_all_spent ms first (deliver-IsSpent (m, takes) (install true fresh)))
      (deliver_first m takes)
