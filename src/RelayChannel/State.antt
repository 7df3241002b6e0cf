-- ===== src/RelayChannel/State.antt =====
-- The state of a SecureRelayChannel, its callbacks and its endpoints. A handler or a callback is a
-- number, and the calls of them are kept in order, as is what the websocket is told.
use share_bridge.Prelude.{
  ℕ, ◌-◌, ◌==◌, Bool, true, false, not, ◌||◌, List, [], ◌∷◌, ◌++◌, String, Option, none, some, Map,
  lookup, insert, nat_key, string_key, ◌=?◌, ltb, if◌then◌else◌, Result, ok, err, length,
}
use share_bridge.RelayFrame.{max_frame_payload}
use share_bridge.Lane.{
  lane_control, lane_media, lane_bulk, kind_text, kind_binary, TrafficClass, control,
  interactive_media, bulk, lane_for_class,
}
use share_bridge.Noise.Cipher.{CipherState}
use share_bridge.Scheduler.State.{Scheduler, new_scheduler}
use share_bridge.Scheduler.Steps
use share_bridge.Scheduler.Steps.{close}

pub record SecureRelayConfig (Priv : Type 0) : Type 0 where
  pub relay_url : String
  pub relay_jwt : String
  pub static_private : Option Priv

abbrev pub noise_aead_overhead_bytes : ℕ
noise_aead_overhead_bytes = 16

abbrev pub max_relay_payload_bytes : ℕ
max_relay_payload_bytes = max_frame_payload - 1 - noise_aead_overhead_bytes

-- A callback that is run when the channel closes: the owner's, or a listener's.
pub data Callback : Type 0 where
  owner listener : ℕ → Callback

-- What the websocket is told.
pub data Told : Type 0 where
  writes : List ℕ → Told
  closes_now : Told
  closes_policy closes_normal : String → Told

-- A message handler that was called, with its payload.
pub record Delivery : Type 0 where
  pub handler : ℕ
  pub payload : List ℕ

pub record Channel : Type 0 where
  pub has_conn : Bool
  pub send : Option CipherState
  pub recv : Option CipherState
  pub scheduler : Scheduler
  pub endpoints : Map ℕ (Option ℕ)
  pub closed : Bool
  pub on_open : Option ℕ
  pub on_close : Option ℕ
  pub close_listeners : List ℕ
  pub called : List Callback
  pub opened : List ℕ
  pub delivered : List Delivery
  pub told : List Told

pub data ChannelError : Type 0 where
  missing_config not_open unknown_class bad_lane frame_failed write_failed : ChannelError
  encrypt_failed read_failed trailing_bytes wrong_kind noise_failed split_panics dial_failed :
      ChannelError
  wrong_endpoint payload_too_large : ChannelError

unfoldable pub new_channel : Channel
unfolding new_scheduler insert
new_channel = record {
  has_conn = false;
  send = none;
  recv = none;
  scheduler = new_scheduler;
  endpoints = insert lane_bulk none (insert lane_media none (insert lane_control none []));
  closed = false;
  on_open = none;
  on_close = none;
  close_listeners = [];
  called = [];
  opened = [];
  delivered = [];
  told = [];
}

abbrev pub is_some {ℓ} : {A : Type ℓ} → Option A → Bool
is_some none = false
is_some (some a) = true

-- NewSecureRelayChannel
unfoldable pub new_secure_relay_channel :
    {Priv : Type 0} → SecureRelayConfig Priv → Result ChannelError Channel
unfolding new_channel
new_secure_relay_channel cfg =
    if cfg.relay_url =? "" || cfg.relay_jwt =? "" || not (is_some cfg.static_private)
    then err missing_config
    else ok new_channel

unfoldable pub set_on_open : Option ℕ → Channel → Channel
set_on_open handler ch = record ch { on_open = handler }

unfoldable pub set_on_close : Option ℕ → Channel → Channel
set_on_close handler ch = record ch { on_close = handler }

unfoldable pub add_on_close : Option ℕ → Channel → Channel
add_on_close none ch = ch
add_on_close (some handler) ch =
    if ch.closed
    then record ch { called = ch.called ++ listener handler ∷ [] }
    else record ch { close_listeners = ch.close_listeners ++ handler ∷ [] }

unfoldable pub owner_callback : Option ℕ → List Callback
owner_callback none = []
owner_callback (some handler) = owner handler ∷ []

unfoldable pub listener_callbacks : List ℕ → List Callback
listener_callbacks [] = []
listener_callbacks (h ∷ hs) = listener h ∷ listener_callbacks hs

-- notifyClose: only the first call runs the callbacks.
unfoldable pub notify_close : Channel → Channel
unfolding owner_callback listener_callbacks
notify_close ch = if ch.closed then ch else record ch {
  closed = true;
  called = ch.called ++ owner_callback ch.on_close ++ listener_callbacks ch.close_listeners;
}

unfoldable pub tell : Told → Channel → Channel
tell x ch = record ch { told = ch.told ++ x ∷ [] }

unfoldable pub tell_conn : Told → Channel → Channel
unfolding tell
tell_conn x ch = if ch.has_conn then tell x ch else ch

unfoldable pub abort_transport : Channel → Channel
unfolding notify_close tell_conn
abort_transport ch = notify_close (tell_conn closes_now ch)

unfoldable pub close_scheduler : Channel → Channel
unfolding close
close_scheduler ch = record ch { scheduler = close ch.scheduler }

-- Close
unfoldable pub close_channel : Channel → Channel
unfolding close_scheduler notify_close tell_conn
close_channel ch = notify_close (tell_conn (closes_normal "relay closed") (close_scheduler ch))

-- relayEndpoint.SetOnMessage, on an endpoint that is there.
unfoldable pub set_on_message : ℕ → Option ℕ → Channel → Channel
unfolding lookup insert
set_on_message lane handler ch = elim (lookup lane ch.endpoints) [
  | none ↦ ch
  | some old ↦ record ch { endpoints = insert lane handler ch.endpoints }
]

unfoldable pub handle : Option ℕ → List ℕ → Channel → Channel
handle none payload ch = ch
handle (some handler) payload ch = record ch {
  delivered = ch.delivered ++ record { handler = handler; payload = payload } ∷ [];
}

-- classForLane
unfoldable pub class_for_lane : ℕ → TrafficClass
class_for_lane lane =
    if lane == lane_media then interactive_media else if lane == lane_bulk then bulk else control

-- relayEndpoint.send up to the wait in Send, which the call with this number has entered.
unfoldable pub endpoint_send :
    ℕ → TrafficClass → ℕ → List ℕ → Channel → Option ChannelError × Channel
unfolding Steps.send
endpoint_send call class kind payload ch =
    if ltb max_relay_payload_bytes (length payload)
    then (some payload_too_large, ch)
    else (none, record ch { scheduler = Steps.send call class kind payload none ch.scheduler })

-- relayEndpoint.SendText, of the text's bytes.
unfoldable pub send_text : ℕ → ℕ → List ℕ → Channel → Option ChannelError × Channel
unfolding endpoint_send class_for_lane
send_text call lane text ch = endpoint_send call (class_for_lane lane) kind_text text ch

-- relayEndpoint.SendBinary
unfoldable pub send_binary : ℕ → ℕ → List ℕ → Channel → Option ChannelError × Channel
unfolding endpoint_send class_for_lane
send_binary call lane bytes ch = endpoint_send call (class_for_lane lane) kind_binary bytes ch

-- relayEndpoint.SendBinaryClass
unfoldable pub send_binary_class :
    ℕ → ℕ → TrafficClass → List ℕ → Channel → Option ChannelError × Channel
unfolding endpoint_send lane_for_class
send_binary_class call lane class bytes ch = elim (lane_for_class class) [
  | err e ↦ (some unknown_class, ch)
  | ok own ↦
      if not (own == lane)
      then (some wrong_endpoint, ch)
      else endpoint_send call class kind_binary bytes ch
]
