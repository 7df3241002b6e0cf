-- ===== src/Hub/State.antt =====
-- The maps of signaling-server/internal/hub/hub.go. A connection is a number, and nil is 0. A pair is
-- replaced and never mutated, so it is a value. The write mutex of a connection is kept for its
-- presence only: the operations are run one at a time, each as a whole.
use share_bridge.Prelude.{
  ℕ, ◌==◌, Bool, List, [], ◌∷◌, String, Option, none, some, Map, lookup, insert, string_key,
  nat_key, if◌then◌else◌,
}

abbrev pub Conn : Type 0
Conn = ℕ

abbrev pub nil : Conn
nil = 0

pub record Pair : Type 0 where
  pub api_key_id : String
  pub agent_conn : Conn
  pub browser_conn : Conn

pub record BrowserOwner : Type 0 where
  pub api_key_id : String
  pub session_id : String
  pub agent_conn : Conn

pub record Hub : Type 0 where
  pub agents : Map String Conn
  pub codes : Map String String
  pub pairs : Map String Pair
  pub conn_browsers : Map String Conn
  pub browser_owners : Map String BrowserOwner
  pub conn_fails : Map String ℕ
  pub conn_immich_fails : Map String ℕ
  pub conn_writes : Map Conn (Unit {0})

unfoldable pub new_hub : Hub
new_hub = record {
  agents = [];
  codes = [];
  pairs = [];
  conn_browsers = [];
  browser_owners = [];
  conn_fails = [];
  conn_immich_fails = [];
  conn_writes = [];
}

pub data HubError : Type 0 where
  code_not_registered agent_not_connected browser_identity_required : HubError
  marshal_error write_error : HubError

-- encoding/json and the websocket library as the hub uses them: a message is encoded or refused, and
-- a write of encoded data to a connection succeeds or fails.
pub record Network (Msg : Type 0) (Bytes : Type 0) : Type 0 where
  pub marshal : Msg → Option Bytes
  pub accepts : Conn → Bytes → Bool
  pub error_message : String → Msg

-- What a call does to the network, in order.
pub data Output (Bytes : Type 0) : Type 0 where
  writes : Conn → Bytes → Output Bytes
  closes_now : Conn → Output Bytes
  closes : Conn → String → Output Bytes

-- The hub after a call that sends, what it sent, and the error that it returns.
pub record Sent (Bytes : Type 0) : Type 0 where
  pub hub : Hub
  pub outputs : List (Output Bytes)
  pub error : Option HubError

-- ensureWriteMuLocked
unfoldable pub ensure_write_mu : Conn → Hub → Hub
unfolding lookup insert
ensure_write_mu conn h = if conn == nil then h else elim (lookup conn h.conn_writes) [
  | none ↦ record h { conn_writes = insert conn tt h.conn_writes }
  | some m ↦ h
]

module _ {Msg Bytes : Type 0} (net : Network Msg Bytes) where
  unfoldable pub send : Hub → Conn → Msg → Sent Bytes
  unfolding ensure_write_mu
  send h conn msg = elim (net.marshal msg) [
    | none ↦ record { hub = h; outputs = []; error = some marshal_error }
    | some bytes ↦ record {
      hub = ensure_write_mu conn h;
      outputs = writes conn bytes ∷ [];
      error = if net.accepts conn bytes then none else some write_error;
    }
  ]

  -- A call that sends nothing.
  unfoldable pub silent : Hub → Option HubError → Sent Bytes
  silent h e = record { hub = h; outputs = []; error = e }
