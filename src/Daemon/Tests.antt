-- ===== src/Daemon/Tests.antt =====
-- The theorems at concrete inputs.
use share_bridge.Prelude.{
  ◌≡◌, refl, inr, true, false, List, [], ◌∷◌, ◌++◌, none, some, lookup, string_key, ◌=?◌,
  if◌then◌else◌, arith,
}
use share_bridge.Daemon.Sessions.{
  Session, Daemon, Hmac, auth_ok, handle_knock, handle_join, Event, knocks, joins, revokes, run,
}
use share_bridge.Daemon.Nonces.{Refuses, join_once}
use share_bridge.Daemon.Admission.{MayEnter, join_only}
use share_bridge.Daemon.Waiting.{knock_then_join}

abbrev toy : Hmac
toy = record {
  sum = λ password nonce. if password =? "secret" then 1 ∷ [] else [];
  decode_string = λ s. if s =? "01" then some (1 ∷ []) else none;
}

abbrev files : Session
files = record {
  code = "c";
  share_type = "nextcloud";
  password = "secret";
  is_password_protected = true;
  relay_only = false;
  has_immich_client = false;
}

abbrev fresh : Daemon
fresh = record { sessions = ("c", files) ∷ []; nonces = []; closed = []; sent = []; created = [] }

abbrev others : List Event
others = knocks 20 (some "m") "other" "c" ∷ revokes "d" ∷ joins 21 "other" "c" "00" ∷ []

abbrev waiting : Daemon
waiting = run toy others (handle_knock 10 (some "n") "b" "c" fresh)

files_shared : lookup "c" fresh.sessions ≡ some files
unfolding lookup
files_shared = refl

knock_then_join_example :
    ((handle_join toy 60 "b" "c" "01" waiting).sent ≡ waiting.sent ++ auth_ok "b" "c" ∷ [])
    × (files.relay_only ≡ false
        → (handle_join toy 60 "b" "c" "01" waiting).created
          ≡ waiting.created ++ record { conn_id = "b"; session_code = "c" } ∷ [])
knock_then_join_example =
    knock_then_join toy "b" "c" "n" "01" 10 70 60 files fresh others files_shared (omega arith)
      (omega arith) ((refl, omega arith), (refl, (refl, tt))) (λ e. absurd (cc e)) (inr (inr refl))

abbrev spent : Daemon
spent = run toy others (handle_join toy 60 "b" "c" "ff" waiting)

still_shared : lookup "c" waiting.sessions ≡ some files
unfolding run lookup handle_knock
still_shared = refl

join_once_example : Refuses toy "b" spent (handle_join toy 61 "b" "c" "01" spent)
join_once_example =
    join_once toy "b" 60 61 "c" "c" "ff" "01" files waiting others still_shared
      (refl, (tt, (tt, tt)))

abbrev knocked : Daemon
knocked = record fresh { nonces = ("b", record { nonce = "n"; expires_at = 70 }) ∷ [] }

lets_in : (handle_join toy 60 "b" "c" "01" knocked).sent ≡ knocked.sent ++ auth_ok "b" "c" ∷ []
unfolding handle_join
lets_in = refl

join_only_example : MayEnter toy 60 "b" "c" "01" knocked
join_only_example = join_only toy 60 "b" "c" "01" knocked lets_in
