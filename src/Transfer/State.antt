-- ===== src/Transfer/State.antt =====
-- The manager's state, and the operations of one lock section each. A context is the number of the
-- operation that made it, and `cancelled` has those that are cancelled. What is handed to an endpoint
-- is kept in order; whether the endpoint accepts it is an argument of the calls that look at it.
use share_bridge.Prelude.{
  ℕ, zero, suc, ◌+◌, ◌^◌, ◌%◌, ◌==◌, Bool, true, false, not, ◌&&◌, ◌||◌, List, [], ◌∷◌, ◌++◌,
  String, Option, none, some, leb, ◌=?◌, nat_key, string_key, if◌then◌else◌,
}
use share_bridge.Lane.{TrafficClass, interactive_media}

-- What goes out on the control lane, with the fields that vary.
pub data Message : Type 0 where
  error : String → String → String → Message
  operation_error : String → String → ℕ → String → Message
  file_header : String → ℕ → String → String → String → ℕ → Message
  preview_header : String → String → ℕ → Option ℕ → Option ℕ → String → ℕ → Message
  preview_end : String → ℕ → String → ℕ → ℕ → Message
  chunk_end : String → ℕ → ℕ → Message
  album_header : String → ℕ → String → ℕ → ℕ → ℕ → Message
  album_download_complete : String → ℕ → ℕ → Message

pub data Sent : Type 0 where
  text : Message → Sent
  binary : TrafficClass → List ℕ → Sent

pub data SendError : Type 0 where
  context_cancelled refused : SendError

pub record AlbumAck : Type 0 where
  pub part_index : ℕ
  pub operation_id : ℕ
  pub accepted : Bool

-- A batch is known by the operation with which it began.
pub record AlbumBatch : Type 0 where
  pub batch : ℕ
  pub request_id : String
  pub ack : Option AlbumAck

pub record Manager : Type 0 where
  pub max_downloads : ℕ
  pub downloads : ℕ
  pub operation_sequence : ℕ
  pub bulk_transfer : Bool
  pub bulk_operation : ℕ
  pub album_batch : Option AlbumBatch
  pub media_transfer : Bool
  pub media_operation : ℕ
  pub media_cancel : Option ℕ
  pub media_id : String
  pub media_quality : String
  pub current_generation : ℕ
  pub cancelled : List ℕ
  pub expired : ℕ
  pub completed : List ℕ
  pub sent : List Sent

-- NewManager and NewGalleryManager
unfoldable pub new_manager : ℕ → Manager
new_manager max_downloads = record {
  max_downloads = max_downloads;
  downloads = 0;
  operation_sequence = 0;
  bulk_transfer = false;
  bulk_operation = 0;
  album_batch = none;
  media_transfer = false;
  media_operation = 0;
  media_cancel = none;
  media_id = "";
  media_quality = "";
  current_generation = 0;
  cancelled = [];
  expired = 0;
  completed = [];
  sent = [];
}

unfoldable pub tell : Sent → Manager → Manager
tell x m = record m { sent = m.sent ++ x ∷ [] }

-- sendError
unfoldable pub send_error : String → String → String → Manager → Manager
unfolding tell
send_error scope request_id message m = tell (text (error scope request_id message)) m

-- sendOperationError
unfoldable pub send_operation_error : String → String → ℕ → String → Manager → Manager
unfolding tell
send_operation_error scope request_id operation message m =
    if operation == 0 then m else tell (text (operation_error scope request_id operation message)) m

-- The loop of nextOperationID, on fuel: each turn adds one to the uint64, and zero is passed over.
unfoldable pub next_loop : ℕ → ℕ → ℕ
next_loop zero sequence = sequence
next_loop (suc fuel) sequence =
    let operation = (sequence + 1) % 2 ^ 64 in
    let rest = next_loop fuel operation in if operation == 0 then rest else operation

unfoldable pub next_operation_id : Manager → ℕ × Manager
unfolding next_loop
next_operation_id m =
    let operation = next_loop 2 m.operation_sequence in
    (operation, record m { operation_sequence = operation })

unfoldable pub acquire_bulk : String → Manager → Option ℕ × Manager
unfolding next_operation_id send_error
acquire_bulk request_id m =
    if m.bulk_transfer then (none, send_error "bulk" request_id "transfer in progress" m) else (
      some (next_operation_id m).0,
      record (next_operation_id m).1 {
        bulk_operation = (next_operation_id m).0;
        bulk_transfer = true;
      },
    )

unfoldable pub release_bulk : ℕ → Manager → Manager
release_bulk operation m =
    if m.bulk_operation == operation
    then record m { bulk_operation = 0; bulk_transfer = false }
    else m

unfoldable pub advance_bulk_operation : ℕ → Manager → Option ℕ × Manager
unfolding next_operation_id
advance_bulk_operation current m =
    if not m.bulk_transfer || not (m.bulk_operation == current) then (none, m) else (
      some (next_operation_id m).0,
      record (next_operation_id m).1 { bulk_operation = (next_operation_id m).0 },
    )

unfoldable pub same_batch : ℕ → Option AlbumBatch → Bool
same_batch batch none = false
same_batch batch (some b) = b.batch == batch

unfoldable pub finish_album_batch : ℕ → ℕ → Manager → Manager
unfolding release_bulk same_batch
finish_album_batch batch operation m =
    release_bulk operation
      (if same_batch batch m.album_batch then record m { album_batch = none } else m)

unfoldable pub cancel_context : Option ℕ → Manager → Manager
cancel_context none m = m
cancel_context (some ctx) m = record m { cancelled = ctx ∷ m.cancelled }

unfoldable pub cancel_media : Manager → Manager
unfolding cancel_context
cancel_media m = cancel_context m.media_cancel m

-- beginMediaLocked: the new operation's number is also its context.
unfoldable pub begin_media : String → String → ℕ → Manager → ℕ × Manager
unfolding cancel_media next_operation_id
begin_media id quality generation m =
    let next = next_operation_id (cancel_media m) in
    (
      next.0,
      record next.1 {
        media_cancel = some next.0;
        media_operation = next.0;
        media_id = id;
        media_quality = quality;
        current_generation = generation;
        media_transfer = true;
      },
    )

unfoldable pub begin_media_if_newer : ℕ → String → String → ℕ → Manager → Option ℕ × Manager
unfolding begin_media
begin_media_if_newer parent id quality generation m =
    if not (m.media_operation == parent)
      || not (m.media_id =? id)
      || not (m.media_quality =? "video")
      || not (quality =? "video")
      || leb generation m.current_generation
    then (none, m)
    else (some (begin_media id quality generation m).0, (begin_media id quality generation m).1)

unfoldable pub is_current_media_operation : ℕ → String → String → Manager → Bool
is_current_media_operation operation id quality m =
    not (operation == 0)
    && m.media_operation == operation
    && m.media_id =? id
    && m.media_quality =? quality

unfoldable pub finish_media : ℕ → Manager → Manager
unfolding cancel_media
finish_media operation m =
    if m.media_operation == operation
    then record (cancel_media m) { media_cancel = none; media_transfer = false }
    else m

unfoldable pub is_cancelled : ℕ → List ℕ → Bool
is_cancelled ctx [] = false
is_cancelled ctx (c ∷ cs) = c == ctx || is_cancelled ctx cs

unfoldable pub hand_over : Bool → Sent → Manager → Option SendError × Manager
unfolding tell
hand_over true x m = (none, tell x m)
hand_over false x m = (some refused, m)

-- sendInteractiveMedia from the lock on, which is what decides; an operation's context is its own.
unfoldable pub send_interactive_media : Bool → ℕ → List ℕ → Manager → Option SendError × Manager
unfolding is_cancelled hand_over
send_interactive_media accepts operation bytes m =
    if is_cancelled operation m.cancelled
    then (some context_cancelled, m)
    else if not (m.media_operation == operation)
    then (some context_cancelled, m)
    else hand_over accepts (binary interactive_media bytes) m

unfoldable pub send_media_control_if_current :
    Bool → ℕ → Message → Manager → Option SendError × Manager
unfolding hand_over
send_media_control_if_current accepts operation message m =
    if not (m.media_operation == operation)
    then (some context_cancelled, m)
    else hand_over accepts (text message) m

unfoldable pub send_media_error_if_active : ℕ → String → String → Manager → Manager
unfolding send_operation_error
send_media_error_if_active operation request_id message m =
    if not (m.media_operation == operation)
    then m
    else send_operation_error "media" request_id operation message m

unfoldable pub send_bulk_error_if_active : ℕ → String → String → Manager → Manager
unfolding send_operation_error
send_bulk_error_if_active operation request_id message m =
    if not (m.bulk_operation == operation) || not m.bulk_transfer
    then m
    else send_operation_error "bulk" request_id operation message m

-- SetDownloadCount: the count is kept as the bit pattern of an int32.
unfoldable pub set_download_count : ℕ → Manager → Manager
set_download_count n m = record m { downloads = n % 2 ^ 32 }
