-- ===== src/Transfer/Sharing.antt =====
-- Requests for downloads, their jobs and media operations, in any order.
use share_bridge.Prelude.{
  ℕ, zero, suc, if◌then◌else◌, Bool, List, [], ◌∷◌, String, Option, none, some, get_elem?, Result,
}
use share_bridge.Transfer.State.{
  Manager, new_manager, set_download_count, begin_media, begin_media_if_newer, finish_media,
}
use share_bridge.Transfer.Downloads.{
  StorageBackend, GalleryBackend, Paths, at_limit, refuse_at_limit, file_past_limit,
  asset_past_limit,
}
use share_bridge.Transfer.Albums.{Part, album_past_limit}
use share_bridge.Transfer.Streams.{Read}
use share_bridge.Transfer.Jobs.{Job, as_download, as_album, job_turn}

-- A request for a download that the dispatch of messages hands over. One for the album has whether the
-- backend has albums, and what its goroutine is going to be given.
pub data Request : Type 0 where
  file_request : Bool → Option StorageBackend → String → String → Request
  asset_request : Bool → Option GalleryBackend → String → String → String → Request
  album_download_request : Bool → Result String (List Part) → String → Request

unfoldable pub request_id_of : Request → String
request_id_of (file_request accepts client file_path request_id) = request_id
request_id_of (asset_request accepts gallery id quality request_id) = request_id
request_id_of (album_download_request has_albums answer request_id) = request_id

-- The manager, the jobs whose goroutines run, and the request that has passed its test of the limit
-- and has not asked for the slot yet: messages are handled one after another, so there is at most one.
pub record System : Type 0 where
  pub manager : Manager
  pub jobs : List Job
  pub pending : Option Request

pub data Event : Type 0 where
  arrives : Request → Event
  goes_on : Event
  turns : ℕ → Read → Event
  begins_media : String → String → ℕ → Event
  seeks : ℕ → String → String → ℕ → Event
  finishes_media : ℕ → Event

-- A new share that has been downloaded so often.
unfoldable pub new_system : ℕ → ℕ → System
unfolding new_manager set_download_count
new_system max_downloads count = record {
  manager = set_download_count count (new_manager max_downloads);
  jobs = [];
  pending = none;
}

-- A request's test of the limit.
unfoldable pub test_limit : Request → Option Request → System → System
unfolding at_limit refuse_at_limit request_id_of
test_limit q (some old) sys = sys
test_limit q none sys =
    if at_limit sys.manager
    then record sys { manager = refuse_at_limit (request_id_of q) sys.manager }
    else record sys { pending = some q }

unfoldable pub start_job : List Job → Option Job × Manager → System
start_job ss (none, m) = record { manager = m; jobs = ss; pending = none }
start_job ss (some s, m) = record { manager = m; jobs = s ∷ ss; pending = none }

-- The i-th job has made a turn.
unfoldable pub put_back : ℕ → Option Job → List Job → List Job
put_back i o [] = []
put_back zero none (x ∷ xs) = xs
put_back zero (some s) (x ∷ xs) = s ∷ xs
put_back (suc i) o (x ∷ xs) = x ∷ put_back i o xs

unfoldable pub turned : ℕ → List Job → Option Request → Option Job × Manager → System
unfolding put_back
turned i ss pending (o, m) = record { manager = m; jobs = put_back i o ss; pending = pending }

unfoldable pub turn_of : ℕ → Read → Option Job → System → System
unfolding job_turn turned
turn_of i r none sys = sys
turn_of i r (some s) sys = turned i sys.jobs sys.pending (job_turn r s sys.manager)

module _ (paths : Paths) where
  -- The rest of a request, up to its goroutine.
  unfoldable pub past_limit : Request → Manager → Option Job × Manager
  unfolding file_past_limit asset_past_limit album_past_limit as_download as_album
  past_limit (file_request accepts client file_path request_id) m =
      as_download (file_past_limit paths accepts client file_path request_id m)
  past_limit (asset_request accepts gallery id quality request_id) m =
      as_download (asset_past_limit accepts gallery id quality request_id m)
  past_limit (album_download_request has_albums answer request_id) m =
      as_album answer request_id (album_past_limit has_albums request_id m)

  unfoldable pub rest_of : Option Request → System → System
  unfolding past_limit start_job
  rest_of none sys = sys
  rest_of (some q) sys = start_job sys.jobs (past_limit q sys.manager)

  unfoldable pub step : Event → System → System
  unfolding test_limit rest_of turn_of begin_media begin_media_if_newer finish_media
  step (arrives q) sys = test_limit q sys.pending sys
  step goes_on sys = rest_of sys.pending sys
  step (turns i r) sys = turn_of i r (get_elem? sys.jobs i) sys
  step (begins_media id quality generation) sys = record sys {
    manager = (begin_media id quality generation sys.manager).1;
  }
  step (seeks parent id quality generation) sys = record sys {
    manager = (begin_media_if_newer parent id quality generation sys.manager).1;
  }
  step (finishes_media operation) sys = record sys { manager = finish_media operation sys.manager }

  unfoldable pub run : List Event → System → System
  unfolding step
  run [] sys = sys
  run (x ∷ xs) sys = run xs (step x sys)
