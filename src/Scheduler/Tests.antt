-- ===== src/Scheduler/Tests.antt =====
-- The scheduler at concrete inputs.
use share_bridge.Prelude.{◌≡◌, refl, true, ◌||◌, List, [], ◌∷◌, ◌++◌, none}
use share_bridge.Lane.{control, thumbnail, bulk, kind_binary}
use share_bridge.Scheduler.State.{new_scheduler, set_queue}
use share_bridge.Scheduler.Select
use share_bridge.Scheduler.Select.{next, has_data, control_waiting}
use share_bridge.Scheduler.Steps.{Event, sends, takes, completes, run}
use share_bridge.Scheduler.Selected.{Chosen, next-Chosen}
use share_bridge.Scheduler.Progress.{finds, next-finds}
use share_bridge.Scheduler.Burst.{Picked, next-Picked}
use share_bridge.Scheduler.Invariant.{Inv}
use share_bridge.Scheduler.Pumped.{Inv-WellQueued, run_new-Inv}

abbrev arrivals : List Event
arrivals =
    sends 1 bulk kind_binary (7 ∷ []) none
    ∷ sends 2 thumbnail kind_binary (8 ∷ 9 ∷ []) none
    ∷ sends 3 control kind_binary (5 ∷ []) none
    ∷ []

-- Control goes first, then the thumbnail, then bulk.
order :
    (run
      (arrivals ++ takes ∷ completes none ∷ takes ∷ completes none ∷ takes ∷ completes none ∷ [])
      new_scheduler).resolved
    ≡ (1, none) ∷ (2, none) ∷ (3, none) ∷ []
unfolding run next set_queue new_scheduler Select.next_data Select.data_loop Select.data_round
    Select.peek_loop Select.peek_round
order = refl

run_new-Inv_example : Inv (run arrivals new_scheduler)
run_new-Inv_example = run_new-Inv arrivals

next-Chosen_example : Chosen (run arrivals new_scheduler) (next (run arrivals new_scheduler))
next-Chosen_example = next-Chosen (run arrivals new_scheduler)

next-finds_example : finds (next (run arrivals new_scheduler)) ≡ (
    control_waiting (run arrivals new_scheduler).queues
    || has_data (run arrivals new_scheduler).queues)
next-finds_example =
    next-finds (run arrivals new_scheduler)
      (Inv-WellQueued (run arrivals new_scheduler) (run_new-Inv arrivals))
      (run_new-Inv arrivals).turns

data_waits : has_data (run arrivals new_scheduler).queues ≡ true
unfolding run new_scheduler has_data
data_waits = refl

next-Picked_example : Picked (run arrivals new_scheduler) (next (run arrivals new_scheduler))
next-Picked_example =
    next-Picked (run arrivals new_scheduler)
      (Inv-WellQueued (run arrivals new_scheduler) (run_new-Inv arrivals))
      (run_new-Inv arrivals).turns data_waits
