-- ===== src/Queue/Examples.antt =====
-- Concrete runs of the queue of shared-GPU work.
use mathlib.Core.List.{Memᴰ}
use littleorbit.Prelude.{
  ℕ, ◌+◌, ◌*◌, ◌≡◌, ◌≢◌, ◌≤◌, ◌<◌, refl, true, false, none, some, List, [], ◌∷◌, arith,
}
use littleorbit.Queue.{
  WorkKind, AiWorkItem, AiWorkLease, Claim, new_item, is_waiting, claimed, lease_of, claim_due_work,
  heartbeat_work, complete_work, retry_work, lease_is_current, insert_new,
}
use littleorbit.Queue.Claims.{IsFirst, Takes, claim_due_work-IsFirst, claim_due_work_fences}
use littleorbit.Queue.Tombstones.{Step, Steps}
use littleorbit.Queue.Tombstones.Final.{complete_work_final}
use littleorbit.Queue.Schedule.{
  latest_due_date, weekday_of, wall_clock, microseconds_of_hour, Settings, Surroundings,
  enqueue_due_weekly_work,
}
use littleorbit.Queue.Schedule.Enqueues.{latest_due_date_lem, enqueue_due_weekly_work_idem}

abbrev first : AiWorkItem
first = new_item 4 WorkKind.admin_generation 10 (some 10)

abbrev second : AiWorkItem
second = new_item 5 WorkKind.weekly_learning 20 (some 20)

abbrev items : List AiWorkItem
items = second ∷ first ∷ []

abbrev claim_at : ℕ → ℕ → Claim
claim_at now token = record {
  now = now;
  stale_after = 50;
  minimum_gap = 30;
  token = token;
  locked = λ k. false;
}

abbrev lease : AiWorkLease
lease = lease_of 77 first

abbrev items_claimed : List AiWorkItem
items_claimed = second ∷ claimed 100 77 first ∷ []

-- The lease that a worker held on the same row before.
abbrev old : AiWorkLease
old = lease_of 66 first

claim_due_work-IsFirst_example :
    (r : AiWorkItem) × Memᴰ r items
    × IsFirst (λ k. false) r items
    × (is_waiting (λ k. false) r ≡ true)
    × Takes (claim_at 100 77) items lease items_claimed r
unfolding claim_due_work
claim_due_work-IsFirst_example =
    claim_due_work-IsFirst (claim_at 100 77) items items_claimed lease refl

claim_due_work_fences_example :
    (lease_is_current old items_claimed ≡ false)
    × (heartbeat_work old 110 items_claimed ≡ (false, items_claimed))
    × (complete_work old 110 items_claimed ≡ (false, items_claimed))
    × (retry_work old 110 60 items_claimed ≡ (false, items_claimed))
unfolding claim_due_work
claim_due_work_fences_example =
    claim_due_work_fences (claim_at 100 77) items items_claimed old lease 110 60 refl refl
      (λ e. omega (arith, e))

-- The row with the lease is completed; the other is claimed after the gap.
abbrev items_done : List AiWorkItem
items_done =
    second
    ∷ record first { next_attempt_at = none; heartbeat_at = some 110; attempt_count = 1 }
    ∷ []

complete_work_final_example : second.id ≢ lease.id
unfolding claim_due_work complete_work insert_new littleorbit.Queue.Tombstones.has_id
complete_work_final_example =
    complete_work_final lease (lease_of 88 second) 110 (claim_at 200 88) items_claimed items_done
      items_done
      (claimed 200 88 second
        ∷ record first { next_attempt_at = none; heartbeat_at = some 110; attempt_count = 1 }
        ∷ [])
      (refl, (refl, tt)) refl
      (Steps.next items_done items_done items_done (Step.enqueue first items_done)
        (Steps.done items_done))
      refl

-- 28 November 2026 is a Saturday.
latest_due_date_lem_example :
    let due = latest_due_date 739_947 5_000 5 3 in
    (weekday_of due ≡ 5)
    × (wall_clock due (3 * microseconds_of_hour) ≤ wall_clock 739_947 5_000)
    × (wall_clock 739_947 5_000 < wall_clock (due + 7) (3 * microseconds_of_hour))
latest_due_date_lem_example =
    latest_due_date_lem 739_947 5_000 5 3 (omega arith) (omega arith) (omega arith) (omega arith)

abbrev settings : Settings
settings = record { ai_learning_local_hour = 3; ai_generation_local_hour = 4 }

abbrev surroundings : ℕ → Surroundings
surroundings k = record {
  local_date = λ t. 739_947;
  local_time = λ t. t;
  scheduled_instant = λ d h. d + h;
  run_ended = λ d. false;
  learning_id = k;
  generation_id = k + 1;
}

enqueue_due_weekly_work_idem_example :
    enqueue_due_weekly_work
      (surroundings 9)
      settings
      60
      (enqueue_due_weekly_work (surroundings 7) settings 50 items)
    ≡ enqueue_due_weekly_work (surroundings 7) settings 50 items
unfolding latest_due_date insert_new littleorbit.Queue.Tombstones.has_id
enqueue_due_weekly_work_idem_example =
    enqueue_due_weekly_work_idem (surroundings 7) (surroundings 9) settings 50 60 items refl refl
      refl refl
