-- ===== src/Runner/Work.antt =====
-- The work of ai_work_runner.py: which tasks each kind of item stands for, and the generation of two
-- weeks as one run of the table `ai_runs` (claim_ai_run, ai_run_is_finished and finish_ai_run of
-- quiz_learning_service.py). What the generator makes of a week is a parameter, and the kind
-- and the policy version of a run are left out.
pub mod Horizon
use littleorbit.Prelude.{
  ℕ, ◌+◌, ◌-◌, max, ◌≡◌, Bool, true, false, not, ◌&&◌, ◌||◌, ◌==◌, leb, ltb, Option, none, some,
  List, [], ◌∷◌, ◌++◌, if◌then◌else◌,
}
use littleorbit.Queue.{AiWorkItem, AiWorkLease, WorkKind, lease_is_current, require_current_lease}

-- What `_execute_work` calls, in its order.
pub data Task : Type 0 where
  learn_feedback_week : (start : ℕ) → Task
  prepare_week : (start : ℕ) → Task
  generation_horizon : (start : ℕ) → Task
  admin_job : Task

-- For the local date of the item's schedule, an ordinal far above 5.
pub tasks_of : WorkKind → ℕ → List Task
tasks_of WorkKind.weekly_learning date =
    learn_feedback_week (date - 5) ∷ prepare_week (date + 2) ∷ prepare_week (date + 9) ∷ []
tasks_of WorkKind.weekly_generation date = generation_horizon (date + 1) ∷ []
tasks_of kind date = admin_job ∷ []

-- `_execute_work`: nothing without a current lease
pub execute_work : AiWorkLease → List AiWorkItem → ℕ → Option (List Task)
unfolding lease_is_current tasks_of
execute_work lease items date =
    if lease_is_current lease items then some (tasks_of lease.kind date) else none

pub data RunStatus : Type 0 where
  running passed fallback failed : RunStatus

-- summary_json of a generation; a failed one has a reason in place of it
pub record Summary : Type 0 where
  pub generated_days : ℕ
  pub fallback_days : ℕ
  pub existing_days : ℕ
  pub context_stale_sources : ℕ

-- The run of one key; the keys `generate:...` stand for their weeks.
pub record AiRun : Type 0 where
  pub run_key : ℕ
  pub status : RunStatus
  pub summary : Option Summary
  pub started_at : ℕ
  pub finished_at : Option ℕ

-- RUN_TAKEOVER_AFTER
abbrev pub run_takeover_after : ℕ
run_takeover_after = 7_200_000_000

unfoldable pub find_run : ℕ → List AiRun → Option AiRun
find_run k [] = none
find_run k (r ∷ rs) = if r.run_key == k then some r else find_run k rs

unfoldable pub update_run : ℕ → (AiRun → AiRun) → List AiRun → List AiRun
update_run k f [] = []
update_run k f (r ∷ rs) = (if r.run_key == k then f r else r) ∷ update_run k f rs

abbrev pub has_finished : RunStatus → Bool
has_finished passed = true
has_finished fallback = true
has_finished s = false

abbrev pub is_running : RunStatus → Bool
is_running running = true
is_running s = false

abbrev pub started : ℕ → ℕ → AiRun
started k now = record {
  run_key = k;
  status = running;
  summary = none;
  started_at = now;
  finished_at = none;
}

-- A call that needs a current lease raises AiWorkLeaseExpired without one; other exceptions count as
-- the same.
pub data Claimed : Type 0 where
  claims : Bool → List AiRun → Claimed
  expired : Claimed

unfoldable pub claim_row : ℕ → ℕ → Option AiRun → List AiRun → Claimed
unfolding update_run
claim_row k now none runs = claims true (runs ++ started k now ∷ [])
claim_row k now (some r) runs =
    if has_finished r.status || (is_running r.status && ltb now (r.started_at + run_takeover_after))
    then claims false runs
    else claims true (update_run k (λ x. started k now) runs)

-- claim_ai_run
unfoldable pub claim_ai_run : ℕ → ℕ → Option AiWorkLease → List AiWorkItem → List AiRun → Claimed
unfolding claim_row find_run require_current_lease
claim_ai_run k now lease items runs =
    if require_current_lease lease items then claim_row k now (find_run k runs) runs else expired

abbrev pub is_finished_run : Option AiRun → Bool
is_finished_run none = false
is_finished_run (some r) = has_finished r.status

-- ai_run_is_finished
unfoldable pub ai_run_is_finished : ℕ → List AiRun → Bool
unfolding find_run
ai_run_is_finished k runs = is_finished_run (find_run k runs)

abbrev pub ended : RunStatus → Option Summary → ℕ → AiRun → AiRun
ended s summary now r = record r { status = s; summary = summary; finished_at = some now }

-- finish_ai_run, without the version of a policy
unfoldable pub finish_ai_run :
    ℕ
    → RunStatus
    → Option Summary
    → ℕ
    → Option AiWorkLease
    → List AiWorkItem
    → List AiRun
    → List AiRun
unfolding update_run require_current_lease
finish_ai_run k s summary now lease items runs =
    if require_current_lease lease items then update_run k (ended s summary now) runs else runs

-- _merge_generation_summaries
pub merge_generation_summaries : Summary → Summary → Summary
merge_generation_summaries first second = record {
  generated_days = first.generated_days + second.generated_days;
  fallback_days = first.fallback_days + second.fallback_days;
  existing_days = first.existing_days + second.existing_days;
  context_stale_sources = max first.context_stale_sources second.context_stale_sources;
}

-- What the generator gives for the two weeks, or its exception.
pub data Generated : Type 0 where
  gives : (first : Summary) → (second : Summary) → Generated
  raises : Generated

abbrev pub status_of : Summary → RunStatus
status_of x = if x.fallback_days == 0 && x.context_stale_sources == 0 then passed else fallback

-- The surroundings of `_run_generation_horizon`: the queue's table when it starts, when the generation
-- is over and when the run is finished, and the times of these calls.
pub record Course : Type 0 where
  pub at_start : List AiWorkItem
  pub at_check : List AiWorkItem
  pub at_finish : List AiWorkItem
  pub started_at : ℕ
  pub finished_at : ℕ

-- Whether `_run_generation_horizon` returns, and the runs afterwards.
unfoldable pub finish_horizon :
    ℕ → AiWorkLease → Course → Generated → List AiRun → Bool × List AiRun
unfolding finish_ai_run merge_generation_summaries lease_is_current
finish_horizon k lease c raises runs =
    (false, finish_ai_run k failed none c.finished_at (some lease) c.at_finish runs)
finish_horizon k lease c (gives first second) runs =
    let summary = merge_generation_summaries first second in
    if lease_is_current lease c.at_check
    then (
      true,
      finish_ai_run k (status_of summary) (some summary) c.finished_at (some lease) c.at_finish
          runs,
    )
    else (false, finish_ai_run k failed none c.finished_at (some lease) c.at_finish runs)

unfoldable pub horizon_of :
    ℕ → AiWorkLease → Course → Generated → List AiRun → Claimed → Bool × List AiRun
unfolding ai_run_is_finished finish_horizon
horizon_of k lease c g runs expired = (false, runs)
horizon_of k lease c g runs (claims false same) = (ai_run_is_finished k same, same)
horizon_of k lease c g runs (claims true next) = finish_horizon k lease c g next

-- _run_generation_horizon
unfoldable pub run_generation_horizon :
    ℕ → AiWorkLease → Course → Generated → List AiRun → Bool × List AiRun
unfolding horizon_of claim_ai_run
run_generation_horizon k lease c g runs =
    horizon_of k lease c g runs (claim_ai_run k c.started_at (some lease) c.at_start runs)
