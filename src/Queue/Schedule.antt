-- ===== src/Queue/Schedule.antt =====
-- The enqueueing of ai_work_queue.py. A date is its ordinal (1 is Monday, 1 January of year 1). The
-- time zone database is not modelled: the local date and time of an instant, and the instant of a
-- local date and hour, are parameters, as is the status of the run in the table `ai_runs`.
pub mod Enqueues
use littleorbit.Prelude.{
  ℕ, ◌+◌, ◌-◌, ◌*◌, ◌%◌, Bool, true, false, ◌&&◌, ◌||◌, Option, none, some, List, [], ◌∷◌, ltb, leb,
  if◌then◌else◌,
}
use littleorbit.Queue.{WorkKind, AiWorkItem, new_item, insert_new}

abbrev pub microseconds_of_hour : ℕ
microseconds_of_hour = 3_600_000_000

abbrev pub microseconds_of_day : ℕ
microseconds_of_day = 86_400_000_000

-- date.weekday(): Monday is 0
abbrev pub weekday_of : ℕ → ℕ
weekday_of ordinal = (ordinal + 6) % 7

abbrev pub wall_clock : ℕ → ℕ → ℕ
wall_clock date time = date * microseconds_of_day + time

-- `aware` is the local date `today` with the time of day `time`. Two aware times of one zone are
-- compared by their wall clocks.
unfoldable pub latest_due_date : ℕ → ℕ → ℕ → ℕ → ℕ
latest_due_date today time weekday hour =
    let candidate = today - (weekday_of today + 7 - weekday % 7) % 7 in
    if ltb (wall_clock today time) (wall_clock candidate (hour * microseconds_of_hour))
    then candidate - 7
    else candidate

pub record Settings : Type 0 where
  pub ai_learning_local_hour : ℕ
  pub ai_generation_local_hour : ℕ

-- What the service reads of the world: the zone, whether the generation run of a date has passed or
-- fallen back, and the two ids of uuid4.
pub record Surroundings : Type 0 where
  pub local_date : ℕ → ℕ
  pub local_time : ℕ → ℕ
  pub scheduled_instant : ℕ → ℕ → ℕ
  pub run_ended : ℕ → Bool
  pub learning_id : ℕ
  pub generation_id : ℕ

abbrev pub due_of : Surroundings → ℕ → ℕ → ℕ → ℕ
due_of w now weekday hour = latest_due_date (w.local_date now) (w.local_time now) weekday hour

abbrev pub learning_item : Surroundings → Settings → ℕ → AiWorkItem
learning_item w s now =
    let hour = s.ai_learning_local_hour in
    let scheduled = w.scheduled_instant (due_of w now 5 hour) hour in
    new_item w.learning_id WorkKind.weekly_learning scheduled (some scheduled)

abbrev pub generation_item : Surroundings → Settings → ℕ → AiWorkItem
generation_item w s now =
    let hour = s.ai_generation_local_hour in
    let due = due_of w now 6 hour in
    let scheduled = w.scheduled_instant due hour in
    new_item w.generation_id WorkKind.weekly_generation scheduled
      (if w.run_ended (due + 1) then none else some scheduled)

unfoldable pub enqueue_due_weekly_work :
    Surroundings → Settings → ℕ → List AiWorkItem → List AiWorkItem
unfolding insert_new latest_due_date
enqueue_due_weekly_work w s now items =
    insert_new (generation_item w s now) (insert_new (learning_item w s now) items)

pub data JobKind : Type 0 where
  learn_quizzes generate_quizzes regenerate_quizzes backup test_restore : JobKind

pub data JobStatus : Type 0 where
  pending running passed failed cancelled : JobStatus

pub record AdminJobRequest : Type 0 where
  pub id : ℕ
  pub kind : JobKind
  pub status : JobStatus
  pub started_at : Option ℕ
  pub created_at : ℕ

-- ADMIN_WORK_KINDS
abbrev pub admin_work_kind : JobKind → Option WorkKind
admin_work_kind JobKind.learn_quizzes = some WorkKind.admin_learning
admin_work_kind JobKind.generate_quizzes = some WorkKind.admin_generation
admin_work_kind JobKind.regenerate_quizzes = some WorkKind.admin_regeneration
admin_work_kind k = none

-- started_at is None or started_at <= now - stale_after
abbrev pub is_stale_start : ℕ → ℕ → Option ℕ → Bool
is_stale_start now stale_after none = true
is_stale_start now stale_after (some t) = leb (t + stale_after) now

abbrev pub is_open : ℕ → ℕ → AdminJobRequest → Bool
is_open now stale_after j = elim j.status [
  | JobStatus.pending ↦ true
  | JobStatus.running ↦ is_stale_start now stale_after j.started_at
  | _ ↦ false
]

-- One record of the loop: the query leaves out the kinds that are not in ADMIN_WORK_KINDS.
unfoldable pub enqueue_kind :
    ℕ → ℕ → AdminJobRequest → Option WorkKind → List AiWorkItem → List AiWorkItem
unfolding insert_new
enqueue_kind now stale_after j none items = items
enqueue_kind now stale_after j (some kind) items =
    if is_open now stale_after j
    then insert_new (new_item j.id kind j.created_at (some j.created_at)) items
    else items

unfoldable pub enqueue_job : ℕ → ℕ → AdminJobRequest → List AiWorkItem → List AiWorkItem
unfolding enqueue_kind
enqueue_job now stale_after j = enqueue_kind now stale_after j (admin_work_kind j.kind)

unfoldable pub enqueue_pending_admin_work :
    ℕ → ℕ → List AdminJobRequest → List AiWorkItem → List AiWorkItem
unfolding enqueue_job
enqueue_pending_admin_work now stale_after [] items = items
enqueue_pending_admin_work now stale_after (j ∷ js) items =
    enqueue_pending_admin_work now stale_after js (enqueue_job now stale_after j items)
