-- ===== src/Queue/Schedule/Enqueues.antt =====
-- The laws of latest_due_date and enqueue_due_weekly_work of ai_work_queue.py.
use littleorbit.Prelude.{
  ℕ, ◌+◌, ◌*◌, ◌≡◌, ◌≤◌, ◌<◌, refl, ap, true, false, ◌||◌, List, [], ◌∷◌, ◌++◌, ◌==◌, arith,
  Bool-cases, inl, inr,
}
use littleorbit.Queue.{AiWorkItem, insert_new, clashes, is_taken, is_weekly, kind_rank}
use littleorbit.Queue.Tombstones.{has_id}
use littleorbit.Queue.Schedule.{
  latest_due_date, weekday_of, wall_clock, microseconds_of_hour, microseconds_of_day, Settings,
  Surroundings, learning_item, generation_item, enqueue_due_weekly_work,
}

-- The date that latest_due_date gives has the weekday asked for, its hour has come by the wall clock,
-- and the same hour a week later has not.
pub latest_due_date_lem :
    (today time weekday hour : ℕ)
    → 14 ≤ today
    → time < microseconds_of_day
    → weekday < 7
    → hour < 24
    → let due = latest_due_date today time weekday hour in
      (weekday_of due ≡ weekday)
      × (wall_clock due (hour * microseconds_of_hour) ≤ wall_clock today time)
      × (wall_clock today time < wall_clock (due + 7) (hour * microseconds_of_hour))
unfolding latest_due_date
latest_due_date_lem today time weekday hour a b c d = ground arith

is_taken-append :
    (a : AiWorkItem) (items more : List AiWorkItem)
    → is_taken a (items ++ more) ≡ is_taken a items || is_taken a more
unfolding is_taken
is_taken-append a [] more = refl
is_taken-append a (r ∷ rs) more = ground (arith, is_taken-append a rs more)

is_taken-insert_new :
    (a b : AiWorkItem) (items : List AiWorkItem)
    → is_taken b items ≡ true
    → is_taken b (insert_new a items) ≡ true
unfolding insert_new
is_taken-insert_new a b items h = elim (Bool-cases (is_taken a items)) [
  | inl old ↦ rw old h
  | inr fresh ↦ rw fresh (ground (arith, is_taken-append b items (a ∷ [])))
]

-- The weekly rows `a` and `b` have one kind and time.
abbrev pub IsSameJob : AiWorkItem → AiWorkItem → Type 0
IsSameJob a b = (is_weekly a.kind ≡ true) × (a.kind ≡ b.kind) × (a.scheduled_at ≡ b.scheduled_at)

clashes-same :
    (a b r : AiWorkItem)
    → IsSameJob a b
    → (r.id == a.id) ≡ false
    → clashes a r ≡ true
    → clashes b r ≡ true
clashes-same a b r (w, k, s) other h = ground (arith, ap is_weekly k, ap kind_rank k)

clashes-itself : (a b : AiWorkItem) → IsSameJob a b → clashes b a ≡ true
clashes-itself a b (w, k, s) = ground (arith, ap is_weekly k, ap kind_rank k)

is_taken-same :
    (a b : AiWorkItem) (items : List AiWorkItem)
    → IsSameJob a b
    → has_id a.id items ≡ false
    → is_taken a items ≡ true
    → is_taken b items ≡ true
unfolding is_taken has_id
is_taken-same a b [] same fresh h = h
is_taken-same a b (r ∷ rs) same fresh h = elim (Bool-cases (clashes a r)) [
  | inl here ↦ rw (clashes-same a b r same (ground arith) here) refl
  | inr there ↦ ground (arith, is_taken-same a b rs same (ground arith) (ground arith))
]

is_taken-inserted :
    (a b : AiWorkItem) (items : List AiWorkItem)
    → IsSameJob a b
    → has_id a.id items ≡ false
    → is_taken b (insert_new a items) ≡ true
unfolding insert_new is_taken
is_taken-inserted a b items same fresh = elim (Bool-cases (is_taken a items)) [
  | inl old ↦ rw old (is_taken-same a b items same fresh old)
  | inr new ↦ rw new (ground (arith, is_taken-append b items (a ∷ []), clashes-itself a b same))
]

-- If the ids of a weekly pass were new to the table, a second pass for the same times, with whatever
-- ids and run states, inserts nothing.
pub enqueue_due_weekly_work_idem :
    (w v : Surroundings) (s : Settings) (now now' : ℕ) (items : List AiWorkItem)
    → (learning_item w s now).scheduled_at ≡ (learning_item v s now').scheduled_at
    → (generation_item w s now).scheduled_at ≡ (generation_item v s now').scheduled_at
    → has_id w.learning_id items ≡ false
    → has_id w.generation_id (insert_new (learning_item w s now) items) ≡ false
    → enqueue_due_weekly_work v s now' (enqueue_due_weekly_work w s now items)
      ≡ enqueue_due_weekly_work w s now items
unfolding enqueue_due_weekly_work insert_new
enqueue_due_weekly_work_idem w v s now now' items sl sg fl fg =
    let t = insert_new (learning_item w s now) items in
    let l = is_taken-insert_new (generation_item w s now) (learning_item v s now') t (
      is_taken-inserted (learning_item w s now) (learning_item v s now') items (refl, refl, sl)
        fl) in
    let g =
      is_taken-inserted (generation_item w s now) (generation_item v s now') t (refl, refl, sg)
        fg in
    rw l (rw g refl)
