-- ===== src/Runner/Work/Horizon.antt =====
-- What a generation of two weeks leaves in the table of runs.
use littleorbit.Prelude.{
  ℕ, ◌+◌, ◌≡◌, refl, subst, Bool, true, false, ◌&&◌, ◌||◌, ◌==◌, ltb, Option, none, some, List, [],
  ◌∷◌, ◌++◌, if◌then◌else◌, arith, Bool-cases, inl, inr,
}
use littleorbit.Queue.{AiWorkItem, AiWorkLease, lease_is_current, require_current_lease}
use littleorbit.Runner.Work.{
  Summary, AiRun, run_takeover_after, find_run, update_run, has_finished, is_running, started,
  Claimed, claims, expired, claim_row, claim_ai_run, is_finished_run, ai_run_is_finished, ended,
  finish_ai_run, Generated, gives, raises, status_of, Course, finish_horizon, horizon_of,
  run_generation_horizon, merge_generation_summaries,
}

find_run-append :
    (k : ℕ) (r : AiRun) (runs : List AiRun)
    → find_run k runs ≡ none
    → find_run k (runs ++ r ∷ []) ≡ (if r.run_key == k then some r else none)
unfolding find_run
find_run-append k r [] h = refl
find_run-append k r (x ∷ xs) h = ground (arith, find_run-append k r xs)

find_run-update_run :
    (k : ℕ) (f : AiRun → AiRun) (runs : List AiRun) (r : AiRun)
    → ((x : AiRun) → x.run_key ≡ k → (f x).run_key ≡ k)
    → find_run k runs ≡ some r
    → find_run k (update_run k f runs) ≡ some (f r)
unfolding find_run update_run
find_run-update_run k f [] r keeps h = absurd (ground arith)
find_run-update_run k f (x ∷ xs) r keeps h = elim (Bool-cases (x.run_key == k)) [
  | inl same ↦
      let e : x ≡ r = ground arith in
      let key : x.run_key ≡ k = ground arith in
      let kept = keeps x key in
      subst
        (λ (y : AiRun).
          find_run k ((if x.run_key == k then f x else x) ∷ update_run k f xs) ≡ some (f y))
        e (ground arith)
  | inr other ↦
      let rest = find_run-update_run k f xs r keeps (ground arith) in rw (other, other) rest
]

-- A run that was claimed is there, started at the time of the claim.
claim_row-found :
    (k now : ℕ) (o : Option AiRun) (runs next : List AiRun)
    → find_run k runs ≡ o
    → claim_row k now o runs ≡ claims true next
    → find_run k next ≡ some (started k now)
unfolding claim_row
claim_row-found k now none runs next e h =
    let same : runs ++ started k now ∷ [] ≡ next = ground arith in
    subst (λ x. find_run k x ≡ some (started k now)) same
      (rw (find_run-append k (started k now) runs e) (ground arith))
claim_row-found k now (some r) runs next e h =
    elim (Bool-cases (
      has_finished r.status
      || (is_running r.status && ltb now (r.started_at + run_takeover_after)))) [
        | inl kept ↦ absurd (ground arith)
        | inr free ↦
            let same : update_run k (λ x. started k now) runs ≡ next = ground arith in
            subst (λ x. find_run k x ≡ some (started k now)) same
              (find_run-update_run k (λ x. started k now) runs r (λ x i. refl) e)
      ]

-- The run of the week is finished.
IsFinished : ℕ → Bool × List AiRun → Type 0
IsFinished k x = x.0 ≡ true → ai_run_is_finished k x.1 ≡ true

status_of-finished : (x : Summary) → has_finished (status_of x) ≡ true
status_of-finished x = ground arith

finish_horizon-IsFinished :
    (k : ℕ) (lease : AiWorkLease) (c : Course) (g : Generated) (runs : List AiRun) (r : AiRun)
    → find_run k runs ≡ some r
    → require_current_lease (some lease) c.at_finish ≡ true
    → IsFinished k (finish_horizon k lease c g runs)
unfolding IsFinished finish_horizon finish_ai_run ai_run_is_finished
finish_horizon-IsFinished k lease c raises runs r e now = λ over. absurd (ground arith)
finish_horizon-IsFinished k lease c (gives first second) runs r e now =
    let sum = merge_generation_summaries first second in
    let end = ended (status_of sum) (some sum) c.finished_at in
    elim (Bool-cases (lease_is_current lease c.at_check)) [
      | inl current ↦
          rw (current, now)
            (λ over. rw (find_run-update_run k end runs r (λ x i. i) e) (status_of-finished sum))
      | inr lost ↦ rw lost (λ over. absurd (ground arith))
    ]

horizon_of-IsFinished :
    (k : ℕ) (lease : AiWorkLease) (c : Course) (g : Generated) (runs : List AiRun) (o : Claimed)
    → ((next : List AiRun) → o ≡ claims true next → find_run k next ≡ some (started k c.started_at))
    → require_current_lease (some lease) c.at_finish ≡ true
    → IsFinished k (horizon_of k lease c g runs o)
unfolding IsFinished horizon_of
horizon_of-IsFinished k lease c g runs expired there now = λ over. absurd (ground arith)
horizon_of-IsFinished k lease c g runs (claims false same) there now = λ over. over
horizon_of-IsFinished k lease c g runs (claims true next) there now =
    finish_horizon-IsFinished k lease c g next (started k c.started_at) (there next refl) now

claim_ai_run-found :
    (k now : ℕ) (lease : Option AiWorkLease) (items : List AiWorkItem) (runs next : List AiRun)
    → claim_ai_run k now lease items runs ≡ claims true next
    → find_run k next ≡ some (started k now)
unfolding claim_ai_run
claim_ai_run-found k now lease items runs next h =
    elim (Bool-cases (require_current_lease lease items)) [
      | inl current ↦ claim_row-found k now (find_run k runs) runs next refl (
          subst
            (λ b.
              (if b then claim_row k now (find_run k runs) runs else expired) ≡ claims true next)
            current h)
      | inr lost ↦ absurd (ground arith)
    ]

claim_row-finished :
    (k now : ℕ) (o : Option AiRun) (runs : List AiRun)
    → is_finished_run o ≡ true
    → claim_row k now o runs ≡ claims false runs
unfolding claim_row
claim_row-finished k now none runs h = absurd (ground arith)
claim_row-finished k now (some r) runs h = rw h refl

-- A generation of a finished week leaves the table as it is.
finished_again :
    (k : ℕ) (lease : AiWorkLease) (c : Course) (g : Generated) (runs : List AiRun)
    → ai_run_is_finished k runs ≡ true
    → (run_generation_horizon k lease c g runs).1 ≡ runs
unfolding run_generation_horizon claim_ai_run ai_run_is_finished horizon_of
finished_again k lease c g runs h =
    elim (Bool-cases (require_current_lease (some lease) c.at_start)) [
      | inl current ↦ rw (current, claim_row-finished k c.started_at (find_run k runs) runs h) refl
      | inr lost ↦ rw lost refl
    ]

-- Where a generation of two weeks returns, with its lease still current when it finishes its run, the
-- run is passed or fallen back, and no later generation for these weeks, by whatever lease, changes
-- the table of runs.
pub run_generation_horizon_once :
    (k : ℕ) (lease : AiWorkLease) (c : Course) (g : Generated) (runs : List AiRun)
    (later : AiWorkLease) (d : Course) (h : Generated)
    → require_current_lease (some lease) c.at_finish ≡ true
    → (run_generation_horizon k lease c g runs).0 ≡ true
    → (ai_run_is_finished k (run_generation_horizon k lease c g runs).1 ≡ true)
      × ((run_generation_horizon k later d h (run_generation_horizon k lease c g runs).1).1
          ≡ (run_generation_horizon k lease c g runs).1)
unfolding run_generation_horizon IsFinished
run_generation_horizon_once k lease c g runs later d h now over =
    let fin =
      horizon_of-IsFinished k lease c g runs
        (claim_ai_run k c.started_at (some lease) c.at_start runs)
        (claim_ai_run-found k c.started_at (some lease) c.at_start runs) now over in
    (fin, finished_again k later d h (run_generation_horizon k lease c g runs).1 fin)
