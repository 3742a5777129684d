-- ===== src/Runner.antt =====
-- services/api/src/little_orbit_api/ai_work_runner.py: one cycle of the runner, which takes work from the
-- queue under the GPU lock. The work itself, the language model and the device are parameters: what is
-- kept of them is how the wait for the work ended and what the probe of the device said.
pub mod Work
pub mod Endings
pub mod Completed
mod Examples
use littleorbit.Prelude.{
  ℕ, ◌≡◌, Bool, true, false, not, ◌&&◌, ◌||◌, Option, none, some, List, [], ◌∷◌, if◌then◌else◌,
}
use littleorbit.Queue.{
  AiWorkItem, AiWorkLease, Claim, claim_due_work, defer_due_work, complete_work, retry_work,
}
use littleorbit.Queue.Schedule
use littleorbit.Queue.Schedule.{
  Surroundings, AdminJobRequest, enqueue_due_weekly_work, enqueue_pending_admin_work,
}
use littleorbit.GpuLock.{
  GpuFileLock, Outcome, returns, raises_runtime_error, acquired, quarantine, release,
  require_verified_release, verify_release, after,
}

-- gpu_probe_backend == "amd-vulkan", gpu_verify_idle_processes, and the times of leases and retries
pub record Settings : Type 0 where
  pub is_amd : Bool
  pub verify_idle_processes : Bool
  pub stale_after : ℕ
  pub retry_after : ℕ

-- What the wait for an idle device comes to: a proof, an error or a refusal, or a cancellation.
pub data Probe : Type 0 where
  proved unproved cancelled : Probe

-- How the wait for the work and its heartbeat ends.
pub data Ending : Type 0 where
  finished failed heartbeat_ended timed_out stopped : Ending

-- What happens around the run of one lease; `during` is what the heartbeats and other transactions make
-- of the table while the work is under way. A cancellation is modelled in both waits, for the work and
-- for the idle device.
pub record Events : Type 0 where
  pub ending : Ending
  pub probe : Probe
  pub heartbeat_done : Bool
  pub during : List AiWorkItem → List AiWorkItem
  pub completed_at : ℕ
  pub retried_at : ℕ

-- `_release_gpu` returns, raises GpuReleaseUnsafe, or raises another exception, which may be the
-- CancelledError that `suppress(Exception)` lets through.
pub data Released : Type 0 where
  clean : GpuFileLock → Released
  unsafe : GpuFileLock → Released
  raises : (is_cancelled : Bool) → GpuFileLock → Released

-- Its handler on AMD.
abbrev pub kept : Outcome → GpuFileLock → Released
kept (returns m) l = unsafe m
kept raises_runtime_error l = raises false l

abbrev pub verified : Outcome → GpuFileLock → Released
verified (returns m) l = clean m
verified raises_runtime_error l = kept (quarantine l) l

unfoldable pub release_gpu : Bool → Probe → GpuFileLock → Released
unfolding quarantine verify_release
release_gpu true proved l = verified (verify_release l) l
release_gpu true unproved l = kept (quarantine l) l
release_gpu true cancelled l = kept (quarantine l) l
release_gpu false proved l = clean l
release_gpu false unproved l = raises false l
release_gpu false cancelled l = raises true l

-- suppress(Exception)
abbrev pub suppressed : Released → Released
suppressed (raises false l) = clean l
suppressed r = r

-- _cleanup_failed_work
unfoldable pub cleanup_failed_work : Bool → Probe → GpuFileLock → Released
unfolding release_gpu
cleanup_failed_work true p l = release_gpu true p l
cleanup_failed_work false p l = suppressed (release_gpu false p l)

-- What a run gives: its answer or exception, the table, and the lock.
pub data Answer : Type 0 where
  passed error gpu_release_unsafe : Answer

pub record Run : Type 0 where
  pub answer : Answer
  pub items : List AiWorkItem
  pub lock : GpuFileLock

abbrev pub retried : Settings → Events → AiWorkLease → Answer → List AiWorkItem → GpuFileLock → Run
retried s e lease a items l = record {
  answer = a;
  items = (retry_work lease e.retried_at s.retry_after items).1;
  lock = l;
}

-- The handler of `_run_lease` where no cleanup was attempted.
abbrev pub cleaned : Settings → Events → AiWorkLease → List AiWorkItem → Released → Run
cleaned s e lease items (clean l) = retried s e lease error items l
cleaned s e lease items (unsafe l) = retried s e lease gpu_release_unsafe items l
cleaned s e lease items (raises c l) = record { answer = error; items = items; lock = l }

abbrev pub completed : Settings → Events → AiWorkLease → GpuFileLock → Bool × List AiWorkItem → Run
completed s e lease l (true, items) = record { answer = passed; items = items; lock = l }
completed s e lease l (false, items) = retried s e lease error items l

-- After the work has finished and the release was attempted.
unfoldable pub finish : Settings → Events → AiWorkLease → List AiWorkItem → Released → Run
unfolding complete_work
finish s e lease items (clean l) =
    if e.heartbeat_done
    then retried s e lease error items l
    else completed s e lease l (complete_work lease e.completed_at items)
finish s e lease items (unsafe l) = retried s e lease gpu_release_unsafe items l
finish s e lease items (raises c l) = retried s e lease error items l

abbrev pub is_finished : Ending → Bool
is_finished finished = true
is_finished e = false

unfoldable pub run_armed :
    Settings → Events → AiWorkLease → List AiWorkItem → Outcome → GpuFileLock → Run
unfolding finish release_gpu cleanup_failed_work
run_armed s e lease items raises_runtime_error l = record {
  answer = error;
  items = items;
  lock = l;
}
run_armed s e lease items (returns m) l =
    if is_finished e.ending
    then finish s e lease (e.during items) (release_gpu s.is_amd e.probe m)
    else cleaned s e lease (e.during items) (cleanup_failed_work s.is_amd e.probe m)

-- _run_lease
unfoldable pub run_lease : Settings → Events → AiWorkLease → List AiWorkItem → GpuFileLock → Run
unfolding run_armed require_verified_release
run_lease s e lease items l =
    run_armed s e lease items (if s.is_amd then require_verified_release l else returns l) l

-- What `run_ai_work_cycle` answers or raises, the table, and the lock where it had one.
pub data Cycled : Type 0 where
  gpu_busy gpu_process_busy idle : Cycled
  ran : Answer → Cycled

pub record Cycle : Type 0 where
  pub result : Cycled
  pub items : List AiWorkItem
  pub lock : Option GpuFileLock

-- The end of the `with` block, where a GpuReleaseUnsafe has quarantined the lock.
abbrev pub leave : Answer → GpuFileLock → GpuFileLock
leave gpu_release_unsafe l = let m = after (quarantine l) l in after (release m) m
leave a l = after (release l) l

unfoldable pub run_claimed : Settings → Events → Option AiWorkLease × List AiWorkItem → Cycle
unfolding run_lease release
run_claimed s e (none, items) = record {
  result = idle;
  items = items;
  lock = some (after (release acquired) acquired);
}
run_claimed s e (some lease, items) =
    let r = run_lease s e lease items acquired in
    record { result = ran r.answer; items = r.items; lock = some (leave r.answer r.lock) }

-- What a cycle finds: the rows and the time, whether the lock is free and the device idle before work.
pub record Found : Type 0 where
  pub claim : Claim
  pub jobs : List AdminJobRequest
  pub is_lock_free : Bool
  pub is_idle : Bool

unfoldable pub run_queued : Settings → Events → Found → List AiWorkItem → Cycle
unfolding defer_due_work claim_due_work run_claimed release
run_queued s e f items =
    if not f.is_lock_free
    then record {
      result = gpu_busy;
      items = (defer_due_work f.claim.locked f.claim.now s.retry_after items).1;
      lock = none;
    }
    else if s.verify_idle_processes && not f.is_idle
    then record {
      result = gpu_process_busy;
      items = (defer_due_work f.claim.locked f.claim.now s.retry_after items).1;
      lock = some (after (release acquired) acquired);
    }
    else run_claimed s e (claim_due_work f.claim items)

-- run_ai_work_cycle
unfoldable pub run_ai_work_cycle :
    Surroundings → Schedule.Settings → Settings → Events → Found → List AiWorkItem → Cycle
unfolding run_queued enqueue_due_weekly_work enqueue_pending_admin_work
run_ai_work_cycle w schedule s e f items = run_queued s e f (
    enqueue_pending_admin_work f.claim.now s.stale_after f.jobs
      (enqueue_due_weekly_work w schedule f.claim.now items))
