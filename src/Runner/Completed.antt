-- ===== src/Runner/Completed.antt =====
-- When a run of ai_work_runner.py completes its work item, and when it puts it back.
use littleorbit.Prelude.{
  ◌≡◌, refl, Bool, true, false, not, ◌&&◌, ◌||◌, List, if◌then◌else◌, arith, Bool-cases, inl, inr,
}
use littleorbit.Queue.{AiWorkItem, AiWorkLease, complete_work, retry_work}
use littleorbit.Queue.Releases.{any_holds, any_holds-complete_work, retry_work-free}
use littleorbit.GpuLock.{GpuFileLock, acquired, quarantine, verify_release}
use littleorbit.Runner.{
  Settings, Probe, Events, clean, release_gpu, cleanup_failed_work, Answer, Run, cleaned, completed,
  finish, is_finished, run_armed, run_lease,
}
use littleorbit.Runner.Endings.{is_proved, is_cancelled, armed, require-armed}

abbrev pub is_passed : Answer → Bool
is_passed Answer.passed = true
is_passed a = false

-- The work has finished, the device was proved idle after it, and the heartbeat still ran.
abbrev pub is_ready : Events → Bool
is_ready e = is_finished e.ending && (is_proved e.probe && not e.heartbeat_done)

-- A run that passes exactly if it is ready and its completion finds the row under the lease; otherwise,
-- where it is not ready, the row is put back.
abbrev IsOutcome : Settings → Events → AiWorkLease → List AiWorkItem → Bool → Run → Type 0
IsOutcome s e lease items ready r =
    (is_passed r.answer ≡ ready && (complete_work lease e.completed_at items).0)
    × (r.items ≡ (
        if ready
        then (complete_work lease e.completed_at items).1
        else (retry_work lease e.retried_at s.retry_after items).1))

module _ (s : Settings) (e : Events) (lease : AiWorkLease) where
  completed_lem :
      (l : GpuFileLock) (x : Bool × List AiWorkItem)
      → any_holds lease x.1 ≡ false
      → (is_passed (completed s e lease l x).answer ≡ x.0) × ((completed s e lease l x).items ≡ x.1)
  completed_lem l (true, items) h = (refl, refl)
  completed_lem l (false, items) h =
      (refl, retry_work-free lease e.retried_at s.retry_after items h)

  finish-clean :
      (items : List AiWorkItem) (l : GpuFileLock)
      → IsOutcome s e lease items (not e.heartbeat_done) (finish s e lease items (clean l))
  unfolding finish
  finish-clean items l = elim (Bool-cases e.heartbeat_done) [
    | inl over ↦ rw over (refl, refl)
    | inr beats ↦ rw beats (
        completed_lem l (complete_work lease e.completed_at items)
          (any_holds-complete_work lease e.completed_at items))
  ]

  finish-IsOutcome :
      (items : List AiWorkItem) (amd : Bool) (p : Probe)
      → IsOutcome s e lease items
          (is_proved p && not e.heartbeat_done)
          (finish s e lease items (release_gpu amd p (armed amd)))
  unfolding finish release_gpu quarantine verify_release
  finish-IsOutcome items true Probe.proved = finish-clean items acquired
  finish-IsOutcome items true Probe.unproved = (refl, refl)
  finish-IsOutcome items true Probe.cancelled = (refl, refl)
  finish-IsOutcome items false Probe.proved = finish-clean items acquired
  finish-IsOutcome items false Probe.unproved = (refl, refl)
  finish-IsOutcome items false Probe.cancelled = (refl, refl)

  cleaned-IsOutcome :
      (items : List AiWorkItem) (amd : Bool) (p : Probe)
      → (amd || not (is_cancelled p)) ≡ true
      → IsOutcome s e lease items false
          (cleaned s e lease items (cleanup_failed_work amd p (armed amd)))
  unfolding cleanup_failed_work release_gpu quarantine verify_release
  cleaned-IsOutcome items true Probe.proved h = (refl, refl)
  cleaned-IsOutcome items true Probe.unproved h = (refl, refl)
  cleaned-IsOutcome items true Probe.cancelled h = (refl, refl)
  cleaned-IsOutcome items false Probe.proved h = (refl, refl)
  cleaned-IsOutcome items false Probe.unproved h = (refl, refl)
  cleaned-IsOutcome items false Probe.cancelled h = absurd (ground arith)

-- Except for a cancellation during the wait for an idle device elsewhere than on AMD: a run passes
-- exactly if the work has finished, the device was proved idle after it, the heartbeat still ran, and
-- the completion finds one row under the lease. Where the first three hold, the table is what the
-- completion makes of the table that the work left; in every other case it is what the retry makes of
-- that table.
pub run_lease_completes :
    (s : Settings) (e : Events) (lease : AiWorkLease) (items : List AiWorkItem)
    → (s.is_amd || not (is_cancelled e.probe)) ≡ true
    → (is_passed (run_lease s e lease items acquired).answer
        ≡ is_ready e && (complete_work lease e.completed_at (e.during items)).0)
      × ((run_lease s e lease items acquired).items ≡ (
          if is_ready e
          then (complete_work lease e.completed_at (e.during items)).1
          else (retry_work lease e.retried_at s.retry_after (e.during items)).1))
unfolding run_lease run_armed
run_lease_completes s e lease items h =
    rw (require-armed s.is_amd) (elim (Bool-cases (is_finished e.ending)) [
      | inl over ↦ rw over (finish-IsOutcome s e lease (e.during items) s.is_amd e.probe)
      | inr early ↦ rw early (cleaned-IsOutcome s e lease (e.during items) s.is_amd e.probe h)
    ])
