-- ===== src/Runner/Endings.antt =====
-- How a run of ai_work_runner.py ends: for its lease and for the GPU lock.
use littleorbit.Prelude.{
  ◌≡◌, refl, Bool, true, false, not, ◌&&◌, ◌||◌, List, arith, Bool-cases, inl, inr, if◌then◌else◌,
}
use littleorbit.Queue.{AiWorkItem, AiWorkLease, complete_work}
use littleorbit.Queue.Releases.{any_holds, any_holds-retry_work, any_holds-complete_work}
use littleorbit.GpuLock.{
  GpuFileLock, returns, acquired, quarantine, release, require_verified_release, verify_release,
}
use littleorbit.Runner.{
  Settings, Probe, Events, Released, clean, unsafe, raises, release_gpu, cleanup_failed_work,
  Answer, Run, cleaned, completed, finish, is_finished, run_armed, run_lease, leave,
}

abbrev pub is_proved : Probe → Bool
is_proved Probe.proved = true
is_proved p = false

abbrev pub is_cancelled : Probe → Bool
is_cancelled Probe.cancelled = true
is_cancelled p = false

-- The lock of a run under way.
abbrev pub armed : Bool → GpuFileLock
armed true = record acquired { release_verification_pending = true }
armed false = acquired

-- What a release leaves: the lock as it was acquired, or quarantined where it is to be kept.
IsFit : Bool → Released → Type 0
IsFit keeps (clean l) = (l ≡ acquired) × (keeps ≡ false)
IsFit keeps (unsafe l) =
    (l.locked ≡ true) × (l.quarantined ≡ true) × (l.released ≡ false) × (keeps ≡ true)
IsFit keeps (raises c l) = (l ≡ acquired) × (keeps ≡ false)

-- Only an exception keeps the handler from giving the lease back.
abbrev is_answered : Released → Bool
is_answered (raises c l) = false
is_answered r = true

release_gpu-IsFit :
    (amd : Bool) (p : Probe) → IsFit (amd && not (is_proved p)) (release_gpu amd p (armed amd))
unfolding IsFit release_gpu quarantine verify_release
release_gpu-IsFit true Probe.proved = (refl, refl)
release_gpu-IsFit true Probe.unproved = (refl, refl, refl, refl)
release_gpu-IsFit true Probe.cancelled = (refl, refl, refl, refl)
release_gpu-IsFit false Probe.proved = (refl, refl)
release_gpu-IsFit false Probe.unproved = (refl, refl)
release_gpu-IsFit false Probe.cancelled = (refl, refl)

cleanup_failed_work-IsFit :
    (amd : Bool) (p : Probe)
    → IsFit (amd && not (is_proved p)) (cleanup_failed_work amd p (armed amd))
unfolding cleanup_failed_work release_gpu IsFit
cleanup_failed_work-IsFit true p = release_gpu-IsFit true p
cleanup_failed_work-IsFit false Probe.proved = (refl, refl)
cleanup_failed_work-IsFit false Probe.unproved = (refl, refl)
cleanup_failed_work-IsFit false Probe.cancelled = (refl, refl)

cleanup_failed_work-answered :
    (amd : Bool) (p : Probe)
    → (amd || not (is_cancelled p)) ≡ true
    → is_answered (cleanup_failed_work amd p (armed amd)) ≡ true
unfolding cleanup_failed_work release_gpu quarantine verify_release
cleanup_failed_work-answered true Probe.proved h = refl
cleanup_failed_work-answered true Probe.unproved h = refl
cleanup_failed_work-answered true Probe.cancelled h = refl
cleanup_failed_work-answered false Probe.proved h = refl
cleanup_failed_work-answered false Probe.unproved h = refl
cleanup_failed_work-answered false Probe.cancelled h = h

-- A run without its lease.
completed-frees :
    (s : Settings) (e : Events) (lease : AiWorkLease) (l : GpuFileLock) (x : Bool × List AiWorkItem)
    → any_holds lease x.1 ≡ false
    → any_holds lease (completed s e lease l x).items ≡ false
completed-frees s e lease l (true, items) h = h
completed-frees s e lease l (false, items) h =
    any_holds-retry_work lease e.retried_at s.retry_after items

finish-frees :
    (s : Settings) (e : Events) (lease : AiWorkLease) (items : List AiWorkItem) (r : Released)
    → any_holds lease (finish s e lease items r).items ≡ false
unfolding finish
finish-frees s e lease items (clean l) = elim (Bool-cases e.heartbeat_done) [
  | inl done ↦ rw done (any_holds-retry_work lease e.retried_at s.retry_after items)
  | inr beats ↦ rw beats (
      completed-frees s e lease l (complete_work lease e.completed_at items)
        (any_holds-complete_work lease e.completed_at items))
]
finish-frees s e lease items (unsafe l) =
    any_holds-retry_work lease e.retried_at s.retry_after items
finish-frees s e lease items (raises c l) =
    any_holds-retry_work lease e.retried_at s.retry_after items

cleaned-frees :
    (s : Settings) (e : Events) (lease : AiWorkLease) (items : List AiWorkItem) (r : Released)
    → is_answered r ≡ true
    → any_holds lease (cleaned s e lease items r).items ≡ false
cleaned-frees s e lease items (clean l) h =
    any_holds-retry_work lease e.retried_at s.retry_after items
cleaned-frees s e lease items (unsafe l) h =
    any_holds-retry_work lease e.retried_at s.retry_after items
cleaned-frees s e lease items (raises c l) h = absurd (ground arith)

-- The lock as the work runs under it.
pub require-armed :
    (amd : Bool)
    → (if amd then require_verified_release acquired else returns acquired) ≡ returns (armed amd)
unfolding require_verified_release
require-armed true = refl
require-armed false = refl

-- However the work on a lease ends, the run leaves no row under the lease: the row is completed or put
-- back for a retry. The one exception is a cancellation during the wait for an idle device elsewhere
-- than on AMD.
pub run_lease_ends :
    (s : Settings) (e : Events) (lease : AiWorkLease) (items : List AiWorkItem)
    → (s.is_amd || not (is_cancelled e.probe)) ≡ true
    → any_holds lease (run_lease s e lease items acquired).items ≡ false
unfolding run_lease run_armed
run_lease_ends s e lease items h =
    rw (require-armed s.is_amd) (elim (Bool-cases (is_finished e.ending)) [
      | inl over ↦
          rw over (
            finish-frees s e lease (e.during items) (release_gpu s.is_amd e.probe (armed s.is_amd)))
      | inr early ↦ rw early (
          cleaned-frees s e lease (e.during items)
            (cleanup_failed_work s.is_amd e.probe (armed s.is_amd))
            (cleanup_failed_work-answered s.is_amd e.probe h))
    ])

-- The lock after the `with` block of a run.
abbrev pub left : Run → GpuFileLock
unfolding quarantine release
left r = leave r.answer r.lock

leave-acquired :
    (a : Answer)
    → (leave a acquired).locked ≡ (elim a [ Answer.gpu_release_unsafe ↦ true | _ ↦ false ])
unfolding quarantine release
leave-acquired Answer.passed = refl
leave-acquired Answer.error = refl
leave-acquired Answer.gpu_release_unsafe = refl

leave-quarantined :
    (l : GpuFileLock)
    → l.locked ≡ true
    → l.quarantined ≡ true
    → l.released ≡ false
    → (leave Answer.gpu_release_unsafe l).locked ≡ true
unfolding quarantine release
leave-quarantined l h q r = ground arith

completed-lock :
    (s : Settings) (e : Events) (lease : AiWorkLease) (l : GpuFileLock) (x : Bool × List AiWorkItem)
    → l ≡ acquired
    → (left (completed s e lease l x)).locked ≡ false
unfolding release
completed-lock s e lease l (true, items) h = rw h refl
completed-lock s e lease l (false, items) h = rw h refl

finish-lock :
    (s : Settings) (e : Events) (lease : AiWorkLease) (items : List AiWorkItem) (keeps : Bool)
    (r : Released)
    → IsFit keeps r
    → (left (finish s e lease items r)).locked ≡ keeps
unfolding finish IsFit release
finish-lock s e lease items keeps (clean l) h = elim (Bool-cases e.heartbeat_done) [
  | inl done ↦ rw (done, h.0, h.1) refl
  | inr beats ↦
      rw (beats, h.1) (completed-lock s e lease l (complete_work lease e.completed_at items) h.0)
]
finish-lock s e lease items keeps (unsafe l) (a, b, c, d) = rw d (leave-quarantined l a b c)
finish-lock s e lease items keeps (raises c l) h = rw (h.0, h.1) refl

cleaned-lock :
    (s : Settings) (e : Events) (lease : AiWorkLease) (items : List AiWorkItem) (keeps : Bool)
    (r : Released)
    → IsFit keeps r
    → (left (cleaned s e lease items r)).locked ≡ keeps
unfolding IsFit release
cleaned-lock s e lease items keeps (clean l) h = rw (h.0, h.1) refl
cleaned-lock s e lease items keeps (unsafe l) (a, b, c, d) = rw d (leave-quarantined l a b c)
cleaned-lock s e lease items keeps (raises c l) h = rw (h.0, h.1) refl

-- However the work on a lease ends, the GPU lock is given up at the end of the cycle, except on AMD
-- where the device was not proved idle after the work: then it stays locked.
pub run_lease-lock :
    (s : Settings) (e : Events) (lease : AiWorkLease) (items : List AiWorkItem)
    → (left (run_lease s e lease items acquired)).locked ≡ s.is_amd && not (is_proved e.probe)
unfolding run_lease run_armed
run_lease-lock s e lease items =
    rw (require-armed s.is_amd) (elim (Bool-cases (is_finished e.ending)) [
      | inl over ↦ rw over (
          finish-lock s e lease (e.during items) _ (release_gpu s.is_amd e.probe (armed s.is_amd))
            (release_gpu-IsFit s.is_amd e.probe))
      | inr early ↦ rw early (
          cleaned-lock s e lease (e.during items) _
            (cleanup_failed_work s.is_amd e.probe (armed s.is_amd))
            (cleanup_failed_work-IsFit s.is_amd e.probe))
    ])
