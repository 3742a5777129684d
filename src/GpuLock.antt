-- ===== src/GpuLock.antt =====
-- services/api/src/little_orbit_api/gpu_coordination.py: the life of one GpuFileLock, which holds the
-- host-wide file lock on the GPU. The lock of the operating system and the file are not modelled: what
-- is kept of them is whether the descriptor is still locked, and that the process retains it for good.
pub mod Life
mod Examples
use littleorbit.Prelude.{Bool, true, false, not, ◌||◌, if◌then◌else◌, List, [], ◌∷◌}

pub record GpuFileLock : Type 0 where
  pub released : Bool
  pub quarantined : Bool
  pub release_verification_pending : Bool
  -- the descriptor holds the lock of the operating system
  pub locked : Bool
  -- the handle is in _QUARANTINED_HANDLES
  pub retained : Bool

-- GpuFileLock(handle), as `try_acquire_gpu_lock` makes it of a locked handle
abbrev pub acquired : GpuFileLock
acquired = record {
  released = false;
  quarantined = false;
  release_verification_pending = false;
  locked = true;
  retained = false;
}

-- A method leaves the lock in a state, or raises RuntimeError and leaves it as it was.
pub data Outcome : Type 0 where
  returns : GpuFileLock → Outcome
  raises_runtime_error : Outcome

unfoldable pub quarantine : GpuFileLock → Outcome
quarantine l =
    if l.released
    then raises_runtime_error
    else if not l.quarantined
    then returns (record l { quarantined = true; retained = true })
    else returns l

unfoldable pub release : GpuFileLock → Outcome
unfolding quarantine
release l =
    if l.released || l.quarantined
    then returns l
    else if l.release_verification_pending
    then quarantine l
    else returns (record l { released = true; locked = false })

unfoldable pub require_verified_release : GpuFileLock → Outcome
require_verified_release l =
    if l.released || l.quarantined
    then raises_runtime_error
    else returns (record l { release_verification_pending = true })

unfoldable pub verify_release : GpuFileLock → Outcome
verify_release l =
    if l.released || l.quarantined
    then raises_runtime_error
    else returns (record l { release_verification_pending = false })

-- The calls that a holder can make.
pub data Call : Type 0 where
  call_release call_quarantine call_require_verified_release call_verify_release : Call

pub run : Call → GpuFileLock → Outcome
unfolding release quarantine require_verified_release verify_release
run Call.call_release l = release l
run Call.call_quarantine l = quarantine l
run Call.call_require_verified_release l = require_verified_release l
run Call.call_verify_release l = verify_release l

abbrev pub after : Outcome → GpuFileLock → GpuFileLock
after (returns m) l = m
after raises_runtime_error l = l

-- The state after a list of calls, whose exceptions the holder catches.
pub run_all : List Call → GpuFileLock → GpuFileLock
unfolding run
run_all [] l = l
run_all (c ∷ cs) l = run_all cs (after (run c l) l)
