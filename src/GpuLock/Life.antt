-- ===== src/GpuLock/Life.antt =====
-- The laws of a GpuFileLock of gpu_coordination.py over all sequences of calls.
use littleorbit.Prelude.{◌≡◌, refl, Bool, true, false, not, ◌&&◌, ◌||◌, List, [], ◌∷◌, arith}
use littleorbit.GpuLock.{
  GpuFileLock, Call, acquired, returns, quarantine, release, require_verified_release,
  verify_release, run, after, run_all,
}

-- The lock is held exactly until its release, a quarantined lock is retained, and no lock is both
-- released and quarantined.
abbrev pub IsSound : GpuFileLock → Type 0
IsSound l =
    (l.locked ≡ not l.released)
    × (l.retained ≡ l.quarantined)
    × ((l.released && l.quarantined) ≡ false)

run-IsSound : (c : Call) (l : GpuFileLock) → IsSound l → IsSound (after (run c l) l)
unfolding run release quarantine require_verified_release verify_release
run-IsSound Call.call_release l h = ground arith
run-IsSound Call.call_quarantine l h = ground arith
run-IsSound Call.call_require_verified_release l h = ground arith
run-IsSound Call.call_verify_release l h = ground arith

run_all-IsSound_from : (cs : List Call) (l : GpuFileLock) → IsSound l → IsSound (run_all cs l)
unfolding run_all
run_all-IsSound_from [] l h = h
run_all-IsSound_from (c ∷ cs) l h = run_all-IsSound_from cs (after (run c l) l) (run-IsSound c l h)

-- Whatever a holder calls on an acquired lock, the descriptor is locked exactly until the release, it
-- is retained exactly if quarantined, and no lock is both released and quarantined.
pub run_all-IsSound : (cs : List Call) → IsSound (run_all cs acquired)
run_all-IsSound cs = run_all-IsSound_from cs acquired (refl, refl, refl)

abbrev pub is_verify : Call → Bool
is_verify Call.call_verify_release = true
is_verify c = false

abbrev pub verifies : List Call → Bool
verifies [] = false
verifies (c ∷ cs) = is_verify c || verifies cs

-- The descriptor is locked, and a release would only quarantine it.
abbrev IsHeld : GpuFileLock → Type 0
IsHeld l = (l.locked ≡ true) × ((l.release_verification_pending || l.quarantined) ≡ true)

run-IsHeld :
    (c : Call) (l : GpuFileLock) → is_verify c ≡ false → IsHeld l → IsHeld (after (run c l) l)
unfolding run release quarantine require_verified_release
run-IsHeld Call.call_release l n h = ground arith
run-IsHeld Call.call_quarantine l n h = ground arith
run-IsHeld Call.call_require_verified_release l n h = ground arith
run-IsHeld Call.call_verify_release l n h = absurd (ground arith)

run_all-IsHeld :
    (cs : List Call) (l : GpuFileLock) → verifies cs ≡ false → IsHeld l → IsHeld (run_all cs l)
unfolding run_all
run_all-IsHeld [] l n h = h
run_all-IsHeld (c ∷ cs) l n h =
    run_all-IsHeld cs (after (run c l) l) (ground arith) (run-IsHeld c l (ground arith) h)

-- Once cleanup verification is armed on a locked descriptor, no sequence of calls without a verification gives the GPU up:
-- the descriptor stays locked, also through releases.
pub require_verified_release_holds :
    (cs : List Call) (l m : GpuFileLock)
    → l.locked ≡ true
    → require_verified_release l ≡ returns m
    → verifies cs ≡ false
    → (run_all cs m).locked ≡ true
unfolding require_verified_release
require_verified_release_holds cs l m k h n =
    let held : IsHeld m = ground arith in (run_all-IsHeld cs m n held).0
