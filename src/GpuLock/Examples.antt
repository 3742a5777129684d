-- ===== src/GpuLock/Examples.antt =====
-- Concrete lives of a lock on the GPU.
use littleorbit.Prelude.{◌≡◌, refl, true, List, [], ◌∷◌}
use littleorbit.GpuLock.{GpuFileLock, Call, acquired, require_verified_release, run_all}
use littleorbit.GpuLock.Life.{require_verified_release_holds}

abbrev calls : List Call
calls = Call.call_quarantine ∷ Call.call_release ∷ []

abbrev armed : GpuFileLock
armed = record acquired { release_verification_pending = true }

require_verified_release_holds_example :
    (run_all (Call.call_release ∷ Call.call_release ∷ []) armed).locked ≡ true
unfolding require_verified_release
require_verified_release_holds_example =
    require_verified_release_holds (Call.call_release ∷ Call.call_release ∷ []) acquired armed refl
      refl refl
