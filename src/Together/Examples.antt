-- ===== src/Together/Examples.antt =====
-- Concrete ranges to recompute.
use littleorbit.Prelude.{ℕ, ◌*◌, List, [], ◌∷◌}

abbrev hour : ℕ
hour = 3_600_000_000

abbrev changed : List ℕ
changed = 30 * hour ∷ 27 * hour ∷ 28 * hour ∷ []
