-- ===== src/Location/Minutes/Cover.antt =====
-- The segments into which the loop of `_split_minutes` of domain/location.py cuts its interval.
use littleorbit.Prelude.{
  ℕ, zero, suc, ◌+◌, ◌/◌, ◌%◌, ◌≤◌, ◌<◌, ◌≡◌, min, inl, inr, List, [], ◌∷◌, arith, ltb, Bool-cases,
  ltb→lt,
}
use littleorbit.Location.Types.{minute}
use littleorbit.Location.Minutes.{Segment, segments, rounds, floor_minute}

-- The segments follow one another from `cursor` to `end`, each within its own whole minute.
abbrev pub Covers : ℕ → ℕ → List Segment → Type 0
Covers cursor end [] = end ≤ cursor
Covers cursor end (s ∷ ss) =
    ((s.from ≡ cursor)
      × (cursor < s.until)
      × (s.bucket % minute ≡ 0)
      × (s.bucket ≤ s.from)
      × (s.until ≡ min end (s.bucket + minute)))
    × Covers s.until end ss

-- The loop runs to the end of the interval: the fuel is enough, and the segments cover the interval
-- without gap or overlap.
segments-Covers :
    (fuel cursor end : ℕ)
    → (cursor < end → end / minute < cursor / minute + fuel)
    → Covers cursor end (segments fuel cursor end)
unfolding segments
segments-Covers zero cursor end h = ground arith
segments-Covers (suc f) cursor end h = elim (Bool-cases (ltb cursor end)) [
  | inl more ↦
      let next = min end (floor_minute cursor + minute) in
      let bound = h (ltb→lt cursor end more) in
      let later : next < end → end / minute < next / minute + f = λ l. omega arith in
      ground (arith, segments-Covers f next end later)
  | inr done ↦ ground arith
]

-- The loop of `_split_minutes` runs to the end of the interval, and its segments cover the interval
-- without gap or overlap, each within one whole minute.
pub segments_cover :
    (start end : ℕ) → start ≤ end → Covers start end (segments (rounds start end) start end)
segments_cover start end h = segments-Covers (rounds start end) start end (λ l. omega arith)
