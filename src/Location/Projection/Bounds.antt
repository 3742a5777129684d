-- ===== src/Location/Projection/Bounds.antt =====
-- The bounds of `live_projection` of domain/location.py.
use littleorbit.Prelude.{
  ℕ, ◌+◌, ◌-◌, ◌*◌, ◌/◌, ◌≤◌, ◌<◌, ◌≡◌, refl, Bool, true, Option, none, some, List, [], ◌∷◌, ◌++◌,
  arith, Option-cases, inl, inr, ◌⊎◌, ap, subst, sym,
}
use littleorbit.Location.Types.{
  EvidenceAnchor, EvidenceState, CountingState, LiveProjection, max_counted_interval,
  max_mutual_evidence_age, second,
}
use littleorbit.Location.Timeline.{is_state}
use littleorbit.Location.Projection.{
  unavailable_projection, mutual_evidence_at, confirmed_for_projection, last_two, project,
  project_current, live_projection,
}

-- The evidence on which a phone ticks: two timely nearby anchors, samples of both phones at the
-- newer one, and sharing.
pub record Ticks (previous current : EvidenceAnchor) (at now : ℕ) (sharing : Bool) : Type 0 where
  pub shared : sharing ≡ true
  pub both : mutual_evidence_at current ≡ some at
  pub previous_nearby : previous.state ≡ EvidenceState.nearby
  pub current_nearby : current.state ≡ EvidenceState.nearby
  pub timely : current.recorded_at ≤ previous.recorded_at + max_counted_interval
  pub past : current.recorded_at ≤ now
  pub fresh : now < at + max_mutual_evidence_age

abbrev pub ticking : EvidenceAnchor → ℕ → ℕ → LiveProjection
ticking current at now = record {
  state = CountingState.nearby;
  anchor_at = some current.recorded_at;
  live_until = some (at + max_mutual_evidence_age);
  mutual_evidence_at = some at;
  provisional_seconds = (now - current.recorded_at) / second;
}

module _ (previous current : EvidenceAnchor) (now : ℕ) (sharing : Bool) where
  -- The projection ticks on such evidence, until five minutes after the older of the two samples.
  project-Ticks :
      (at : ℕ)
      → Ticks previous current at now sharing
      → project_current (some previous) (some current) now sharing ≡ ticking current at now
  unfolding project_current project confirmed_for_projection is_state
  project-Ticks at t =
      ground
        (arith, t.shared, t.both, t.previous_nearby, t.current_nearby, t.timely, t.past, t.fresh)

  project_nearby :
      (before : Option EvidenceAnchor)
      → (project_current before (some current) now sharing).state ≡ CountingState.nearby
      → (p : EvidenceAnchor) × (at : ℕ) × (before ≡ some p) × Ticks p current at now sharing
  unfolding project_current project confirmed_for_projection is_state unavailable_projection
  project_nearby none h = elim (Option-cases (mutual_evidence_at current)) [
    | inl one ↦ absurd (ground arith)
    | inr (at, both) ↦ absurd (ground arith)
  ]
  project_nearby (some p) h = elim (Option-cases (mutual_evidence_at current)) [
    | inl one ↦ absurd (ground arith)
    | inr (at, both) ↦ (p, at, refl, ground arith)
  ]

last_two-snoc :
    (before : Option EvidenceAnchor) (l : List EvidenceAnchor) (p c : EvidenceAnchor)
    → last_two before (l ++ p ∷ c ∷ []) ≡ (some p, some c)
unfolding last_two
last_two-snoc before [] p c = refl
last_two-snoc before (a ∷ []) p c = refl
last_two-snoc before (a ∷ b ∷ l) p c = last_two-snoc (some a) (b ∷ l) p c

last_two-split :
    (b : EvidenceAnchor) (l : List EvidenceAnchor) (p : Option EvidenceAnchor)
    (c : Option EvidenceAnchor)
    → last_two (some b) l ≡ (p, c)
    → (l ≡ [])
      ⊎ ((xs : List EvidenceAnchor) × (x y : EvidenceAnchor) × (p ≡ some x)
          × (c ≡ some y)
          × (b ∷ l ≡ xs ++ x ∷ y ∷ []))
unfolding last_two
last_two-split b [] p c h = inl refl
last_two-split b (a ∷ []) p c h = inr ([], b, a, ground arith, ground arith, refl)
last_two-split b (a ∷ e ∷ l) p c h = elim (last_two-split a (e ∷ l) p c h) [
  | inl none_left ↦ absurd cc
  | inr (xs, x, y, hp, hc, eq) ↦ inr (b ∷ xs, x, y, hp, hc, ap (◌∷◌ b) eq)
]

same_anchor : (x y : EvidenceAnchor) → some x ≡ some y → x ≡ y
same_anchor x y h = cc

bound :
    (c : EvidenceAnchor) (at : ℕ) {now : ℕ}
    → c.recorded_at ≤ now
    → c.recorded_at + (ticking c at now).provisional_seconds * second ≤ now
bound c at h = omega arith

no_current :
    (p : Option EvidenceAnchor) (now : ℕ) (sharing : Bool)
    → ¬ ((project_current p none now sharing).state ≡ CountingState.nearby)
unfolding project_current unavailable_projection
no_current p now sharing h = ground arith

-- What the display's ticking rests on and how far it goes.
abbrev pub TicksOn : List EvidenceAnchor → LiveProjection → ℕ → Bool → Type 0
TicksOn anchors r now sharing =
    (before : List EvidenceAnchor) × (p c : EvidenceAnchor) × (at : ℕ) × (anchors
      ≡ before ++ p ∷ c ∷ [])
    × Ticks p c at now sharing
    × (r ≡ ticking c at now)
    × (c.recorded_at + r.provisional_seconds * second ≤ now)
    × (now < at + max_mutual_evidence_age)

project_current-TicksOn :
    (anchors : List EvidenceAnchor) (p c : Option EvidenceAnchor) (now : ℕ) (sharing : Bool)
    → last_two none anchors ≡ (p, c)
    → (project_current p c now sharing).state ≡ CountingState.nearby
    → TicksOn anchors (project_current p c now sharing) now sharing
unfolding last_two
project_current-TicksOn [] p c now sharing e h =
    let none_left : none ≡ c = ap (λ (x : Option EvidenceAnchor × Option EvidenceAnchor). x.1) e in
    absurd (no_current p now sharing (rw none_left h))
project_current-TicksOn (a ∷ []) p c now sharing e h =
    let only_one : some a ≡ c = ap (λ (x : Option EvidenceAnchor × Option EvidenceAnchor). x.1) e in
    let none_before : none ≡ p =
      ap (λ (x : Option EvidenceAnchor × Option EvidenceAnchor). x.0) e in
    let (q, at, none_is, t) = project_nearby a a now sharing none (rw (only_one, none_before) h) in
    absurd cc
project_current-TicksOn (a ∷ b ∷ l) p c now sharing e h = elim (last_two-split a (b ∷ l) p c e) [
  | inl none_left ↦ absurd cc
  | inr (xs, x, y, hp, hc, eq) ↦
      let h' : (project_current (some x) (some y) now sharing).state ≡ CountingState.nearby =
        rw (hp, hc) at h in
      let (q, at, same, t) = project_nearby y y now sharing (some x) h' in
      let t' : Ticks x y at now sharing =
        subst (λ z. Ticks z y at now sharing) (sym (same_anchor x q same)) t in
      let r : project_current p c now sharing ≡ ticking y at now =
        rw (hp, hc) (project-Ticks x y now sharing at t') in
      (xs, x, y, at, eq, t', r, rw r (bound y at t'.past), t.fresh)
]

-- The display ticks only on the evidence of the last two anchors, and then only up to the current
-- time, which lies within five minutes of the older of the two newest samples.
pub live_projection_nearby :
    (anchors : List EvidenceAnchor) (now : ℕ) (sharing : Bool)
    → (live_projection anchors now sharing).state ≡ CountingState.nearby
    → TicksOn anchors (live_projection anchors now sharing) now sharing
unfolding live_projection
live_projection_nearby anchors now sharing h =
    project_current-TicksOn anchors (last_two none anchors).0 (last_two none anchors).1 now sharing
      refl h
