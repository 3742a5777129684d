-- ===== src/Location/Timeline/Bridging.antt =====
-- Which gaps `_add_confirmed_bridges` fills.
use mathlib.Core.List.{append_assoc}
use littleorbit.Prelude.{
  ◌+◌, ◌≤◌, ◌<◌, ◌≡◌, refl, sym, ◌∙◌, ap, Bool, true, false, not, ◌&&◌, inl, inr, ◌⊎◌, Option, none,
  some, List, [], ◌∷◌, ◌++◌, arith, Bool-cases, All, ◌↔◌,
}
use littleorbit.Location.Types.{
  EvidenceAnchor, EvidenceState, EvidenceKind, max_counted_interval, max_bridged_interval,
}
use littleorbit.Location.Timeline.{is_state, is_bridge_gap, bridge_of, bridges, pair_kind}

-- An anchor that says nothing of the pair: one phone has not reported, or its evidence is too old.
abbrev pub IsQuiet : EvidenceAnchor → Type 0
IsQuiet a = (a.state ≡ EvidenceState.waiting_for_partner) ⊎ (a.state ≡ EvidenceState.stale)

-- Two nearby anchors of the list with only quiet ones between them, more than five and at most
-- twenty minutes apart.
abbrev pub Spans : List EvidenceAnchor → EvidenceAnchor × EvidenceAnchor → Type 0
Spans whole (p, c) =
    (xs ys zs : List EvidenceAnchor) × (whole ≡ xs ++ p ∷ (ys ++ c ∷ zs))
    × All IsQuiet ys
    × (p.state ≡ EvidenceState.nearby)
    × (c.state ≡ EvidenceState.nearby)
    × (p.recorded_at + max_counted_interval < c.recorded_at)
    × (c.recorded_at ≤ p.recorded_at + max_bridged_interval)

-- What the loop remembers is the last nearby anchor behind which all are quiet.
abbrev Remembers : List EvidenceAnchor → Option EvidenceAnchor → Type 0
Remembers before none = Unit {0}
Remembers before (some p) =
    (xs ys : List EvidenceAnchor) × (before ≡ xs ++ p ∷ ys)
    × All IsQuiet ys
    × (p.state ≡ EvidenceState.nearby)

All-snoc :
    (ys : List EvidenceAnchor) (a : EvidenceAnchor)
    → All IsQuiet ys
    → IsQuiet a
    → All IsQuiet (ys ++ a ∷ [])
All-snoc [] a h q = (q, tt)
All-snoc (y ∷ ys) a h q = (h.0, All-snoc ys a h.1 q)

All-append {ℓ κ} :
    {A : Type ℓ} (P : A → Type κ) (xs ys : List A) → All P xs → All P ys → All P (xs ++ ys)
All-append P [] ys h k = k
All-append P (x ∷ xs) ys h k = (h.0, All-append P xs ys h.1 k)

Remembers-quiet :
    (before : List EvidenceAnchor) (last : Option EvidenceAnchor) (a : EvidenceAnchor)
    → IsQuiet a
    → Remembers before last
    → Remembers (before ++ a ∷ []) last
Remembers-quiet before none a q r = tt
Remembers-quiet before (some p) a q (xs, ys, e, h, n) = (
  xs,
  ys ++ a ∷ [],
  ap (λ l. l ++ a ∷ []) e ∙ append_assoc xs (p ∷ ys) (a ∷ []),
  All-snoc ys a h q,
  n,
)

bridge_of-Spans :
    (whole before l : List EvidenceAnchor) (last : Option EvidenceAnchor) (blocked : Bool)
    (a : EvidenceAnchor)
    → whole ≡ before ++ a ∷ l
    → a.state ≡ EvidenceState.nearby
    → Remembers before last
    → All (Spans whole) (bridge_of last blocked a)
unfolding is_bridge_gap
bridge_of-Spans whole before l none blocked a e n r = tt
bridge_of-Spans whole before l (some p) blocked a e n (xs, ys, eq, h, np) =
    elim (Bool-cases (not blocked && is_bridge_gap p a)) [
      | inl gap ↦ rw gap (
        (
          xs,
          ys,
          l,
          e ∙ ap (λ k. k ++ a ∷ l) eq ∙ append_assoc xs (p ∷ ys) (a ∷ l),
          h,
          np,
          n,
          ground arith,
          ground arith,
        ),
        tt,
      )
      | inr far ↦ rw far tt
    ]

bridges-Spans :
    (whole before : List EvidenceAnchor) (last : Option EvidenceAnchor) (blocked : Bool)
    (l : List EvidenceAnchor)
    → whole ≡ before ++ l
    → Remembers before last
    → All (Spans whole) (bridges last blocked l)
unfolding bridges is_state
bridges-Spans whole before last blocked [] e r = tt
bridges-Spans whole before last blocked (a ∷ l) e r =
    let e' : whole ≡ (before ++ a ∷ []) ++ l = e ∙ sym (append_assoc before (a ∷ []) l) in
    go a.state refl (bridges-Spans whole (before ++ a ∷ []) none true l e' tt)
      (λ q.
        bridges-Spans whole (before ++ a ∷ []) last blocked l e'
          (Remembers-quiet before last a q r))
      (λ n. bridges-Spans whole (before ++ a ∷ []) (some a) false l e' (before, [], refl, tt, n))
  where
    go :
        (s : EvidenceState)
        → a.state ≡ s
        → All (Spans whole) (bridges none true l)
        → (IsQuiet a → All (Spans whole) (bridges last blocked l))
        → (a.state ≡ EvidenceState.nearby → All (Spans whole) (bridges (some a) false l))
        → All (Spans whole) (bridges last blocked (a ∷ l))
    go EvidenceState.waiting_for_partner s reset skip found = rw (s, bridges) (skip (inl s))
    go EvidenceState.stale s reset skip found = rw (s, bridges) (skip (inr s))
    go EvidenceState.apart s reset skip found = rw (s, bridges) reset
    go EvidenceState.poor_accuracy s reset skip found = rw (s, bridges) reset
    go EvidenceState.nearby s reset skip found =
        simp (s, bridges)
          (All-append (Spans whole) (bridge_of last blocked a) (bridges (some a) false l)
            (bridge_of-Spans whole before l last blocked a e s r) (found s))

-- A gap is bridged only between two nearby anchors with nothing but missing or stale evidence between
-- them, more than five and at most twenty minutes apart.
pub bridges_confirmed :
    (anchors : List EvidenceAnchor) → All (Spans anchors) (bridges none false anchors)
bridges_confirmed anchors = bridges-Spans anchors [] none false anchors refl tt

-- Time between two anchors counts as observed exactly if both are nearby and at most five minutes
-- apart.
pub pair_kind_observed :
    (p c : EvidenceAnchor)
    → (pair_kind p c ≡ EvidenceKind.observed) ↔ (
        (p.state ≡ EvidenceState.nearby)
        × (c.state ≡ EvidenceState.nearby)
        × (c.recorded_at ≤ p.recorded_at + max_counted_interval))
unfolding pair_kind is_state
pair_kind_observed p c = ground arith
