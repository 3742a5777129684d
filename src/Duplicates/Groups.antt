-- ===== src/Duplicates/Groups.antt =====
-- What `_groups` and `_safe_duplicates` of note_deduplication.py give.
use littleorbit.Prelude.{
  ◌+◌, ◌≡◌, ◌≤◌, refl, ap, subst, Bool, true, false, ◌||◌, some, List, [], ◌∷◌, ◌++◌, map, ◌==◌,
  ltb, keep, length, arith, All, All-keep, Bool-cases, Option-cases, inl, inr,
}
use littleorbit.Duplicates.{
  Note, Candidate, has_same_key, add_to_group, group_all, groups_of, is_edited, owns_attachments,
  choose_canonical, is_spare, spare_notes, safe_duplicates,
}

-- Every candidate of the group has the couple, title and body of the first.
abbrev pub IsGroup : List Candidate → Type 0
IsGroup [] = Unit {0}
IsGroup (c ∷ cs) = All (λ d. has_same_key c.note d.note ≡ true) cs

All-snoc :
    (P : Candidate → Type 0) (cs : List Candidate) (c : Candidate)
    → All P cs
    → P c
    → All P (cs ++ c ∷ [])
All-snoc P [] c h p = (p, tt)
All-snoc P (d ∷ ds) c h p = (h.0, All-snoc P ds c h.1 p)

add_to_group-IsGroup :
    (c : Candidate) (gs : List (List Candidate)) → All IsGroup gs → All IsGroup (add_to_group c gs)
unfolding add_to_group
add_to_group-IsGroup c [] h = (tt, tt)
add_to_group-IsGroup c ([] ∷ gs) h = (tt, add_to_group-IsGroup c gs h.1)
add_to_group-IsGroup c ((d ∷ ds) ∷ gs) h = elim (Bool-cases (has_same_key d.note c.note)) [
  | inl same ↦ rw same (All-snoc (λ x. has_same_key d.note x.note ≡ true) ds c h.0 same, h.1)
  | inr other ↦ rw other (h.0, add_to_group-IsGroup c gs h.1)
]

group_all-IsGroup :
    (gs : List (List Candidate)) (cs : List Candidate)
    → All IsGroup gs
    → All IsGroup (group_all gs cs)
unfolding group_all
group_all-IsGroup gs [] h = h
group_all-IsGroup gs (c ∷ cs) h =
    group_all-IsGroup (add_to_group c gs) cs (add_to_group-IsGroup c gs h)

longer : (gs : List (List Candidate)) → All (λ g. 2 ≤ length g) (keep (λ g. ltb 1 (length g)) gs)
longer [] = tt
longer (g ∷ gs) = elim (Bool-cases (ltb 1 (length g))) [
  | inl long ↦ rw long (ground arith, longer gs)
  | inr short ↦ rw short (longer gs)
]

-- Every group has at least two candidates, all with one couple, title and body.
pub groups_of-IsGroup :
    (cs : List Candidate) → All IsGroup (groups_of cs) × All (λ g. 2 ≤ length g) (groups_of cs)
unfolding groups_of
groups_of-IsGroup cs = (
  All-keep IsGroup (λ g. ltb 1 (length g)) (group_all [] cs) (group_all-IsGroup [] cs tt),
  longer (group_all [] cs),
)

-- The candidate stands in the list.
abbrev pub StandsIn : Candidate → List Candidate → Type 0
StandsIn c items = (xs ys : List Candidate) × (items ≡ xs ++ c ∷ ys)

keep-StandsIn :
    (p : Candidate → Bool) (items more : List Candidate) (c : Candidate)
    → keep p items ≡ c ∷ more
    → StandsIn c items
keep-StandsIn p [] more c h = absurd (ground arith)
keep-StandsIn p (i ∷ items) more c h = elim (Bool-cases (p i)) [
  | inl hit ↦ ([], items, ground arith)
  | inr miss ↦
      let (xs, ys, e) = keep-StandsIn p items more c (ground arith) in (i ∷ xs, ys, ap (◌∷◌ i) e)
]

choose_canonical-StandsIn :
    (owners edited items : List Candidate) (c : Candidate)
    → keep owns_attachments items ≡ owners
    → keep is_edited items ≡ edited
    → choose_canonical owners edited items ≡ some c
    → StandsIn c items
choose_canonical-StandsIn (a ∷ more) edited items c o e h =
    let i : a ≡ c = ground arith in
    subst (λ x. StandsIn x items) i (keep-StandsIn owns_attachments items more a o)
choose_canonical-StandsIn [] (a ∷ more) items c o e h =
    let i : a ≡ c = ground arith in
    subst (λ x. StandsIn x items) i (keep-StandsIn is_edited items more a e)
choose_canonical-StandsIn [] [] [] c o e h = absurd (ground arith)
choose_canonical-StandsIn [] [] (a ∷ more) c o e h =
    let i : a ≡ c = ground arith in ([], more, ap (λ x. x ∷ more) i)

-- A note that may be archived beside the one that is kept.
abbrev pub IsSpare : Candidate → Note → Type 0
IsSpare canonical n =
    ((n.id == canonical.note.id) ≡ false) × (n.revision ≡ 0) × (n.metadata_revision ≡ 0)

keep-IsSpare :
    (canonical : Candidate) (items : List Candidate)
    → All (IsSpare canonical) (map (λ (c : Candidate). c.note) (keep (is_spare canonical) items))
keep-IsSpare canonical [] = tt
keep-IsSpare canonical (c ∷ cs) = elim (Bool-cases (is_spare canonical c)) [
  | inl spare ↦ rw spare ((ground arith, ground arith, ground arith), keep-IsSpare canonical cs)
  | inr kept ↦ rw kept (keep-IsSpare canonical cs)
]

spare_notes_lem :
    (c : Candidate) (items : List Candidate) (safe : List Note)
    → spare_notes (some c) items ≡ some safe
    → (map (λ (x : Candidate). x.note) (keep (is_spare c) items) ≡ safe)
      × (length safe + 1 ≡ length items)
unfolding spare_notes
spare_notes_lem c items safe h = (ground arith, ground arith)

-- A group that is not ambiguous keeps one of its notes, and the notes to archive are all others:
-- they are unedited, and none is the one that is kept.
pub safe_duplicates_lem :
    (items : List Candidate) (safe : List Note)
    → safe_duplicates items ≡ some safe
    → (canonical : Candidate) × StandsIn canonical items
      × All (IsSpare canonical) safe
      × (length safe + 1 ≡ length items)
unfolding safe_duplicates spare_notes
safe_duplicates_lem items safe h =
    let owners = keep owns_attachments items in
    let edited = keep is_edited items in
    elim (Bool-cases (ltb 1 (length owners) || ltb 1 (length edited))) [
      | inl ambiguous ↦ absurd (ground arith)
      | inr clear ↦ elim (Option-cases (choose_canonical owners edited items)) [
        | inl nothing ↦ absurd (ground arith)
        | inr (c, chosen) ↦
            let (e, l) = spare_notes_lem c items safe (ground arith) in
            (
              c,
              choose_canonical-StandsIn owners edited items c refl refl chosen,
              subst (All (IsSpare c)) e (keep-IsSpare c items),
              l,
            )
      ]
    ]
