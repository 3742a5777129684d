-- ===== src/Duplicates/Archive.antt =====
-- What `_archive` of note_deduplication.py changes.
use littleorbit.Prelude.{ℕ, ◌≡◌, ◌⊎◌, Bool, true, false, none, All, ◌||◌, List, [], ◌∷◌, ◌==◌}
use littleorbit.Duplicates.{Note, archived_note}

pub is_listed : ℕ → List Note → Bool
is_listed k [] = false
is_listed k (n ∷ ns) = n.id == k || is_listed k ns

module _ (now : ℕ) (attachments : List ℕ) where
  -- The row is active, its body and metadata are unedited, and no attachment is of it.
  abbrev pub IsUntouched : Note → Type 0
  IsUntouched a =
      (a.archived_at ≡ none)
      × (a.revision ≡ 0)
      × (a.metadata_revision ≡ 0)
      × All (λ k. (k == a.id) ≡ false) attachments

  -- A row is kept, or it is listed and untouched, and is archived.
  abbrev pub Change : List Note → Note → Note → Type 0
  Change safe a b =
      (b ≡ a) ⊎ ((b ≡ archived_note now a) × IsUntouched a × (is_listed a.id safe ≡ true))

  pub data Changes (safe : List Note) : List Note → List Note → Type 0 where
    none_left : Changes safe [] []
    row :
        (a b : Note) (as' bs : List Note)
        → Change safe a b
        → Changes safe as' bs
        → Changes safe (a ∷ as') (b ∷ bs)
