-- ===== src/Duplicates/Examples.antt =====
-- Concrete runs of the archival of duplicate notes.
use littleorbit.Prelude.{ℕ, ◌+◌, ◌≡◌, refl, none, List, [], ◌∷◌, length, All}
use littleorbit.Duplicates.{Note, Candidate, safe_duplicates}
use littleorbit.Duplicates.Groups.{StandsIn, IsSpare, safe_duplicates_lem}

abbrev note : ℕ → ℕ → Note
note id revision = record {
  id = id;
  couple_id = 1;
  title = b't' ∷ [];
  body = b'b' ∷ [];
  revision = revision;
  metadata_revision = 0;
  archived_at = none;
  purge_after = none;
  created_at = id;
  updated_at = id;
}

-- Three copies of one note, the second of them edited, and the third with an attachment.
abbrev notes : List Note
notes = note 1 0 ∷ note 2 4 ∷ note 3 0 ∷ []

abbrev copies : List Candidate
copies =
    record { note = note 1 0; attachment_count = 0 }
    ∷ record { note = note 2 4; attachment_count = 0 }
    ∷ []

safe_duplicates_lem_example :
    (canonical : Candidate) × StandsIn canonical copies
    × All (IsSpare canonical) (note 1 0 ∷ [])
    × (length (note 1 0 ∷ []) + 1 ≡ length copies)
unfolding safe_duplicates
safe_duplicates_lem_example = safe_duplicates_lem copies (note 1 0 ∷ []) refl
