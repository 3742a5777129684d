-- ===== src/Duplicates.antt =====
-- services/api/src/little_orbit_api/note_deduplication.py: which of the notes with one couple, title
-- and body are archived. The database is the rows of `notes` and, for each attachment that is not
-- deleted, the id of its note.
pub mod Archive
pub mod Groups
mod Examples
use littleorbit.Prelude.{
  ℕ, ◌+◌, ◌*◌, Bool, true, false, not, ◌&&◌, ◌||◌, Option, none, some, List, [], ◌∷◌, ◌++◌, map,
  ◌==◌, ltb, leb, if◌then◌else◌, is_none, Text, text_eq, keep, length,
}

pub record Note : Type 0 where
  pub id : ℕ
  pub couple_id : ℕ
  pub title : Text
  pub body : Text
  pub revision : ℕ
  pub metadata_revision : ℕ
  pub archived_at : Option ℕ
  pub purge_after : Option ℕ
  pub created_at : ℕ
  pub updated_at : ℕ

pub record Candidate : Type 0 where
  pub note : Note
  pub attachment_count : ℕ

pub record DuplicateReport : Type 0 where
  pub groups : ℕ
  pub safe_to_archive : ℕ
  pub ambiguous_groups : ℕ
  pub archived : ℕ

-- count(NoteAttachment.id) over the attachments of one note that are not deleted
pub count_attachments : ℕ → List ℕ → ℕ
count_attachments n [] = 0
count_attachments n (a ∷ more) = (if a == n then 1 else 0) + count_attachments n more

-- order_by(Note.couple_id, Note.created_at, Note.id)
abbrev pub note_le : Note → Note → Bool
note_le a b =
    ltb a.couple_id b.couple_id
    || (a.couple_id == b.couple_id
        && (ltb a.created_at b.created_at || (a.created_at == b.created_at && leb a.id b.id)))

pub insert_note : Note → List Note → List Note
insert_note a [] = a ∷ []
insert_note a (b ∷ bs) = if note_le a b then a ∷ b ∷ bs else b ∷ insert_note a bs

pub sort_notes : List Note → List Note
unfolding insert_note
sort_notes [] = []
sort_notes (a ∷ more) = insert_note a (sort_notes more)

-- _candidates
pub candidates : List Note → List ℕ → List Candidate
unfolding sort_notes count_attachments
candidates notes attachments =
    map (λ n. record { note = n; attachment_count = count_attachments n.id attachments })
      (sort_notes (keep (λ n. is_none n.archived_at) notes))

-- The key of the dictionary in `_groups`.
abbrev pub has_same_key : Note → Note → Bool
has_same_key a b = a.couple_id == b.couple_id && (text_eq a.title b.title && text_eq a.body b.body)

-- grouped.setdefault(key, []).append(item); a group of the dictionary is never empty.
abbrev pub joins : Candidate → List Candidate → Bool
joins c [] = false
joins c (d ∷ ds) = has_same_key d.note c.note

pub add_to_group : Candidate → List (List Candidate) → List (List Candidate)
unfolding text_eq
add_to_group c [] = (c ∷ []) ∷ []
add_to_group c (g ∷ gs) = if joins c g then (g ++ c ∷ []) ∷ gs else g ∷ add_to_group c gs

pub group_all : List (List Candidate) → List Candidate → List (List Candidate)
unfolding add_to_group
group_all gs [] = gs
group_all gs (c ∷ cs) = group_all (add_to_group c gs) cs

-- _groups
pub groups_of : List Candidate → List (List Candidate)
unfolding group_all
groups_of cs = keep (λ g. ltb 1 (length g)) (group_all [] cs)

abbrev pub is_edited : Candidate → Bool
is_edited c = ltb 0 c.note.revision || ltb 0 c.note.metadata_revision

abbrev pub owns_attachments : Candidate → Bool
owns_attachments c = ltb 0 c.attachment_count

-- attachment_owners[0] if attachment_owners else (edited[0] if edited else items[0])
abbrev pub choose_canonical : List Candidate → List Candidate → List Candidate → Option Candidate
choose_canonical (a ∷ more) edited items = some a
choose_canonical [] (e ∷ more) items = some e
choose_canonical [] [] (i ∷ more) = some i
choose_canonical [] [] [] = none

abbrev pub is_spare : Candidate → Candidate → Bool
is_spare canonical c =
    not (c.note.id == canonical.note.id)
    && (c.note.revision == 0 && (c.note.metadata_revision == 0 && c.attachment_count == 0))

-- The end of `_safe_duplicates`; items[0] of an empty group would raise, and no group is empty.
pub spare_notes : Option Candidate → List Candidate → Option (List Note)
spare_notes none items = none
spare_notes (some canonical) items =
    let safe = map (λ (c : Candidate). c.note) (keep (is_spare canonical) items) in
    if length safe + 1 == length items then some safe else none

-- _safe_duplicates
pub safe_duplicates : List Candidate → Option (List Note)
unfolding spare_notes
safe_duplicates items =
    let owners = keep owns_attachments items in
    let edited = keep is_edited items in
    if ltb 1 (length owners) || ltb 1 (length edited)
    then none
    else spare_notes (choose_canonical owners edited items) items

-- _classify
pub classify : List (List Candidate) → List Note × ℕ
unfolding safe_duplicates
classify [] = ([], 0)
classify (g ∷ gs) =
    let rest = classify gs in
    elim (safe_duplicates g) [
      | none ↦ (rest.0, rest.1 + 1)
      | some selected ↦ (selected ++ rest.0, rest.1)
    ]

-- _still_safe, of a row that was found
abbrev pub still_safe : Note → ℕ → Bool
still_safe n attachment_count =
    is_none n.archived_at
    && (n.revision == 0 && (n.metadata_revision == 0 && attachment_count == 0))

abbrev pub seven_days : ℕ
seven_days = 604_800_000_000

abbrev pub archived_note : ℕ → Note → Note
archived_note now n = record n {
  archived_at = some now;
  purge_after = some (now + seven_days);
  metadata_revision = n.metadata_revision + 1;
  updated_at = now;
}

-- The rounds of `_archive` for one note: the count is of the rows changed.
pub archive_one : ℕ → List ℕ → ℕ → List Note → ℕ × List Note
unfolding count_attachments
archive_one now attachments k [] = (0, [])
archive_one now attachments k (n ∷ ns) =
    let rest = archive_one now attachments k ns in
    if n.id == k && still_safe n (count_attachments n.id attachments)
    then (1 + rest.0, archived_note now n ∷ rest.1)
    else (rest.0, n ∷ rest.1)

-- _archive, on the rows as they stand under its locks
pub archive : ℕ → List ℕ → List Note → List Note → ℕ × List Note
unfolding archive_one
archive now attachments [] notes = (0, notes)
archive now attachments (s ∷ safe) notes =
    let x = archive_one now attachments s.id notes in
    let rest = archive now attachments safe x.1 in (x.0 + rest.0, rest.1)

-- classify_and_archive_duplicates; `current` and `attached` are the tables when `_archive` has its
-- locks, which may have changed since the notes were read.
pub classify_and_archive_duplicates :
    Bool → ℕ → List Note → List ℕ → List Note → List ℕ → DuplicateReport × List Note
unfolding candidates groups_of classify archive
classify_and_archive_duplicates apply now notes attachments current attached =
    let groups = groups_of (candidates notes attachments) in
    let x = classify groups in
    let y = if apply then archive now attached x.0 current else (0, current) in
    (
      record {
        groups = length groups;
        safe_to_archive = length x.0;
        ambiguous_groups = x.1;
        archived = y.0;
      },
      y.1,
    )
