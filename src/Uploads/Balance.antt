-- ===== src/Uploads/Balance.antt =====
-- The storage row of attachment_quota.py against the attachments that it accounts for, over the
-- transactions of routes/attachments.py and attachment_media.py.
use littleorbit.Prelude.{
  ℕ, zero, suc, ◌+◌, ◌≡◌, refl, sym, subst, Bool, true, false, not, ◌&&◌, ◌||◌, Option, none, some,
  List, [], ◌∷◌, ◌++◌, ◌==◌, if◌then◌else◌, is_none, arith, Bool-cases, inl, inr,
}
use littleorbit.Storage.{
  AttachmentStorageState, returns, NoteAttachment, is_held, counts, stored_bytes, reserve_storage,
  adjust_storage,
}
use littleorbit.Uploads.{Db, find_item, update_item, neg, minus}

-- The bytes that a row accounts for.
abbrev pub bytes_of : NoteAttachment → ℕ
bytes_of a = if counts a then a.size_bytes else 0

unfoldable pub has_item : ℕ → List NoteAttachment → Bool
has_item k [] = false
has_item k (a ∷ rows) = a.id == k || has_item k rows

-- No two rows have one id.
abbrev pub IsKeyed : List NoteAttachment → Type 0
IsKeyed [] = Unit {0}
IsKeyed (a ∷ rows) = (has_item a.id rows ≡ false) × IsKeyed rows

abbrev pub reserved : Option AttachmentStorageState → ℕ
reserved none = 0
reserved (some s) = s.reserved_bytes

-- The reserved bytes are those of the rows that hold any.
abbrev pub IsBalanced : Db → Type 0
IsBalanced db = reserved db.storage ≡ stored_bytes db.attachments

stored_bytes-absent :
    (k : ℕ) (f : NoteAttachment → NoteAttachment) (rows : List NoteAttachment)
    → has_item k rows ≡ false
    → update_item k f rows ≡ rows
unfolding has_item update_item
stored_bytes-absent k f [] h = refl
stored_bytes-absent k f (a ∷ rows) h = ground (arith, stored_bytes-absent k f rows)

pub stored_bytes-update_item :
    (k : ℕ) (f : NoteAttachment → NoteAttachment) (rows : List NoteAttachment) (a : NoteAttachment)
    → IsKeyed rows
    → find_item k rows ≡ some a
    → stored_bytes (update_item k f rows) + bytes_of a ≡ stored_bytes rows + bytes_of (f a)
unfolding stored_bytes update_item find_item
stored_bytes-update_item k f [] a keyed h = absurd (ground arith)
stored_bytes-update_item k f (b ∷ rows) a keyed h = elim (Bool-cases (b.id == k)) [
  | inl here ↦
      let e : b ≡ a = ground arith in
      let i : b.id ≡ k = ground arith in
      let rest = stored_bytes-absent k f rows (subst (λ x. has_item x rows ≡ false) i keyed.0) in
      rw (here, rest)
        (subst
          (λ x.
            (bytes_of (f b) + stored_bytes rows) + bytes_of x
            ≡ (bytes_of b + stored_bytes rows) + bytes_of (f x))
          e (omega arith))
  | inr there ↦ rw there (omega (arith, stored_bytes-update_item k f rows a keyed.1 (ground arith)))
]

stored_bytes-append :
    (rows more : List NoteAttachment)
    → stored_bytes (rows ++ more) ≡ stored_bytes rows + stored_bytes more
unfolding stored_bytes
stored_bytes-append [] more = omega arith
stored_bytes-append (a ∷ rows) more = omega (arith, stored_bytes-append rows more)

-- A deleted row holds no bytes.
abbrev pub is_settled : NoteAttachment → Bool
is_settled a = is_none a.deleted_at || not (is_held a.status)

unfoldable pub all_settled : List NoteAttachment → Bool
all_settled [] = true
all_settled (a ∷ rows) = is_settled a && all_settled rows

-- What the transactions keep of the storage row and the attachments.
pub record IsSound (o : Option AttachmentStorageState) (rows : List NoteAttachment) : Type 0 where
  pub balanced : reserved o ≡ stored_bytes rows
  pub keyed : IsKeyed rows
  pub settled : all_settled rows ≡ true

has_item-update_item :
    (j k : ℕ) (f : NoteAttachment → NoteAttachment) (rows : List NoteAttachment)
    → ((x : NoteAttachment) → (f x).id ≡ x.id)
    → has_item j (update_item k f rows) ≡ has_item j rows
unfolding has_item update_item
has_item-update_item j k f [] fid = refl
has_item-update_item j k f (a ∷ rows) fid =
    ground (arith, fid a, has_item-update_item j k f rows fid)

update_item-IsKeyed :
    (k : ℕ) (f : NoteAttachment → NoteAttachment) (rows : List NoteAttachment)
    → ((x : NoteAttachment) → (f x).id ≡ x.id)
    → IsKeyed rows
    → IsKeyed (update_item k f rows)
unfolding update_item
update_item-IsKeyed k f [] fid h = tt
update_item-IsKeyed k f (a ∷ rows) fid h = elim (Bool-cases (a.id == k)) [
  | inl here ↦
      rw (here, fid a, has_item-update_item a.id k f rows fid)
        (h.0, update_item-IsKeyed k f rows fid h.1)
  | inr there ↦
      rw (there, has_item-update_item a.id k f rows fid) (h.0, update_item-IsKeyed k f rows fid h.1)
]

all_settled-update_item :
    (k : ℕ) (f : NoteAttachment → NoteAttachment) (rows : List NoteAttachment) (a : NoteAttachment)
    → IsKeyed rows
    → find_item k rows ≡ some a
    → is_settled (f a) ≡ true
    → all_settled rows ≡ true
    → all_settled (update_item k f rows) ≡ true
unfolding all_settled update_item find_item
all_settled-update_item k f [] a keyed e s h = h
all_settled-update_item k f (b ∷ rows) a keyed e s h = elim (Bool-cases (b.id == k)) [
  | inl here ↦
      let i : b ≡ a = ground arith in
      let j : b.id ≡ k = ground arith in
      let rest = stored_bytes-absent k f rows (subst (λ x. has_item x rows ≡ false) j keyed.0) in
      let t = subst (λ x. is_settled (f x) ≡ true) (sym i) s in rw (here, rest) (ground arith)
  | inr there ↦
      let rest = all_settled-update_item k f rows a keyed.1 (ground arith) s (ground arith) in
      rw there (ground arith)
]

-- A row changes, and the storage row by as much.
pub update_item-IsSound :
    (k : ℕ) (f : NoteAttachment → NoteAttachment) (o p : Option AttachmentStorageState)
    (rows : List NoteAttachment) (a : NoteAttachment)
    → ((x : NoteAttachment) → (f x).id ≡ x.id)
    → find_item k rows ≡ some a
    → is_settled (f a) ≡ true
    → reserved p + bytes_of a ≡ reserved o + bytes_of (f a)
    → IsSound o rows
    → IsSound p (update_item k f rows)
update_item-IsSound k f o p rows a fid e s same h = record {
  balanced = omega (arith, stored_bytes-update_item k f rows a h.keyed e, h.balanced);
  keyed = update_item-IsKeyed k f rows fid h.keyed;
  settled = all_settled-update_item k f rows a h.keyed e s h.settled;
}

pub settled_of :
    (k : ℕ) (rows : List NoteAttachment) (a : NoteAttachment)
    → find_item k rows ≡ some a
    → all_settled rows ≡ true
    → (is_settled a ≡ true) × (a.id ≡ k)
unfolding all_settled find_item
settled_of k [] a e h = absurd (ground arith)
settled_of k (b ∷ rows) a e h = elim (Bool-cases (b.id == k)) [
  | inl here ↦
      let i : b ≡ a = ground arith in
      subst (λ (x : NoteAttachment). (is_settled x ≡ true) × (x.id ≡ k)) i (ground arith)
  | inr there ↦ settled_of k rows a (ground arith) (ground arith)
]

pub adjust_storage-neg :
    (now n : ℕ) (o : Option AttachmentStorageState) (s : AttachmentStorageState)
    → adjust_storage now (neg n) o ≡ returns s
    → s.reserved_bytes + n ≡ reserved o
unfolding adjust_storage
adjust_storage-neg now n none s h = absurd (ground arith)
adjust_storage-neg now zero (some t) s h = ground arith
adjust_storage-neg now (suc n) (some t) s h = ground arith

pub adjust_storage-minus :
    (now m n : ℕ) (o : Option AttachmentStorageState) (s : AttachmentStorageState)
    → adjust_storage now (minus m n) o ≡ returns s
    → s.reserved_bytes + n ≡ reserved o + m
unfolding adjust_storage
adjust_storage-minus now m n none s h = absurd (ground arith)
adjust_storage-minus now m n (some t) s h = ground arith

has_item-append :
    (k : ℕ) (rows more : List NoteAttachment)
    → has_item k (rows ++ more) ≡ has_item k rows || has_item k more
unfolding has_item
has_item-append k [] more = refl
has_item-append k (a ∷ rows) more = ground (arith, has_item-append k rows more)

append-IsKeyed :
    (rows : List NoteAttachment) (b : NoteAttachment)
    → IsKeyed rows
    → has_item b.id rows ≡ false
    → IsKeyed (rows ++ b ∷ [])
unfolding has_item
append-IsKeyed [] b h e = (refl, tt)
append-IsKeyed (a ∷ rows) b h e = (
  ground (arith, has_item-append a.id rows (b ∷ []), h.0),
  append-IsKeyed rows b h.1 (ground arith),
)

all_settled-append :
    (rows : List NoteAttachment) (b : NoteAttachment)
    → all_settled rows ≡ true
    → is_settled b ≡ true
    → all_settled (rows ++ b ∷ []) ≡ true
unfolding all_settled
all_settled-append [] b h e = ground arith
all_settled-append (a ∷ rows) b h e = ground (arith, all_settled-append rows b)

-- A row with a new id comes in, and its bytes into the storage row.
pub append-IsSound :
    (b : NoteAttachment) (o p : Option AttachmentStorageState) (rows : List NoteAttachment)
    → has_item b.id rows ≡ false
    → is_settled b ≡ true
    → reserved p ≡ reserved o + bytes_of b
    → IsSound o rows
    → IsSound p (rows ++ b ∷ [])
unfolding stored_bytes
append-IsSound b o p rows fresh e same h = record {
  balanced = omega (arith, stored_bytes-append rows (b ∷ []), h.balanced);
  keyed = append-IsKeyed rows b h.keyed fresh;
  settled = all_settled-append rows b h.settled e;
}

pub reserve_storage-returns :
    (now n : ℕ) (o : Option AttachmentStorageState) (s : AttachmentStorageState)
    → reserve_storage now n o ≡ returns s
    → s.reserved_bytes ≡ reserved o + n
unfolding reserve_storage
reserve_storage-returns now n none s h = absurd (ground arith)
reserve_storage-returns now n (some t) s h = ground arith
