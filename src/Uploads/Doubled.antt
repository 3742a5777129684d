-- ===== src/Uploads/Doubled.antt =====
-- Two deletions of one attachment that both read its row before either locks the couple.
use littleorbit.Prelude.{ℕ, ◌+◌, ◌≡◌, refl, subst, ap, [], ◌∷◌, true, some, List, is_none, arith}
use littleorbit.Pairing.{Couple, Response, answers, fails, lock_couple}
use littleorbit.Storage.{
  AttachmentStorageState, Accounted, returns, raises, NoteAttachment, is_held, stored_bytes,
  adjust_storage,
}
use littleorbit.Uploads.{
  Db, Result, done, refuses, find_item, update_item, neg, adjusted, while_active,
}
use littleorbit.Uploads.Chunks.{deleted_item, delete_item, delete_attachment}
use littleorbit.Uploads.Balance.{reserved, adjust_storage-neg}
use littleorbit.Uploads.Steps.{IsSoundDb, IsSoundResult, delete_attachment-IsSound}

-- What a deletion of held bytes leaves: `rows`, and as many bytes less.
IsReleased : ℕ → List NoteAttachment → Db → Result Db → Type 0
IsReleased n rows db (done after) =
    (reserved after.storage + n ≡ reserved db.storage) × (after.attachments ≡ rows)
IsReleased n rows db (refuses r) = Unit {0}

adjusted-IsReleased :
    (n : ℕ) (db : Db) (rows : List NoteAttachment) (o : Accounted)
    → ((s : AttachmentStorageState) → o ≡ returns s → s.reserved_bytes + n ≡ reserved db.storage)
    → IsReleased n rows db
        (adjusted o (λ state. done (record db { storage = some state; attachments = rows })))
unfolding IsReleased
adjusted-IsReleased n db rows (returns s) h = (h s refl, refl)
adjusted-IsReleased n db rows (raises f) h = tt

while_active-IsReleased :
    (n : ℕ) (rows : List NoteAttachment) (db : Db) (o : Response Couple) (r : Result Db)
    → IsReleased n rows db r
    → IsReleased n rows db (while_active o r)
unfolding IsReleased
while_active-IsReleased n rows db (answers c) r h = h
while_active-IsReleased n rows db (fails s) r h = tt

delete_attachment-IsReleased :
    (now : ℕ) (read : NoteAttachment) (db : Db)
    → is_held read.status ≡ true
    → IsReleased read.size_bytes
        (update_item read.id (deleted_item now) db.attachments)
        db
        (delete_attachment now read db)
unfolding delete_attachment delete_item
delete_attachment-IsReleased now read db held =
    let rows = update_item read.id (deleted_item now) db.attachments in
    rw held (
      while_active-IsReleased read.size_bytes rows db (lock_couple read.couple_id db.couples) _ (
        adjusted-IsReleased read.size_bytes db rows
          (adjust_storage now (neg read.size_bytes) db.storage)
          (adjust_storage-neg now read.size_bytes db.storage)))

-- A row that is deleted again holds no more bytes than before.
stored_bytes-again :
    (k now later : ℕ) (rows : List NoteAttachment)
    → stored_bytes (update_item k (deleted_item later) (update_item k (deleted_item now) rows))
      ≡ stored_bytes (update_item k (deleted_item now) rows)
unfolding stored_bytes update_item
stored_bytes-again k now later [] = refl
stored_bytes-again k now later (a ∷ rows) = ground (arith, stored_bytes-again k now later rows)

-- Where two deletions of a held attachment have both read its row before the first of them takes the
-- lock, and both commit, its bytes are given back twice: the storage row then reserves less than the
-- attachments hold, by just these bytes.
pub delete_attachment_twice :
    (now later : ℕ) (read : NoteAttachment) (db mid after : Db)
    → IsSoundDb db
    → find_item read.id db.attachments ≡ some read
    → is_none read.deleted_at ≡ true
    → is_held read.status ≡ true
    → delete_attachment now read db ≡ done mid
    → delete_attachment later read mid ≡ done after
    → reserved after.storage + read.size_bytes ≡ stored_bytes after.attachments
unfolding IsReleased
delete_attachment_twice now later read db mid after h found live held one two =
    let sound = subst IsSoundResult one (delete_attachment-IsSound now read db found live h) in
    let rows = update_item read.id (deleted_item now) db.attachments in
    let (out, left) =
      subst (IsReleased read.size_bytes rows db) one
        (delete_attachment-IsReleased now read db held) in
    let (again, rest) =
      subst
        (IsReleased read.size_bytes (update_item read.id (deleted_item later) mid.attachments) mid)
        two (delete_attachment-IsReleased later read mid held) in
    let same = ap (λ xs. stored_bytes (update_item read.id (deleted_item later) xs)) left in
    let least = ap stored_bytes left in
    let total = ap stored_bytes rest in
    omega (
      arith,
      again,
      sound.balanced,
      same,
      least,
      total,
      stored_bytes-again read.id now later db.attachments,
    )
