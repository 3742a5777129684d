-- ===== src/Uploads/Chunks.antt =====
-- The chunks of an upload and the deletion of an attachment, in routes/attachments.py and
-- attachment_storage.py.
use littleorbit.Prelude.{
  ℕ, ◌+◌, Bool, not, ◌&&◌, Option, none, some, List, [], ◌∷◌, ◌++◌, ◌==◌, ltb, leb, if◌then◌else◌,
  is_none, Text, length, take,
}
use littleorbit.Pairing.{lock_couple}
use littleorbit.Storage.{AttachmentStatus, NoteAttachment, is_held, adjust_storage}
use littleorbit.Uploads.{
  max_chunk_bytes, JobStatus, AttachmentJob, Db, Refusal, Result, find_item, update_item, neg,
  adjusted, is_uploading, while_active, done, refuses,
}

-- validate_chunk
unfoldable pub validate_chunk : ℕ → ℕ → ℕ → Bool
validate_chunk offset chunk total =
    ltb 0 chunk && (leb chunk max_chunk_bytes && leb (offset + chunk) total)

-- `_append_chunk`: the file's bytes afterwards; no file is an empty one
unfoldable pub append_chunk : List ℕ → ℕ → List ℕ → Option (List ℕ)
append_chunk stored offset body =
    if ltb (length stored) offset then none else some (take offset stored ++ body)

abbrev pub new_job : ℕ → ℕ → AttachmentJob
new_job k now = record {
  attachment_id = k;
  status = JobStatus.pending;
  attempts = 0;
  next_attempt_at = now;
  lease_expires_at = none;
  leased_by = none;
  last_error = none;
  created_at = now;
  updated_at = now;
}

-- What the end of a chunk makes of the row: more to come, complete and sound, or a wrong digest.
abbrev pub grown : ℕ → ℕ → NoteAttachment → NoteAttachment
grown now n a = record a { uploaded_bytes = a.uploaded_bytes + n; updated_at = now }

abbrev pub with_status : AttachmentStatus → NoteAttachment → NoteAttachment
with_status s a = record a { status = s }

-- "sha256_mismatch"
abbrev pub sha256_mismatch : Text
sha256_mismatch =
    115 ∷ 104 ∷ 97 ∷ 50 ∷ 53 ∷ 54 ∷ 95 ∷ 109 ∷ 105 ∷ 115 ∷ 109 ∷ 97 ∷ 116 ∷ 99 ∷ 104 ∷ []

abbrev pub mismatched : ℕ → ℕ → NoteAttachment → NoteAttachment
mismatched now n a = record (grown now n a) {
  status = AttachmentStatus.rejected;
  rejection_reason = some sha256_mismatch;
}

-- The end of `upload_attachment_chunk`: `sound` says whether the digest of the file is the promised.
unfoldable pub finish_chunk : ℕ → ℕ → Bool → NoteAttachment → Db → Result Db
unfolding update_item adjust_storage
finish_chunk now n sound a db =
    if not (a.uploaded_bytes + n == a.size_bytes)
    then done (record db { attachments = update_item a.id (grown now n) db.attachments })
    else if sound
    then done (record db {
      attachments =
          update_item a.id (λ x. with_status AttachmentStatus.pending_scan (grown now n x))
            db.attachments;
      jobs = db.jobs ++ new_job a.id now ∷ [];
    })
    else adjusted (adjust_storage now (neg a.size_bytes) db.storage) (λ state. done (record db {
      storage = some state;
      attachments = update_item a.id (mismatched now n) db.attachments;
    }))

unfoldable pub append_to :
    ℕ → List ℕ → (List ℕ → Bool) → NoteAttachment → Db → Option (List ℕ) → Result (List ℕ × Db)
unfolding finish_chunk
append_to now body sound a db none = refuses Refusal.stored_offset
append_to now body sound a db (some file) =
    elim (finish_chunk now (length body) (sound file) a db) [
      | done next ↦ done (file, next)
      | refuses r ↦ refuses r
    ]

unfoldable pub upload_to :
    ℕ → ℕ → List ℕ → (List ℕ → Bool) → List ℕ → Option NoteAttachment → Db → Result (List ℕ × Db)
unfolding validate_chunk append_chunk append_to
upload_to now offset body sound stored none db = refuses Refusal.not_uploading
upload_to now offset body sound stored (some a) db =
    if not (is_uploading a.status)
    then refuses Refusal.not_uploading
    else if not (offset == a.uploaded_bytes)
    then refuses Refusal.offset_mismatch
    else if not (validate_chunk offset (length body) a.size_bytes)
    then refuses Refusal.invalid_chunk
    else append_to now body sound a db (append_chunk stored offset body)

-- `upload_attachment_chunk` of an authorised attachment `k` of couple `c`: the tables and the staged
-- file afterwards. `sound` is whether a file has the attachment's digest.
unfoldable pub upload_attachment_chunk :
    ℕ → ℕ → ℕ → ℕ → List ℕ → (List ℕ → Bool) → List ℕ → Db → Result (List ℕ × Db)
unfolding upload_to find_item
upload_attachment_chunk c k now offset body sound stored db =
    while_active (lock_couple c db.couples)
      (upload_to now offset body sound stored (find_item k db.attachments) db)

abbrev pub deleted_item : ℕ → NoteAttachment → NoteAttachment
deleted_item now a = record a {
  deleted_at = some now;
  status = AttachmentStatus.deleted;
  updated_at = now;
}

-- The lookup of `_authorized_attachment`.
pub find_authorized : ℕ → ℕ → ℕ → List NoteAttachment → Option NoteAttachment
find_authorized k note c [] = none
find_authorized k note c (a ∷ rows) =
    if a.id == k && (a.note_id == note && (a.couple_id == c && is_none a.deleted_at))
    then some a
    else find_authorized k note c rows

unfoldable pub delete_item : ℕ → NoteAttachment → Db → Result Db
unfolding update_item adjust_storage
delete_item now a db =
    if is_held a.status
    then adjusted (adjust_storage now (neg a.size_bytes) db.storage) (λ state. done (record db {
      storage = some state;
      attachments = update_item a.id (deleted_item now) db.attachments;
    }))
    else done (record db { attachments = update_item a.id (deleted_item now) db.attachments })

-- `delete_attachment`, from the lock of the couple on: `read` is the row as `_authorized_attachment`
-- read it before the lock, and it is not read again.
unfoldable pub delete_attachment : ℕ → NoteAttachment → Db → Result Db
unfolding delete_item
delete_attachment now read db =
    while_active (lock_couple read.couple_id db.couples) (delete_item now read db)
