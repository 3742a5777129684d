-- ===== src/Uploads/Lifecycle.antt =====
-- All transactions of routes/attachments.py and attachment_media.py as a step relation, and what every
-- sequence of them keeps.
use littleorbit.Prelude.{ℕ, ◌≡◌, Bool, true, false, some, List, is_none, Text}
use littleorbit.Storage.{NoteAttachment}
use littleorbit.Uploads.{
  Db, Disk, Upload, AttachmentCreateRequest, done, find_item, create_attachment,
}
use littleorbit.Uploads.Chunks.{delete_attachment, upload_attachment_chunk}
use littleorbit.Uploads.Balance.{has_item}
use littleorbit.Uploads.Scan.{mark_available, claim_ready}
use littleorbit.Uploads.Scan.Outcome.{Reasons, Verdict, follow, is_timely}

-- One transaction that commits. A new attachment has a new id; a deletion has read the row as it is
-- when it changes it; and a retry finds a row, if any, that holds its bytes, neither deleted nor
-- rejected meanwhile. Doubled and Late tell what happens otherwise.
pub data Step (db : Db) : Db → Type 0 where
  creates :
      (disk : Disk) (u : Upload) (p : AttachmentCreateRequest) {k : ℕ} {after : Db}
      → has_item u.id db.attachments ≡ false
      → create_attachment disk u p db ≡ done (k, after)
      → Step db after
  uploads :
      (c k now offset : ℕ) (body : List ℕ) (sound : List ℕ → Bool) (stored : List ℕ) {file : List ℕ}
      {after : Db}
      → upload_attachment_chunk c k now offset body sound stored db ≡ done (file, after)
      → Step db after
  deletes :
      (now : ℕ) (a : NoteAttachment) {after : Db}
      → find_item a.id db.attachments ≡ some a
      → is_none a.deleted_at ≡ true
      → delete_attachment now a db ≡ done after
      → Step db after
  claims : (locked : ℕ → Bool) (now worker : ℕ) → Step db (claim_ready locked now worker db).1
  publishes :
      (key : Text) (k : ℕ) (hash : Text) (size now : ℕ) {after : Db}
      → mark_available key k hash size now db ≡ done after
      → Step db after
  follows :
      (r : Reasons) (k now : ℕ) (v : Verdict) {after : Db}
      → is_timely v (find_item k db.attachments) ≡ true
      → follow r k now v db ≡ done after
      → Step db after

pub data Reaches (db : Db) : Db → Type 0 where
  here : Reaches db db
  next : {mid after : Db} → Reaches db mid → Step mid after → Reaches db after
