-- ===== src/Uploads/Late.antt =====
-- A retry of attachment_media.py that comes late: another worker has taken the lapsed lease and rejected the
-- attachment meanwhile.
use littleorbit.Prelude.{ℕ, ◌+◌, ◌≡◌, refl, true, false, some, Text, is_none, arith}
use littleorbit.Storage.{AttachmentStatus, NoteAttachment, is_held, stored_bytes}
use littleorbit.Uploads.{Db, AttachmentJob, done, find_item}
use littleorbit.Uploads.Balance.{reserved, stored_bytes-update_item}
use littleorbit.Uploads.Steps.{IsSoundDb}
use littleorbit.Uploads.Scan.{touched}
use littleorbit.Uploads.Scan.Outcome.{defer_item, retry_of, retry_or_reject, find_job, is_used_up}

defer_item-unbalances :
    (reason : Text) (now k : ℕ) (a : NoteAttachment) (db : Db)
    → IsSoundDb db
    → find_item k db.attachments ≡ some a
    → is_none a.deleted_at ≡ true
    → is_held a.status ≡ false
    → stored_bytes (defer_item reason now k db).attachments
      ≡ reserved (defer_item reason now k db).storage + a.size_bytes
unfolding defer_item
defer_item-unbalances reason now k a db h found live released =
    let moved =
      stored_bytes-update_item k (touched AttachmentStatus.pending_scan now) db.attachments a
        h.keyed found in
    ground (arith, moved, h.balanced)

-- From tables that are in order, a retry of a job with attempts left, on an attachment that is not
-- deleted but holds no bytes any more, as one that was rejected meanwhile, puts the attachment back to
-- be scanned without reserving its bytes: the attachments then hold just these bytes more than the
-- storage row reserves.
pub retry_or_reject_unbalances :
    (limit reason : Text) (k now : ℕ) (a : NoteAttachment) (j : AttachmentJob) (db : Db)
    → IsSoundDb db
    → find_item k db.attachments ≡ some a
    → is_none a.deleted_at ≡ true
    → is_held a.status ≡ false
    → find_job k db.jobs ≡ some j
    → is_used_up j ≡ false
    → (after : Db) × (retry_or_reject limit k reason now db ≡ done after)
      × (stored_bytes after.attachments ≡ reserved after.storage + a.size_bytes)
unfolding retry_or_reject retry_of
retry_or_reject_unbalances limit reason k now a j db h found live released job left = (
  defer_item reason now k db,
  rw (found, job, left) refl,
  defer_item-unbalances reason now k a db h found live released,
)
