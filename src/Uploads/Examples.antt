-- ===== src/Uploads/Examples.antt =====
-- An attachment of 6 bytes from its creation to its deletion, and one that is deleted twice.
use littleorbit.Prelude.{◌+◌, ◌≡◌, refl, true, false, none, some, [], ◌∷◌}
use littleorbit.Pairing.{lock_couple, find_couple}
use littleorbit.Storage.{AttachmentStatus, NoteAttachment, stored_bytes, adjust_storage}
use littleorbit.Uploads.{
  Db, AttachmentJob, JobStatus, Disk, Upload, AttachmentCreateRequest, Result, done, refuses,
  find_item, update_item, new_attachment, create_attachment,
}
use littleorbit.Uploads.Chunks.{upload_attachment_chunk, delete_item, delete_attachment}
use littleorbit.Uploads.Balance.{reserved, IsSound, has_item, all_settled}
use littleorbit.Uploads.Doubled.{delete_attachment_twice}
use littleorbit.Uploads.Scan.{claim_ready, mark_available}
use littleorbit.Uploads.Scan.Outcome.{
  Finding, Reasons, Verdict, verdict, verdict_of_finding, retry_or_reject, find_job,
}
use littleorbit.Uploads.Late.{retry_or_reject_unbalances}

abbrev empty : Db
empty = record {
  couples = record { id = 50; ended_at = none; created_at = 1; updated_at = 1 } ∷ [];
  storage = some (record { reserved_bytes = 0; updated_at = 1 });
  attachments = [];
  jobs = [];
  events = [];
}

abbrev disk : Disk
disk = record {
  is_allowed = λ t. true;
  is_digest = λ t. true;
  safe_file_name = λ t. some t;
  has_upload_capacity = λ n. true;
}

abbrev request : AttachmentCreateRequest
request = record {
  operation_id = 3;
  file_name = 65 ∷ [];
  media_type = 66 ∷ [];
  size_bytes = 6;
  sha256 = 67 ∷ [];
}

abbrev upload : Upload
upload = record { note_id = 20; couple_id = 50; actor_id = 1; id = 7; storage_key = 70; now = 10 }

abbrev tables {ℓ} : {A : Type ℓ} → Result (A × Db) → Db
tables (done (x, db)) = db
tables (refuses r) = empty

abbrev tables_of : Result Db → Db
tables_of (done db) = db
tables_of (refuses r) = empty

abbrev reasons : Reasons
reasons = record {
  bytes_missing = [];
  malware = [];
  quota_after = [];
  retry_limit = [];
  processing_failed = [];
}

abbrev created : Db
created = tables (create_attachment disk upload request empty)

abbrev half : Db
half = tables (upload_attachment_chunk 50 7 11 0 (1 ∷ 2 ∷ 3 ∷ []) (λ f. true) [] created)

abbrev uploaded : Db
uploaded =
    tables (upload_attachment_chunk 50 7 12 3 (4 ∷ 5 ∷ 6 ∷ []) (λ f. true) (1 ∷ 2 ∷ 3 ∷ []) half)

abbrev claimed : Db
claimed = (claim_ready (λ k. false) 13 90 uploaded).1

abbrev published : Db
published = tables_of (mark_available [] 7 (68 ∷ []) 5 14 claimed)

-- The row of `published`.
abbrev stored : NoteAttachment
stored = record (new_attachment upload request (65 ∷ [])) {
  size_bytes = 5;
  uploaded_bytes = 5;
  sha256 = 68 ∷ [];
  status = AttachmentStatus.available;
  scanned_at = some 14;
  updated_at = 14;
}

abbrev removed : Db
removed = tables_of (delete_attachment 15 stored published)

abbrev two : Db
two = record empty {
  storage = some (record { reserved_bytes = 10; updated_at = 1 });
  attachments = stored ∷ record stored { id = 8 } ∷ [];
}

two-IsSound : IsSound two.storage two.attachments
unfolding stored_bytes all_settled has_item new_attachment
two-IsSound = record { balanced = refl; keyed = (refl, (refl, tt)); settled = refl }

abbrev deleted_once : Db
deleted_once = tables_of (delete_attachment 15 stored two)

abbrev deleted_twice : Db
deleted_twice = tables_of (delete_attachment 16 stored deleted_once)

delete_attachment_twice_example :
    reserved deleted_twice.storage + stored.size_bytes ≡ stored_bytes deleted_twice.attachments
unfolding delete_attachment lock_couple find_couple delete_item adjust_storage update_item find_item
    new_attachment
delete_attachment_twice_example =
    delete_attachment_twice 15 16 stored two deleted_once deleted_twice two-IsSound refl refl refl
      refl refl

-- The scanner is not to be had: the attachment is to be retried, whatever the publication would give.
verdict_unavailable :
    verdict reasons
      (Finding.unavailable (9 ∷ []))
      (some (record stored { status = AttachmentStatus.scanning }))
      (done published)
    ≡ Verdict.retries (9 ∷ [])
unfolding verdict verdict_of_finding new_attachment
verdict_unavailable = refl

abbrev job_left : AttachmentJob
job_left = record {
  attachment_id = 7;
  status = JobStatus.rejected;
  attempts = 2;
  next_attempt_at = 12;
  lease_expires_at = none;
  leased_by = none;
  last_error = some [];
  created_at = 12;
  updated_at = 14;
}

-- A second worker has rejected the attachment.
abbrev rejected : Db
rejected = record empty {
  attachments = record stored { status = AttachmentStatus.rejected } ∷ [];
  jobs = job_left ∷ [];
}

rejected-IsSound : IsSound rejected.storage rejected.attachments
unfolding stored_bytes all_settled has_item new_attachment
rejected-IsSound = record { balanced = refl; keyed = (refl, tt); settled = refl }

retry_or_reject_unbalances_example :
    (after : Db) × (retry_or_reject [] 7 [] 20 rejected ≡ done after)
    × (stored_bytes after.attachments ≡ reserved after.storage + 5)
unfolding find_item find_job new_attachment
retry_or_reject_unbalances_example =
    retry_or_reject_unbalances [] [] 7 20 (record stored { status = AttachmentStatus.rejected })
      job_left rejected rejected-IsSound refl refl refl refl refl
