-- ===== src/Uploads/Scan/Outcome.antt =====
-- How attachment_media.py settles an attachment: rejection, retries, and the outcome of a scan.
use littleorbit.Prelude.{
  ℕ, ◌+◌, ◌-◌, ◌*◌, ◌^◌, min, Bool, true, Option, none, some, List, [], ◌∷◌, ◌==◌, leb,
  if◌then◌else◌, Text,
}
use littleorbit.Pairing.{Couple}
use littleorbit.Storage.{AttachmentStatus, NoteAttachment, is_held, adjust_storage}
use littleorbit.Uploads.{
  Db, Result, done, refuses, Refusal, AttachmentJob, JobStatus, find_item, update_item, neg,
  adjusted,
}
use littleorbit.Uploads.Scan.{max_job_attempts, update_job, touched, is_scanning, couple_row}

abbrev pub rejected_item : Text → ℕ → NoteAttachment → NoteAttachment
rejected_item reason now a = record a {
  status = AttachmentStatus.rejected;
  rejection_reason = some reason;
  updated_at = now;
}

abbrev pub rejected_job : Text → ℕ → AttachmentJob → AttachmentJob
rejected_job reason now j = record j {
  status = JobStatus.rejected;
  last_error = some reason;
  lease_expires_at = none;
  leased_by = none;
  updated_at = now;
}

unfoldable pub reject_item : Text → ℕ → NoteAttachment → Db → Result Db
unfolding update_item update_job adjust_storage
reject_item reason now a db =
    let rejected = record db {
      attachments = update_item a.id (rejected_item reason now) db.attachments;
      jobs = update_job a.id (rejected_job reason now) db.jobs;
    } in
    if is_held a.status
    then adjusted (adjust_storage now (neg a.size_bytes) db.storage)
        (λ state. done (record rejected { storage = some state }))
    else done rejected

unfoldable pub reject_of : Text → ℕ → Option NoteAttachment → Option Couple → Db → Result Db
unfolding reject_item
reject_of reason now none c db = done db
reject_of reason now (some a) none db = done db
reject_of reason now (some a) (some c) db = reject_item reason now a db

-- _reject
unfoldable pub reject : ℕ → Text → ℕ → Db → Result Db
unfolding reject_of find_item
reject k reason now db =
    let item = find_item k db.attachments in
    reject_of reason now item (couple_row item db.couples) db

unfoldable pub find_job : ℕ → List AttachmentJob → Option AttachmentJob
find_job k [] = none
find_job k (j ∷ js) = if j.attachment_id == k then some j else find_job k js

-- min(300, 5 * (2 ** max(attempts - 1, 0))) seconds
pub retry_delay : ℕ → ℕ
retry_delay attempts = min 300 (5 * 2 ^ (attempts - 1)) * 1_000_000

abbrev pub deferred_job : Text → ℕ → AttachmentJob → AttachmentJob
unfolding retry_delay
deferred_job reason now j = record j {
  status = JobStatus.pending;
  next_attempt_at = now + retry_delay j.attempts;
  lease_expires_at = none;
  leased_by = none;
  last_error = some reason;
  updated_at = now;
}

abbrev pub is_used_up : AttachmentJob → Bool
is_used_up j = leb max_job_attempts j.attempts

unfoldable pub defer_item : Text → ℕ → ℕ → Db → Db
unfolding update_item update_job
defer_item reason now k db = record db {
  attachments = update_item k (touched AttachmentStatus.pending_scan now) db.attachments;
  jobs = update_job k (deferred_job reason now) db.jobs;
}

unfoldable pub retry_of :
    Text → Text → ℕ → ℕ → Option AttachmentJob → Option NoteAttachment → Db → Result Db
unfolding defer_item reject
retry_of limit reason now k none item db = done db
retry_of limit reason now k (some j) none db = done db
retry_of limit reason now k (some j) (some a) db =
    if is_used_up j then reject k limit now db else done (defer_item reason now k db)

-- _retry_or_reject; `limit` is the reason "retry_limit_exceeded"
unfoldable pub retry_or_reject : Text → ℕ → Text → ℕ → Db → Result Db
unfolding retry_of find_job find_item
retry_or_reject limit k reason now db =
    retry_of limit reason now k (find_job k db.jobs) (find_item k db.attachments) db

-- What `_process` finds of the bytes of one attachment: they are missing or changed, the scanner objects,
-- the sanitiser or its limit on sizes rejects them with a reason, another exception defers the job with
-- a reason, or they are clean and now have this hash and size.
pub data Finding : Type 0 where
  lost : Finding
  infected : Finding
  unavailable : (reason : Text) → Finding
  unfit : (reason : Text) → Finding
  clean : (hash : Text) → (size : ℕ) → Finding

-- The reasons with which `_process` and `scan_pending_once` reject and defer.
pub record Reasons : Type 0 where
  pub bytes_missing : Text
  pub malware : Text
  pub quota_after : Text
  pub retry_limit : Text
  pub processing_failed : Text

-- What `_process` comes to for one attachment, in its own transactions: it ends, or it raises
-- AttachmentRejected, or something else with which the job is to be retried.
pub data Verdict : Type 0 where
  ends : Verdict
  rejects : (reason : Text) → Verdict
  retries : (reason : Text) → Verdict

-- `_mark_available` gives True, gives False, or raises a RuntimeError.
unfoldable pub verdict_of_publication : Reasons → Result Db → Verdict
verdict_of_publication r (done db) = Verdict.ends
verdict_of_publication r (refuses Refusal.broken) = Verdict.retries r.processing_failed
verdict_of_publication r (refuses x) = Verdict.rejects r.quota_after

unfoldable pub verdict_of_finding : Reasons → Finding → Result Db → Verdict
unfolding verdict_of_publication
verdict_of_finding r lost published = Verdict.rejects r.bytes_missing
verdict_of_finding r infected published = Verdict.rejects r.malware
verdict_of_finding r (unavailable reason) published = Verdict.retries reason
verdict_of_finding r (unfit reason) published = Verdict.rejects reason
verdict_of_finding r (clean hash size) published = verdict_of_publication r published

-- `_process`, from the row that it read first, what it found of the bytes, and what `_mark_available`
-- gave at the time, if it came to that
unfoldable pub verdict : Reasons → Finding → Option NoteAttachment → Result Db → Verdict
unfolding verdict_of_finding
verdict r f none published = Verdict.ends
verdict r f (some a) published =
    if is_scanning a.status then verdict_of_finding r f published else Verdict.ends

-- What `scan_pending_once` makes of it in further transactions, which do not look whether the row is
-- still being scanned.
unfoldable pub follow : Reasons → ℕ → ℕ → Verdict → Db → Result Db
unfolding reject retry_or_reject
follow r k now Verdict.ends db = done db
follow r k now (Verdict.rejects reason) db = reject k reason now db
follow r k now (Verdict.retries reason) db = retry_or_reject r.retry_limit k reason now db

-- The row, if there is one, holds its bytes.
abbrev pub is_retained : Option NoteAttachment → Bool
is_retained none = true
is_retained (some a) = is_held a.status

-- A retry finds a row that holds its bytes; an end and a rejection may find any.
abbrev pub is_timely : Verdict → Option NoteAttachment → Bool
is_timely (Verdict.retries reason) o = is_retained o
is_timely v o = true
