-- ===== src/Uploads/Scan.antt =====
-- The worker of attachment_media.py: it claims a job, has the bytes scanned and sanitised, and settles
-- the attachment, each in a transaction of its own. The scanner and the sanitiser (ClamAV, Pillow and
-- others) are parameters: what they find is the outcome of the work.
pub mod Outcome
use littleorbit.Prelude.{
  ℕ, ◌+◌, ◌-◌, ◌*◌, ◌^◌, min, Bool, true, false, not, ◌&&◌, ◌||◌, Option, none, some, List, [], ◌∷◌,
  ◌==◌, ltb, leb, if◌then◌else◌, is_some, is_none, Text,
}
use littleorbit.Activity.{Entry, Kind, record_activity}
use littleorbit.Pairing.{Couple, find_couple}
use littleorbit.Storage.{AttachmentStatus, NoteAttachment, is_held, counts, adjust_storage}
use littleorbit.Uploads.{
  Db, Result, done, refuses, Refusal, AttachmentJob, JobStatus, find_item, update_item, neg, minus,
  adjusted, couple_quota_bytes,
}

abbrev pub max_job_attempts : ℕ
max_job_attempts = 8

abbrev pub ten_minutes : ℕ
ten_minutes = 600_000_000

-- _job_is_ready
abbrev pub job_is_ready : ℕ → AttachmentJob → Bool
job_is_ready now j = elim j.status [
  | JobStatus.pending ↦ leb j.next_attempt_at now
  | JobStatus.leased ↦ (elim j.lease_expires_at [ none ↦ false | some t ↦ leb t now ])
  | _ ↦ false
]

abbrev pub awaits_scan : AttachmentStatus → Bool
awaits_scan AttachmentStatus.pending_scan = true
awaits_scan AttachmentStatus.scanning = true
awaits_scan s = false

abbrev pub is_scannable : Option NoteAttachment → Bool
is_scannable none = false
is_scannable (some a) = is_none a.deleted_at && awaits_scan a.status

-- The rows of the query of `_claim_ready`; `locked` are the jobs that other transactions hold.
unfoldable pub is_claimable : (ℕ → Bool) → ℕ → List NoteAttachment → AttachmentJob → Bool
unfolding find_item
is_claimable locked now rows j =
    job_is_ready now j
    && ltb j.attempts max_job_attempts
    && is_scannable (find_item j.attachment_id rows)
    && not (locked j.attachment_id)

-- order_by(next_attempt_at, created_at)
abbrev pub job_before : AttachmentJob → AttachmentJob → Bool
job_before a b =
    ltb a.next_attempt_at b.next_attempt_at
    || (a.next_attempt_at == b.next_attempt_at && ltb a.created_at b.created_at)

abbrev pub sooner : AttachmentJob → Option AttachmentJob → Option AttachmentJob
sooner j none = some j
sooner j (some k) = if job_before k j then some k else some j

unfoldable pub next_job :
    (ℕ → Bool) → ℕ → List NoteAttachment → List AttachmentJob → Option AttachmentJob
unfolding is_claimable
next_job locked now rows [] = none
next_job locked now rows (j ∷ js) =
    let rest = next_job locked now rows js in
    if is_claimable locked now rows j then sooner j rest else rest

unfoldable pub update_job :
    ℕ → (AttachmentJob → AttachmentJob) → List AttachmentJob → List AttachmentJob
update_job k f [] = []
update_job k f (j ∷ js) = (if j.attachment_id == k then f j else j) ∷ update_job k f js

abbrev pub leased_job : ℕ → ℕ → AttachmentJob → AttachmentJob
leased_job now worker j = record j {
  status = JobStatus.leased;
  attempts = j.attempts + 1;
  lease_expires_at = some (now + ten_minutes);
  leased_by = some worker;
  updated_at = now;
}

abbrev pub touched : AttachmentStatus → ℕ → NoteAttachment → NoteAttachment
touched s now a = record a { status = s; updated_at = now }

unfoldable pub claim_job : ℕ → ℕ → Option AttachmentJob → Db → Option ℕ × Db
unfolding update_job update_item
claim_job now worker none db = (none, db)
claim_job now worker (some j) db = (
  some j.attachment_id,
  record db {
    attachments =
        update_item j.attachment_id (touched AttachmentStatus.scanning now) db.attachments;
    jobs = update_job j.attachment_id (leased_job now worker) db.jobs;
  },
)

-- _claim_ready
unfoldable pub claim_ready : (ℕ → Bool) → ℕ → ℕ → Db → Option ℕ × Db
unfolding next_job claim_job
claim_ready locked now worker db =
    claim_job now worker (next_job locked now db.attachments db.jobs) db

-- _couple_reserved_except
unfoldable pub couple_reserved_except : ℕ → ℕ → List NoteAttachment → ℕ
couple_reserved_except c k [] = 0
couple_reserved_except c k (a ∷ rows) =
    (if a.couple_id == c && (counts a && not (a.id == k)) then a.size_bytes else 0)
    + couple_reserved_except c k rows

-- _complete_item
abbrev pub complete_item : Text → ℕ → ℕ → NoteAttachment → NoteAttachment
complete_item hash size now a = record a {
  status = AttachmentStatus.available;
  sha256 = hash;
  size_bytes = size;
  uploaded_bytes = size;
  scanned_at = some now;
  updated_at = now;
}

-- _complete_job
abbrev pub complete_job : ℕ → AttachmentJob → AttachmentJob
complete_job now j = record j {
  status = JobStatus.completed;
  lease_expires_at = none;
  leased_by = none;
  last_error = none;
  updated_at = now;
}

-- The event `attachment:available:...`, whose key is a parameter.
abbrev pub available_entry : Text → ℕ → NoteAttachment → Entry
available_entry key now a = record {
  couple_id = a.couple_id;
  actor_id = a.uploaded_by;
  kind = Kind.attachment_available;
  dedupe_key = key;
  target = record { target_id = some a.note_id; target_title = none; emoji = none };
  now = now;
}

abbrev pub is_scanning : AttachmentStatus → Bool
is_scanning AttachmentStatus.scanning = true
is_scanning s = false

abbrev pub has_ended : Couple → Bool
has_ended c = is_some c.ended_at

unfoldable pub publish_item : Text → Text → ℕ → ℕ → Couple → NoteAttachment → Db → Result Db
unfolding update_item update_job couple_reserved_except adjust_storage
publish_item key hash size now c a db =
    if ltb couple_quota_bytes (couple_reserved_except c.id a.id db.attachments + size)
    then refuses Refusal.quota_exceeded
    else adjusted (adjust_storage now (minus size a.size_bytes) db.storage) (λ state.
      done (record db {
        storage = some state;
        attachments = update_item a.id (complete_item hash size now) db.attachments;
        jobs = update_job a.id (complete_job now) db.jobs;
        events =
            if has_ended c
            then db.events
            else record_activity (available_entry key now a) db.events;
      }))

unfoldable pub mark_of :
    Text → Text → ℕ → ℕ → Option NoteAttachment → Option Couple → Db → Result Db
unfolding publish_item
mark_of key hash size now none c db = refuses Refusal.not_found
mark_of key hash size now (some a) none db = refuses Refusal.not_found
mark_of key hash size now (some a) (some c) db =
    if not (is_scanning a.status)
    then refuses Refusal.not_found
    else publish_item key hash size now c a db

abbrev pub couple_row : Option NoteAttachment → List Couple → Option Couple
unfolding find_couple
couple_row none couples = none
couple_row (some a) couples = find_couple a.couple_id couples

-- `_mark_available`: it gives the new tables, or False
unfoldable pub mark_available : Text → ℕ → Text → ℕ → ℕ → Db → Result Db
unfolding mark_of find_item
mark_available key k hash size now db =
    let item = find_item k db.attachments in
    mark_of key hash size now item (couple_row item db.couples) db
