-- ===== src/Uploads/Settling.antt =====
-- The settling of attachments in attachment_media.py: what its transactions keep of the storage row and
-- the attachments.
use littleorbit.Prelude.{
  ℕ, ◌+◌, ◌≡◌, refl, sym, subst, true, Option, none, some, ltb, is_none, Text, arith, Bool-cases,
  Option-cases, inl, inr,
}
use littleorbit.Pairing.{Couple}
use littleorbit.Storage.{AttachmentStatus, NoteAttachment, is_held, adjust_storage}
use littleorbit.Uploads.{Db, AttachmentJob, find_item, neg, minus, couple_quota_bytes}
use littleorbit.Uploads.Balance.{
  update_item-IsSound, settled_of, adjust_storage-neg, adjust_storage-minus,
}
use littleorbit.Uploads.Steps.{IsSoundDb, IsSoundResult, adjusted-IsSound}
use littleorbit.Uploads.Scan.{
  touched, complete_item, publish_item, mark_of, mark_available, couple_row, is_scanning,
  couple_reserved_except,
}
use littleorbit.Uploads.Scan.Outcome.{
  rejected_item, reject_item, reject_of, reject, defer_item, retry_of, retry_or_reject, Reasons,
  find_job, is_used_up, Verdict, follow, is_timely, is_retained,
}

-- The attachment as a transaction finds it under its locks.
pub record IsFound (k : ℕ) (a : NoteAttachment) (db : Db) : Type 0 where
  pub found : find_item k db.attachments ≡ some a
  pub sound : IsSoundDb db

is_scanning-held : (s : AttachmentStatus) → is_scanning s ≡ true → is_held s ≡ true
is_scanning-held AttachmentStatus.scanning h = refl
is_scanning-held s h = ground arith

IsFound-self :
    (k : ℕ) (a : NoteAttachment) (db : Db) → IsFound k a db → find_item a.id db.attachments ≡ some a
IsFound-self k a db h =
    let (set, i) = settled_of k db.attachments a h.found h.sound.settled in
    subst (λ x. find_item x db.attachments ≡ some a) (sym i) h.found

-- A row that holds bytes is not deleted.
IsFound-live :
    (k : ℕ) (a : NoteAttachment) (db : Db)
    → IsFound k a db
    → is_held a.status ≡ true
    → is_none a.deleted_at ≡ true
IsFound-live k a db h held =
    let (set, i) = settled_of k db.attachments a h.found h.sound.settled in ground arith

reject_item-IsSound :
    (reason : Text) (now k : ℕ) (a : NoteAttachment) (db : Db)
    → IsFound k a db
    → IsSoundResult (reject_item reason now a db)
unfolding reject_item
reject_item-IsSound reason now k a db h =
    let e = IsFound-self k a db h in
    elim (Bool-cases (is_held a.status)) [
      | inl held ↦
          let live = IsFound-live k a db h held in
          rw held (
            adjusted-IsSound (adjust_storage now (neg a.size_bytes) db.storage) _ (λ s back.
              update_item-IsSound a.id (rejected_item reason now) db.storage (some s) db.attachments
                a (λ x. refl) e (ground arith)
                (ground (arith, adjust_storage-neg now a.size_bytes db.storage s back)) h.sound))
      | inr released ↦ rw released (
          update_item-IsSound a.id (rejected_item reason now) db.storage db.storage db.attachments a
            (λ x. refl) e (ground arith) (ground arith) h.sound)
    ]

reject_of-IsSound :
    (reason : Text) (now k : ℕ) (a : NoteAttachment) (o : Option Couple) (db : Db)
    → IsFound k a db
    → IsSoundResult (reject_of reason now (some a) o db)
unfolding reject_of
reject_of-IsSound reason now k a none db h = h.sound
reject_of-IsSound reason now k a (some c) db h = reject_item-IsSound reason now k a db h

-- A rejection, whatever the row's status has become by then.
pub reject-IsSound :
    (reason : Text) (now k : ℕ) (db : Db) → IsSoundDb db → IsSoundResult (reject k reason now db)
unfolding reject reject_of
reject-IsSound reason now k db h = elim (Option-cases (find_item k db.attachments)) [
  | inl gone ↦ rw gone h
  | inr (a, e) ↦ rw e (
      reject_of-IsSound reason now k a (couple_row (some a) db.couples) db
        (record { found = e; sound = h }))
]

publish_item-IsSound :
    (key hash : Text) (size now k : ℕ) (c : Couple) (a : NoteAttachment) (db : Db)
    → IsFound k a db
    → is_scanning a.status ≡ true
    → IsSoundResult (publish_item key hash size now c a db)
unfolding publish_item
publish_item-IsSound key hash size now k c a db h scanning =
    let held = is_scanning-held a.status scanning in
    let live = IsFound-live k a db h held in
    let e = IsFound-self k a db h in
    elim (Bool-cases
      (ltb couple_quota_bytes (couple_reserved_except c.id a.id db.attachments + size))) [
        | inl over ↦ rw over tt
        | inr fits ↦ rw fits (
            adjusted-IsSound (adjust_storage now (minus size a.size_bytes) db.storage) _ (λ s back.
              update_item-IsSound a.id (complete_item hash size now) db.storage (some s)
                db.attachments a (λ x. refl) e (ground arith)
                (ground (arith, adjust_storage-minus now size a.size_bytes db.storage s back))
                h.sound))
      ]

mark_of-IsSound :
    (key hash : Text) (size now k : ℕ) (a : NoteAttachment) (o : Option Couple) (db : Db)
    → IsFound k a db
    → IsSoundResult (mark_of key hash size now (some a) o db)
unfolding mark_of
mark_of-IsSound key hash size now k a none db h = tt
mark_of-IsSound key hash size now k a (some c) db h = elim (Bool-cases (is_scanning a.status)) [
  | inl scanning ↦ rw scanning (publish_item-IsSound key hash size now k c a db h scanning)
  | inr other ↦ rw other tt
]

-- A publication, which checks the status itself.
pub mark_available-IsSound :
    (key : Text) (k : ℕ) (hash : Text) (size now : ℕ) (db : Db)
    → IsSoundDb db
    → IsSoundResult (mark_available key k hash size now db)
unfolding mark_available mark_of
mark_available-IsSound key k hash size now db h = elim (Option-cases (find_item k db.attachments)) [
  | inl gone ↦ rw gone tt
  | inr (a, e) ↦ rw e (
      mark_of-IsSound key hash size now k a (couple_row (some a) db.couples) db
        (record { found = e; sound = h }))
]

defer_item-IsSound :
    (reason : Text) (now k : ℕ) (a : NoteAttachment) (db : Db)
    → IsFound k a db
    → is_held a.status ≡ true
    → IsSoundDb (defer_item reason now k db)
unfolding defer_item
defer_item-IsSound reason now k a db h held =
    let live = IsFound-live k a db h held in
    update_item-IsSound k (touched AttachmentStatus.pending_scan now) db.storage db.storage
      db.attachments a (λ x. refl) h.found (ground arith) (ground arith) h.sound

retry_of-IsSound :
    (limit reason : Text) (now k : ℕ) (o : Option AttachmentJob) (a : NoteAttachment) (db : Db)
    → IsFound k a db
    → is_held a.status ≡ true
    → IsSoundResult (retry_of limit reason now k o (some a) db)
unfolding retry_of
retry_of-IsSound limit reason now k none a db h held = h.sound
retry_of-IsSound limit reason now k (some j) a db h held = elim (Bool-cases (is_used_up j)) [
  | inl used ↦ rw used (reject-IsSound limit now k db h.sound)
  | inr left ↦ rw left (defer_item-IsSound reason now k a db h held)
]

retry_of-missing :
    (limit reason : Text) (now k : ℕ) (o : Option AttachmentJob) (db : Db)
    → IsSoundDb db
    → IsSoundResult (retry_of limit reason now k o none db)
unfolding retry_of
retry_of-missing limit reason now k none db h = h
retry_of-missing limit reason now k (some j) db h = h

-- A retry of an attachment that still holds its bytes, or whose row is gone.
pub retry_or_reject-IsSound :
    (limit : Text) (k : ℕ) (reason : Text) (now : ℕ) (db : Db)
    → is_retained (find_item k db.attachments) ≡ true
    → IsSoundDb db
    → IsSoundResult (retry_or_reject limit k reason now db)
unfolding retry_or_reject
retry_or_reject-IsSound limit k reason now db held h =
    elim (Option-cases (find_item k db.attachments)) [
      | inl gone ↦ rw gone (retry_of-missing limit reason now k (find_job k db.jobs) db h)
      | inr (a, e) ↦ rw e (
          retry_of-IsSound limit reason now k (find_job k db.jobs) a db
            (record { found = e; sound = h }) (rw e at held))
    ]

-- Where the worker rejects or retries, at whatever moment it does so.
pub follow-IsSound :
    (r : Reasons) (k now : ℕ) (v : Verdict) (db : Db)
    → is_timely v (find_item k db.attachments) ≡ true
    → IsSoundDb db
    → IsSoundResult (follow r k now v db)
unfolding follow
follow-IsSound r k now Verdict.ends db t h = h
follow-IsSound r k now (Verdict.rejects reason) db t h = reject-IsSound reason now k db h
follow-IsSound r k now (Verdict.retries reason) db t h =
    retry_or_reject-IsSound r.retry_limit k reason now db t h
