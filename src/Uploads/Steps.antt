-- ===== src/Uploads/Steps.antt =====
-- One lemma for each transaction of routes/attachments.py and attachment_media.py: what it keeps of
-- the storage row and the attachments.
use littleorbit.Prelude.{
  ℕ, ◌+◌, ◌≡◌, refl, Bool, true, not, some, ◌==◌, is_none, arith, Bool-cases, inl, inr,
}
use littleorbit.Pairing.{Couple, Response, answers, fails, lock_couple}
use littleorbit.Storage.{
  AttachmentStorageState, Accounted, returns, raises, AttachmentStatus, NoteAttachment, is_held,
  adjust_storage,
}
use littleorbit.Uploads.{
  Db, Result, done, refuses, find_item, neg, adjusted, while_active, is_uploading,
}
use littleorbit.Uploads.Chunks.{
  deleted_item, delete_item, delete_attachment, grown, with_status, mismatched, finish_chunk,
}
use littleorbit.Uploads.Balance.{IsSound, update_item-IsSound, settled_of, adjust_storage-neg}

-- The tables of `db` are sound.
abbrev pub IsSoundDb : Db → Type 0
IsSoundDb db = IsSound db.storage db.attachments

-- A result that is there has sound tables.
abbrev pub IsSoundResult : Result Db → Type 0
IsSoundResult (done db) = IsSoundDb db
IsSoundResult (refuses r) = Unit {0}

pub adjusted-IsSound :
    (o : Accounted) (rest : AttachmentStorageState → Result Db)
    → ((s : AttachmentStorageState) → o ≡ returns s → IsSoundResult (rest s))
    → IsSoundResult (adjusted o rest)
adjusted-IsSound (returns s) rest h = h s refl
adjusted-IsSound (raises f) rest h = tt

-- A couple that has ended stops the handler.
pub while_active-IsSound :
    (o : Response Couple) (r : Result Db) → IsSoundResult r → IsSoundResult (while_active o r)
while_active-IsSound (answers c) r h = h
while_active-IsSound (fails s) r h = tt

pub delete_item-IsSound :
    (now : ℕ) (a : NoteAttachment) (db : Db)
    → find_item a.id db.attachments ≡ some a
    → is_none a.deleted_at ≡ true
    → IsSoundDb db
    → IsSoundResult (delete_item now a db)
unfolding delete_item
delete_item-IsSound now a db e live h = elim (Bool-cases (is_held a.status)) [
  | inl held ↦ rw held (
      adjusted-IsSound (adjust_storage now (neg a.size_bytes) db.storage) _ (λ s back.
        update_item-IsSound a.id (deleted_item now) db.storage (some s) db.attachments a (λ x. refl)
          e refl (ground (arith, adjust_storage-neg now a.size_bytes db.storage s back)) h))
  | inr free ↦ rw free (
      update_item-IsSound a.id (deleted_item now) db.storage db.storage db.attachments a (λ x. refl)
        e refl (ground arith) h)
]

pub delete_attachment-IsSound :
    (now : ℕ) (a : NoteAttachment) (db : Db)
    → find_item a.id db.attachments ≡ some a
    → is_none a.deleted_at ≡ true
    → IsSoundDb db
    → IsSoundResult (delete_attachment now a db)
unfolding delete_attachment
delete_attachment-IsSound now a db e live h =
    while_active-IsSound (lock_couple a.couple_id db.couples) (delete_item now a db)
      (delete_item-IsSound now a db e live h)

is_uploading-held : (s : AttachmentStatus) → is_uploading s ≡ true → is_held s ≡ true
is_uploading-held AttachmentStatus.uploading h = refl
is_uploading-held s h = ground arith

pub finish_chunk-IsSound :
    (now n : ℕ) (sound : Bool) (a : NoteAttachment) (db : Db)
    → find_item a.id db.attachments ≡ some a
    → is_uploading a.status ≡ true
    → IsSoundDb db
    → IsSoundResult (finish_chunk now n sound a db)
unfolding finish_chunk
finish_chunk-IsSound now n sound a db e up h =
    let (set, i) = settled_of a.id db.attachments a e h.settled in
    let held = is_uploading-held a.status up in
    elim (Bool-cases (not (a.uploaded_bytes + n == a.size_bytes))) [
      | inl more ↦ rw more (
          update_item-IsSound a.id (grown now n) db.storage db.storage db.attachments a (λ x. refl)
            e set (omega arith) h)
      | inr last ↦ elim (Bool-cases sound) [
        | inl good ↦
            rw (last, good)
              (update_item-IsSound a.id
                (λ x. with_status AttachmentStatus.pending_scan (grown now n x)) db.storage
                db.storage db.attachments a (λ x. refl) e (ground arith) (ground arith) h)
        | inr bad ↦
            rw (last, bad)
              (adjusted-IsSound (adjust_storage now (neg a.size_bytes) db.storage) _ (λ s back.
                update_item-IsSound a.id (mismatched now n) db.storage (some s) db.attachments a
                  (λ x. refl) e (ground arith)
                  (ground (arith, adjust_storage-neg now a.size_bytes db.storage s back)) h))
      ]
    ]
