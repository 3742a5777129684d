-- ===== src/Uploads/Uploading.antt =====
-- The creation of an attachment and the chunks of its upload: what they keep of the storage row and the
-- attachments.
use littleorbit.Prelude.{
  ℕ, ◌+◌, ◌≡◌, refl, sym, subst, Bool, true, false, Option, none, some, List, ◌==◌, ltb, leb, Text,
  Bool-cases, inl, inr, length,
}
use littleorbit.Pairing.{Couple, Response, answers, fails, lock_couple}
use littleorbit.Storage.{
  AttachmentStorageState, Accounted, returns, raises, NoteAttachment, reserve_storage,
}
use littleorbit.Uploads.{
  Db, Disk, Upload, AttachmentCreateRequest, Result, done, refuses, Refusal, refusal_of, find_item,
  new_attachment, add_attachment, reserve_upload_capacity, while_active, create_named, create_with,
  create_attachment, prior_upload, same_upload, validated_file_name, is_uploading, couple_bytes,
  active_uploads, couple_quota_bytes, max_concurrent_uploads_per_couple,
}
use littleorbit.Uploads.Chunks.{
  finish_chunk, append_chunk, append_to, upload_to, upload_attachment_chunk, validate_chunk,
}
use littleorbit.Uploads.Balance.{
  has_item, reserved, settled_of, append-IsSound, reserve_storage-returns,
}
use littleorbit.Uploads.Steps.{IsSoundDb, IsSoundResult, finish_chunk-IsSound}

-- The same of a handler that also answers with something.
abbrev pub IsSoundAnswer {ℓ} : {A : Type ℓ} → Result (A × Db) → Type 0
IsSoundAnswer (done (x, db)) = IsSoundDb db
IsSoundAnswer (refuses r) = Unit {0}

-- What `reserve_upload_capacity` gives has room for the new bytes.
IsReserved : ℕ → Option AttachmentStorageState → Result AttachmentStorageState → Type 0
IsReserved n old (done s) = s.reserved_bytes ≡ reserved old + n
IsReserved n old (refuses r) = Unit {0}

add_attachment-IsSound :
    (u : Upload) (p : AttachmentCreateRequest) (file_name : Text) (db : Db)
    (o : Result AttachmentStorageState)
    → has_item u.id db.attachments ≡ false
    → IsReserved p.size_bytes db.storage o
    → IsSoundDb db
    → IsSoundAnswer (add_attachment u p file_name db o)
unfolding add_attachment IsReserved
add_attachment-IsSound u p file_name db (refuses r) fresh i h = tt
add_attachment-IsSound u p file_name db (done s) fresh i h =
    append-IsSound (new_attachment u p file_name) db.storage (some s) db.attachments fresh refl i h

reserve_storage-IsReserved :
    (now n : ℕ) (o : Option AttachmentStorageState) (a : Accounted)
    → reserve_storage now n o ≡ a
    → IsReserved n o (elim a [
      | returns state ↦ done state
      | raises f ↦ refuses (refusal_of Refusal.storage_full f)
    ])
unfolding IsReserved
reserve_storage-IsReserved now n o (returns s) e = reserve_storage-returns now n o s e
reserve_storage-IsReserved now n o (raises f) e = tt

reserve_upload_capacity-IsReserved :
    (disk : Disk) (now c n : ℕ) (db : Db)
    → IsReserved n db.storage (reserve_upload_capacity disk now c n db)
unfolding reserve_upload_capacity IsReserved
reserve_upload_capacity-IsReserved disk now c n db =
    elim (Bool-cases (leb max_concurrent_uploads_per_couple (active_uploads c db.attachments))) [
      | inl many ↦ rw many tt
      | inr few ↦ elim (Bool-cases (ltb couple_quota_bytes (couple_bytes c db.attachments + n))) [
        | inl over ↦ rw (few, over) tt
        | inr under ↦ elim (Bool-cases (disk.has_upload_capacity n)) [
          | inl room ↦
              rw (few, under, room)
                (reserve_storage-IsReserved now n db.storage (reserve_storage now n db.storage)
                  refl)
          | inr full ↦ rw (few, under, full) tt
        ]
      ]
    ]

create_with-IsSound :
    (disk : Disk) (u : Upload) (p : AttachmentCreateRequest) (file_name : Text)
    (o : Option NoteAttachment) (db : Db)
    → has_item u.id db.attachments ≡ false
    → IsSoundDb db
    → IsSoundAnswer (create_with disk u p file_name o db)
unfolding create_with
create_with-IsSound disk u p file_name none db fresh h =
    add_attachment-IsSound u p file_name db
      (reserve_upload_capacity disk u.now u.couple_id p.size_bytes db) fresh
      (reserve_upload_capacity-IsReserved disk u.now u.couple_id p.size_bytes db) h
create_with-IsSound disk u p file_name (some a) db fresh h =
    elim (Bool-cases (same_upload a p file_name)) [ inl same ↦ rw same h | inr other ↦ rw other tt ]

create_named-IsSound :
    (disk : Disk) (u : Upload) (p : AttachmentCreateRequest) (o : Option Text) (db : Db)
    → has_item u.id db.attachments ≡ false
    → IsSoundDb db
    → IsSoundAnswer (create_named disk u p o db)
unfolding create_named
create_named-IsSound disk u p none db fresh h = tt
create_named-IsSound disk u p (some file_name) db fresh h =
    create_with-IsSound disk u p file_name (prior_upload u.note_id p.operation_id db.attachments) db
      fresh h

while_active-IsSoundAnswer {ℓ} :
    {A : Type ℓ} (o : Response Couple) (r : Result (A × Db))
    → IsSoundAnswer r
    → IsSoundAnswer (while_active o r)
while_active-IsSoundAnswer (answers c) r h = h
while_active-IsSoundAnswer (fails s) r h = tt

pub create_attachment-IsSound :
    (disk : Disk) (u : Upload) (p : AttachmentCreateRequest) (db : Db)
    → has_item u.id db.attachments ≡ false
    → IsSoundDb db
    → IsSoundAnswer (create_attachment disk u p db)
unfolding create_attachment
create_attachment-IsSound disk u p db fresh h =
    while_active-IsSoundAnswer (lock_couple u.couple_id db.couples) _
      (create_named-IsSound disk u p (validated_file_name disk p) db fresh h)

with_file-IsSound :
    (o : Result Db) (file : List ℕ)
    → IsSoundResult o
    → IsSoundAnswer {A = List ℕ} (elim o [ done next ↦ done (file, next) | refuses r ↦ refuses r ])
with_file-IsSound (done db) file h = h
with_file-IsSound (refuses r) file h = tt

append_to-IsSound :
    (now : ℕ) (body : List ℕ) (sound : List ℕ → Bool) (a : NoteAttachment) (db : Db)
    (o : Option (List ℕ))
    → find_item a.id db.attachments ≡ some a
    → is_uploading a.status ≡ true
    → IsSoundDb db
    → IsSoundAnswer (append_to now body sound a db o)
unfolding append_to
append_to-IsSound now body sound a db none e up h = tt
append_to-IsSound now body sound a db (some file) e up h =
    with_file-IsSound (finish_chunk now (length body) (sound file) a db) file
      (finish_chunk-IsSound now (length body) (sound file) a db e up h)

upload_to-IsSound :
    (now offset : ℕ) (body : List ℕ) (sound : List ℕ → Bool) (stored : List ℕ) (k : ℕ)
    (o : Option NoteAttachment) (db : Db)
    → find_item k db.attachments ≡ o
    → IsSoundDb db
    → IsSoundAnswer (upload_to now offset body sound stored o db)
unfolding upload_to
upload_to-IsSound now offset body sound stored k none db e h = tt
upload_to-IsSound now offset body sound stored k (some a) db e h =
    let (set, i) = settled_of k db.attachments a e h.settled in
    elim (Bool-cases (is_uploading a.status)) [
      | inl up ↦ elim (Bool-cases (offset == a.uploaded_bytes)) [
        | inl next ↦ elim (Bool-cases (validate_chunk offset (length body) a.size_bytes)) [
          | inl fits ↦
              rw (up, next, fits)
                (append_to-IsSound now body sound a db (append_chunk stored offset body)
                  (subst (λ x. find_item x db.attachments ≡ some a) (sym i) e) up h)
          | inr bad ↦ rw (up, next, bad) tt
        ]
        | inr wrong ↦ rw (up, wrong) tt
      ]
      | inr ended ↦ rw ended tt
    ]

pub upload_attachment_chunk-IsSound :
    (c k now offset : ℕ) (body : List ℕ) (sound : List ℕ → Bool) (stored : List ℕ) (db : Db)
    → IsSoundDb db
    → IsSoundAnswer (upload_attachment_chunk c k now offset body sound stored db)
unfolding upload_attachment_chunk
upload_attachment_chunk-IsSound c k now offset body sound stored db h =
    while_active-IsSoundAnswer (lock_couple c db.couples) _
      (upload_to-IsSound now offset body sound stored k (find_item k db.attachments) db refl h)
