-- ===== src/Note/Live.antt =====
-- services/api/src/little_orbit_api/note_edit_service.py: one live edit inside the transaction that
-- holds the couple's and the note's locks (`_apply_locked` and what it calls).
pub mod History
pub mod Accepts
use littleorbit.Prelude.{
  ℕ, zero, suc, ◌+◌, Bool, true, false, not, Option, none, some, List, [], ◌∷◌, ◌++◌, Text, text_eq,
  length, keep, ltb, leb, ◌==◌, if◌then◌else◌,
}
use littleorbit.Activity.{Event, Entry, Kind, record_activity}
use littleorbit.Note.Edit.{
  Edit, insert, delete, Applied, ok, raises, fields_mismatch, stored_shape, ◌>>=◌, transform,
  apply_non_empty_edit,
}

-- The JSON field "kind": one of the two known words, or anything else.
pub data EditKind : Type 0 where
  insert_kind delete_kind other_kind : EditKind

-- NoteEditMessage
pub record Message : Type 0 where
  pub operation_id : ℕ
  pub base_revision : ℕ
  pub kind : EditKind
  pub position : ℕ
  pub text : Option Text
  pub span : Option ℕ

-- The stored JSON of an edit: a field that is missing or of another type is `none`.
pub record Payload : Type 0 where
  pub kind : EditKind
  pub position : Option ℕ
  pub text : Option Text
  pub span : Option ℕ

pub record NoteRow : Type 0 where
  pub note_id : ℕ
  pub title : Text
  pub body : Text
  pub revision : ℕ
  pub updated_at : ℕ

pub record Operation : Type 0 where
  pub operation_id : ℕ
  pub actor_id : ℕ
  pub base_revision : ℕ
  pub resulting_revision : ℕ
  pub edit : Payload
  pub applied_at : ℕ

-- What the transaction reads and writes: the row of the note, its operations, the activity table.
pub record Db : Type 0 where
  pub note : Option NoteRow
  pub operations : List Operation
  pub events : List Event

pub data Reply : Type 0 where
  ack :
      (operation_id revision : ℕ) (body : Text) (transformed duplicate : Bool) (notify : Option ℕ)
      → Reply
  conflict : (revision : ℕ) (body : Text) → Reply

-- The call's arguments, the clock, the formatted dedupe key `note:edit:{operation_id}`, and the
-- account that `enqueue_note_edit_event` of notification_service.py reports.
pub record Call : Type 0 where
  pub account_id : ℕ
  pub couple_id : ℕ
  pub now : ℕ
  pub edit_key : Text
  pub notified : Option ℕ

-- _parse_edit
parse_fields : EditKind → ℕ → Option Text → Option ℕ → Applied Edit
parse_fields insert_kind p (some (c ∷ t)) n = ok (insert p (c ∷ t))
parse_fields delete_kind p t (some (suc n)) = ok (delete p (suc n))
parse_fields k p t n = raises fields_mismatch

unfoldable pub parse_edit : Message → Applied Edit
unfolding parse_fields
parse_edit m = parse_fields m.kind m.position m.text m.span

-- _stored_edit
pub stored_edit : Edit → Payload
stored_edit (insert p t) = record {
  kind = insert_kind;
  position = some p;
  text = some t;
  span = none;
}
stored_edit (delete p n) = record {
  kind = delete_kind;
  position = some p;
  text = none;
  span = some n;
}

-- _restore_edit
restore_fields : EditKind → Option ℕ → Option Text → Option ℕ → Applied Edit
restore_fields k none t n = raises stored_shape
restore_fields insert_kind (some p) (some t) n = ok (insert p t)
restore_fields delete_kind (some p) t (some n) = ok (delete p n)
restore_fields k (some p) t n = raises stored_shape

unfoldable pub restore_edit : Payload → Applied Edit
unfolding restore_fields
restore_edit j = restore_fields j.kind j.position j.text j.span

-- where(NoteOperation.operation_id == message.operation_id)
unfoldable pub find_operation : ℕ → List Operation → Option Operation
find_operation k [] = none
find_operation k (o ∷ os) = if o.operation_id == k then some o else find_operation k os

-- order_by(NoteOperation.resulting_revision)
pub insert_by_revision : Operation → List Operation → List Operation
insert_by_revision o [] = o ∷ []
insert_by_revision o (x ∷ xs) =
    if leb o.resulting_revision x.resulting_revision
    then o ∷ x ∷ xs
    else x ∷ insert_by_revision o xs

pub by_revision : List Operation → List Operation
unfolding insert_by_revision
by_revision [] = []
by_revision (o ∷ os) = insert_by_revision o (by_revision os)

-- the loop of `_transform_since`
pub transform_all : ℕ → Edit → List Operation → Applied Edit
transform_all k e [] = ok e
transform_all k e (o ∷ os) = restore_edit o.edit >>= λ applied.
    transform_all k (transform e applied (ltb k o.operation_id)) os

-- _transform_since
unfoldable pub transform_since : NoteRow → List Operation → Message → Edit → Applied (Option Edit)
unfolding by_revision transform_all
transform_since note ops m incoming =
    if m.base_revision == note.revision
    then ok (some incoming)
    else (let operations = by_revision (keep (λ o. ltb m.base_revision o.resulting_revision) ops) in
        if not (length operations + m.base_revision == note.revision)
        then ok none
        else transform_all m.operation_id incoming operations >>= λ e. ok (some e))

-- _duplicate_ack
pub duplicate_ack : Operation → Option NoteRow → Message → Reply
duplicate_ack o none m =
    ack m.operation_id o.resulting_revision [] (not (o.base_revision + 1 == o.resulting_revision))
      true none
duplicate_ack o (some n) m =
    ack m.operation_id n.revision n.body (not (o.base_revision + 1 == o.resulting_revision)) true
      none

-- _conflict
pub conflict_with : Option NoteRow → Reply
conflict_with none = conflict 0 []
conflict_with (some n) = conflict n.revision n.body

-- _operation
pub new_operation : Call → Message → NoteRow → Edit → Operation
unfolding stored_edit
new_operation c m note e = record {
  operation_id = m.operation_id;
  actor_id = c.account_id;
  base_revision = m.base_revision;
  resulting_revision = note.revision;
  edit = stored_edit e;
  applied_at = c.now;
}

pub edit_entry : Call → NoteRow → Entry
edit_entry c note = record {
  couple_id = c.couple_id;
  actor_id = some c.account_id;
  kind = Kind.note_updated;
  dedupe_key = c.edit_key;
  target = record { target_id = some note.note_id; target_title = some note.title; emoji = none };
  now = c.now;
}

-- the tail of `_apply_locked`, once the edit is transformed and the new body computed
unfoldable pub commit_edit : Call → Message → Db → NoteRow → Edit → Text → Reply × Db
unfolding new_operation edit_entry
commit_edit c m db note e body =
    let note' : NoteRow = record note {
      body = body;
      revision = note.revision + 1;
      updated_at = c.now;
    } in
    let notified = if text_eq body note.body then none else c.notified in
    (
      ack m.operation_id note'.revision body (not (m.base_revision + 1 == note'.revision)) false
          notified,
      record {
        note = some note';
        operations = db.operations ++ new_operation c m note' e ∷ [];
        events = record_activity (edit_entry c note') db.events;
      },
    )

-- the end of `_apply_locked`, on the result of `_transform_since`
unfoldable pub finish_edit : Call → Message → Db → NoteRow → Option Edit → Applied (Reply × Db)
unfolding conflict_with
finish_edit c m db note none = ok (conflict_with (some note), db)
finish_edit c m db note (some e) =
    apply_non_empty_edit note.body e >>= λ body. ok (commit_edit c m db note e body)

unfoldable pub apply_to_note : Call → Message → Db → NoteRow → Applied (Reply × Db)
unfolding conflict_with
apply_to_note c m db note =
    if ltb note.revision m.base_revision
    then ok (conflict_with (some note), db)
    else (parse_edit m >>= λ incoming.
        transform_since note db.operations m incoming >>= λ o. finish_edit c m db note o)

-- _apply_locked; a raised InvalidEdit leaves the transaction, and the tables, as they were
unfoldable pub apply_locked : Call → Message → Db → Applied (Reply × Db)
unfolding find_operation duplicate_ack conflict_with
apply_locked c m db = elim (find_operation m.operation_id db.operations) [
  | some o ↦ ok (duplicate_ack o db.note m, db)
  | none ↦ elim db.note [
    | none ↦ ok (conflict_with none, db)
    | some note ↦ apply_to_note c m db note
  ]
]
