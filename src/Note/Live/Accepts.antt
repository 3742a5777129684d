-- ===== src/Note/Live/Accepts.antt =====
-- `_apply_locked` as a whole: what it accepts, what it keeps, and what a retry gives.
use littleorbit.Prelude.{
  ℕ, ◌+◌, ◌≤◌, ◌≡◌, refl, ap, sym, ◌∙◌, Bool, true, false, not, Option, none, some, List, Text,
  length, take, drop, ltb, ◌==◌, arith, Bool-cases, Option-cases, ◌⊎◌, inl, inr, subst,
}
use littleorbit.Note.Edit.{Edit, ok, ◌>>=◌, >>=-eq-ok, apply_non_empty_edit}
use littleorbit.Note.Converge.{Lands, edited, apply_non_empty_edit-Lands}
use littleorbit.Note.Live.{
  Message, NoteRow, Operation, Db, Reply, ack, conflict, Call, parse_edit, find_operation,
  transform_since, finish_edit, duplicate_ack, new_operation, commit_edit, apply_to_note,
  apply_locked,
}
use littleorbit.Note.Live.History.{
  Transforms, replay, IsHistory, IsHistory-snoc, find_operation-snoc, find_operation-append,
  transform_all-Lands, transform_since_lem, replay-drop,
}

-- The tables hold a note with its history, or no note.
abbrev pub HistoryOf : Text → Option NoteRow → List Operation → Type 0
HistoryOf start none ops = Unit {0}
HistoryOf start (some note) ops = IsHistory start note ops

abbrev pub IsConsistent : Text → Db → Type 0
IsConsistent start db = HistoryOf start db.note db.operations

commit_edit-IsConsistent :
    (c : Call) (m : Message) (db : Db) (start : Text) (note : NoteRow) (e : Edit) (body : Text)
    → IsHistory start note db.operations
    → apply_non_empty_edit note.body e ≡ ok body
    → IsConsistent start (commit_edit c m db note e body).1
unfolding commit_edit new_operation
commit_edit-IsConsistent c m db start note e body h a =
    IsHistory-snoc start note _ db.operations _ e h a (omega arith) (omega arith) refl

-- What a run on a note gives: a conflict that changes nothing, or a committed edit.
abbrev Gives : Call → Message → Db → NoteRow → Reply × Db → Type 0
Gives c m db note x =
    (x ≡ (conflict note.revision note.body, db))
    ⊎ ((e : Edit) × (body : Text) × (apply_non_empty_edit note.body e ≡ ok body)
        × (x ≡ commit_edit c m db note e body))

module _ (c : Call) (m : Message) (db : Db) (note : NoteRow) (x : Reply × Db) where
  finish_edit-Gives : (o : Option Edit) → finish_edit c m db note o ≡ ok x → Gives c m db note x
  unfolding finish_edit
  finish_edit-Gives none h = inl cc
  finish_edit-Gives (some e) h =
      let (body, a, k) =
        >>=-eq-ok (apply_non_empty_edit note.body e) (λ body. ok (commit_edit c m db note e body))
          h in
      inr (e, body, a, cc)

  transformed-Gives :
      (parse_edit m >>= λ incoming.
      transform_since note db.operations m incoming >>= λ o. finish_edit c m db note o)
        ≡ ok x
      → Gives c m db note x
  transformed-Gives h =
      let (e, p, k) =
        >>=-eq-ok (parse_edit m)
          (λ i. transform_since note db.operations m i >>= λ o. finish_edit c m db note o) h in
      let (o, t, f) =
        >>=-eq-ok (transform_since note db.operations m e) (λ o. finish_edit c m db note o) k in
      finish_edit-Gives o f

  apply_to_note-Gives : apply_to_note c m db note ≡ ok x → Gives c m db note x
  unfolding apply_to_note
  apply_to_note-Gives h = elim (Bool-cases (ltb note.revision m.base_revision)) [
    | inl ahead ↦ inl (ground arith)
    | inr known ↦ transformed-Gives (ground arith)
  ]

-- Where the stored operations are the history of the note, an edit with a new id that the note's body
-- at the base revision admits is accepted, whatever was applied since: what is committed is the edit
-- transformed against the operation of each later revision in turn, with priority over those with a
-- larger id, and it lands on the current body.
pub apply_locked_accepts :
    (c : Call) (m : Message) (db : Db) (note : NoteRow) (start base : Text) (e : Edit)
    → db.note ≡ some note
    → IsHistory start note db.operations
    → find_operation m.operation_id db.operations ≡ none
    → m.base_revision ≤ note.revision
    → parse_edit m ≡ ok e
    → replay start (take m.base_revision db.operations) ≡ ok base
    → Lands (length base) e
    → (e' : Edit) × (apply_locked c m db ≡ ok (commit_edit c m db note e' (edited note.body e')))
      × Lands (length note.body) e'
      × Transforms m.operation_id e (drop m.base_revision db.operations) e'
unfolding apply_locked apply_to_note finish_edit
apply_locked_accepts c m db note start base e hn h fresh le parsed hb l =
    let (e', te, le', becomes) =
      transform_all-Lands m.operation_id base note.body e (drop m.base_revision db.operations)
        (replay-drop start base note.body m.base_revision db.operations h.replayed hb) l in
    let since : transform_since note db.operations m e ≡ ok (some e') =
      transform_since_lem note db.operations m e h.numbered le
      ∙ ap (λ r. r >>= λ x. ok (some x)) te in
    (e', ground (arith, since, apply_non_empty_edit-Lands note.body e' le'), le', becomes)

-- Where the stored operations are the history of the note, replaying to its body and numbered by its
-- revisions, a run of `_apply_locked` that does not raise keeps them so.
pub apply_locked-IsConsistent :
    (c : Call) (m : Message) (db db' : Db) (start : Text) (r : Reply)
    → IsConsistent start db
    → apply_locked c m db ≡ ok (r, db')
    → IsConsistent start db'
unfolding apply_locked
apply_locked-IsConsistent c m db db' start r h run =
    elim (Option-cases (find_operation m.operation_id db.operations)) [
      | inr (o, old) ↦ let e : db ≡ db' = ground arith in subst (IsConsistent start) e h
      | inl fresh ↦ elim (Option-cases db.note) [
        | inl gone ↦ let e : db ≡ db' = ground arith in subst (IsConsistent start) e h
        | inr (note, hn) ↦ elim (apply_to_note-Gives c m db note (r, db') (ground arith)) [
          | inl same ↦ let e : db ≡ db' = cc in subst (IsConsistent start) e h
          | inr (e, body, a, eq) ↦
              let done : (commit_edit c m db note e body).1 ≡ db' =
                sym (ap (λ (x : Reply × Db). x.1) eq) in
              subst (IsConsistent start) done (
                commit_edit-IsConsistent c m db start note e body
                  (subst (λ o. HistoryOf start o db.operations) hn h) a)
        ]
      ]
    ]

commit_edit-find :
    (c : Call) (m : Message) (db : Db) (note : NoteRow) (e : Edit) (body : Text) (k : ℕ)
    (o : Operation)
    → find_operation k db.operations ≡ some o
    → find_operation k (commit_edit c m db note e body).1.operations ≡ some o
unfolding commit_edit
commit_edit-find c m db note e body k o h = find_operation-append k o db.operations _ h

-- An acknowledged edit stands among the operations, with what the reply says of it.
committed :
    (c : Call) (m : Message) (db after : Db) (note : NoteRow) (e : Edit) (b : Text) (k rev : ℕ)
    (body : Text) (transformed : Bool) (n : Option ℕ)
    → find_operation m.operation_id db.operations ≡ none
    → (ack k rev body transformed false n, after) ≡ commit_edit c m db note e b
    → (o : Operation) × (find_operation m.operation_id after.operations ≡ some o)
      × (k ≡ m.operation_id)
      × (transformed ≡ not (o.base_revision + 1 == o.resulting_revision))
unfolding commit_edit new_operation
committed c m db after note e b k rev body transformed n fresh eq =
    let o =
      new_operation c m (record note { body = b; revision = note.revision + 1; updated_at = c.now })
        e in
    (
      o,
      ground (arith, find_operation-snoc m.operation_id o db.operations fresh),
      ground arith,
      ground arith,
    )

acknowledged :
    (c : Call) (m : Message) (db after : Db) (k rev : ℕ) (body : Text) (transformed : Bool)
    (n : Option ℕ)
    → apply_locked c m db ≡ ok (ack k rev body transformed false n, after)
    → (o : Operation) × (find_operation m.operation_id after.operations ≡ some o)
      × (k ≡ m.operation_id)
      × (transformed ≡ not (o.base_revision + 1 == o.resulting_revision))
unfolding apply_locked duplicate_ack
acknowledged c m db after k rev body transformed n run =
    elim (Option-cases (find_operation m.operation_id db.operations)) [
      | inr (o, old) ↦ absurd (ground arith)
      | inl fresh ↦ elim (Option-cases db.note) [
        | inl gone ↦ absurd (ground arith)
        | inr (note, hn) ↦
            elim (apply_to_note-Gives c m db note (ack k rev body transformed false n, after)
              (ground arith)) [
                | inl same ↦ absurd cc
                | inr (e, b, a, eq) ↦
                    committed c m db after note e b k rev body transformed n fresh eq
              ]
      ]
    ]

-- Later accepted runs: edits, retries and conflicts, one after the other.
pub data Runs (db : Db) : Db → Type 0 where
  here : Runs db db
  next :
      {mid after : Db} (c : Call) (m : Message) (r : Reply)
      → Runs db mid
      → apply_locked c m mid ≡ ok (r, after)
      → Runs db after

-- A run keeps the operation that an id finds.
apply_locked-find :
    (c : Call) (m : Message) (db after : Db) (r : Reply) (k : ℕ) (o : Operation)
    → apply_locked c m db ≡ ok (r, after)
    → find_operation k db.operations ≡ some o
    → find_operation k after.operations ≡ some o
unfolding apply_locked
apply_locked-find c m db after r k o run h =
    elim (Option-cases (find_operation m.operation_id db.operations)) [
      | inr (x, old) ↦ let e : db ≡ after = ground arith in rw e at h
      | inl fresh ↦ elim (Option-cases db.note) [
        | inl gone ↦ let e : db ≡ after = ground arith in rw e at h
        | inr (note, hn) ↦ elim (apply_to_note-Gives c m db note (r, after) (ground arith)) [
          | inl same ↦ let e : db ≡ after = cc in rw e at h
          | inr (e, body, a, eq) ↦
              let done : (commit_edit c m db note e body).1 ≡ after =
                sym (ap (λ (x : Reply × Db). x.1) eq) in
              subst (λ (x : Db). find_operation k x.operations ≡ some o) done
                (commit_edit-find c m db note e body k o h)
        ]
      ]
    ]

Runs-find :
    (db last : Db) (k : ℕ) (o : Operation)
    → Runs db last
    → find_operation k db.operations ≡ some o
    → find_operation k last.operations ≡ some o
Runs-find db last k o Runs.here h = h
Runs-find db last k o (Runs.next {mid} c m r runs e) h =
    apply_locked-find c m mid last r k o e (Runs-find db mid k o runs h)

-- After an acknowledged edit and any later runs of `_apply_locked` that do not raise, while the note is
-- there, sending it again changes nothing: the reply carries the revision and the body that the note
-- has by then and the transformed flag of the first reply, marked as a duplicate.
pub apply_locked_retry :
    (c d : Call) (m : Message) (db after last : Db) (k rev : ℕ) (body : Text) (transformed : Bool)
    (n : Option ℕ) (note : NoteRow)
    → apply_locked c m db ≡ ok (ack k rev body transformed false n, after)
    → Runs after last
    → last.note ≡ some note
    → apply_locked d m last ≡ ok (ack k note.revision note.body transformed true none, last)
unfolding apply_locked duplicate_ack
apply_locked_retry c d m db after last k rev body transformed n note run runs hn =
    let (o, found, id, flag) = acknowledged c m db after k rev body transformed n run in
    ground (arith, Runs-find after last m.operation_id o runs found)
