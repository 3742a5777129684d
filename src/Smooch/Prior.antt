-- ===== src/Smooch/Prior.antt =====
-- The row of an operation of routes/smooches.py: later requests keep it.
use littleorbit.Prelude.{
  ℕ, ◌≡◌, sym, ap, subst, ◌&&◌, Option, none, some, List, [], ◌∷◌, ◌++◌, ◌==◌, length, arith,
  Bool-cases, inl, inr,
}
use littleorbit.Pairing.{Couple, CoupleMember, Response, answers, fails, active_member, lock_couple}
use littleorbit.Smooch.{
  Smooch, Db, Send, Denial, SmoochResponse, recent_sends, enforce_send_allowed, is_by, new_smooch,
  add_smooch, send_new, send_to, send_locked, send_by, send_smooch, find_prior, find_partner,
  send_response,
}
use littleorbit.Smooch.Received.{
  is_acknowledged, acknowledge, acknowledge_locked, acknowledge_by, acknowledge_deliveries,
}
use littleorbit.Smooch.Hourly.{Step, Reaches}

-- The answer names the same row.
abbrev pub IsSameRow : SmoochResponse → SmoochResponse → Type 0
IsSameRow x y =
    (x.id ≡ y.id) × (x.emoji ≡ y.emoji) × (x.phrase_key ≡ y.phrase_key) × (x.sent_at ≡ y.sent_at)

-- The row that a first send leaves, whatever is sent and acknowledged later.
pub record HasPrior (c a operation : ℕ) (r : SmoochResponse) (xs : List Smooch) : Type 0 where
  pub row : Smooch
  pub found : find_prior c a operation xs ≡ some row
  pub named : (n : ℕ) → IsSameRow (send_response row n) r

find_prior-kept :
    (c a operation : ℕ) (x : Smooch) (xs more : List Smooch)
    → find_prior c a operation xs ≡ some x
    → find_prior c a operation (xs ++ more) ≡ some x
unfolding find_prior
find_prior-kept c a operation x [] more h = absurd (ground arith)
find_prior-kept c a operation x (y ∷ ys) more h =
    ground (arith, find_prior-kept c a operation x ys more)

append-HasPrior :
    (c a operation : ℕ) (r : SmoochResponse) (xs more : List Smooch)
    → HasPrior c a operation r xs
    → HasPrior c a operation r (xs ++ more)
append-HasPrior c a operation r xs more h = record {
  row = h.row;
  found = find_prior-kept c a operation h.row xs more h.found;
  named = h.named;
}

-- An acknowledgement changes only when a row was delivered.
abbrev IsDelivered : Smooch → Smooch → Type 0
IsDelivered x y = (d : Option ℕ) × (y ≡ record x { delivered_at = d })

find_prior-acknowledge :
    (ids : List ℕ) (d b now c a operation : ℕ) (x : Smooch) (xs : List Smooch)
    → find_prior c a operation xs ≡ some x
    → (y : Smooch) × (find_prior c a operation (acknowledge ids d b now xs) ≡ some y)
      × IsDelivered x y
unfolding find_prior acknowledge
find_prior-acknowledge ids d b now c a operation x [] h = absurd (ground arith)
find_prior-acknowledge ids d b now c a operation x (z ∷ zs) h =
    let rest = find_prior-acknowledge ids d b now c a operation x zs in
    elim (Bool-cases (is_by c a z && z.operation_id == operation)) [
      | inl hit ↦
          let same : z ≡ x = ground arith in
          elim (Bool-cases (is_acknowledged ids d b z)) [
            | inl marks ↦ (
              record z { delivered_at = some now },
              ground arith,
              (some now, ap (λ (w : Smooch). record w { delivered_at = some now }) same),
            )
            | inr keeps ↦ (
              z,
              ground arith,
              (
                z.delivered_at,
                ap (λ (w : Smooch). record w { delivered_at = z.delivered_at }) same,
              ),
            )
          ]
      | inr miss ↦ let (y, found, by) = rest (ground arith) in (y, ground (arith, found), by)
    ]

acknowledge-HasPrior :
    (ids : List ℕ) (d b now c a operation : ℕ) (r : SmoochResponse) (xs : List Smooch)
    → HasPrior c a operation r xs
    → HasPrior c a operation r (acknowledge ids d b now xs)
acknowledge-HasPrior ids d b now c a operation r xs h =
    let (y, found, by) = find_prior-acknowledge ids d b now c a operation h.row xs h.found in
    record {
      row = y;
      found = found;
      named = λ n. subst (λ (z : Smooch). IsSameRow (send_response z n) r) (sym by.1) (h.named n);
    }

-- Every request keeps the row.
module _ (c a operation : ℕ) (r : SmoochResponse) where
  abbrev Has : Db → Type 0
  Has db = HasPrior c a operation r db.smooches

  add_smooch-Has :
      (p : Send) (x : Smooch) (count : ℕ) (o : Option Denial) (db : Db)
      → Has db
      → Has (add_smooch p x count o db).1
  unfolding add_smooch
  add_smooch-Has p x count none db h = append-HasPrior c a operation r db.smooches (x ∷ []) h
  add_smooch-Has p x count (some denial) db h = h

  send_new-Has :
      (p : Send) (d partner : ℕ) (o : Option Smooch) (db : Db)
      → Has db
      → Has (send_new p d partner o db).1
  unfolding send_new
  send_new-Has p d partner (some prior) db h = h
  send_new-Has p d partner none db h =
      let recent = recent_sends d p.actor_id p.now db.smooches in
      add_smooch-Has p (new_smooch p d partner) (length recent)
        (enforce_send_allowed p.emoji recent p.now) db h

  send_to-Has : (p : Send) (d : ℕ) (o : Option ℕ) (db : Db) → Has db → Has (send_to p d o db).1
  unfolding send_to
  send_to-Has p d none db h = h
  send_to-Has p d (some partner) db h =
      send_new-Has p d partner (find_prior d p.actor_id p.operation_id db.smooches) db h

  send_locked-Has :
      (p : Send) (d : ℕ) (o : Response Couple) (db : Db) → Has db → Has (send_locked p d o db).1
  unfolding send_locked
  send_locked-Has p d (fails s) db h = h
  send_locked-Has p d (answers k) db h = send_to-Has p d (find_partner d p.actor_id db.members) db h

  send_by-Has : (p : Send) (o : Response CoupleMember) (db : Db) → Has db → Has (send_by p o db).1
  unfolding send_by
  send_by-Has p (fails s) db h = h
  send_by-Has p (answers m) db h =
      send_locked-Has p m.couple_id (lock_couple m.couple_id db.couples) db h

  acknowledge_locked-Has :
      (ids : List ℕ) (d b now : ℕ) (o : Response Couple) (db : Db)
      → Has db
      → Has (acknowledge_locked ids d b now o db)
  unfolding acknowledge_locked
  acknowledge_locked-Has ids d b now (fails s) db h = h
  acknowledge_locked-Has ids d b now (answers k) db h =
      acknowledge-HasPrior ids d b now c a operation r db.smooches h

  acknowledge_by-Has :
      (ids : List ℕ) (b now : ℕ) (o : Response CoupleMember) (db : Db)
      → Has db
      → Has (acknowledge_by ids b now o db)
  unfolding acknowledge_by
  acknowledge_by-Has ids b now (fails s) db h = h
  acknowledge_by-Has ids b now (answers m) db h =
      acknowledge_locked-Has ids m.couple_id b now (lock_couple m.couple_id db.couples) db h

  Step-Has : {db after : Db} → Step db after → Has db → Has after
  unfolding send_smooch acknowledge_deliveries
  Step-Has {db} (Step.sends p) h = send_by-Has p (active_member p.actor_id db.members) db h
  Step-Has {db} (Step.acknowledges ids b now) h =
      acknowledge_by-Has ids b now (active_member b db.members) db h
  Step-Has (Step.pairs couples members) h = h

  pub Reaches-HasPrior : {db after : Db} → Reaches db after → Has db → Has after
  Reaches-HasPrior Reaches.here h = h
  Reaches-HasPrior (Reaches.next s t) h = Step-Has t (Reaches-HasPrior s h)
