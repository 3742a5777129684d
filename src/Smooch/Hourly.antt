-- ===== src/Smooch/Hourly.antt =====
-- The sends of one member within any hour, over all transactions of routes/smooches.py.
use littleorbit.Prelude.{
  ℕ, suc, ◌+◌, ◌≤◌, ◌≡◌, refl, subst, true, ◌&&◌, Option, none, some, List, [], ◌∷◌, ◌++◌, ◌==◌,
  ltb, leb, if◌then◌else◌, keep, length, arith, Bool-cases, inl, inr,
}
use littleorbit.Pairing.{Couple, CoupleMember, Response, answers, fails, active_member, lock_couple}
use littleorbit.Smooch.{
  Smooch, Db, Send, Denial, is_by, is_recent, one_hour, hourly_limit, recent_sends, slot_wait,
  retry_after_seconds, enforce_send_allowed, new_smooch, add_smooch, send_new, send_to, send_locked,
  send_by, send_smooch, find_prior, find_partner,
}
use littleorbit.Smooch.Received.{
  acknowledge, acknowledge_locked, acknowledge_by, acknowledge_deliveries,
}

-- The sends of a member that lie after `w` and at most an hour after it.
unfoldable pub sends_within : ℕ → ℕ → ℕ → List Smooch → ℕ
sends_within c a w [] = 0
sends_within c a w (x ∷ xs) =
    (if is_by c a x && (ltb w x.sent_at && leb x.sent_at (w + one_hour)) then 1 else 0)
    + sends_within c a w xs

sends_within-append :
    (c a w : ℕ) (xs ys : List Smooch)
    → sends_within c a w (xs ++ ys) ≡ sends_within c a w xs + sends_within c a w ys
unfolding sends_within
sends_within-append c a w [] ys = omega arith
sends_within-append c a w (x ∷ xs) ys = omega (arith, sends_within-append c a w xs ys)

-- An hour that holds `now` lies within its recent sends.
sends_within-recent :
    (c a w now : ℕ) (xs : List Smooch)
    → now ≤ w + one_hour
    → sends_within c a w xs ≤ length (recent_sends c a now xs)
unfolding sends_within recent_sends
sends_within-recent c a w now [] h = omega arith
sends_within-recent c a w now (x ∷ xs) h = ground (arith, sends_within-recent c a w now xs h)

recent_sends-keep :
    (c a now : ℕ) (xs : List Smooch)
    → keep (is_recent now) (recent_sends c a now xs) ≡ recent_sends c a now xs
unfolding recent_sends
recent_sends-keep c a now [] = refl
recent_sends-keep c a now (x ∷ xs) = elim (Bool-cases (is_by c a x && is_recent now x.sent_at)) [
  | inl new ↦
      let recent : is_recent now x.sent_at ≡ true = ground arith in
      let rest = recent_sends-keep c a now xs in rw (new, recent, rest) refl
  | inr old ↦ rw old (recent_sends-keep c a now xs)
]

slot_wait-positive : (now : ℕ) (ts : List ℕ) → 1 ≤ length ts → 1 ≤ slot_wait now ts
slot_wait-positive now [] h = h
slot_wait-positive now (t ∷ ts) h = ground arith

-- Without a wait, the recent sends are fewer than the limit.
retry_after_seconds-below :
    (now : ℕ) (recent : List ℕ)
    → keep (is_recent now) recent ≡ recent
    → retry_after_seconds recent now ≡ 0
    → suc (length recent) ≤ hourly_limit
unfolding retry_after_seconds
retry_after_seconds-below now recent same h =
    let open_slot =
      subst (λ r. (if ltb (length r) hourly_limit then 0 else slot_wait now r) ≡ 0) same h in
    elim (Bool-cases (ltb (length recent) hourly_limit)) [
      | inl few ↦ ground arith
      | inr many ↦
          let wait = slot_wait-positive now recent (ground arith) in
          let none_left = subst (λ b. (if b then 0 else slot_wait now recent) ≡ 0) many open_slot in
          absurd (omega (arith, wait, none_left))
    ]

enforce_send_allowed-below :
    (emoji now : ℕ) (recent : List ℕ)
    → keep (is_recent now) recent ≡ recent
    → enforce_send_allowed emoji recent now ≡ none
    → suc (length recent) ≤ hourly_limit
unfolding enforce_send_allowed
enforce_send_allowed-below emoji now recent same h =
    elim (Bool-cases (retry_after_seconds recent now == 0)) [
      | inl free ↦ retry_after_seconds-below now recent same (ground arith)
      | inr wait ↦ absurd (ground arith)
    ]

-- No member sends more than the limit within an hour, wherever the hour begins.
abbrev pub IsLimited : List Smooch → Type 0
IsLimited xs = (c a w : ℕ) → sends_within c a w xs ≤ hourly_limit

append-IsLimited :
    (p : Send) (c partner : ℕ) (xs : List Smooch)
    → suc (length (recent_sends c p.actor_id p.now xs)) ≤ hourly_limit
    → IsLimited xs
    → IsLimited (xs ++ new_smooch p c partner ∷ [])
unfolding sends_within
append-IsLimited p c partner xs room h = λ d a w.
    let split = sends_within-append d a w xs (new_smooch p c partner ∷ []) in
    let old = h d a w in
    elim (Bool-cases
      (is_by d a (new_smooch p c partner) && (ltb w p.now && leb p.now (w + one_hour)))) [
        | inl counts ↦
            let mine : c ≡ d = ground arith in
            let me : p.actor_id ≡ a = ground arith in
            let near = sends_within-recent d a w p.now xs (ground arith) in
            let room' =
              subst (λ e. suc (length (recent_sends e a p.now xs)) ≤ hourly_limit) mine
                (subst (λ e. suc (length (recent_sends c e p.now xs)) ≤ hourly_limit) me room) in
            rw (split, counts) (omega (arith, near, room'))
        | inr other ↦ rw (split, other) (omega (arith, old))
      ]

-- What a step keeps of the rows.
add_smooch-IsLimited :
    (p : Send) (c partner count : ℕ) (o : Option Denial) (db : Db)
    → (o ≡ none → IsLimited (db.smooches ++ new_smooch p c partner ∷ []))
    → IsLimited db.smooches
    → IsLimited (add_smooch p (new_smooch p c partner) count o db).1.smooches
unfolding add_smooch
add_smooch-IsLimited p c partner count none db new h = new refl
add_smooch-IsLimited p c partner count (some denial) db new h = h

send_new-IsLimited :
    (p : Send) (c partner : ℕ) (o : Option Smooch) (db : Db)
    → IsLimited db.smooches
    → IsLimited (send_new p c partner o db).1.smooches
unfolding send_new
send_new-IsLimited p c partner (some prior) db h = h
send_new-IsLimited p c partner none db h =
    let recent = recent_sends c p.actor_id p.now db.smooches in
    add_smooch-IsLimited p c partner (length recent) (enforce_send_allowed p.emoji recent p.now) db
      (λ allowed.
        append-IsLimited p c partner db.smooches
          (enforce_send_allowed-below p.emoji p.now recent
            (recent_sends-keep c p.actor_id p.now db.smooches) allowed)
          h)
      h

send_to-IsLimited :
    (p : Send) (c : ℕ) (o : Option ℕ) (db : Db)
    → IsLimited db.smooches
    → IsLimited (send_to p c o db).1.smooches
unfolding send_to
send_to-IsLimited p c none db h = h
send_to-IsLimited p c (some partner) db h =
    send_new-IsLimited p c partner (find_prior c p.actor_id p.operation_id db.smooches) db h

send_locked-IsLimited :
    (p : Send) (c : ℕ) (o : Response Couple) (db : Db)
    → IsLimited db.smooches
    → IsLimited (send_locked p c o db).1.smooches
unfolding send_locked
send_locked-IsLimited p c (fails s) db h = h
send_locked-IsLimited p c (answers k) db h =
    send_to-IsLimited p c (find_partner c p.actor_id db.members) db h

send_by-IsLimited :
    (p : Send) (o : Response CoupleMember) (db : Db)
    → IsLimited db.smooches
    → IsLimited (send_by p o db).1.smooches
unfolding send_by
send_by-IsLimited p (fails s) db h = h
send_by-IsLimited p (answers m) db h =
    send_locked-IsLimited p m.couple_id (lock_couple m.couple_id db.couples) db h

sends_within-acknowledge :
    (ids : List ℕ) (c a now d b w : ℕ) (xs : List Smooch)
    → sends_within d b w (acknowledge ids c a now xs) ≡ sends_within d b w xs
unfolding sends_within acknowledge
sends_within-acknowledge ids c a now d b w [] = refl
sends_within-acknowledge ids c a now d b w (x ∷ xs) =
    ground (arith, sends_within-acknowledge ids c a now d b w xs)

acknowledge_locked-IsLimited :
    (ids : List ℕ) (c a now : ℕ) (o : Response Couple) (db : Db)
    → IsLimited db.smooches
    → IsLimited (acknowledge_locked ids c a now o db).smooches
unfolding acknowledge_locked
acknowledge_locked-IsLimited ids c a now (fails s) db h = h
acknowledge_locked-IsLimited ids c a now (answers k) db h =
    λ d b w. rw (sends_within-acknowledge ids c a now d b w db.smooches) (h d b w)

acknowledge_by-IsLimited :
    (ids : List ℕ) (a now : ℕ) (o : Response CoupleMember) (db : Db)
    → IsLimited db.smooches
    → IsLimited (acknowledge_by ids a now o db).smooches
unfolding acknowledge_by
acknowledge_by-IsLimited ids a now (fails s) db h = h
acknowledge_by-IsLimited ids a now (answers m) db h =
    acknowledge_locked-IsLimited ids m.couple_id a now (lock_couple m.couple_id db.couples) db h

-- One request of any account, and what others make of the couples and members in between.
pub data Step (db : Db) : Db → Type 0 where
  sends : (p : Send) → Step db (send_smooch p db).1
  acknowledges : (ids : List ℕ) (a now : ℕ) → Step db (acknowledge_deliveries ids a now db)
  pairs :
      (couples : List Couple) (members : List CoupleMember)
      → Step db (record db { couples = couples; members = members })

pub data Reaches (db : Db) : Db → Type 0 where
  here : Reaches db db
  next : {mid after : Db} → Reaches db mid → Step mid after → Reaches db after

Step-IsLimited : {db after : Db} → Step db after → IsLimited db.smooches → IsLimited after.smooches
unfolding send_smooch acknowledge_deliveries
Step-IsLimited {db} (sends p) h = send_by-IsLimited p (active_member p.actor_id db.members) db h
Step-IsLimited {db} (acknowledges ids a now) h =
    acknowledge_by-IsLimited ids a now (active_member a db.members) db h
Step-IsLimited (pairs couples members) h = h

-- Whatever is sent and acknowledged, at whatever times of the clock, and however couples and members
-- change in between, no member ever has more than five sends in one couple within any hour.
pub Reaches-IsLimited :
    {db after : Db} → Reaches db after → IsLimited db.smooches → IsLimited after.smooches
Reaches-IsLimited here h = h
Reaches-IsLimited (next r s) h = Step-IsLimited s (Reaches-IsLimited r h)
