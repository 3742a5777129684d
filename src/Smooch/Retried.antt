-- ===== src/Smooch/Retried.antt =====
-- A second send of routes/smooches.py under one operation id.
use littleorbit.Prelude.{
  ℕ, ◌≡◌, refl, sym, subst, Option, none, some, List, [], ◌∷◌, ◌++◌, length, Text, arith,
}
use littleorbit.Pairing.{Couple, CoupleMember, Response, answers, fails, active_member, lock_couple}
use littleorbit.Smooch.Prior.{HasPrior, IsSameRow, Reaches-HasPrior}
use littleorbit.Smooch.Hourly.{Reaches}
use littleorbit.Smooch.{
  Smooch, Db, Send, Denial, Sent, sent, SmoochResponse, recent_sends, enforce_send_allowed,
  new_smooch, add_smooch, send_new, send_to, send_locked, send_by, send_smooch, find_prior,
  find_partner, send_response,
}

-- The send of an operation again: from anywhere, at any time, with any emoji.
abbrev pub again : Send → ℕ → Text → ℕ → ℕ → Send
again p emoji key id now = record p { emoji = emoji; key = key; id = id; now = now }

-- The second send answers with the row of `r` and changes nothing.
abbrev pub IsAnsweredAs : SmoochResponse → Db → Sent × Db → Type 0
IsAnsweredAs r after x = (y : SmoochResponse) × ((x ≡ (sent y, after)) × IsSameRow y r)

find_prior-append :
    (c partner : ℕ) (p : Send) (xs : List Smooch)
    → find_prior c p.actor_id p.operation_id xs ≡ none
    → find_prior c p.actor_id p.operation_id (xs ++ new_smooch p c partner ∷ [])
      ≡ some (new_smooch p c partner)
unfolding find_prior
find_prior-append c partner p [] h = ground arith
find_prior-append c partner p (x ∷ xs) h = ground (arith, find_prior-append c partner p xs)

-- What a run of the first send leaves: its row.
IsFirst : Send → ℕ → Sent × Db → Type 0
IsFirst p c (sent r, after) = HasPrior c p.actor_id p.operation_id r after.smooches
IsFirst p c (x, after) = Unit {0}

add_smooch-IsFirst :
    (p : Send) (c partner count : ℕ) (o : Option Denial) (db : Db)
    → find_prior c p.actor_id p.operation_id db.smooches ≡ none
    → IsFirst p c (add_smooch p (new_smooch p c partner) count o db)
unfolding add_smooch IsFirst
add_smooch-IsFirst p c partner count (some d) db e = tt
add_smooch-IsFirst p c partner count none db e = record {
  row = new_smooch p c partner;
  found = find_prior-append c partner p db.smooches e;
  named = λ n. (refl, refl, refl, refl);
}

send_new-IsFirst :
    (p : Send) (c partner : ℕ) (o : Option Smooch) (db : Db)
    → find_prior c p.actor_id p.operation_id db.smooches ≡ o
    → IsFirst p c (send_new p c partner o db)
unfolding send_new IsFirst
send_new-IsFirst p c partner (some x) db e = record {
  row = x;
  found = e;
  named = λ n. (refl, refl, refl, refl);
}
send_new-IsFirst p c partner none db e =
    let recent = recent_sends c p.actor_id p.now db.smooches in
    add_smooch-IsFirst p c partner (length recent) (enforce_send_allowed p.emoji recent p.now) db e

-- The second send, where the first has left its row.
send_new-again :
    (p q : Send) (c partner : ℕ) (o : Option Smooch) (r : SmoochResponse) (after : Db) (x : Smooch)
    → o ≡ some x
    → ((n : ℕ) → IsSameRow (send_response x n) r)
    → IsAnsweredAs r after (send_new q c partner o after)
unfolding send_new
send_new-again p q c partner none r after x e named = absurd (ground arith)
send_new-again p q c partner (some y) r after x e named =
    let n = length (recent_sends c q.actor_id q.now after.smooches) in
    let same : y ≡ x = ground arith in
    (
      send_response y n,
      (refl, subst (λ (z : Smooch). IsSameRow (send_response z n) r) (sym same) (named n)),
    )

send_to-IsFirst : (p : Send) (c : ℕ) (o : Option ℕ) (db : Db) → IsFirst p c (send_to p c o db)
unfolding send_to IsFirst
send_to-IsFirst p c none db = tt
send_to-IsFirst p c (some partner) db =
    send_new-IsFirst p c partner (find_prior c p.actor_id p.operation_id db.smooches) db refl

send_locked-IsFirst :
    (p : Send) (c : ℕ) (o : Response Couple) (db : Db) → IsFirst p c (send_locked p c o db)
unfolding send_locked IsFirst
send_locked-IsFirst p c (fails s) db = tt
send_locked-IsFirst p c (answers k) db =
    send_to-IsFirst p c (find_partner c p.actor_id db.members) db

send_by-HasPrior :
    (p : Send) (m : CoupleMember) (r : SmoochResponse) (db after : Db)
    → send_by p (answers m) db ≡ (sent r, after)
    → HasPrior m.couple_id p.actor_id p.operation_id r after.smooches
unfolding send_by IsFirst
send_by-HasPrior p m r db after run =
    subst (IsFirst p m.couple_id) run
      (send_locked-IsFirst p m.couple_id (lock_couple m.couple_id db.couples) db)

-- Once a send has come through, sending its operation again, with whatever emoji and at whatever time,
-- answers with the row of the first send and changes nothing, even where the hour has no room left. In
-- between, anything may be sent and acknowledged and couples and members may change, where by the
-- second send the sender is an active member of the same couple again, which is active and has a
-- partner.
pub send_smooch_retry :
    (p : Send) (emoji id now partner : ℕ) (key : Text) (r : SmoochResponse) (m n : CoupleMember)
    (k : Couple) (db after last : Db)
    → active_member p.actor_id db.members ≡ answers m
    → send_smooch p db ≡ (sent r, after)
    → Reaches after last
    → active_member p.actor_id last.members ≡ answers n
    → n.couple_id ≡ m.couple_id
    → lock_couple n.couple_id last.couples ≡ answers k
    → find_partner n.couple_id p.actor_id last.members ≡ some partner
    → IsAnsweredAs r last (send_smooch (again p emoji key id now) last)
unfolding send_smooch send_by send_locked send_to
send_smooch_retry p emoji id now partner key r m n k db after last hm run later hn same hk hp =
    let first = send_by-HasPrior p m r db after (rw hm at run) in
    let kept =
      Reaches-HasPrior n.couple_id p.actor_id p.operation_id r later
        (subst (λ c. HasPrior c p.actor_id p.operation_id r after.smooches) (sym same) first) in
    rw (hn, hk, hp)
      (send_new-again p (again p emoji key id now) n.couple_id partner
        (find_prior n.couple_id p.actor_id p.operation_id last.smooches) r last kept.row kept.found
        kept.named)
