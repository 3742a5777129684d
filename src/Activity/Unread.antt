-- ===== src/Activity/Unread.antt =====
-- The watermark of seen events of routes/activity.py, new events, and the purge of maintenance.py.
use littleorbit.Prelude.{
  ℕ, ◌+◌, max, min, ◌≡◌, refl, true, false, ◌&&◌, List, [], ◌∷◌, ◌++◌, ◌==◌, ◌<◌, ◌≤◌, arith,
  if◌then◌else◌, All, keep, ltb,
}
use littleorbit.Activity.{
  Event, Entry, Seen, Timeline, is_recorded, last_sequence, new_event, record_activity,
  purge_activity, mark_activity_seen, seen_through, advance_seen, is_seen, thirty_days,
}
use littleorbit.Activity.Order.{last_sequence-append}

seen_through-advance :
    (c a d b n : ℕ) (ss : List Seen)
    → seen_through d b (advance_seen c a n ss)
      ≡ (if c == d && a == b then max (seen_through c a ss) n else seen_through d b ss)
unfolding seen_through advance_seen
seen_through-advance c a d b n [] = ground arith
seen_through-advance c a d b n (s ∷ ss) = ground (arith, seen_through-advance c a d b n ss)

-- No member's watermark passes the newest sequence number of the couple.
abbrev pub IsBehind : Timeline → Type 0
IsBehind t = (c a : ℕ) → seen_through c a t.seen ≤ last_sequence c t.events

-- Where no watermark passes the couple's newest event, marking events as seen keeps every watermark at or below the couple's newest event, moves the
-- member's own one to the requested event or the newest, whichever is less, unless it already stood
-- higher, and leaves the other members' watermarks alone.
pub mark_activity_seen-IsBehind :
    (c a through d b : ℕ) (t : Timeline)
    → IsBehind t
    → IsBehind (mark_activity_seen c a through t)
      × (seen_through d b (mark_activity_seen c a through t).seen ≡ (
          if c == d && a == b
          then max (seen_through c a t.seen) (min through (last_sequence c t.events))
          else seen_through d b t.seen))
unfolding mark_activity_seen
mark_activity_seen-IsBehind c a through d b t h =
    let n = min through (last_sequence c t.events) in
    (
      λ d b. ground (arith, seen_through-advance c a d b n t.seen, h c a, h d b),
      seen_through-advance c a d b n t.seen,
    )

-- While no watermark passes the newest event, an event recorded under a new key is unread by every
-- member of its couple, and no watermark passes it.
pub record_activity_unread :
    (e : Entry) (t : Timeline)
    → IsBehind t
    → is_recorded e.couple_id e.dedupe_key t.events ≡ false
    → (record_activity e t.events ≡ t.events ++ new_event e t.events ∷ [])
      × ((a : ℕ) → is_seen (seen_through e.couple_id a t.seen) (new_event e t.events) ≡ false)
      × IsBehind (record t { events = record_activity e t.events })
unfolding record_activity is_seen
record_activity_unread e t h new = (
  ground arith,
  λ a. ground (arith, h e.couple_id a),
  λ c a. ground (arith, h c a, last_sequence-append c (new_event e t.events) t.events),
)

-- Every event of the couple has expired.
abbrev pub Expired : ℕ → ℕ → List Event → Type 0
Expired now c = All (λ e. e.couple_id ≡ c → e.created_at + thirty_days ≤ now)

last_sequence-purged :
    (now c : ℕ) (es : List Event)
    → Expired now c es
    → last_sequence c (keep (λ e. ltb now (e.created_at + thirty_days)) es) ≡ 0
unfolding last_sequence
last_sequence-purged now c [] h = refl
last_sequence-purged now c (e ∷ es) h = ground (arith, last_sequence-purged now c es h.1)

-- Once a purge has removed all events of a couple, the next event that is recorded is numbered 1,
-- and each member whose watermark is above 0 gets it as already seen.
pub purge_hides_next_event :
    (now : ℕ) (e : Entry) (a : ℕ) (t : Timeline)
    → Expired now e.couple_id t.events
    → 0 < seen_through e.couple_id a t.seen
    → let p = purge_activity now t in
      (new_event e p.events).sequence ≡ 1
      × (is_seen (seen_through e.couple_id a p.seen) (new_event e p.events) ≡ true)
unfolding purge_activity is_seen
purge_hides_next_event now e a t gone read = (
  ground (arith, last_sequence-purged now e.couple_id t.events gone),
  ground (arith, last_sequence-purged now e.couple_id t.events gone),
)
