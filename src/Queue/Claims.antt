-- ===== src/Queue/Claims.antt =====
-- The laws of claim_due_work of ai_work_queue.py and of the tokens it hands out.
use mathlib.Core.List.{Memᴰ}
use littleorbit.Prelude.{
  ℕ, ◌+◌, ◌≡◌, ◌≢◌, ◌<◌, refl, ap, subst, Bool, true, false, ◌&&◌, Option, none, some, List, [],
  ◌∷◌, ◌==◌, if◌then◌else◌, arith, lt→ltb, All, All-map, Bool-cases, Option-cases, inl, inr, ◌⊎◌,
}
use littleorbit.Queue.{
  AiWorkItem, AiWorkLease, Claim, is_waiting, oldest, earlier, later, latest_activity, is_within,
  is_due, is_leased, update_row, claimed, lease_of, claim_row, claim_due_work, update_held,
  fenced_update, heartbeat_work, complete_work, retry_work, find_item, lease_is_current,
  comes_before,
}

-- No waiting row of the table comes before `r`.
abbrev pub IsFirst : (ℕ → Bool) → AiWorkItem → List AiWorkItem → Type 0
IsFirst locked r items = All (λ q. is_waiting locked q && comes_before q r ≡ false) items

abbrev IsLeast : (ℕ → Bool) → Option AiWorkItem → List AiWorkItem → Type 0
IsLeast locked none items = All (λ q. is_waiting locked q ≡ false) items
IsLeast locked (some r) items = IsFirst locked r items × (is_waiting locked r ≡ true)

comes_before_trans :
    (a b c : AiWorkItem)
    → comes_before b a ≡ false
    → comes_before c b ≡ false
    → comes_before c a ≡ false
comes_before_trans a b c h k = ground arith

earlier-IsLeast :
    (locked : ℕ → Bool) (r : AiWorkItem) (o : Option AiWorkItem) (items : List AiWorkItem)
    → is_waiting locked r ≡ true
    → IsLeast locked o items
    → IsLeast locked (earlier r o) (r ∷ items)
earlier-IsLeast locked r none items w h = (((ground arith, All-map (λ q n. rw n refl) items h)), w)
earlier-IsLeast locked r (some b) items w h = elim (Bool-cases (comes_before b r)) [
  | inl first ↦ rw first ((ground arith, h.0), h.1)
  | inr after ↦
      rw after (
        (ground arith, All-map (λ q n. ground (arith, comes_before_trans r b q after)) items h.0),
        w,
      )
]

skip-IsLeast :
    (locked : ℕ → Bool) (r : AiWorkItem) (o : Option AiWorkItem) (items : List AiWorkItem)
    → is_waiting locked r ≡ false
    → IsLeast locked o items
    → IsLeast locked o (r ∷ items)
skip-IsLeast locked r none items n h = (n, h)
skip-IsLeast locked r (some b) items n h = ((rw n refl, h.0), h.1)

oldest-IsLeast :
    (locked : ℕ → Bool) (items : List AiWorkItem) → IsLeast locked (oldest locked items) items
unfolding oldest
oldest-IsLeast locked [] = tt
oldest-IsLeast locked (r ∷ rs) = elim (Bool-cases (is_waiting locked r)) [
  | inl w ↦ rw w (earlier-IsLeast locked r (oldest locked rs) rs w (oldest-IsLeast locked rs))
  | inr n ↦ rw n (skip-IsLeast locked r (oldest locked rs) rs n (oldest-IsLeast locked rs))
]

later-left :
    (n gap : ℕ) (o p : Option ℕ) → is_within n gap o ≡ true → is_within n gap (later o p) ≡ true
later-left n gap o p h = ground arith

later-right :
    (n gap : ℕ) (o p : Option ℕ) → is_within n gap p ≡ true → is_within n gap (later o p) ≡ true
later-right n gap o p h = ground arith

oldest-tail :
    (locked : ℕ → Bool) (q r : AiWorkItem) (o : Option AiWorkItem)
    → (if is_waiting locked q then earlier q o else o) ≡ some r
    → (q.id == r.id) ≡ false
    → o ≡ some r
oldest-tail locked q r none h ne = ground arith
oldest-tail locked q r (some b) h ne = elim (Bool-cases (is_waiting locked q)) [
  | inl w ↦ elim (Bool-cases (comes_before b q)) [
    | inl first ↦ ground arith
    | inr after ↦
        let e : q ≡ r = ground arith in absurd (ground (arith, ap (λ (x : AiWorkItem). x.id) e))
  ]
  | inr n ↦ ground arith
]

-- The claimed row's heartbeat counts as activity.
latest_activity-claimed :
    (locked : ℕ → Bool) (now token later_now gap : ℕ) (items : List AiWorkItem) (r : AiWorkItem)
    → oldest locked items ≡ some r
    → later_now < now + gap
    → is_within later_now gap (latest_activity (update_row r.id (claimed now token) items)) ≡ true
unfolding oldest latest_activity update_row
latest_activity-claimed locked now token n gap [] r h l = absurd (ground arith)
latest_activity-claimed locked now token n gap (q ∷ qs) r h l =
    let rest = latest_activity (update_row r.id (claimed now token) qs) in
    elim (Bool-cases (q.id == r.id)) [
      | inl e ↦ rw e (later-left n gap (some now) rest (lt→ltb n (now + gap) l))
      | inr ne ↦ rw ne (
          later-right n gap q.heartbeat_at rest (
            latest_activity-claimed locked now token n gap qs r
              (oldest-tail locked q r (oldest locked qs) h ne) l))
    ]

-- The lease that a claim replaces: no row holds it any more.
update_held-claimed :
    (old : AiWorkLease) (now token : ℕ) (f : AiWorkItem → AiWorkItem) (items : List AiWorkItem)
    → old.token ≢ token
    → update_held old f (update_row old.id (claimed now token) items)
      ≡ (0, update_row old.id (claimed now token) items)
unfolding update_held update_row
update_held-claimed old now token f [] ne = refl
update_held-claimed old now token f (q ∷ qs) ne =
    ground (arith, update_held-claimed old now token f qs ne)

find_item-lost :
    (old : AiWorkLease) (now token : ℕ) (items : List AiWorkItem)
    → old.token ≢ token
    → lease_is_current old (update_row old.id (claimed now token) items) ≡ false
unfolding lease_is_current find_item update_row
find_item-lost old now token [] ne = refl
find_item-lost old now token (q ∷ qs) ne = ground (arith, find_item-lost old now token qs ne)

find_item-claimed :
    (k now token : ℕ) (items : List AiWorkItem) (r : AiWorkItem)
    → find_item k items ≡ some r
    → find_item k (update_row k (claimed now token) items) ≡ some (claimed now token r)
unfolding find_item update_row
find_item-claimed k now token [] r h = ground arith
find_item-claimed k now token (q ∷ qs) r h = ground (arith, find_item-claimed k now token qs r)

-- What a successful claim says of the row it takes.
abbrev pub Takes : Claim → List AiWorkItem → AiWorkLease → List AiWorkItem → AiWorkItem → Type 0
Takes c items lease items' r =
    (is_due c.now r ≡ true)
    × (is_leased c.now c.stale_after r ≡ false)
    × (lease ≡ lease_of c.token r)
    × (items' ≡ update_row r.id (claimed c.now c.token) items)

claim_row-Takes :
    (c : Claim) (r : AiWorkItem) (items items' : List AiWorkItem) (lease : AiWorkLease)
    → claim_row c (some r) items ≡ (some lease, items')
    → Takes c items lease items' r
unfolding claim_row
claim_row-Takes c r items items' lease run =
    (ground arith, ground arith, ground arith, ground arith)

pub claim_due_work-Takes :
    (c : Claim) (items items' : List AiWorkItem) (lease : AiWorkLease)
    → claim_due_work c items ≡ (some lease, items')
    → (r : AiWorkItem) × (oldest c.locked items ≡ some r) × Takes c items lease items' r
unfolding claim_due_work claim_row
claim_due_work-Takes c items items' lease run =
    elim (Bool-cases (is_within c.now c.minimum_gap (latest_activity items))) [
      | inl busy ↦ absurd (ground arith)
      | inr free ↦ elim (Option-cases (oldest c.locked items)) [
        | inl nothing ↦ absurd (ground arith)
        | inr (r, o) ↦ (r, o, claim_row-Takes c r items items' lease (ground arith))
      ]
    ]

oldest-one :
    (locked : ℕ → Bool) (q r : AiWorkItem) (o : Option AiWorkItem)
    → (if is_waiting locked q then earlier q o else o) ≡ some r
    → (q ≡ r) ⊎ (o ≡ some r)
oldest-one locked q r none h = ground arith
oldest-one locked q r (some b) h = ground arith

oldest-Memᴰ :
    (locked : ℕ → Bool) (items : List AiWorkItem) (r : AiWorkItem)
    → oldest locked items ≡ some r
    → Memᴰ r items
unfolding oldest
oldest-Memᴰ locked [] r h = absurd (ground arith)
oldest-Memᴰ locked (q ∷ qs) r h =
    let rest = oldest-Memᴰ locked qs r in
    elim (oldest-one locked q r (oldest locked qs) h) [
      | inl same ↦ subst (λ x. Memᴰ x (q ∷ qs)) same (Memᴰ.head refl)
      | inr further ↦ Memᴰ.tail (rest further)
    ]

-- A claim gives the first waiting row of the table in the order of schedule, kind and id, which is due
-- and whose lease, if it has one, is stale; and it changes no row with another id.
pub claim_due_work-IsFirst :
    (c : Claim) (items items' : List AiWorkItem) (lease : AiWorkLease)
    → claim_due_work c items ≡ (some lease, items')
    → (r : AiWorkItem) × Memᴰ r items
      × IsFirst c.locked r items
      × (is_waiting c.locked r ≡ true)
      × Takes c items lease items' r
claim_due_work-IsFirst c items items' lease run =
    let (r, o, t) = claim_due_work-Takes c items items' lease run in
    let (first, w) = subst (λ x. IsLeast c.locked x items) o (oldest-IsLeast c.locked items) in
    (r, oldest-Memᴰ c.locked items r o, first, w, t)

-- For the minimum gap after a claim, no further claim succeeds or changes anything.
pub claim_due_work_gap :
    (c d : Claim) (items items' : List AiWorkItem) (lease : AiWorkLease)
    → claim_due_work c items ≡ (some lease, items')
    → d.now < c.now + d.minimum_gap
    → claim_due_work d items' ≡ (none, items')
unfolding claim_due_work
claim_due_work_gap c d items items' lease run near =
    let (r, o, (due, free, l, e)) = claim_due_work-Takes c items items' lease run in
    rw e
      (rw (latest_activity-claimed c.locked c.now c.token d.now d.minimum_gap items r o near) refl)

-- Once an item has been claimed again under another token, the old lease is not current, and its
-- holder's heartbeat, completion and retry fail and change nothing.
pub claim_due_work_fences :
    (c : Claim) (items items' : List AiWorkItem) (old lease : AiWorkLease) (now retry_after : ℕ)
    → claim_due_work c items ≡ (some lease, items')
    → old.id ≡ lease.id
    → old.token ≢ c.token
    → (lease_is_current old items' ≡ false)
      × (heartbeat_work old now items' ≡ (false, items'))
      × (complete_work old now items' ≡ (false, items'))
      × (retry_work old now retry_after items' ≡ (false, items'))
unfolding lease_is_current heartbeat_work complete_work retry_work fenced_update
claim_due_work_fences c items items' old lease now retry_after run same ne =
    let (r, o, (due, free, l, e)) = claim_due_work-Takes c items items' lease run in
    let k : r.id ≡ old.id = ground arith in
    let e' : items' ≡ update_row old.id (claimed c.now c.token) items = cc in
    rw e' (
      find_item-lost old c.now c.token items ne,
      rw (update_held-claimed old c.now c.token _ items ne) refl,
      rw (update_held-claimed old c.now c.token _ items ne) refl,
      rw (update_held-claimed old c.now c.token _ items ne) refl,
    )
