-- ===== src/Queue.antt =====
-- services/api/src/little_orbit_api/ai_work_queue.py: the queue of work for the shared GPU and the
-- leases on its rows. A transaction is one call on the table, the list of its rows. Identifiers and
-- lease tokens are numbers (a UUID is a 128-bit integer), times are microseconds since the epoch.
pub mod Schedule
pub mod Claims
pub mod Tombstones
pub mod Releases
mod Examples
use littleorbit.Prelude.{
  ℕ, ◌+◌, ◌≡◌, Bool, true, false, not, ◌&&◌, ◌||◌, Option, none, some, List, [], ◌∷◌, ◌++◌, ◌==◌,
  ltb, leb, if◌then◌else◌, is_some, is_none,
}

pub data WorkKind : Type 0 where
  weekly_learning weekly_generation admin_learning admin_generation admin_regeneration : WorkKind

-- The place of a kind's name in alphabetical order.
abbrev pub kind_rank : WorkKind → ℕ
kind_rank WorkKind.admin_generation = 0
kind_rank WorkKind.admin_learning = 1
kind_rank WorkKind.admin_regeneration = 2
kind_rank WorkKind.weekly_generation = 3
kind_rank WorkKind.weekly_learning = 4

abbrev pub is_weekly : WorkKind → Bool
is_weekly WorkKind.weekly_learning = true
is_weekly WorkKind.weekly_generation = true
is_weekly k = false

pub record AiWorkItem : Type 0 where
  pub id : ℕ
  pub kind : WorkKind
  pub scheduled_at : ℕ
  pub next_attempt_at : Option ℕ
  pub attempt_count : ℕ
  pub lease_token : Option ℕ
  pub heartbeat_at : Option ℕ

pub record AiWorkLease : Type 0 where
  pub id : ℕ
  pub kind : WorkKind
  pub scheduled_at : ℕ
  pub token : ℕ

-- order_by(scheduled_at, kind, id)
abbrev pub comes_before : AiWorkItem → AiWorkItem → Bool
comes_before a b =
    ltb a.scheduled_at b.scheduled_at
    || (a.scheduled_at == b.scheduled_at
        && (ltb (kind_rank a.kind) (kind_rank b.kind)
            || (kind_rank a.kind == kind_rank b.kind && ltb a.id b.id)))

-- The first of two rows in that order.
abbrev pub earlier : AiWorkItem → Option AiWorkItem → Option AiWorkItem
earlier a none = some a
earlier a (some b) = if comes_before b a then some b else some a

-- where(next_attempt_at.is_not(None)), with_for_update(skip_locked=True): rows that another
-- transaction has locked are passed over.
abbrev pub is_waiting : (ℕ → Bool) → AiWorkItem → Bool
is_waiting locked r = is_some r.next_attempt_at && not (locked r.id)

pub oldest : (ℕ → Bool) → List AiWorkItem → Option AiWorkItem
oldest locked [] = none
oldest locked (r ∷ rs) =
    let rest = oldest locked rs in if is_waiting locked r then earlier r rest else rest

-- The newest of two heartbeats, as max() of the column takes it.
abbrev pub later : Option ℕ → Option ℕ → Option ℕ
later none o = o
later (some a) none = some a
later (some a) (some b) = if ltb a b then some b else some a

-- select(func.max(AiWorkItem.heartbeat_at))
pub latest_activity : List AiWorkItem → Option ℕ
latest_activity [] = none
latest_activity (r ∷ rs) = later r.heartbeat_at (latest_activity rs)

-- `t is not None and t > now - span`
abbrev pub is_within : ℕ → ℕ → Option ℕ → Bool
is_within now span none = false
is_within now span (some t) = ltb now (t + span)

-- next_attempt_at is not None and next_attempt_at <= now
abbrev pub is_due : ℕ → AiWorkItem → Bool
is_due now r = elim r.next_attempt_at [ none ↦ false | some t ↦ leb t now ]

abbrev pub is_leased : ℕ → ℕ → AiWorkItem → Bool
is_leased now stale_after r = is_some r.lease_token && is_within now stale_after r.heartbeat_at

-- The update of the row that a query selected, by its primary key.
pub update_row : ℕ → (AiWorkItem → AiWorkItem) → List AiWorkItem → List AiWorkItem
update_row k f [] = []
update_row k f (r ∷ rs) = (if r.id == k then f r else r) ∷ update_row k f rs

abbrev pub claimed : ℕ → ℕ → AiWorkItem → AiWorkItem
claimed now token r = record r {
  lease_token = some token;
  heartbeat_at = some now;
  attempt_count = r.attempt_count + 1;
}

abbrev pub lease_of : ℕ → AiWorkItem → AiWorkLease
lease_of token r = record { id = r.id; kind = r.kind; scheduled_at = r.scheduled_at; token = token }

-- The arguments of `claim_due_work`, with the token that uuid4 gives and the rows locked elsewhere.
pub record Claim : Type 0 where
  pub now : ℕ
  pub stale_after : ℕ
  pub minimum_gap : ℕ
  pub token : ℕ
  pub locked : ℕ → Bool

pub claim_row : Claim → Option AiWorkItem → List AiWorkItem → Option AiWorkLease × List AiWorkItem
unfolding update_row
claim_row c none items = (none, items)
claim_row c (some r) items =
    if not (is_due c.now r) || is_leased c.now c.stale_after r
    then (none, items)
    else (some (lease_of c.token r), update_row r.id (claimed c.now c.token) items)

unfoldable pub claim_due_work : Claim → List AiWorkItem → Option AiWorkLease × List AiWorkItem
unfolding latest_activity oldest claim_row
claim_due_work c items =
    if is_within c.now c.minimum_gap (latest_activity items)
    then (none, items)
    else claim_row c (oldest c.locked items) items

pub defer_row : ℕ → ℕ → Option AiWorkItem → List AiWorkItem → Bool × List AiWorkItem
unfolding update_row
defer_row now retry_after none items = (false, items)
defer_row now retry_after (some r) items =
    if not (is_due now r) || is_some r.lease_token then (false, items) else (
      true,
      update_row r.id (λ q. record q { next_attempt_at = some (now + retry_after) }) items,
    )

unfoldable pub defer_due_work : (ℕ → Bool) → ℕ → ℕ → List AiWorkItem → Bool × List AiWorkItem
unfolding oldest defer_row
defer_due_work locked now retry_after items = defer_row now retry_after (oldest locked items) items

-- where(AiWorkItem.id == lease.id, AiWorkItem.lease_token == lease.token)
abbrev pub holds : AiWorkLease → AiWorkItem → Bool
holds lease r =
    r.id == lease.id && (elim r.lease_token [ none ↦ false | some t ↦ t == lease.token ])

pub update_held : AiWorkLease → (AiWorkItem → AiWorkItem) → List AiWorkItem → ℕ × List AiWorkItem
update_held lease f [] = (0, [])
update_held lease f (r ∷ rs) =
    let rest = update_held lease f rs in
    if holds lease r then (1 + rest.0, f r ∷ rest.1) else (rest.0, r ∷ rest.1)

pub fenced_update :
    AiWorkLease → (AiWorkItem → AiWorkItem) → List AiWorkItem → Bool × List AiWorkItem
unfolding update_held
fenced_update lease f items = let x = update_held lease f items in (x.0 == 1, x.1)

pub heartbeat_work : AiWorkLease → ℕ → List AiWorkItem → Bool × List AiWorkItem
unfolding fenced_update
heartbeat_work lease now = fenced_update lease (λ r. record r { heartbeat_at = some now })

unfoldable pub complete_work : AiWorkLease → ℕ → List AiWorkItem → Bool × List AiWorkItem
unfolding fenced_update
complete_work lease now =
    fenced_update lease
      (λ r. record r { next_attempt_at = none; lease_token = none; heartbeat_at = some now })

unfoldable pub retry_work : AiWorkLease → ℕ → ℕ → List AiWorkItem → Bool × List AiWorkItem
unfolding fenced_update
retry_work lease now retry_after = fenced_update lease (λ r. record r {
  next_attempt_at = some (now + retry_after);
  lease_token = none;
  heartbeat_at = some now;
})

-- The row that `session.get` or a query by primary key finds.
unfoldable pub find_item : ℕ → List AiWorkItem → Option AiWorkItem
find_item k [] = none
find_item k (r ∷ rs) = if r.id == k then some r else find_item k rs

abbrev pub token_of : Option AiWorkItem → Option ℕ
token_of none = none
token_of (some r) = r.lease_token

unfoldable pub lease_is_current : AiWorkLease → List AiWorkItem → Bool
unfolding find_item
lease_is_current lease items = elim (token_of (find_item lease.id items)) [
  | none ↦ false
  | some t ↦ t == lease.token
]

-- Whether `require_current_lease` lets the transaction go on; else it raises AiWorkLeaseExpired.
unfoldable pub require_current_lease : Option AiWorkLease → List AiWorkItem → Bool
unfolding lease_is_current
require_current_lease none items = true
require_current_lease (some lease) items = lease_is_current lease items

-- The unique keys of the table: the id, and kind and time of the weekly rows.
abbrev pub clashes : AiWorkItem → AiWorkItem → Bool
clashes a b =
    a.id == b.id
    || (is_weekly a.kind
        && is_weekly b.kind
        && kind_rank a.kind == kind_rank b.kind
        && a.scheduled_at == b.scheduled_at)

pub is_taken : AiWorkItem → List AiWorkItem → Bool
is_taken a [] = false
is_taken a (r ∷ rs) = clashes a r || is_taken a rs

-- insert(...).on_conflict_do_nothing()
pub insert_new : AiWorkItem → List AiWorkItem → List AiWorkItem
unfolding is_taken
insert_new a items = if is_taken a items then items else items ++ a ∷ []

abbrev pub new_item : ℕ → WorkKind → ℕ → Option ℕ → AiWorkItem
new_item k kind scheduled next = record {
  id = k;
  kind = kind;
  scheduled_at = scheduled;
  next_attempt_at = next;
  attempt_count = 0;
  lease_token = none;
  heartbeat_at = none;
}
