-- ===== src/Location/Streams.antt =====
-- `_deduplicate`, `_group_events` and `_best` of domain/location.py. A Python dict is the list of its
-- entries in insertion order.
pub mod Distinct
use littleorbit.Prelude.{
  ℕ, Bool, true, false, ◌&&◌, ◌||◌, Option, none, some, List, [], ◌∷◌, ◌++◌, ltb, leb, ◌==◌,
  if◌then◌else◌,
}
use littleorbit.Location.Types.{TimedPoint, Point}

-- (value.recorded_at, value.sample_id), compared as a tuple
pub key_le : TimedPoint → TimedPoint → Bool
key_le a b =
    ltb a.recorded_at b.recorded_at
    || (a.recorded_at == b.recorded_at && leb a.sample_id b.sample_id)

pub insert_by_key : TimedPoint → List TimedPoint → List TimedPoint
unfolding key_le
insert_by_key a [] = a ∷ []
insert_by_key a (b ∷ l) = if key_le a b then a ∷ b ∷ l else b ∷ insert_by_key a l

-- sorted(samples, key=...)
pub sort_samples : List TimedPoint → List TimedPoint
unfolding insert_by_key
sort_samples [] = []
sort_samples (a ∷ l) = insert_by_key a (sort_samples l)

pub has_id : ℕ → List TimedPoint → Bool
has_id k [] = false
has_id k (a ∷ l) = a.sample_id == k || has_id k l

-- unique.setdefault(item.sample_id, item), for each item in turn
pub first_by_id : List TimedPoint → List TimedPoint → List TimedPoint
unfolding has_id
first_by_id unique [] = unique
first_by_id unique (a ∷ l) =
    first_by_id (if has_id a.sample_id unique then unique else unique ++ a ∷ []) l

-- _deduplicate
unfoldable pub deduplicate : List TimedPoint → List TimedPoint
unfolding sort_samples first_by_id
deduplicate samples = sort_samples (first_by_id [] (sort_samples samples))

-- One entry of `grouped`: an instant with the samples of both phones at it.
pub record Group : Type 0 where
  pub instant : ℕ
  pub lefts : List TimedPoint
  pub rights : List TimedPoint

pub data Side : Type 0 where
  on_left on_right : Side

abbrev pub add_to : Side → TimedPoint → Group → Group
add_to on_left a g = record g { lefts = g.lefts ++ a ∷ [] }
add_to on_right a g = record g { rights = g.rights ++ a ∷ [] }

-- grouped.setdefault(instant, ([], []))[side].append(sample)
pub group_add : Side → TimedPoint → List Group → List Group
group_add s a [] = add_to s a (record { instant = a.recorded_at; lefts = []; rights = [] }) ∷ []
group_add s a (g ∷ gs) =
    if g.instant == a.recorded_at then add_to s a g ∷ gs else g ∷ group_add s a gs

pub group_all : Side → List TimedPoint → List Group → List Group
unfolding group_add
group_all s [] gs = gs
group_all s (a ∷ l) gs = group_all s l (group_add s a gs)

-- sorted(grouped.items()): the instants of a dict are distinct
pub insert_group : Group → List Group → List Group
insert_group g [] = g ∷ []
insert_group g (h ∷ gs) = if leb g.instant h.instant then g ∷ h ∷ gs else h ∷ insert_group g gs

pub sort_groups : List Group → List Group
unfolding insert_group
sort_groups [] = []
sort_groups (g ∷ gs) = insert_group g (sort_groups gs)

-- (value.point.accuracy_m, value.sample_id)
pub better : TimedPoint → TimedPoint → Bool
better a b =
    ltb a.point.accuracy b.point.accuracy
    || (a.point.accuracy == b.point.accuracy && ltb a.sample_id b.sample_id)

-- Python's min keeps the first of equal values.
pub best_of : TimedPoint → List TimedPoint → TimedPoint
unfolding better
best_of a [] = a
best_of a (b ∷ l) = best_of (if better b a then b else a) l

-- _best
pub best : List TimedPoint → Option TimedPoint
unfolding best_of
best [] = none
best (a ∷ l) = some (best_of a l)

pub record Observation : Type 0 where
  pub instant : ℕ
  pub new_left : Option TimedPoint
  pub new_right : Option TimedPoint

pub observations : List Group → List Observation
unfolding best
observations [] = []
observations (g ∷ gs) =
    record { instant = g.instant; new_left = best g.lefts; new_right = best g.rights }
    ∷ observations gs

-- _group_events
unfoldable pub group_events : List TimedPoint → List TimedPoint → List Observation
unfolding group_all sort_groups observations
group_events left right =
    observations (sort_groups (group_all on_right right (group_all on_left left [])))
