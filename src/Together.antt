-- ===== src/Together.antt =====
-- services/api/src/little_orbit_api/together_time_service.py: the pure helpers with which the
-- together-time service picks the ranges to recompute and labels its totals. Times are microseconds
-- since the epoch, and a cut-off difference is no less than the safe start that it is compared with.
pub mod Ranges
mod Examples
use littleorbit.Prelude.{
  ℕ, ◌+◌, ◌-◌, ◌*◌, ◌/◌, min, max, Bool, true, false, not, ◌&&◌, ◌||◌, Option, none, some, List, [],
  ◌∷◌, map, ◌==◌, ltb, leb, if◌then◌else◌, keep,
}
use littleorbit.Location.Types.{minute, max_bridged_interval}

pub record Range : Type 0 where
  pub start : ℕ
  pub end : ℕ

-- The tuples' order: by start, then by end.
abbrev pub range_le : Range → Range → Bool
range_le a b = ltb a.start b.start || (a.start == b.start && leb a.end b.end)

pub insert_range : Range → List Range → List Range
insert_range a [] = a ∷ []
insert_range a (b ∷ bs) = if range_le a b then a ∷ b ∷ bs else b ∷ insert_range a bs

pub sort_ranges : List Range → List Range
unfolding insert_range
sort_ranges [] = []
sort_ranges (a ∷ more) = insert_range a (sort_ranges more)

abbrev pub window : ℕ → ℕ → ℕ → Range
window safe_start now value = record {
  start = max safe_start (value - max_bridged_interval);
  end = min now (value + max_bridged_interval);
}

abbrev pub is_recent : ℕ → ℕ → ℕ → Bool
is_recent safe_start now value = leb safe_start value && leb value now

abbrev pub last_range : Option Range → List Range
last_range none = []
last_range (some m) = m ∷ []

-- `merged and start <= merged[-1][1]`
abbrev pub meets : Option Range → Range → Bool
meets none r = false
meets (some m) r = leb r.start m.end

abbrev pub extended : Option Range → Range → Range
extended none r = r
extended (some m) r = record { start = m.start; end = max m.end r.end }

abbrev pub emit : Option Range → List Range → List Range
emit none l = l
emit (some m) l = m ∷ l

-- The loop of `_recompute_ranges`; the first argument is merged[-1].
pub merge : Option Range → List Range → List Range
merge last [] = last_range last
merge last (r ∷ rs) =
    let skip = merge last rs in
    let grown = merge (some (extended last r)) rs in
    let fresh = emit last (merge (some r) rs) in
    if leb r.end r.start then skip else if meets last r then grown else fresh

-- _recompute_ranges
pub recompute_ranges : List ℕ → ℕ → ℕ → List Range
unfolding sort_ranges merge
recompute_ranges changed_at safe_start now =
    merge none
      (sort_ranges (map (window safe_start now) (keep (is_recent safe_start now) changed_at)))

-- _floor_minute
pub floor_of_minute : ℕ → ℕ
floor_of_minute value = value / minute * minute

-- _ceil_minute
pub ceil_of_minute : ℕ → ℕ
unfolding floor_of_minute
ceil_of_minute value =
    let floor = floor_of_minute value in if value == floor then floor else floor + minute

pub data Method : Type 0 where
  current_v4 current_v3 legacy_v2 mixed : Method

-- _estimate_method
pub estimate_method : Option ℕ → Option ℕ → Method
estimate_method none maximum = Method.current_v4
estimate_method (some a) none = Method.current_v4
estimate_method (some a) (some b) =
    if leb 4 a
    then Method.current_v4
    else if leb 3 a && leb b 3
    then Method.current_v3
    else if leb b 2
    then Method.legacy_v2
    else Method.mixed
