-- ===== src/Throttle/Examples.antt =====
-- Concrete runs of the rate limits.
use littleorbit.Prelude.{ℕ, ◌+◌, ◌*◌, ◌≡◌, refl, Text, List, [], ◌∷◌, length, arith}
use littleorbit.Throttle.{RateLimitRule, RateLimitBucket, request_rules, new_bucket}
use littleorbit.Throttle.Limits.{find_bucket, granted, consume_rule_limit}

abbrev digest : Text → Text → ℕ
digest scope subject = 10 * length scope + length subject

abbrev two_an_hour : RateLimitRule
two_an_hour = record { scope = b'i' ∷ []; subject = b'h' ∷ []; limit = 2; window = 3600 }

consume_rule_limit_example : granted digest two_an_hour (100 ∷ 200 ∷ 300 ∷ 3600 ∷ []) [] ≡ 2
unfolding find_bucket
consume_rule_limit_example =
    consume_rule_limit digest two_an_hour 100 (200 ∷ 300 ∷ 3600 ∷ []) [] refl
      (omega arith, (omega arith, (omega arith, tt)))

-- The host has used both requests of its hour, and a subject one.
abbrev subject_bucket : RateLimitBucket
subject_bucket = new_bucket (record two_an_hour { scope = b's' ∷ [] }) 11 40

abbrev buckets : List RateLimitBucket
buckets = record (new_bucket two_an_hour 11 50) { count = 2 } ∷ subject_bucket ∷ []

abbrev rules : List RateLimitRule
rules = request_rules (b'i' ∷ []) (b's' ∷ []) (b'h' ∷ []) (b'u' ∷ []) 2 5 3600
