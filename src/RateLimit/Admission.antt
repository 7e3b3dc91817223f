-- ===== src/RateLimit/Admission.antt =====
-- How many requests the limiter lets through.
use mathlib.Core.Path.{ap₂}
use flash_connector.Prelude.{
  List, [], ◌∷◌, All, length, refl, ◌-◌, ℕ, ◌+◌, ◌<◌, ◌≡◌, ◌∙◌, String, Bool, true, false, eq_refl,
  arith, min, if◌then◌else◌,
}
use flash_connector.Prelude.Dict.{lookup-insert}
use flash_connector.RateLimit.{
  Moment, enforce_limits, Clock, Counts, Limiter, Verdict, allowed, count, incr, expire, judge,
  rate_key, quota_key, enforce_limits_redis, seconds_until_next_month,
}

count-incr : (k : String) (c : Counts) → count k (incr k c) ≡ count k c + 1
unfolding incr
count-incr k c = rw (lookup-insert k k (count k c + 1) c) (rw (eq_refl k))

abbrev is_allowed : Verdict → Bool
is_allowed allowed = true
is_allowed _ = false

-- The clock at a moment of the minute and the month that it names.
abbrev pub at : Clock → Moment → Clock
at clock m = record clock { now = m }

-- How many of the requests with one key, at moments of one minute, Redis answering each, are allowed. The
-- other two arguments are the settings that say what is done where Redis does not answer.
pub admitted : String → Bool → Clock → String → ℕ → ℕ → List Moment → Limiter → ℕ
admitted environment fallback clock key rate quota [] l = 0
admitted environment fallback clock key rate quota (m ∷ ms) l =
    let (v, l') = enforce_limits true environment fallback (at clock m) key rate quota l in
    (if is_allowed v then 1 else 0) + admitted environment fallback clock key rate quota ms l'

admitted-cons :
    (environment : String) (fallback : Bool) (clock : Clock) (key : String) (rate quota : ℕ)
    (m : Moment) (ms : List Moment) (l : Limiter)
    → admitted environment fallback clock key rate quota (m ∷ ms) l
      ≡ (if is_allowed (enforce_limits_redis (at clock m) key rate quota l).0 then 1 else 0)
        + admitted environment fallback clock key rate quota ms
            (enforce_limits_redis (at clock m) key rate quota l).1
unfolding admitted enforce_limits
admitted-cons environment fallback clock key rate quota m ms l = refl

count-expire : (k : String) (ttl : ℕ) (c : Counts) → 0 < ttl → count k (expire k ttl c) ≡ count k c
unfolding expire
count-expire k ttl c h = ground arith

-- What one request that Redis answers reads and leaves, away from the last second of a month.
redis-counts :
    (clock : Clock) (key : String) (rate quota : ℕ) (l : Limiter)
    → 0 < seconds_until_next_month clock.now
    → let (v, l') = enforce_limits_redis clock key rate quota l in
      (v
        ≡ judge
            (count (rate_key key clock) l.redis_rates + 1)
            (count (quota_key key clock) l.redis_quotas + 1)
            rate
            quota)
      × (count (rate_key key clock) l'.redis_rates ≡ count (rate_key key clock) l.redis_rates + 1)
      × (count (quota_key key clock) l'.redis_quotas
          ≡ count (quota_key key clock) l.redis_quotas + 1)
unfolding enforce_limits_redis
redis-counts clock key rate quota l h =
    let r = count-incr (rate_key key clock) l.redis_rates in
    let q = count-incr (quota_key key clock) l.redis_quotas in
    (
      ap₂ (λ x y. judge x y rate quota) r q,
      count-expire (rate_key key clock) 120 (incr (rate_key key clock) l.redis_rates) (omega arith)
          ∙ r,
      count-expire (quota_key key clock) (seconds_until_next_month clock.now)
            (incr (quota_key key clock) l.redis_quotas) h
          ∙ q,
    )

last_second-counts :
    (clock : Clock) (key : String) (rate quota : ℕ) (l : Limiter)
    → seconds_until_next_month clock.now ≡ 0
    → let (v, l') = enforce_limits_redis clock key rate quota l in
      (v
        ≡ judge
            (count (rate_key key clock) l.redis_rates + 1)
            (count (quota_key key clock) l.redis_quotas + 1)
            rate
            quota)
      × (count (rate_key key clock) l'.redis_rates ≡ count (rate_key key clock) l.redis_rates + 1)
      × (count (quota_key key clock) l'.redis_quotas ≡ 0)
unfolding enforce_limits_redis
last_second-counts clock key rate quota l h =
    let r = count-incr (rate_key key clock) l.redis_rates in
    let q = count-incr (quota_key key clock) l.redis_quotas in
    (
      ap₂ (λ x y. judge x y rate quota) r q,
      count-expire (rate_key key clock) 120 (incr (rate_key key clock) l.redis_rates) (omega arith)
          ∙ r,
      rw (h, expire) (rw lookup-insert (rw eq_refl)),
    )

-- Where Redis answers every request: away from the last second of a month, of the requests with one key
-- in one minute exactly as many are allowed as both limits leave room for: a request that is refused
-- counts too, so later ones are refused as well.
pub admitted-eq :
    (environment : String) (fallback : Bool) (clock : Clock) (key : String) (rate quota : ℕ)
    (moments : List Moment) (l : Limiter)
    → All (λ m. 0 < seconds_until_next_month m) moments
    → admitted environment fallback clock key rate quota moments l
      ≡ min (length moments) (
          min
            (rate - count (rate_key key clock) l.redis_rates)
            (quota - count (quota_key key clock) l.redis_quotas))
unfolding admitted
admitted-eq environment fallback clock key rate quota [] l h = omega arith
admitted-eq environment fallback clock key rate quota (m ∷ ms) l h =
    let l' = (enforce_limits_redis (at clock m) key rate quota l).1 in
    rw (admitted-cons environment fallback clock key rate quota m ms l) (
      ground (
        arith,
        redis-counts (at clock m) key rate quota l h.0,
        admitted-eq environment fallback clock key rate quota ms l' h.1,
      ))

-- Where Redis answers every request: in the last second of a month the counter of the month is deleted by
-- each request, so that from an empty counter only the limit by minute holds back a key whose quota is
-- not zero.
pub admitted-last_second :
    (environment : String) (fallback : Bool) (clock : Clock) (key : String) (rate quota : ℕ)
    (moments : List Moment) (l : Limiter)
    → All (λ m. seconds_until_next_month m ≡ 0) moments
    → 0 < quota
    → count (quota_key key clock) l.redis_quotas ≡ 0
    → admitted environment fallback clock key rate quota moments l
      ≡ min (length moments) (rate - count (rate_key key clock) l.redis_rates)
unfolding admitted
admitted-last_second environment fallback clock key rate quota [] l h p z = omega arith
admitted-last_second environment fallback clock key rate quota (m ∷ ms) l h p z =
    let l' = (enforce_limits_redis (at clock m) key rate quota l).1 in
    rw (admitted-cons environment fallback clock key rate quota m ms l) (
      ground (
        arith,
        last_second-counts (at clock m) key rate quota l h.0,
        admitted-last_second environment fallback clock key rate quota ms l' h.1 p,
      ))
