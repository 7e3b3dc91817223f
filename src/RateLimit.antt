-- ===== src/RateLimit.antt =====
-- api/app/services/rate_limit.py: the counters of requests by minute and by month, in Redis or, where
-- that fails outside production, in the process.
pub mod Admission
pub mod Calendar
mod Tests
use flash_connector.Prelude.{
  ℕ, ◌+◌, ◌-◌, ◌*◌, ◌/◌, String, Bool, true, false, ◌&&◌, ◌||◌, Option, none, some, List, [], ◌∷◌,
  ltb, nat_eq, if◌then◌else◌, text_append, or_else, ◌==◌,
}
use flash_connector.Prelude.Dict.{Dict, lookup, insert}
use Prim.Native.Nat.{◌%◌}

-- A moment in UTC, as `datetime` holds it.
pub record Moment : Type 0 where
  pub year : ℕ
  pub month : ℕ
  pub day : ℕ
  pub hour : ℕ
  pub minute : ℕ
  pub second : ℕ
  pub microsecond : ℕ

abbrev pub is_leap : ℕ → Bool
is_leap y = nat_eq (y % 4) 0 && (ltb 0 (y % 100) || nat_eq (y % 400) 0)

-- The days of the months before a month, and of the years before a year: `datetime.toordinal`.
abbrev pub days_before_month : ℕ → ℕ → ℕ
days_before_month y m =
    let leap = if is_leap y then 1 else 0 in
    if ltb m 2
    then 0
    else if nat_eq m 2
    then 31
    else if nat_eq m 3
    then 59 + leap
    else if nat_eq m 4
    then 90 + leap
    else if nat_eq m 5
    then 120 + leap
    else if nat_eq m 6
    then 151 + leap
    else if nat_eq m 7
    then 181 + leap
    else if nat_eq m 8
    then 212 + leap
    else if nat_eq m 9
    then 243 + leap
    else if nat_eq m 10
    then 273 + leap
    else if nat_eq m 11
    then 304 + leap
    else 334 + leap

abbrev pub days_before_year : ℕ → ℕ
days_before_year y = (y - 1) * 365 + (y - 1) / 4 - (y - 1) / 100 + (y - 1) / 400

abbrev pub ordinal : ℕ → ℕ → ℕ → ℕ
ordinal y m d = days_before_year y + days_before_month y m + d

-- `int((next_month - now).total_seconds())`: the whole seconds, rounded down.
unfoldable pub seconds_until_next_month : Moment → ℕ
seconds_until_next_month now =
    let next =
      if nat_eq now.month 12
      then ordinal (now.year + 1) 1 1
      else ordinal now.year (now.month + 1) 1 in
    let days = next - ordinal now.year now.month now.day in
    let clock = now.hour * 3600 + now.minute * 60 + now.second in
    days * 86400 - clock - (if ltb 0 now.microsecond then 1 else 0)

-- A dictionary of counts, or the keys of Redis that hold counts.
abbrev pub Counts : Type 0
Counts = Dict ℕ

abbrev pub count : String → Counts → ℕ
count k c = or_else (lookup k c) 0

-- `counts[key] = counts.get(key, 0) + 1`, and `INCR`
unfoldable pub incr : String → Counts → Counts
incr k c = insert k (count k c + 1) c

-- `EXPIRE`: a time to live of zero deletes the key at once. What a longer one
-- takes away later is not modelled: the time to live is cut to whole seconds, so the key of a month may
-- go up to a second before the month ends, and the counts are those of requests before that.
unfoldable pub expire : String → ℕ → Counts → Counts
expire k ttl c = if nat_eq ttl 0 then insert k 0 c else c

-- The moment of a request, with `strftime("%Y%m%d%H%M")` and `strftime("%Y%m")` of it.
pub record Clock : Type 0 where
  pub now : Moment
  pub minute_bucket : String
  pub month_bucket : String

abbrev pub rate_key : String → Clock → String
rate_key api_key_id c =
    text_append "ratelimit:" (text_append api_key_id (text_append ":" c.minute_bucket))

abbrev pub quota_key : String → Clock → String
quota_key api_key_id c =
    text_append "quota:" (text_append api_key_id (text_append ":" c.month_bucket))

pub data Verdict : Type 0 where
  allowed rate_exceeded quota_exceeded unavailable : Verdict

-- The two tests at the end of both functions.
abbrev pub judge : ℕ → ℕ → ℕ → ℕ → Verdict
judge rate_count quota_count per_min_limit monthly_quota =
    if ltb per_min_limit rate_count
    then rate_exceeded
    else if ltb monthly_quota quota_count
    then quota_exceeded
    else allowed

-- The keys of Redis stand in two dictionaries, by their prefixes, as the process's own counters do.
pub record Limiter : Type 0 where
  pub redis_rates : Counts
  pub redis_quotas : Counts
  pub fallback_rates : Counts
  pub fallback_quotas : Counts

unfoldable pub enforce_limits_fallback : Clock → String → ℕ → ℕ → Limiter → Verdict × Limiter
unfolding incr
enforce_limits_fallback clock api_key_id per_min_limit monthly_quota l =
    let rates = incr (rate_key api_key_id clock) l.fallback_rates in
    let quotas = incr (quota_key api_key_id clock) l.fallback_quotas in
    (
      judge (count (rate_key api_key_id clock) rates) (count (quota_key api_key_id clock) quotas)
          per_min_limit monthly_quota,
      record l { fallback_rates = rates; fallback_quotas = quotas },
    )

-- The transaction's four commands, and the counts that its two increments answer.
unfoldable pub enforce_limits_redis : Clock → String → ℕ → ℕ → Limiter → Verdict × Limiter
unfolding incr expire seconds_until_next_month
enforce_limits_redis clock api_key_id per_min_limit monthly_quota l =
    let rates = incr (rate_key api_key_id clock) l.redis_rates in
    let quotas = incr (quota_key api_key_id clock) l.redis_quotas in
    (
      judge (count (rate_key api_key_id clock) rates) (count (quota_key api_key_id clock) quotas)
          per_min_limit monthly_quota,
      record l {
        redis_rates = expire (rate_key api_key_id clock) 120 rates;
        redis_quotas =
            expire (quota_key api_key_id clock) (seconds_until_next_month clock.now) quotas;
      },
    )

-- Whether Redis answers, and the two settings, are arguments; a transaction that fails counts nothing.
unfoldable pub enforce_limits :
    Bool → String → Bool → Clock → String → ℕ → ℕ → Limiter → Verdict × Limiter
unfolding enforce_limits_fallback enforce_limits_redis
enforce_limits redis_answers environment allow_fallback clock api_key_id per_min_limit monthly_quota
      l =
    if redis_answers
    then enforce_limits_redis clock api_key_id per_min_limit monthly_quota l
    else if (environment == "development" || environment == "test") && allow_fallback
    then enforce_limits_fallback clock api_key_id per_min_limit monthly_quota l
    else (unavailable, l)
