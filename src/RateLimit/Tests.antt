-- ===== src/RateLimit/Tests.antt =====
-- Runs of api/app/services/rate_limit.py.
use flash_connector.Prelude.{
  ◌+◌, ◌*◌, ◌-◌, ◌<◌, false, ◌∷◌, min, [], ◌≡◌, refl, ltb, if◌then◌else◌, arith,
}
use flash_connector.RateLimit.{
  Moment, Clock, Limiter, seconds_until_next_month, count, rate_key, quota_key,
}
use flash_connector.RateLimit.Calendar.{IsMoment, days_in_month, seconds_until_next_month-eq}
use flash_connector.RateLimit.Admission.{admitted, admitted-eq, admitted-last_second}

abbrev noon : Moment
noon = record {
  year = 2024;
  month = 2;
  day = 28;
  hour = 12;
  minute = 0;
  second = 0;
  microsecond = 0;
}

abbrev year_end : Moment
year_end = record {
  year = 2023;
  month = 12;
  day = 31;
  hour = 23;
  minute = 59;
  second = 59;
  microsecond = 5;
}

abbrev at_noon : Clock
at_noon = record { now = noon; minute_bucket = "202402281200"; month_bucket = "202402" }

abbrev at_year_end : Clock
at_year_end = record { now = year_end; minute_bucket = "202312312359"; month_bucket = "202312" }

abbrev empty_limiter : Limiter
empty_limiter = record {
  redis_rates = [];
  redis_quotas = [];
  fallback_rates = [];
  fallback_quotas = [];
}

noon-left : seconds_until_next_month noon ≡ 129600
unfolding seconds_until_next_month
noon-left = refl

year_end-left : seconds_until_next_month year_end ≡ 0
unfolding seconds_until_next_month
year_end-left = refl

noon-IsMoment : IsMoment noon
noon-IsMoment = record {
  year_pos = omega arith;
  month_pos = omega arith;
  month_max = omega arith;
  day_pos = omega arith;
  day_max = omega arith;
  hour_max = omega arith;
  minute_max = omega arith;
  second_max = omega arith;
}

year_end-IsMoment : IsMoment year_end
year_end-IsMoment = record {
  year_pos = omega arith;
  month_pos = omega arith;
  month_max = omega arith;
  day_pos = omega arith;
  day_max = omega arith;
  hour_max = omega arith;
  minute_max = omega arith;
  second_max = omega arith;
}

seconds_until_next_month-eq_example :
    seconds_until_next_month noon
    ≡ (days_in_month 2024 2 + 1 - 28) * 86400
      - (12 * 3600 + 0 * 60 + 0)
      - (if ltb 0 0 then 1 else 0)
seconds_until_next_month-eq_example = seconds_until_next_month-eq noon noon-IsMoment

admitted-eq_example :
    admitted "production" false at_noon "k" 2 3 (noon ∷ noon ∷ noon ∷ []) empty_limiter
    ≡ min 3 (min (2 - count (rate_key "k" at_noon) []) (3 - count (quota_key "k" at_noon) []))
admitted-eq_example =
    let early : 0 < seconds_until_next_month noon = rw noon-left (omega arith) in
    admitted-eq "production" false at_noon "k" 2 3 (noon ∷ noon ∷ noon ∷ []) empty_limiter
      (early, (early, (early, tt)))

admitted-last_second_example :
    admitted "production" false at_year_end "k" 10 1 (year_end ∷ year_end ∷ []) empty_limiter
    ≡ min 2 (10 - count (rate_key "k" at_year_end) [])
admitted-last_second_example =
    admitted-last_second "production" false at_year_end "k" 10 1 (year_end ∷ year_end ∷ [])
      empty_limiter (year_end-left, (year_end-left, tt)) (omega arith) refl
