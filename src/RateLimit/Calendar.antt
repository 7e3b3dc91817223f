-- ===== src/RateLimit/Calendar.antt =====
-- The time to live of a month's counter.
use flash_connector.Prelude.{
  ap, subst, inl, inr, Bool-cases, ℕ, ◌+◌, ◌-◌, ◌*◌, ◌≤◌, ◌<◌, ◌≡◌, ◌↔◌, arith, if◌then◌else◌, ltb,
  nat_eq,
}
use flash_connector.RateLimit.{
  Moment, is_leap, days_before_month, days_before_year, ordinal, seconds_until_next_month,
}

abbrev pub days_in_month : ℕ → ℕ → ℕ
days_in_month y m =
    if nat_eq m 2
    then (if is_leap y then 29 else 28)
    else if nat_eq m 4
    then 30
    else if nat_eq m 6
    then 30
    else if nat_eq m 9
    then 30
    else if nat_eq m 11
    then 30
    else 31

-- The ranges of a `datetime`.
pub record IsMoment (t : Moment) : Type 0 where
  pub year_pos : 0 < t.year
  pub month_pos : 0 < t.month
  pub month_max : t.month ≤ 12
  pub day_pos : 0 < t.day
  pub day_max : t.day ≤ days_in_month t.year t.month
  pub hour_max : t.hour < 24
  pub minute_max : t.minute < 60
  pub second_max : t.second < 60

next_month-days :
    (y m : ℕ)
    → 0 < y
    → 0 < m
    → m < 12
    → days_before_month y (m + 1) ≡ days_before_month y m + days_in_month y m
next_month-days y m hy h k = ground arith

next_year-days :
    (y : ℕ)
    → 0 < y
    → days_before_year (y + 1) + 1
      ≡ days_before_year y + days_before_month y 12 + days_in_month y 12 + 1
next_year-days y h = ground arith

-- The days from a date to the first of the next month.
days_left : (y m d : ℕ) → ℕ
days_left y m d = (if nat_eq m 12 then ordinal (y + 1) 1 1 else ordinal y (m + 1) 1) - ordinal y m d

days_left-eq :
    (y m d : ℕ)
    → 0 < y
    → 0 < m
    → m ≤ 12
    → 0 < d
    → d ≤ days_in_month y m
    → days_left y m d ≡ days_in_month y m + 1 - d
unfolding days_left
days_left-eq y m d hy h k hd kd = elim (Bool-cases (nat_eq m 12)) [
  | inl e ↦
      let e' : m ≡ 12 = ground arith in
      rw e' (omega (arith, next_year-days y hy, subst (λ x. d ≤ days_in_month y x) e' kd))
  | inr e ↦ let l : m < 12 = ground arith in rw e (omega (arith, next_month-days y m hy h l, kd))
]

-- At a valid moment the time to live is what is left of the month, in whole seconds rounded down.
pub seconds_until_next_month-eq :
    (t : Moment)
    → IsMoment t
    → seconds_until_next_month t
      ≡ (days_in_month t.year t.month + 1 - t.day) * 86400
        - (t.hour * 3600 + t.minute * 60 + t.second)
        - (if ltb 0 t.microsecond then 1 else 0)
unfolding seconds_until_next_month days_left
seconds_until_next_month-eq t v =
    ap
      (λ (days : ℕ).
        days * 86400
        - (t.hour * 3600 + t.minute * 60 + t.second)
        - (if ltb 0 t.microsecond then 1 else 0))
      (days_left-eq t.year t.month t.day v.year_pos v.month_pos v.month_max v.day_pos v.day_max)

days_in_month-le : (y m : ℕ) → days_in_month y m ≤ 31
days_in_month-le y m = ground arith

abbrev left : ℕ → ℕ → ℕ → ℕ → ℕ → ℕ → ℕ
left days day h m s part = (days + 1 - day) * 86400 - (h * 3600 + m * 60 + s) - part

left-zero :
    (days day h m s part : ℕ)
    → 0 < day
    → day ≤ days
    → h < 24
    → m < 60
    → s < 60
    → part ≤ 1
    → left days day h m s part ≡ 0
    → (day ≡ days) × (h ≡ 23) × (m ≡ 59) × (s ≡ 59) × (0 < part)
left-zero days day h m s part a b c d e f z = omega arith

-- For a moment of the calendar, the time to live that is given to the month's counter is at most 31
-- days, and it is zero exactly after the start of the last second of a month.
pub seconds_until_next_month-zero :
    (t : Moment)
    → IsMoment t
    → (seconds_until_next_month t ≤ 31 * 86400)
      × ((seconds_until_next_month t ≡ 0) ↔ (
          (t.day ≡ days_in_month t.year t.month)
          × (t.hour ≡ 23)
          × (t.minute ≡ 59)
          × (t.second ≡ 59)
          × (0 < t.microsecond)))
seconds_until_next_month-zero t v =
    let days = days_in_month t.year t.month in
    let part : ℕ = if ltb 0 t.microsecond then 1 else 0 in
    let part_max : part ≤ 1 = ground arith in
    let e = seconds_until_next_month-eq t v in
    (
      rw e (omega (arith, v.day_pos, days_in_month-le t.year t.month)),
      (
        (λ z.
            let (a, b, c, d, f) =
              left-zero days t.day t.hour t.minute t.second part v.day_pos v.day_max v.hour_max
                v.minute_max v.second_max part_max (rw e at z) in
            (a, b, c, d, ground arith)),
        (λ q. rw e (let g : part ≡ 1 = ground arith in omega (arith, q.0, q.1, q.2, q.3, g))),
      ),
    )
