-- ===== src/Protocol/Json/Time/Civil.antt =====
-- The calendar of `format_utc_iso` in crates/pigtree-protocol/src/json.rs is the Gregorian one.
use pig_tree.Base.{ℕ, ◌+◌, ◌-◌, ◌*◌, ◌/◌, ◌≤◌, ◌<◌, true, ◌≡◌, refl, subst, arith}
use pig_tree.Protocol.Json.Time.{year_of_era, day_of_year, date_in_month, civil_date}
use pig_tree.Protocol.Json.Time.Calendar.{
  is_leap, days_before_march, IsDayNumber, date_in_month-IsDayNumber,
}

year_of_era_bounds :
    (doe : ℕ)
    → doe < 146097
    → (year_of_era doe < 400)
      × (365 * year_of_era doe + year_of_era doe / 4 - year_of_era doe / 100 ≤ doe)
unfolding year_of_era
year_of_era_bounds doe h = (omega arith, omega arith)

-- The year of an era that begins in March has 366 days if the next February has 29.
year_of_era_end :
    (doe : ℕ)
    → doe < 146097
    → (day_of_year doe (year_of_era doe) ≤ 365)
      × (day_of_year doe (year_of_era doe) ≡ 365 → is_leap (year_of_era doe + 1) ≡ true)
unfolding year_of_era day_of_year is_leap
year_of_era_end doe h = (omega arith, λ e. ground arith)

day_in_eras :
    (n doe era : ℕ)
    → doe < 146097
    → n + 719468 ≡ doe + era * 146097
    → days_before_march (year_of_era doe + era * 400) + day_of_year doe (year_of_era doe)
      ≡ n + 719528
unfolding day_of_year
day_in_eras n doe era h e = let (small, reached) = year_of_era_bounds doe h in omega arith

is_leap-era : (y era : ℕ) → is_leap (y + 1) ≡ true → is_leap (y + era * 400 + 1) ≡ true
unfolding is_leap
is_leap-era y era h = ground arith

-- The date of day `n` after 1970-01-01 has a month of a year and a day of the month, and the years,
-- months and days before it, counted by the Gregorian rules, are those of `n` and of the 719528 days
-- from 0000-01-01 to 1970-01-01.
pub civil_date-IsDayNumber : (n : ℕ) → IsDayNumber (civil_date n) (n + 719528)
unfolding civil_date
civil_date-IsDayNumber n =
    let era = (n + 719468) / 146097 in
    let doe = n + 719468 - era * 146097 in
    let doy = day_of_year doe (year_of_era doe) in
    let (fits, leap) = year_of_era_end doe (omega arith) in
    subst
      (λ (k : ℕ).
        IsDayNumber (date_in_month (year_of_era doe + era * 400) doy ((5 * doy + 2) / 153)) k)
      (day_in_eras n doe era (omega arith) (omega arith))
      (date_in_month-IsDayNumber (year_of_era doe + era * 400) doy ((5 * doy + 2) / 153) fits
        (λ e. is_leap-era (year_of_era doe) era (leap e)) refl)
