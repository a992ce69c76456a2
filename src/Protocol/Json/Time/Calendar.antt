-- ===== src/Protocol/Json/Time/Calendar.antt =====
-- The rules of the Gregorian calendar, and the months of a year that begins in March, for
-- `format_utc_iso` of crates/pigtree-protocol/src/json.rs.
use pig_tree.Base.{
  ℕ, zero, suc, ◌+◌, ◌-◌, ◌*◌, ◌/◌, ◌%◌, ◌≤◌, Bool, true, List, [], ◌∷◌, get_or, ◌≡◌, arith, ◌==◌,
  if◌then◌else◌,
}
use pig_tree.Protocol.Json.Time.{Date, date_in_month}

-- The Gregorian rules: a multiple of four is a leap year, but of the centuries only each fourth is.
unfoldable pub is_leap : ℕ → Bool
is_leap y = if y % 100 == 0 then y % 400 == 0 else y % 4 == 0

-- The months of a year, from January on.
month_lengths : ℕ → List ℕ
unfolding is_leap
month_lengths y =
    31 ∷ (if is_leap y then 29 else 28) ∷ 31 ∷ 30 ∷ 31 ∷ 30 ∷ 31 ∷ 31 ∷ 30 ∷ 31 ∷ 30 ∷ 31 ∷ []

pub days_in_month : ℕ → ℕ → ℕ
unfolding month_lengths
days_in_month y m = get_or (month_lengths y) (m - 1) 0

-- The days of the months before month `m + 1`, and of the years before `y`, from the year 0 on.
pub days_before_month : ℕ → ℕ → ℕ
unfolding days_in_month
days_before_month y zero = 0
days_before_month y (suc m) = days_before_month y m + days_in_month y (suc m)

pub days_before_year : ℕ → ℕ
unfolding is_leap
days_before_year zero = 0
days_before_year (suc y) = days_before_year y + (if is_leap y then 366 else 365)

-- The day `t` is the day number `n`, counted from 0000-01-01.
abbrev pub IsDayNumber : Date → ℕ → Type 0
IsDayNumber t n =
    (1 ≤ t.month)
    × (t.month ≤ 12)
    × (1 ≤ t.day)
    × (t.day ≤ days_in_month t.year t.month)
    × (n + 1 ≡ days_before_year t.year + days_before_month t.year (t.month - 1) + t.day)

days_before_year_closed :
    (y : ℕ) → days_before_year y + (y + 99) / 100 ≡ 365 * y + (y + 3) / 4 + (y + 399) / 400
unfolding days_before_year is_leap
days_before_year_closed zero = omega arith
days_before_year_closed (suc y) = ground (arith, days_before_year_closed y)

-- The days before March of the year `y`.
abbrev pub days_before_march : ℕ → ℕ
days_before_march y = 365 * y + y / 4 + y / 400 + 60 - y / 100

pub date_in_month-IsDayNumber :
    (y doy mp : ℕ)
    → doy ≤ 365
    → (doy ≡ 365 → is_leap (y + 1) ≡ true)
    → (5 * doy + 2) / 153 ≡ mp
    → IsDayNumber (date_in_month y doy mp) (days_before_march y + doy)
unfolding date_in_month days_before_month days_in_month
date_in_month-IsDayNumber y doy zero h leap e = ground (arith, days_before_year_closed y)
date_in_month-IsDayNumber y doy (suc zero) h leap e = ground (arith, days_before_year_closed y)
date_in_month-IsDayNumber y doy (suc (suc zero)) h leap e =
    ground (arith, days_before_year_closed y)
date_in_month-IsDayNumber y doy (suc (suc (suc zero))) h leap e =
    ground (arith, days_before_year_closed y)
date_in_month-IsDayNumber y doy (suc (suc (suc (suc zero)))) h leap e =
    ground (arith, days_before_year_closed y)
date_in_month-IsDayNumber y doy (suc (suc (suc (suc (suc zero))))) h leap e =
    ground (arith, days_before_year_closed y)
date_in_month-IsDayNumber y doy (suc (suc (suc (suc (suc (suc zero)))))) h leap e =
    ground (arith, days_before_year_closed y)
date_in_month-IsDayNumber y doy (suc (suc (suc (suc (suc (suc (suc zero))))))) h leap e =
    ground (arith, days_before_year_closed y)
date_in_month-IsDayNumber y doy (suc (suc (suc (suc (suc (suc (suc (suc zero)))))))) h leap e =
    ground (arith, days_before_year_closed y)
date_in_month-IsDayNumber y doy (suc (suc (suc (suc (suc (suc (suc (suc (suc zero))))))))) h leap
      e =
    ground (arith, days_before_year_closed y)
date_in_month-IsDayNumber y doy (suc (suc (suc (suc (suc (suc (suc (suc (suc (suc zero)))))))))) h
      leap e =
    ground (arith, days_before_year_closed (y + 1))
date_in_month-IsDayNumber y doy
      (suc (suc (suc (suc (suc (suc (suc (suc (suc (suc (suc zero))))))))))) h leap e =
    ground (arith, days_before_year_closed (y + 1))
date_in_month-IsDayNumber y doy
      (suc (suc (suc (suc (suc (suc (suc (suc (suc (suc (suc (suc mp)))))))))))) h leap e =
    absurd (omega arith)
