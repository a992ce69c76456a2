-- ===== src/Protocol/Json/Time.antt =====
-- `format_utc_iso` of crates/pigtree-protocol/src/json.rs: a time after 1970, as seconds and
-- milliseconds, in UTC. No subtraction of the code goes below zero, so naturals stand for `i64` and
-- `u32`.
pub mod Calendar
pub mod Civil
use pig_tree.Base.{
  ℕ, zero, suc, ◌+◌, ◌-◌, ◌*◌, ◌/◌, ◌%◌, List, [], ◌∷◌, ◌++◌, length, ltb, leb, if◌then◌else◌,
}
use pig_tree.Base.Text.{Text, codes, decimal}

pub record Date : Type 0 where
  pub year : ℕ
  pub month : ℕ
  pub day : ℕ

-- The year of the era of 400 years from a day of it: years begin in March.
unfoldable pub year_of_era : ℕ → ℕ
year_of_era doe = (doe - doe / 1460 + doe / 36524 - doe / 146096) / 365

unfoldable pub day_of_year : ℕ → ℕ → ℕ
day_of_year doe yoe = doe - (365 * yoe + yoe / 4 - yoe / 100)

-- The date with the day `doy` of the year that begins in March of `y`; its month is `mp`, from
-- March on.
unfoldable pub date_in_month : ℕ → ℕ → ℕ → Date
date_in_month y doy mp =
    let d = doy - (153 * mp + 2) / 5 + 1 in
    let m = if ltb mp 10 then mp + 3 else mp - 9 in
    record { year = if leb m 2 then y + 1 else y; month = m; day = d }

unfoldable pub civil_date : ℕ → Date
unfolding year_of_era day_of_year date_in_month
civil_date days =
    let z = days + 719468 in
    let era = z / 146097 in
    let doe = z - era * 146097 in
    let yoe = year_of_era doe in
    let doy = day_of_year doe yoe in date_in_month (yoe + era * 400) doy ((5 * doy + 2) / 153)

zeros : ℕ → Text
zeros zero = []
zeros (suc n) = b'0' ∷ zeros n

-- `{:0w}`.
unfoldable pub padded : ℕ → ℕ → Text
unfolding zeros
padded w n = let t = decimal n in zeros (w - length t) ++ t

unfoldable pub format_utc_iso : ℕ → ℕ → Text
unfolding civil_date padded
format_utc_iso total_secs millis =
    let date = civil_date (total_secs / 86400) in
    let seconds_of_day = total_secs % 86400 in
    let hours = seconds_of_day / 3600 in
    let minutes = (seconds_of_day % 3600) / 60 in
    let seconds = seconds_of_day % 60 in
    padded 4 date.year
    ++ (codes "-"
        ++ (padded 2 date.month
            ++ (codes "-"
                ++ (padded 2 date.day
                    ++ (codes "T"
                        ++ (padded 2 hours
                            ++ (codes ":"
                                ++ (padded 2 minutes
                                    ++ (codes ":"
                                        ++ (padded 2 seconds
                                            ++ (codes "."
                                                ++ (padded 3 millis ++ codes "Z"))))))))))))
