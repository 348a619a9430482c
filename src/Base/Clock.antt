-- ===== src/Base/Clock.antt =====
-- Go's Time.Format(time.RFC3339) for an instant in UTC.
use Prim.Native.Nat.{ℕ, ◌+◌, ◌-◌, ◌*◌, ◌/◌, ◌%◌, ◌^◌}
use Prim.Native.String.{String, ◌++◌}
use mathlib.Core.Path.{◌≡◌, refl}
use browser_use.Base.Bools.{ltb, leb, if◌then◌else◌}
use browser_use.Base.Decimal.{padded, decimal}

-- The year, month and day of a number of days since the first of January of the year 1; the
-- computation counts years from the first of March of the year 0.
unfoldable civil_date : ℕ → ℕ × ℕ × ℕ
civil_date days =
    let since_march = days + 306 in
    let day_of_era = since_march % 146097 in
    let year_of_era =
      (day_of_era + day_of_era / 36524 - day_of_era / 1460 - day_of_era / 146096) / 365 in
    let day_of_year = day_of_era + year_of_era / 100 - 365 * year_of_era - year_of_era / 4 in
    let month_from_march = (5 * day_of_year + 2) / 153 in
    let month = if ltb month_from_march 10 then month_from_march + 3 else month_from_march - 9 in
    let year = 400 * (since_march / 146097) + year_of_era in
    (
      if leb month 2 then year + 1 else year,
      month,
      day_of_year + 1 - (153 * month_from_march + 2) / 5,
    )

unfoldable pub format_rfc3339 : ℕ → String
unfolding civil_date
format_rfc3339 instant =
    let seconds = instant / 10 ^ 9 in
    let (year, month, day) = civil_date (seconds / 86400) in
    padded 4 year
    ++ "-"
    ++ padded 2 month
    ++ "-"
    ++ padded 2 day
    ++ "T"
    ++ padded 2 (seconds / 3600 % 24)
    ++ ":"
    ++ padded 2 (seconds / 60 % 60)
    ++ ":"
    ++ padded 2 (seconds % 60)
    ++ "Z"

zero_time_test : format_rfc3339 0 ≡ "0001-01-01T00:00:00Z"
unfolding format_rfc3339 padded decimal
zero_time_test = refl

leap_day_test : format_rfc3339 (63844797845 * 10 ^ 9) ≡ "2024-02-29T10:04:05Z"
unfolding format_rfc3339 padded decimal
leap_day_test = refl
