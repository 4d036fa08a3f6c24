-- ===== src/Common/Dates.antt =====
-- Python's proleptic Gregorian calendar: `date(y, m, d)` and the days between two dates.
use Prim.Native.Nat.{ℕ, suc, zero, ◌+◌, ◌-◌, ◌*◌, ◌/◌, ◌%◌}
use mathlib.Core.Bool.{Bool, not, ◌&&◌, ◌||◌}
use sqlum_ai.Common.Tests.{leb, ◌==◌, if◌then◌else◌}

unfoldable pub is_leap : ℕ → Bool
is_leap y = y % 4 == 0 && (not (y % 100 == 0) || y % 400 == 0)

unfoldable pub days_in_month : ℕ → ℕ → ℕ
unfolding is_leap
days_in_month y m =
    if m == 2
    then (if is_leap y then 29 else 28)
    else if m == 4 || m == 6 || m == 9 || m == 11
    then 30
    else 31

-- does `date(y, m, d)` raise no ValueError?
unfoldable pub is_date : ℕ → ℕ → ℕ → Bool
unfolding days_in_month
is_date y m d = leb 1 y && leb y 9999 && leb 1 m && leb m 12 && leb 1 d && leb d (days_in_month y m)

-- The days of the months up to `m`.
unfoldable pub days_to_month : ℕ → ℕ → ℕ
unfolding days_in_month
days_to_month y zero = 0
days_to_month y (suc m) = days_to_month y m + days_in_month y (suc m)

-- `(date(y, m, d) - date(1, 1, 1)).days`
unfoldable pub days_since_one : ℕ → ℕ → ℕ → ℕ
unfolding days_to_month
days_since_one y m d =
    (y - 1) * 365 + (y - 1) / 4 - (y - 1) / 100 + (y - 1) / 400 + days_to_month y (m - 1) + (d - 1)
