-- ===== src/Base/Date.antt =====
-- Python's `datetime.date`, as year, month and day of the Gregorian calendar.
use Prim.Native.Nat.{ℕ, zero, suc, ◌+◌, ◌-◌, ◌%◌, ◌≤◌}
use mathlib.Core.Bool.{Bool, ◌&&◌, ◌||◌, not}
use native.Mathlib.Omega.{arith}
use factpulse_billing_app_pu.Base.Tests.{◌==◌, ltb, if◌then◌else◌}

pub record Date : Type 0 where
  pub year : ℕ
  pub month : ℕ
  pub day : ℕ

abbrev pub is_leap : ℕ → Bool
is_leap year = (year % 4 == 0) && (not (year % 100 == 0) || (year % 400 == 0))

unfoldable pub days_in_month : ℕ → ℕ → ℕ
days_in_month year month =
    if month == 2
    then (if is_leap year then 29 else 28)
    else if (month == 4) || (month == 6) || (month == 9) || (month == 11)
    then 30
    else 31

unfoldable pub next_day : Date → Date
unfolding days_in_month
next_day d =
    if ltb d.day (days_in_month d.year d.month)
    then record d { day = d.day + 1 }
    else if d.month == 12
    then record { year = d.year + 1; month = 1; day = 1 }
    else record { year = d.year; month = d.month + 1; day = 1 }

unfoldable pub previous_day : Date → Date
unfolding days_in_month
previous_day d =
    if not (d.day == 1)
    then record d { day = d.day - 1 }
    else if d.month == 1
    then record { year = d.year - 1; month = 12; day = 31 }
    else record { year = d.year; month = d.month - 1; day = days_in_month d.year (d.month - 1) }

-- `date + timedelta(days=n)`, of a number that is not negative
unfoldable pub add_days : ℕ → Date → Date
unfolding next_day
add_days zero d = d
add_days (suc n) d = add_days n (next_day d)

abbrev pub HasMonth : Date → Type 0
HasMonth d = (1 ≤ d.month) × (d.month ≤ 12)

next_day-HasMonth : (d : Date) → HasMonth d → HasMonth (next_day d)
unfolding next_day
next_day-HasMonth d (lower, upper) = ground (arith, lower, upper)

pub add_days-HasMonth : (n : ℕ) (d : Date) → HasMonth d → HasMonth (add_days n d)
unfolding add_days
add_days-HasMonth zero d h = h
add_days-HasMonth (suc n) d h = add_days-HasMonth n (next_day d) (next_day-HasMonth d h)
