-- ===== src/Dates.antt =====
-- frontend/src/utils/dateFormatter.js: how long ago something happened, in words. Reading a date and
-- writing it out in full is the browser's; a date is here the moment that was read, in milliseconds
-- from a moment before it and now, or an invalid one.
pub mod Accuracy
use hybrid_quantum_cryptogra.Prelude.{
  ℕ, ◌-◌, ◌/◌, Bool, true, false, Option, none, some, ◌++◌, if◌then◌else◌, ltb, ◌==◌,
}
use hybrid_quantum_cryptogra.Js.{Text, lit}

-- What `new Date(dateString)` gives.
pub data Moment : Type 0 where
  at : (ms : ℕ) → Moment
  invalid : Moment

-- The units that the text may count in.
pub data Span : Type 0 where
  minute hour day week month year : Span

-- The text: one without a number, or `${count} ${unit}${plural ? "s" : ""} ago`.
pub data Age : Type 0 where
  unknown just_now : Age
  ago : (count : ℕ) (unit : Span) (plural : Bool) → Age
  -- `NaN years ago`
  nan_years : Age

-- `count !== 1 ? "s" : ""`
counted : ℕ → Span → Age
counted count unit = ago count unit (if count == 1 then false else true)

-- From `diffSec` on, which is negative for a moment in the future.
unfoldable pub age_of : ℕ → Age
unfolding counted
age_of diff_sec =
    let diff_min = diff_sec / 60 in
    let diff_hour = diff_min / 60 in
    let diff_day = diff_hour / 24 in
    let diff_week = diff_day / 7 in
    let diff_month = diff_day / 30 in
    let diff_year = diff_day / 365 in
    if ltb diff_sec 60
    then just_now
    else if ltb diff_min 60
    then counted diff_min minute
    else if ltb diff_hour 24
    then counted diff_hour hour
    else if ltb diff_day 7
    then counted diff_day day
    else if ltb diff_week 4
    then counted diff_week week
    else if ltb diff_month 12
    then counted diff_month month
    else counted diff_year year

-- A comparison with the difference to an invalid date is one with NaN.
unfoldable pub format_relative_time : Option Moment → (now : ℕ) → Age
unfolding age_of
format_relative_time none now = unknown
format_relative_time (some invalid) now = nan_years
format_relative_time (some (at date)) now =
    if ltb now date then just_now else age_of ((now - date) / 1000)
