-- ===== src/Dates/Accuracy.antt =====
-- frontend/src/utils/dateFormatter.js: how far the text is from the time that has passed.
use hybrid_quantum_cryptogra.Prelude.{
  ℕ, suc, ◌-◌, ◌*◌, ◌/◌, ◌≤◌, ◌<◌, ◌≡◌, ◌↔◌, ◌⊎◌, inl, inr, Bool, true, some, arith,
}
use hybrid_quantum_cryptogra.Dates.{
  at, Span, minute, hour, day, week, month, year, ago, age_of, format_relative_time,
}

-- The milliseconds of a unit, a month being 30 days and a year 365.
abbrev pub length_of : Span → ℕ
length_of minute = 60000
length_of hour = 3600000
length_of day = 86400000
length_of week = 604800000
length_of month = 2592000000
length_of year = 31536000000

-- The text never claims more time than has passed, and less than one of its units too little: the
-- count is the number of whole units.
pub format_relative_time-whole :
    (date now count : ℕ) (unit : Span) (plural : Bool)
    → format_relative_time (some (at date)) now ≡ ago count unit plural
    → (count * length_of unit ≤ now - date) × (now - date < suc count * length_of unit)
unfolding format_relative_time age_of
format_relative_time-whole date now count minute plural e = ground arith
format_relative_time-whole date now count hour plural e = ground arith
format_relative_time-whole date now count day plural e = ground arith
format_relative_time-whole date now count week plural e = ground arith
format_relative_time-whole date now count month plural e = ground arith
format_relative_time-whole date now count year plural e = ground arith

zero_within :
    (date now : ℕ) (unit : Span) (plural : Bool)
    → format_relative_time (some (at date)) now ≡ ago 0 unit plural
    → let days = (now - date) / 86400000 in
      ((28 ≤ days) × (days < 30)) ⊎ ((360 ≤ days) × (days < 365))
unfolding format_relative_time age_of
zero_within date now minute plural e = ground arith
zero_within date now hour plural e = ground arith
zero_within date now day plural e = ground arith
zero_within date now week plural e = ground arith
zero_within date now month plural e = ground arith
zero_within date now year plural e = ground arith

-- For a moment that is not in the future, the text counts nothing at all, "0 months ago" or "0 years ago", exactly from the 28th to the 29th
-- day, and from the 360th to the 364th.
format_relative_time-zero_iff :
    (date now days : ℕ)
    → date ≤ now
    → days ≡ (now - date) / 86400000
    → ((unit : Span) × (plural : Bool) × (format_relative_time (some (at date)) now
          ≡ ago 0 unit plural))
      ↔ (((28 ≤ days) × (days < 30)) ⊎ ((360 ≤ days) × (days < 365)))
unfolding format_relative_time age_of
format_relative_time-zero_iff date now days past e = (
  λ (unit, plural, counted). rw e (zero_within date now unit plural counted),
  λ h. elim h [
    | inl (low, high) ↦ (month, true, ground arith)
    | inr (low, high) ↦ (year, true, ground arith)
  ],
)
