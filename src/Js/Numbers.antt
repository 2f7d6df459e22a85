-- ===== src/Js/Numbers.antt =====
-- Numbers of JavaScript that are finite. Each is a multiple of the smallest positive one, 2 ^ (-1074), and
-- stands here for how many of these it is; so comparisons are exact.
use hybrid_quantum_cryptogra.Prelude.{
  ℕ, Bool, true, false, Option, none, some, ltb, ◌==◌, if◌then◌else◌,
}

-- `negsuc n` is `- (n + 1)`.
pub data ℤ : Type 0 where
  pos : ℕ → ℤ
  negsuc : ℕ → ℤ

-- `a > b`
abbrev pub gtb : ℤ → ℤ → Bool
gtb (pos a) (pos b) = ltb b a
gtb (pos a) (negsuc b) = true
gtb (negsuc a) (pos b) = false
gtb (negsuc a) (negsuc b) = ltb a b

-- `value || fallback` for a number that may be missing: 0 counts as missing.
unfoldable pub or_number : Option ℤ → ℤ → ℤ
or_number none fallback = fallback
or_number (some (negsuc n)) fallback = negsuc n
or_number (some (pos n)) fallback = if n == 0 then fallback else pos n
