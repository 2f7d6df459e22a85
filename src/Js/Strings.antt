-- ===== src/Js/Strings.antt =====
-- Strings of JavaScript: sequences of UTF-16 code units, with the methods that the source calls.
-- `toLowerCase` is written out for ASCII and for the two other characters whose lower case holds
-- an ASCII letter (U+212A, the Kelvin sign, and U+0130, the dotted capital I). The lower case of
-- any other character lies outside ASCII, as the character does: it is kept here, which changes no
-- comparison with an ASCII text.
use Prim.Native.Char.{code}
use hybrid_quantum_cryptogra.Prelude.{
  ℕ, ◌+◌, String, ◌≡◌, refl, ap₂, ◌∙◌, ◌↔◌, Bool, true, false, ◌&&◌, ◌||◌, Option, none, some, List,
  [], ◌∷◌, ◌++◌, append_assoc, arith, leb, ◌==◌, if◌then◌else◌,
}

abbrev pub Text : Type 0
Text = List ℕ

-- A literal of the source.
unfoldable pub lit : String → Text
lit String.[] = []
lit (String.◌∷◌ c s) = code c ∷ lit s

-- `a === b`
unfoldable pub text_eq : Text → Text → Bool
text_eq [] [] = true
text_eq [] (d ∷ t) = false
text_eq (c ∷ s) [] = false
text_eq (c ∷ s) (d ∷ t) = c == d && text_eq s t

pub text_eq_sound : (s t : Text) → text_eq s t ≡ true → s ≡ t
unfolding text_eq
text_eq_sound [] [] h = refl
text_eq_sound [] (d ∷ t) h = cc
text_eq_sound (c ∷ s) [] h = cc
text_eq_sound (c ∷ s) (d ∷ t) h = ground (arith, text_eq_sound s t)

pub text_eq_refl : (s : Text) → text_eq s s ≡ true
unfolding text_eq
text_eq_refl [] = refl
text_eq_refl (c ∷ s) = ground (arith, text_eq_refl s)

pub text_eq_iff : (s t : Text) → (text_eq s t ≡ true) ↔ (s ≡ t)
text_eq_iff s t = (text_eq_sound s t, λ e. rw (← e) (text_eq_refl s))

-- `array.includes(x)`
unfoldable pub includes : List Text → Text → Bool
includes [] x = false
includes (y ∷ ys) x = text_eq y x || includes ys x

lower_unit : ℕ → Text
lower_unit c =
    if leb b'A' c && leb c b'Z'
    then (c + 32) ∷ []
    else if c == 0x212a
    then b'k' ∷ []
    else if c == 0x130
    then b'i' ∷ 0x307 ∷ []
    else c ∷ []

-- `s.toLowerCase()`
unfoldable pub to_lower_case : Text → Text
unfolding lower_unit
to_lower_case [] = []
to_lower_case (c ∷ s) = lower_unit c ++ to_lower_case s

lower_unit_idem : (c : ℕ) → to_lower_case (lower_unit c) ≡ lower_unit c
unfolding to_lower_case
lower_unit_idem c = ground arith

to_lower_case-append : (s t : Text) → to_lower_case (s ++ t) ≡ to_lower_case s ++ to_lower_case t
unfolding to_lower_case
to_lower_case-append [] t = refl
to_lower_case-append (c ∷ s) t = simp (to_lower_case-append s t, append_assoc)

pub to_lower_case_idem : (s : Text) → to_lower_case (to_lower_case s) ≡ to_lower_case s
unfolding to_lower_case
to_lower_case_idem [] = refl
to_lower_case_idem (c ∷ s) =
    to_lower_case-append (lower_unit c) (to_lower_case s)
    ∙ ap₂ ◌++◌ (lower_unit_idem c) (to_lower_case_idem s)

-- The white space that `trim` removes: ASCII's, the no-break space, the byte order mark and the
-- spaces and line ends of Unicode.
unfoldable pub is_space : ℕ → Bool
is_space c =
    leb 9 c && leb c 13
    || c == 32
    || c == 0xa0
    || c == 0x1680
    || leb 0x2000 c && leb c 0x200a
    || c == 0x2028
    || c == 0x2029
    || c == 0x202f
    || c == 0x205f
    || c == 0x3000
    || c == 0xfeff

unfoldable pub trim_start : Text → Text
trim_start [] = []
trim_start (c ∷ s) = if is_space c then trim_start s else c ∷ s

unfoldable pub keep_unit : ℕ → Text → Text
keep_unit c [] = if is_space c then [] else c ∷ []
keep_unit c (d ∷ t) = c ∷ d ∷ t

-- A unit of white space is dropped unless something is kept after it.
unfoldable pub trim_end : Text → Text
unfolding keep_unit
trim_end [] = []
trim_end (c ∷ s) = keep_unit c (trim_end s)

-- `s.trim()`
unfoldable pub trim : Text → Text
unfolding trim_start trim_end
trim s = trim_end (trim_start s)

-- `value || ""` for a string that may be null or undefined.
unfoldable pub or_empty : Option Text → Text
or_empty none = []
or_empty (some s) = s

-- `!value` for a string.
unfoldable pub is_empty : Text → Bool
is_empty [] = true
is_empty (c ∷ s) = false
