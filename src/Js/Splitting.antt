-- ===== src/Js/Splitting.antt =====
-- Cutting strings: `split` by one unit, and by a line end.
use hybrid_quantum_cryptogra.Prelude.{
  ltb, ℕ, ◌≡◌, ◌≢◌, refl, Bool, true, false, ◌&&◌, ◌||◌, List, [], ◌∷◌, ◌++◌, All, arith,
  if◌then◌else◌, ◌==◌,
}
use hybrid_quantum_cryptogra.Js.Strings.{Text}

-- A unit before the first of some segments.
unfoldable pub push_front : ℕ → List Text → List Text
push_front c [] = (c ∷ []) ∷ []
push_front c (segment ∷ segments) = (c ∷ segment) ∷ segments

begins_with : ℕ → Text → Bool
begins_with d [] = false
begins_with d (c ∷ s) = c == d

-- `text.split(/\r?\n/)`
unfoldable pub lines : Text → List Text
unfolding push_front begins_with
lines [] = [] ∷ []
lines (c ∷ s) =
    let rest = lines s in
    if c == 10 then [] ∷ rest else if c == 13 && begins_with 10 s then rest else push_front c rest

-- `s.split(d)`
unfoldable pub split_on : ℕ → Text → List Text
unfolding push_front
split_on d [] = [] ∷ []
split_on d (c ∷ s) = let rest = split_on d s in if c == d then [] ∷ rest else push_front c rest

-- `segments.join(d)`
unfoldable pub join : ℕ → List Text → Text
join d [] = []
join d (segment ∷ []) = segment
join d (segment ∷ next ∷ segments) = segment ++ (d ∷ join d (next ∷ segments))

-- `s.includes(d)` for a string of one unit.
unfoldable pub has_unit : ℕ → Text → Bool
has_unit d [] = false
has_unit d (c ∷ s) = if c == d then true else has_unit d s

unfoldable pub starts_with : Text → Text → Bool
starts_with [] s = true
starts_with (q ∷ query) [] = false
starts_with (q ∷ query) (c ∷ s) = q == c && starts_with query s

-- `s.includes(query)`
unfoldable pub contains : Text → Text → Bool
unfolding starts_with
contains query [] = starts_with query []
contains query (c ∷ s) = starts_with query (c ∷ s) || contains query s

-- A text without a unit.
abbrev pub Lacks : ℕ → Text → Type 0
Lacks d s = All (λ c. c ≢ d) s

-- The line ends that `lines` knows.
pub data LineEnd : Type 0 where
  lf crlf : LineEnd

abbrev pub end_text : LineEnd → Text
end_text lf = 10 ∷ []
end_text crlf = 13 ∷ 10 ∷ []

-- The last unit of a text is not a carriage return, which would be taken for a part of the line end.
abbrev pub EndsClean : Text → Type 0
EndsClean [] = Unit
EndsClean (c ∷ []) = c ≢ 13
EndsClean (c ∷ d ∷ s) = EndsClean (d ∷ s)

-- A line that ends is the first of the lines.
pub lines-append :
    (s : Text) (e : LineEnd) (rest : Text)
    → Lacks 10 s
    → EndsClean s
    → lines (s ++ (end_text e ++ rest)) ≡ s ∷ lines rest
unfolding lines push_front begins_with
lines-append [] lf rest h k = refl
lines-append [] crlf rest h k = refl
lines-append (c ∷ []) lf rest h k = ground arith
lines-append (c ∷ []) crlf rest h k = ground arith
lines-append (c ∷ d ∷ s) e rest (h, (i, hs)) k =
    ground (arith, lines-append (d ∷ s) e rest (i, hs) k)

-- `s < t`, unit by unit.
unfoldable pub text_lt : Text → Text → Bool
text_lt [] [] = false
text_lt [] (d ∷ t) = true
text_lt (c ∷ s) [] = false
text_lt (c ∷ s) (d ∷ t) = if ltb c d then true else if ltb d c then false else text_lt s t
