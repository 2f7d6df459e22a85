-- ===== src/Renewal/Lines/Kept.antt =====
-- frontend/src/pages/customer/CertificateRequest/CertificateRequest.jsx: the lines of base64 lose nothing
-- but white space.
use hybrid_quantum_cryptogra.Prelude.{
  ℕ, zero, suc, leb, ◌≡◌, ◌≢◌, refl, ap, ap₂, sym, ◌∙◌, Bool, true, false, ◌==◌, ◌||◌, ◌&&◌, List,
  [], Bool-cases, inl, inr, All-append, ◌∷◌, ◌++◌, All, arith, append-nil, append_assoc,
}
use hybrid_quantum_cryptogra.Js.{Text, join, is_space, is_empty}
use hybrid_quantum_cryptogra.Keystore.Pem.{without_space}
use hybrid_quantum_cryptogra.Renewal.Lines.{is_line_end, flush, matches}

-- The alphabet of base64, with its padding.
unfoldable pub is_base64 : ℕ → Bool
is_base64 c =
    leb b'A' c && leb c b'Z'
    || leb b'a' c && leb c b'z'
    || leb b'0' c && leb c b'9'
    || c == b'+'
    || c == b'/'
    || c == b'='

pub base64-undashed : (c : ℕ) → is_base64 c ≡ true → c ≢ b'-'
unfolding is_base64
base64-undashed c h e = ground arith

base64-unspaced : (c : ℕ) → is_base64 c ≡ true → is_space c ≡ false
unfolding is_base64 is_space
base64-unspaced c h = ground arith

pub base64-unended : (c : ℕ) → is_base64 c ≡ true → is_line_end c ≡ false
unfolding is_base64 is_line_end
base64-unended c h = ground arith

line_end-is_space : (c : ℕ) → is_line_end c ≡ true → is_space c ≡ true
unfolding is_line_end is_space
line_end-is_space c h = ground arith

without_space-space :
    (c : ℕ) (s : Text) → is_space c ≡ true → without_space (c ∷ s) ≡ without_space s
unfolding without_space
without_space-space c s h = rw (h, without_space) refl

pub without_space-append :
    (s t : Text) → without_space (s ++ t) ≡ without_space s ++ without_space t
unfolding without_space
without_space-append [] t = refl
without_space-append (c ∷ s) t = ground (arith, without_space-append s t)

pub without_space-kept : (s : Text) → All (λ c. is_base64 c ≡ true) s → without_space s ≡ s
unfolding without_space
without_space-kept [] h = refl
without_space-kept (c ∷ s) (h, hs) =
    rw (base64-unspaced c h, without_space) (ap (λ (t : Text). c ∷ t) (without_space-kept s hs))

-- The lines of two parts.
lines_append :
    (xs ys : List Text)
    → without_space (join b'\n' (xs ++ ys))
      ≡ without_space (join b'\n' xs) ++ without_space (join b'\n' ys)
unfolding join without_space is_space
lines_append [] ys = refl
lines_append (x ∷ []) [] = sym (append-nil (without_space x))
lines_append (x ∷ []) (y ∷ ys) = without_space-append x (b'\n' ∷ join b'\n' (y ∷ ys))
lines_append (x ∷ z ∷ xs) ys =
    without_space-append x (b'\n' ∷ join b'\n' (z ∷ (xs ++ ys)))
    ∙ ap (λ (t : Text). without_space x ++ t) (lines_append (z ∷ xs) ys)
    ∙ sym (
        append_assoc (without_space x) (without_space (join b'\n' (z ∷ xs)))
          (without_space (join b'\n' ys)))
    ∙ ap (λ (t : Text). t ++ without_space (join b'\n' ys))
        (sym (without_space-append x (b'\n' ∷ join b'\n' (z ∷ xs))))

flush_kept : (line : Text) → without_space (join b'\n' (flush line)) ≡ without_space line
unfolding flush join without_space
flush_kept [] = refl
flush_kept (c ∷ line) = refl

-- A unit that ends a line, one that the match has no room for, and one that it takes.
ended :
    (room : ℕ) (line : Text) (c : ℕ) (s : Text)
    → is_line_end c ≡ true
    → matches room line (c ∷ s) ≡ flush line ++ matches 64 [] s
unfolding matches flush
ended zero line c s h = rw (h, matches) refl
ended (suc room) line c s h = rw (h, matches) refl

full :
    (line : Text) (c : ℕ) (s : Text)
    → is_line_end c ≡ false
    → matches zero line (c ∷ s) ≡ flush line ++ matches 63 (c ∷ []) s
unfolding matches flush
full line c s h = rw (h, matches) refl

pub taken :
    (room : ℕ) (line : Text) (c : ℕ) (s : Text)
    → is_line_end c ≡ false
    → matches (suc room) line (c ∷ s) ≡ matches room (line ++ (c ∷ [])) s
unfolding matches
taken room line c s h = rw (h, matches) refl

-- A match that is closed before the others.
closed_kept :
    (line rest : Text) (lines : List Text)
    → without_space (join b'\n' lines) ≡ without_space rest
    → without_space (join b'\n' (flush line ++ lines)) ≡ without_space (line ++ rest)
closed_kept line rest lines h =
    lines_append (flush line) lines
    ∙ ap₂ (λ (s t : Text). s ++ t) (flush_kept line) h
    ∙ sym (without_space-append line rest)

ended_kept :
    (c : ℕ) (s : Text) {kept : Text}
    → is_line_end c ≡ true
    → kept ≡ without_space s
    → kept ≡ without_space (c ∷ s)
ended_kept c s h e = e ∙ sym (without_space-space c s (line_end-is_space c h))

pub matches_kept :
    (room : ℕ) (line s : Text)
    → without_space (join b'\n' (matches room line s)) ≡ without_space (line ++ s)
unfolding matches
matches_kept room line [] = flush_kept line ∙ ap without_space (sym (append-nil line))
matches_kept zero line (c ∷ s) = elim (Bool-cases (is_line_end c)) [
  | inl h ↦
      ap (λ lines. without_space (join b'\n' lines)) (ended zero line c s h)
      ∙ closed_kept line (c ∷ s) _ (ended_kept c s h (matches_kept 64 [] s))
  | inr h ↦
      ap (λ lines. without_space (join b'\n' lines)) (full line c s h)
      ∙ closed_kept line (c ∷ s) _ (matches_kept 63 (c ∷ []) s)
]
matches_kept (suc room) line (c ∷ s) = elim (Bool-cases (is_line_end c)) [
  | inl h ↦
      ap (λ lines. without_space (join b'\n' lines)) (ended (suc room) line c s h)
      ∙ closed_kept line (c ∷ s) _ (ended_kept c s h (matches_kept 64 [] s))
  | inr h ↦
      ap (λ lines. without_space (join b'\n' lines)) (taken room line c s h)
      ∙ matches_kept room (line ++ (c ∷ [])) s
      ∙ ap without_space (append_assoc line (c ∷ []) s)
]

-- A line that is not empty is among the lines.
flush_given : (line : Text) (lines : List Text) → is_empty line ≡ false → flush line ++ lines ≢ []
unfolding flush is_empty
flush_given [] lines h e = cc
flush_given (c ∷ line) lines h e = cc

longer_given : (line : Text) (c : ℕ) → is_empty (line ++ (c ∷ [])) ≡ false
unfolding is_empty
longer_given [] c = refl
longer_given (d ∷ line) c = refl

pub matches_given : (room : ℕ) (line s : Text) → is_empty line ≡ false → matches room line s ≢ []
unfolding matches
matches_given room line [] h = λ e. flush_given line [] h (append-nil (flush line) ∙ e)
matches_given zero line (c ∷ s) h = elim (Bool-cases (is_line_end c)) [
  | inl end ↦ λ e. flush_given line _ h (sym (ended zero line c s end) ∙ e)
  | inr other ↦ λ e. flush_given line _ h (sym (full line c s other) ∙ e)
]
matches_given (suc room) line (c ∷ s) h = elim (Bool-cases (is_line_end c)) [
  | inl end ↦ λ e. flush_given line _ h (sym (ended (suc room) line c s end) ∙ e)
  | inr other ↦ λ e.
      matches_given room (line ++ (c ∷ [])) s (longer_given line c)
        (sym (taken room line c s other) ∙ e)
]

-- What holds of each unit and of the separator holds of each unit of the joined lines.
module _ (P : ℕ → Type 0) where
  pub join-All : (d : ℕ) (xs : List Text) → P d → All (All P) xs → All P (join d xs)
  unfolding join
  join-All d [] sep h = tt
  join-All d (x ∷ []) sep (h, hs) = h
  join-All d (x ∷ y ∷ xs) sep (h, hs) = All-append P x _ h (sep, join-All d (y ∷ xs) sep hs)

  flush-All : (line : Text) → All P line → All (All P) (flush line)
  unfolding flush
  flush-All [] h = tt
  flush-All (c ∷ line) h = (h, tt)

  pub matches-All :
      (room : ℕ) (line s : Text) → All P line → All P s → All (All P) (matches room line s)
  unfolding matches
  matches-All room line [] h hs = flush-All line h
  matches-All zero line (c ∷ s) h (k, hs) = elim (Bool-cases (is_line_end c)) [
    | inl e ↦
        rw (ended zero line c s e)
          (All-append (All P) (flush line) _ (flush-All line h) (matches-All 64 [] s tt hs))
    | inr e ↦ rw (full line c s e) (
        All-append (All P) (flush line) _ (flush-All line h) (matches-All 63 (c ∷ []) s (k, tt) hs))
  ]
  matches-All (suc room) line (c ∷ s) h (k, hs) = elim (Bool-cases (is_line_end c)) [
    | inl e ↦
        rw (ended (suc room) line c s e)
          (All-append (All P) (flush line) _ (flush-All line h) (matches-All 64 [] s tt hs))
    | inr e ↦
        rw (taken room line c s e)
          (matches-All room (line ++ (c ∷ [])) s (All-append P line _ h (k, tt)) hs)
  ]
