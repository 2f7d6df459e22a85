-- ===== src/Answers/Reading.antt =====
-- The exported files of the pages, read back.
use hybrid_quantum_cryptogra.Prelude.{
  ◌≡◌, ◌≢◌, refl, ap, ◌∙◌, none, some, List, [], ◌∷◌, ◌++◌, map, All, arith,
}
use hybrid_quantum_cryptogra.Js.{Text, join, Lacks}
use hybrid_quantum_cryptogra.History.Export.{
  next_lines, read_rows, read_csv, rows_text, Unquoted, read-rows_text,
}
use hybrid_quantum_cryptogra.Answers.{csv_of}

next_lines-append : (s t : Text) → Lacks b'\n' s → next_lines (s ++ (b'\n' ∷ t)) ≡ some t
unfolding next_lines
next_lines-append [] t h = refl
next_lines-append (c ∷ s) t (other, h) = ground (arith, next_lines-append s t h)

next_lines-single : (s : Text) → Lacks b'\n' s → next_lines s ≡ none
unfolding next_lines
next_lines-single [] h = refl
next_lines-single (c ∷ s) (other, h) = ground (arith, next_lines-single s h)

-- Rows of cells without quotation marks are read back, commas and line ends in the cells included, where
-- the headers stand on one line.
pub read_csv-csv_of :
    (headers : List Text) (rows : List (List Text))
    → Lacks b'\n' (join b',' headers)
    → All Unquoted rows
    → read_csv (csv_of headers rows) ≡ rows
unfolding read_csv csv_of read_rows join rows_text
read_csv-csv_of headers [] h hs = ap read_rows (next_lines-single (join b',' headers) h)
read_csv-csv_of headers (row ∷ rows) h (k, hs) =
    ap read_rows (next_lines-append (join b',' headers) (rows_text (row ∷ rows)) h)
    ∙ read-rows_text row rows k hs

-- A table whose rows have at least a cell.
pub map-Unquoted {ℓ} :
    {A : Type ℓ} (row : A → List Text) (xs : List A)
    → ((a : A) → row a ≢ [])
    → All (λ a. All (Lacks b'"') (row a)) xs
    → All Unquoted (map row xs)
map-Unquoted row [] given h = tt
map-Unquoted row (x ∷ xs) given (h, hs) = ((given x, h), map-Unquoted row xs given hs)
