-- ===== src/History/Export.antt =====
-- frontend/src/pages/customer/TransactionHistory/TransactionHistory.jsx: reading back what `exportToCSV`
-- writes.
use hybrid_quantum_cryptogra.Prelude.{
  ℕ, ◌≡◌, ◌≢◌, refl, sym, ap, ◌∙◌, Option, none, some, List, [], ◌∷◌, ◌++◌, append_assoc,
  append-nil, map, All, arith, ◌==◌, if◌then◌else◌,
}
use hybrid_quantum_cryptogra.Js.{Text, lit, join, Lacks}
use hybrid_quantum_cryptogra.History.{
  Transaction, View, headers, row_of, quoted, row_text, csv_content, filtered_transactions,
}

-- A reader of rows of quoted cells: before the opening quote of a cell, inside of it, or behind its closing
-- quote, where a comma starts another cell and a line end another row.
pub data Place : Type 0 where
  opening inside closed : Place

next : Place → ℕ → Place
next opening c = inside
next inside c = if c == b'"' then closed else inside
next closed c = opening

-- The first cell of the first row is the one that is being read.
push_unit : ℕ → List (List Text) → List (List Text)
push_unit c [] = []
push_unit c ([] ∷ rows) = [] ∷ rows
push_unit c ((cell ∷ cells) ∷ rows) = ((c ∷ cell) ∷ cells) ∷ rows

add_cell : List (List Text) → List (List Text)
add_cell [] = []
add_cell (cells ∷ rows) = ([] ∷ cells) ∷ rows

emit : Place → ℕ → List (List Text) → List (List Text)
unfolding push_unit add_cell
emit opening c rows = rows
emit inside c rows = if c == b'"' then rows else push_unit c rows
emit closed c rows = if c == b',' then add_cell rows else ([] ∷ []) ∷ rows

unfoldable pub read : Place → Text → List (List Text)
unfolding emit next
read mode [] = ([] ∷ []) ∷ []
read mode (c ∷ s) = emit mode c (read (next mode c) s)

-- What follows the first line, if there is more than one.
unfoldable pub next_lines : Text → Option Text
next_lines [] = none
next_lines (c ∷ s) = let rest = next_lines s in if c == b'\n' then some s else rest

unfoldable pub read_rows : Option Text → List (List Text)
read_rows none = []
read_rows (some s) = read opening s

-- The rows of a file, without its first line.
unfoldable pub read_csv : Text → List (List Text)
unfolding next_lines read_rows read
read_csv content = read_rows (next_lines content)

read-inside :
    (cell rest : Text) (cells : List Text) (rows : List (List Text))
    → Lacks b'"' cell
    → read closed rest ≡ ([] ∷ cells) ∷ rows
    → read inside (cell ++ (b'"' ∷ rest)) ≡ (cell ∷ cells) ∷ rows
unfolding read
read-inside [] rest cells rows h e = e
read-inside (c ∷ cell) rest cells rows (other, h) e =
    ground (arith, read-inside cell rest cells rows h e)

read-quoted :
    (cell rest : Text) (cells : List Text) (rows : List (List Text))
    → Lacks b'"' cell
    → read closed rest ≡ ([] ∷ cells) ∷ rows
    → read opening (quoted cell ++ rest) ≡ (cell ∷ cells) ∷ rows
unfolding read quoted
read-quoted cell rest cells rows h e =
    ap (read inside) (append_assoc cell (b'"' ∷ []) rest) ∙ read-inside cell rest cells rows h e

read-comma :
    (s cell : Text) (cells : List Text) (rows : List (List Text))
    → read opening s ≡ (cell ∷ cells) ∷ rows
    → read closed (b',' ∷ s) ≡ ([] ∷ (cell ∷ cells)) ∷ rows
unfolding read
read-comma s cell cells rows e = ap add_cell e

read-row_text :
    (cell : Text) (cells : List Text) (rest : Text) (rows : List (List Text))
    → Lacks b'"' cell
    → All (Lacks b'"') cells
    → read closed rest ≡ ([] ∷ []) ∷ rows
    → read opening (row_text (cell ∷ cells) ++ rest) ≡ (cell ∷ cells) ∷ rows
unfolding row_text join
read-row_text cell [] rest rows h hs e = read-quoted cell rest [] rows h e
read-row_text cell (second ∷ cells) rest rows h (k, hs) e =
    ap (read opening)
      (append_assoc (quoted cell) (b',' ∷ join b',' (map quoted (second ∷ cells))) rest)
    ∙ read-quoted cell (b',' ∷ (row_text (second ∷ cells) ++ rest)) (second ∷ cells) rows h (
        read-comma (row_text (second ∷ cells) ++ rest) second cells rows
          (read-row_text second cells rest rows k hs e))

-- The rows that the file has behind its first line.
unfoldable pub rows_text : List (List Text) → Text
rows_text rows = join b'\n' (map row_text rows)

abbrev pub Unquoted : List Text → Type 0
Unquoted cells = (cells ≢ []) × All (Lacks b'"') cells

read-last :
    (s : Text) (rows : List (List Text))
    → read opening s ≡ rows
    → read closed (b'\n' ∷ s) ≡ ([] ∷ []) ∷ rows
unfolding read
read-last s rows e = ap (λ (found : List (List Text)). ([] ∷ []) ∷ found) e

read-end : read closed [] ≡ ([] ∷ []) ∷ []
unfolding read
read-end = refl

read-Unquoted :
    (cells : List Text) (rest : Text) (rows : List (List Text))
    → Unquoted cells
    → read closed rest ≡ ([] ∷ []) ∷ rows
    → read opening (row_text cells ++ rest) ≡ cells ∷ rows
read-Unquoted [] rest rows (given, h) e = absurd (given refl)
read-Unquoted (cell ∷ cells) rest rows (given, (h, hs)) e =
    read-row_text cell cells rest rows h hs e

pub read-rows_text :
    (row : List Text) (rows : List (List Text))
    → Unquoted row
    → All Unquoted rows
    → read opening (rows_text (row ∷ rows)) ≡ row ∷ rows
unfolding rows_text join
read-rows_text row [] h hs =
    ap (read opening) (sym (append-nil (row_text row))) ∙ read-Unquoted row [] [] h read-end
read-rows_text row (second ∷ rows) h (k, hs) =
    read-Unquoted row (b'\n' ∷ rows_text (second ∷ rows)) (second ∷ rows) h
      (read-last (rows_text (second ∷ rows)) (second ∷ rows) (read-rows_text second rows k hs))

next_lines-headers : (s : Text) → next_lines (headers ++ (b'\n' ∷ s)) ≡ some s
unfolding next_lines lit
next_lines-headers s = refl

no_lines : next_lines headers ≡ none
unfolding next_lines lit
no_lines = refl

exported : List (List Text) → Text
exported rows = join b'\n' (headers ∷ map row_text rows)

read_csv-exported : (rows : List (List Text)) → All Unquoted rows → read_csv (exported rows) ≡ rows
unfolding read_csv read_rows exported join rows_text
read_csv-exported [] h = ap read_rows no_lines
read_csv-exported (row ∷ rows) (h, hs) =
    ap read_rows (next_lines-headers (rows_text (row ∷ rows))) ∙ read-rows_text row rows h hs

map-row_of :
    (txs : List Transaction) → map (λ tx. row_text (row_of tx)) txs ≡ map row_text (map row_of txs)
map-row_of [] = refl
map-row_of (tx ∷ txs) = ap (λ (rows : List Text). row_text (row_of tx) ∷ rows) (map-row_of txs)

map-Unquoted :
    (txs : List Transaction)
    → All (λ tx. All (Lacks b'"') (row_of tx)) txs
    → All Unquoted (map row_of txs)
map-Unquoted [] h = tt
map-Unquoted (tx ∷ txs) (h, hs) = ((λ e. cc, h), map-Unquoted txs hs)

-- The exported file gives back a row for each transaction that is shown, in the order shown, with the
-- texts of its eight fields, commas and line ends in them included, where no field holds a quotation mark.
read_csv-csv_content :
    (v : View)
    → All (λ tx. All (Lacks b'"') (row_of tx)) (filtered_transactions v)
    → read_csv (csv_content v) ≡ map row_of (filtered_transactions v)
unfolding csv_content
read_csv-csv_content v h =
    ap (λ rows. read_csv (join b'\n' (headers ∷ rows))) (map-row_of (filtered_transactions v))
    ∙ unfold exported in
      read_csv-exported (map row_of (filtered_transactions v))
        (map-Unquoted (filtered_transactions v) h)
