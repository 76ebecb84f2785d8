-- ===== src/Ts/Rows.antt =====
-- ts_commands.go: rows in and out of messages, and times in cells.
use riak_go_client.Prelude.{
  ℕ, zero, suc, ◌+◌, ◌-◌, ◌/◌, ◌%◌, ◌≤◌, ◌<◌, ◌≡◌, refl, ap, none, some, ◌⊎◌, inl, inr, List, [],
  ◌∷◌, ◌++◌, arith, ok, panic, index_out_of_range, get_elem?, length, All,
}
use riak_go_client.Rpb.Ts.{RpbTsCell, TsRow, RpbTsColumnDescription}
use riak_go_client.Ts.Cells.{
  TsCell, cells_of, column_type_at, convert_cells, convert_from_pb_ts_rows, convert_from_ts_rows,
  get_time_value, get_timestamp_value, new_timestamp_ts_cell, new_timestamp_ts_cell_from_int64,
  to_unix_millis,
}

-- The cells have the types of the columns, from the column `i` on; there is a column for each.
abbrev pub Typed : List RpbTsColumnDescription → ℕ → List TsCell → Type 0
Typed cols i [] = Unit
Typed cols i (c ∷ cs) = (column_type_at (some cols) i ≡ ok c.column_type) × Typed cols (suc i) cs

convert_cells-Typed :
    (cols : List RpbTsColumnDescription) (i : ℕ) (row : List TsCell)
    → Typed cols i row
    → convert_cells (some cols) i (cells_of row) ≡ ok row
unfolding convert_cells
convert_cells-Typed cols i [] h = refl
convert_cells-Typed cols i (c ∷ cs) (t, h) = rw (t, convert_cells-Typed cols (suc i) cs h) refl

-- Rows whose cells have the types of the columns, written to a message and read from it with those
-- columns, come back as they were: every row, every cell and its type, in order.
pub convert_from_pb_ts_rows-convert_from_ts_rows :
    (cols : List RpbTsColumnDescription) (rows : List (List TsCell))
    → All (Typed cols 0) rows
    → convert_from_pb_ts_rows (convert_from_ts_rows rows) (some cols) ≡ ok rows
unfolding convert_from_pb_ts_rows convert_from_ts_rows
convert_from_pb_ts_rows-convert_from_ts_rows cols [] h = refl
convert_from_pb_ts_rows-convert_from_ts_rows cols (r ∷ rs) (t, h) =
    rw (convert_cells-Typed cols 0 r t, convert_from_pb_ts_rows-convert_from_ts_rows cols rs h) refl

-- The rows that have a cell for which there is no column.
abbrev pub Fits : List RpbTsColumnDescription → TsRow → Type 0
Fits cols r = length r.cells ≤ length cols

get_elem_lem :
    {A : Type 0} (xs : List A) (i : ℕ) → i < length xs → (x : A) × (get_elem? xs i ≡ some x)
get_elem_lem [] i h = absurd (omega arith)
get_elem_lem (x ∷ xs) zero h = (x, refl)
get_elem_lem (x ∷ xs) (suc i) h = get_elem_lem xs i (omega arith)

get_elem-beyond : {A : Type 0} (xs : List A) (i : ℕ) → length xs ≤ i → get_elem? xs i ≡ none
get_elem-beyond [] i h = refl
get_elem-beyond (x ∷ xs) zero h = absurd (omega arith)
get_elem-beyond (x ∷ xs) (suc i) h = get_elem-beyond xs i (omega arith)

convert_cells-Fits :
    (cols : List RpbTsColumnDescription) (i : ℕ) (cs : List RpbTsCell)
    → i + length cs ≤ length cols
    → (row : List TsCell) × (convert_cells (some cols) i cs ≡ ok row) × (cells_of row ≡ cs)
unfolding convert_cells column_type_at
convert_cells-Fits cols i [] h = ([], refl, refl)
convert_cells-Fits cols i (c ∷ cs) h =
    let (col, e) = get_elem_lem cols i (omega arith) in
    let (row, f, g) = convert_cells-Fits cols (suc i) cs (omega arith) in
    (record { column_type = col.type; cell = c } ∷ row, rw (e, f) refl, ap (λ l. c ∷ l) g)

convert_cells-beyond :
    (cols : List RpbTsColumnDescription) (i : ℕ) (cs : List RpbTsCell)
    → i ≤ length cols
    → length cols < i + length cs
    → convert_cells (some cols) i cs ≡ panic index_out_of_range
unfolding convert_cells column_type_at
convert_cells-beyond cols i [] l h = absurd (omega arith)
convert_cells-beyond cols i (c ∷ cs) l h = elim (at_most (length cols) i) [
  | inl beyond ↦ rw (get_elem-beyond cols i beyond) refl
  | inr within ↦
      let (col, e) = get_elem_lem cols i within in
      rw (e, convert_cells-beyond cols (suc i) cs (omega arith) (omega arith)) refl
]
  where
    at_most : (a b : ℕ) → (a ≤ b) ⊎ (b < a)
    at_most zero b = inl (omega arith)
    at_most (suc a) zero = inr (omega arith)
    at_most (suc a) (suc b) = elim (at_most a b) [
      | inl h ↦ inl (omega arith)
      | inr h ↦ inr (omega arith)
    ]

-- Rows that have no more cells than there are columns are read, each with the cells that it has.
pub convert_from_pb_ts_rows-Fits :
    (cols : List RpbTsColumnDescription) (rs : List TsRow)
    → All (Fits cols) rs
    → (rows : List (List TsCell)) × (convert_from_pb_ts_rows rs (some cols) ≡ ok rows)
      × (convert_from_ts_rows rows ≡ rs)
unfolding convert_from_pb_ts_rows convert_from_ts_rows
convert_from_pb_ts_rows-Fits cols [] h = ([], refl, refl)
convert_from_pb_ts_rows-Fits cols (r ∷ rs) (f, h) =
    let (row, e, g) = convert_cells-Fits cols 0 r.cells (omega arith) in
    let (rows, e', g') = convert_from_pb_ts_rows-Fits cols rs h in
    (row ∷ rows, rw (e, e') refl, λ i. record { cells = g i } ∷ g' i)

-- A row with more cells than there are columns, behind rows that have not, makes the client panic:
-- it reads beyond the columns, whatever rows follow.
pub convert_from_pb_ts_rows-beyond :
    (cols : List RpbTsColumnDescription) (rs : List TsRow) (r : TsRow) (rest : List TsRow)
    → All (Fits cols) rs
    → length cols < length r.cells
    → convert_from_pb_ts_rows (rs ++ r ∷ rest) (some cols) ≡ panic index_out_of_range
unfolding convert_from_pb_ts_rows
convert_from_pb_ts_rows-beyond cols [] r rest h l =
    rw (convert_cells-beyond cols 0 r.cells (omega arith) (omega arith)) refl
convert_from_pb_ts_rows-beyond cols (q ∷ rs) r rest (f, h) l =
    let (row, e, g) = convert_cells-Fits cols 0 q.cells (omega arith) in
    rw (e, convert_from_pb_ts_rows-beyond cols rs r rest h l) refl

-- A time in a cell is read back to the millisecond, rounded down; the timestamp is the
-- milliseconds since the epoch, and a timestamp in a cell is read back as it is.
pub get_time_value-new_timestamp_ts_cell :
    (t v : ℕ)
    → (get_time_value (new_timestamp_ts_cell t) ≡ t - t % 1000000)
      × (get_timestamp_value (new_timestamp_ts_cell t) ≡ t / 1000000)
      × (get_timestamp_value (new_timestamp_ts_cell_from_int64 v) ≡ v)
      × (to_unix_millis (get_time_value (new_timestamp_ts_cell_from_int64 v)) ≡ v)
unfolding get_time_value get_timestamp_value new_timestamp_ts_cell new_timestamp_ts_cell_from_int64
    to_unix_millis
get_time_value-new_timestamp_ts_cell t v = (omega arith, refl, refl, omega arith)
