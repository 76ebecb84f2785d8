-- ===== src/Ts/Cells.antt =====
-- ts_commands.go: cells, columns, and rows in and out of messages. A time is the nanoseconds since
-- the epoch, and not before it; a 64-bit number and a double are the number of their bits.
use riak_go_client.Prelude.{
  ℕ, suc, ◌+◌, ◌*◌, ◌/◌, ◌%◌, Bool, Option, none, some, List, [], ◌∷◌, map, Run, ok, panic, ◌>>=◌,
  index_out_of_range, get_elem?,
}
use riak_go_client.Object.{Bytes}
use riak_go_client.Rpb.Fields.{get_bytes, get_number, get_bool}
use riak_go_client.Rpb.Ts.{
  TsColumnType, varchar, sint64, double, timestamp, boolean, blob, RpbTsCell, new_rpb_ts_cell,
  TsRow, RpbTsColumnDescription,
}

pub record TsCell : Type 0 where
  pub column_type : TsColumnType
  pub cell : RpbTsCell

pub record TsColumnDescription : Type 0 where
  pub column : RpbTsColumnDescription

unfoldable get_name : TsColumnDescription → Bytes
get_name c = c.column.name

unfoldable get_type : TsColumnDescription → TsColumnType
get_type c = c.column.type

-- The type of a cell by its column, where the cell has bytes.
abbrev bytes_type : TsColumnType → TsColumnType
bytes_type blob = blob
bytes_type other = varchar

-- `none` is the empty text: a cell without a value.
abbrev type_of :
    TsColumnType → Option Bytes → Option ℕ → Option ℕ → Option Bool → Option ℕ → Option TsColumnType
type_of t (some v) n s b d = some (bytes_type t)
type_of t none (some n) s b d = some sint64
type_of t none none (some s) b d = some timestamp
type_of t none none none (some b) d = some boolean
type_of t none none none none (some d) = some double
type_of t none none none none none = none

unfoldable pub get_data_type : TsCell → Option TsColumnType
get_data_type c =
    type_of c.column_type c.cell.varchar_value c.cell.sint64_value c.cell.timestamp_value
      c.cell.boolean_value c.cell.double_value

unfoldable pub get_string_value : TsCell → Bytes
get_string_value c = get_bytes c.cell.varchar_value

unfoldable pub get_blob_value : TsCell → Option Bytes
get_blob_value c = c.cell.varchar_value

unfoldable pub get_boolean_value : TsCell → Bool
get_boolean_value c = get_bool c.cell.boolean_value

unfoldable pub get_double_value : TsCell → ℕ
get_double_value c = get_number c.cell.double_value

unfoldable pub get_sint64_value : TsCell → ℕ
get_sint64_value c = get_number c.cell.sint64_value

unfoldable pub get_timestamp_value : TsCell → ℕ
get_timestamp_value c = get_number c.cell.timestamp_value

-- `time.Unix(s, ns)`.
unfoldable pub get_time_value : TsCell → ℕ
get_time_value c =
    let ts = get_number c.cell.timestamp_value in ts / 1000 * 1000000000 + ts % 1000 * 1000000

unfoldable pub new_string_ts_cell : Bytes → TsCell
new_string_ts_cell v = record {
  column_type = varchar;
  cell = record new_rpb_ts_cell { varchar_value = some v };
}

unfoldable pub new_blob_ts_cell : Option Bytes → TsCell
new_blob_ts_cell v = record {
  column_type = blob;
  cell = record new_rpb_ts_cell { varchar_value = v };
}

unfoldable pub new_boolean_ts_cell : Bool → TsCell
new_boolean_ts_cell v = record {
  column_type = boolean;
  cell = record new_rpb_ts_cell { boolean_value = some v };
}

unfoldable pub new_double_ts_cell : ℕ → TsCell
new_double_ts_cell v = record {
  column_type = double;
  cell = record new_rpb_ts_cell { double_value = some v };
}

unfoldable pub new_sint64_ts_cell : ℕ → TsCell
new_sint64_ts_cell v = record {
  column_type = sint64;
  cell = record new_rpb_ts_cell { sint64_value = some v };
}

unfoldable pub to_unix_millis : ℕ → ℕ
to_unix_millis t = t / 1000000

unfoldable pub new_timestamp_ts_cell_from_int64 : ℕ → TsCell
new_timestamp_ts_cell_from_int64 v = record {
  column_type = timestamp;
  cell = record new_rpb_ts_cell { timestamp_value = some v };
}

unfoldable pub new_timestamp_ts_cell : ℕ → TsCell
unfolding to_unix_millis
new_timestamp_ts_cell t = record {
  column_type = timestamp;
  cell = record new_rpb_ts_cell { timestamp_value = some (to_unix_millis t) };
}

abbrev type_or_panic : Option RpbTsColumnDescription → Run TsColumnType
type_or_panic none = panic index_out_of_range
type_or_panic (some c) = ok c.type

-- `tsCols[i].GetType()`; without columns every cell is a VARCHAR.
unfoldable pub column_type_at : Option (List RpbTsColumnDescription) → ℕ → Run TsColumnType
column_type_at none i = ok varchar
column_type_at (some cols) i = type_or_panic (get_elem? cols i)

-- The loop over the cells of a row, from the column `i` on.
unfoldable pub convert_cells :
    Option (List RpbTsColumnDescription) → ℕ → List RpbTsCell → Run (List TsCell)
unfolding column_type_at
convert_cells cols i [] = ok []
convert_cells cols i (c ∷ cs) = column_type_at cols i >>= λ t.
    convert_cells cols (suc i) cs >>= λ row. ok (record { column_type = t; cell = c } ∷ row)

unfoldable pub convert_from_pb_ts_rows :
    List TsRow → Option (List RpbTsColumnDescription) → Run (List (List TsCell))
unfolding convert_cells
convert_from_pb_ts_rows [] cols = ok []
convert_from_pb_ts_rows (r ∷ rs) cols = convert_cells cols 0 r.cells >>= λ row.
    convert_from_pb_ts_rows rs cols >>= λ rows. ok (row ∷ rows)

abbrev pub cells_of : List TsCell → List RpbTsCell
cells_of = map (λ c. c.cell)

unfoldable pub convert_from_ts_rows : List (List TsCell) → List TsRow
convert_from_ts_rows [] = []
convert_from_ts_rows (r ∷ rs) = record { cells = cells_of r } ∷ convert_from_ts_rows rs
