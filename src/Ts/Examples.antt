-- ===== src/Ts/Examples.antt =====
-- ts_commands.go: tests and examples.
use riak_go_client.Prelude.{
  ℕ, ◌≡◌, refl, true, false, none, some, inr, List, [], ◌∷◌, arith, ok, panic, index_out_of_range,
}
use riak_go_client.Errors.{client_error, listing_disabled}
use riak_go_client.Command.{ProtoApi, get_riak_message, build_riak_message, on_error}
use riak_go_client.Command.Building.{new_impl}
use riak_go_client.Object.{Bytes}
use riak_go_client.Rpb.{Message, ts_query_resp}
use riak_go_client.Rpb.Ts.{
  varchar, sint64, new_rpb_ts_cell, TsRow, RpbTsColumnDescription, TsQueryResp, new_ts_query_req,
  new_ts_query_resp, new_ts_list_keys_req,
}
use riak_go_client.Connection.Execute.{execute}
use riak_go_client.Connection.Reading.{Delivers}
use riak_go_client.Connection.Exchange.{Sends}
use riak_go_client.Connection.Streaming.{Feeds, feed, silent}
use riak_go_client.Connection.Examples.{net, conn, waiting, writes_lem}
use riak_go_client.Ts.Cells.{
  TsCell, convert_cells, convert_from_pb_ts_rows, convert_from_ts_rows, column_type_at,
}
use riak_go_client.Ts.Rows.{
  convert_from_pb_ts_rows-convert_from_ts_rows, convert_from_pb_ts_rows-beyond,
}
use riak_go_client.Ts.ListKeys
use riak_go_client.Ts.Query
use riak_go_client.Ts.Query.{TsQueryCommand}
use riak_go_client.Ts.Executing.{holding, execute_ts_list_keys, execute_ts_query}

abbrev columns : List RpbTsColumnDescription
columns = record { name = 97 ∷ []; type = varchar } ∷ record { name = 98 ∷ []; type = sint64 } ∷ []

abbrev text_cell : TsCell
text_cell = record {
  column_type = varchar;
  cell = record new_rpb_ts_cell { varchar_value = some (1 ∷ []) };
}

abbrev number_cell : TsCell
number_cell = record {
  column_type = sint64;
  cell = record new_rpb_ts_cell { sint64_value = some 7 };
}

-- A full row, and one that ends early.
abbrev table : List (List TsCell)
table = (text_cell ∷ number_cell ∷ []) ∷ (text_cell ∷ []) ∷ []

typed_lem :
    (column_type_at (some columns) 0 ≡ ok varchar) × (column_type_at (some columns) 1 ≡ ok sint64)
unfolding column_type_at
typed_lem = (refl, refl)

convert_from_pb_ts_rows-convert_from_ts_rows_example :
    convert_from_pb_ts_rows (convert_from_ts_rows table) (some columns) ≡ ok table
convert_from_pb_ts_rows-convert_from_ts_rows_example =
    let (t, n) = typed_lem in
    convert_from_pb_ts_rows-convert_from_ts_rows columns table ((t, (n, tt)), ((t, tt), tt))

abbrev short_row : TsRow
short_row = record { cells = text_cell.cell ∷ [] }

abbrev full_row : TsRow
full_row = record { cells = text_cell.cell ∷ number_cell.cell ∷ [] }

abbrev long_row : TsRow
long_row = record { cells = text_cell.cell ∷ number_cell.cell ∷ number_cell.cell ∷ [] }

convert_from_pb_ts_rows-beyond_example :
    convert_from_pb_ts_rows (short_row ∷ long_row ∷ full_row ∷ []) (some columns)
    ≡ panic index_out_of_range
convert_from_pb_ts_rows-beyond_example =
    convert_from_pb_ts_rows-beyond columns (short_row ∷ []) long_row (full_row ∷ [])
      (omega arith, tt) (omega arith)

abbrev list_keys_builder : ListKeys.TsListKeysCommandBuilder
list_keys_builder = record {
  allow_listing = true;
  timeout = 0;
  protobuf = record new_ts_list_keys_req { table = some (116 ∷ []) };
  streaming = false;
  callback = none;
}

abbrev list_keys : ListKeys.TsListKeysCommand
list_keys = record {
  impl = new_impl;
  timeout = 0;
  allow_listing = false;
  response = none;
  protobuf = list_keys_builder.protobuf;
  streaming = false;
  callback = none;
  calls = [];
  done = false;
}

build_list_keys_lem : ListKeys.build list_keys_builder ≡ inr list_keys
unfolding ListKeys.build
build_list_keys_lem = refl

-- The body of a response: rows of one cell, which holds a text of one byte; never the last one.
abbrev rows_of : Bytes → List TsRow
rows_of [] = []
rows_of (b ∷ bytes) =
    record { cells = record new_rpb_ts_cell { varchar_value = some (b ∷ []) } ∷ [] } ∷ rows_of bytes

abbrev result_of : Bytes → TsQueryResp
result_of bytes = record { columns = columns; rows = rows_of bytes; done = some false }

abbrev proto : ProtoApi Message
proto = record {
  marshal = λ msg. inr (1 ∷ []);
  unmarshal = λ bytes msg. inr (ts_query_resp (result_of bytes));
  unmarshal_error = λ bytes. inr (5, bytes);
}

execute_ts_list_keys_example :
    execute net proto ListKeys.api 1 conn list_keys []
    ≡ ok (
      conn,
      record list_keys { impl = on_error new_impl (client_error listing_disabled) },
      some (client_error listing_disabled),
      [],
    )
execute_ts_list_keys_example =
    execute_ts_list_keys net proto 1 list_keys_builder list_keys conn [] build_list_keys_lem refl

abbrev query : TsQueryCommand
query = record {
  impl = new_impl;
  response = none;
  protobuf = new_ts_query_req;
  callback = none;
  calls = [];
  done = false;
}

abbrev request : Bytes
request = 0 ∷ 0 ∷ 0 ∷ 2 ∷ 90 ∷ 1 ∷ []

builds_lem : get_riak_message proto Query.api query ≡ ok (query, inr request)
unfolding get_riak_message build_riak_message Query.construct_pb_request
builds_lem = refl

abbrev sends : (w : Bytes) → Sends net proto Query.api conn query w
sends w = record {
  idle = refl;
  allowed = refl;
  built = query;
  message = request;
  builds = builds_lem;
  waiting = waiting;
  sent = w;
  writes = writes_lem request w;
}

-- Two responses to a query.
abbrev second_frame : Bytes
second_frame = 0 ∷ 0 ∷ 0 ∷ 2 ∷ 91 ∷ 9 ∷ []

abbrev frames : Bytes
frames = 0 ∷ 0 ∷ 0 ∷ 3 ∷ 91 ∷ 7 ∷ 8 ∷ second_frame

first_lem : Delivers net 1 5 91 (7 ∷ 8 ∷ []) frames second_frame
unfolding build_riak_message
first_lem = record {
  fits = omega arith;
  between = 91 ∷ 7 ∷ 8 ∷ second_frame;
  header = refl;
  body = refl;
}

abbrev read_row : ℕ → List TsCell
read_row b =
    record {
      column_type = varchar;
      cell = record new_rpb_ts_cell { varchar_value = some (b ∷ []) };
    }
    ∷ []

rows_lem :
    convert_from_pb_ts_rows (rows_of (7 ∷ 8 ∷ [])) (some columns)
    ≡ ok (read_row 7 ∷ read_row 8 ∷ [])
unfolding convert_from_pb_ts_rows convert_cells column_type_at
rows_lem = refl

feeds_lem :
    Feeds net proto 1 5 91
      (ts_query_resp new_ts_query_resp)
      (ts_query_resp (result_of (7 ∷ 8 ∷ [])) ∷ [])
      frames
      second_frame
feeds_lem = feed 7 (8 ∷ []) refl first_lem (silent refl)

-- The second response stays in the socket.
execute_ts_query_example :
    (n : ℕ) × (execute net proto Query.api 1 conn query frames
      ≡ ok (
        record waiting { data_buf_cap = n; in_flight = false },
        holding net proto query (result_of (7 ∷ 8 ∷ [])) (read_row 7 ∷ read_row 8 ∷ []),
        none,
        second_frame,
      ))
execute_ts_query_example =
    execute_ts_query net proto 0 conn query frames second_frame (sends frames) 1
      (result_of (7 ∷ 8 ∷ [])) (record { name = 97 ∷ []; type = varchar })
      (record { name = 98 ∷ []; type = sint64 } ∷ [])
      (record { cells = record new_rpb_ts_cell { varchar_value = some (7 ∷ []) } ∷ [] })
      (record { cells = record new_rpb_ts_cell { varchar_value = some (8 ∷ []) } ∷ [] } ∷ [])
      (read_row 7 ∷ read_row 8 ∷ []) refl refl refl refl refl rows_lem feeds_lem
