-- ===== src/Ts/Executing.antt =====
-- ts_commands.go and connection.go: the execution of the two commands that have several responses.
use riak_go_client.Prelude.{
  ℕ, suc, ◌≡◌, refl, Bool, true, false, none, some, inr, List, [], ◌∷◌, ◌++◌, map, arith, ok,
  if◌then◌else◌,
}
use riak_go_client.Errors.{client_error, listing_disabled}
use riak_go_client.Command.{ProtoApi, on_error}
use riak_go_client.Command.Building.{succeeded}
use riak_go_client.Command.Requests.{get_riak_message-same}
use riak_go_client.Rpb.{Message, ts_query_resp, ts_query_req}
use riak_go_client.Rpb.Fields.{get_bool}
use riak_go_client.Rpb.Ts.{TsQueryResp, new_ts_query_resp, TsRow, RpbTsColumnDescription}
use riak_go_client.Connection.{Connection, NetApi, available}
use riak_go_client.Connection.Execute.{execute}
use riak_go_client.Connection.Exchange.{Sends, wait}
use riak_go_client.Connection.Streaming.{Feeds, Consumes, last, IsSteady, execute_stream}
use riak_go_client.Ts.Cells.{TsCell, convert_from_pb_ts_rows}
use riak_go_client.Ts.ListKeys
use riak_go_client.Ts.Query
use riak_go_client.Ts.Query.{TsQueryCommand, response_of}

module _ {W : Type 0} (net : NetApi W) (proto : ProtoApi Message) where
  -- Whatever options its builder was given, WithAllowListing among them, a TsListKeys command that
  -- `Build` returns is refused by `execute` on every connection that is not in flight, before
  -- anything is sent: with ErrListingDisabled, which is also the error of the command.
  pub execute_ts_list_keys :
      (fuel : ℕ) (b : ListKeys.TsListKeysCommandBuilder) (cmd : ListKeys.TsListKeysCommand)
      (c : Connection) (w : W)
      → ListKeys.build b ≡ inr cmd
      → c.in_flight ≡ false
      → execute net proto ListKeys.api fuel c cmd w
        ≡ ok (
          c,
          record cmd { impl = on_error cmd.impl (client_error listing_disabled) },
          some (client_error listing_disabled),
          w,
        )
  unfolding execute ListKeys.build
  execute_ts_list_keys fuel b cmd c w built idle =
      let off : cmd.allow_listing ≡ false = ground arith in rw (idle, off) refl

  query-IsSteady : IsSteady Query.api 91 (ts_query_resp new_ts_query_resp)
  query-IsSteady = record {
    byte = omega arith;
    not_error = λ e. absurd (omega arith);
    responds = λ k. refl;
    unmarshals = λ k. refl;
  }

  built-same :
      (c : Connection) (cmd : TsQueryCommand) (w : W) (s : Sends net proto Query.api c cmd w)
      → s.built ≡ cmd
  unfolding Query.construct_pb_request
  built-same c cmd w s =
      get_riak_message-same proto Query.api cmd s.built (some (ts_query_req cmd.protobuf)) s.message
        (λ e. absurd (omega arith)) refl s.builds

  -- The query after a response with the rows.
  abbrev pub holding : TsQueryCommand → TsQueryResp → List (List TsCell) → TsQueryCommand
  holding cmd r rows = record cmd {
    impl = succeeded cmd.impl;
    done = get_bool r.done;
    response = some (record {
      columns = (response_of cmd).columns ++ map Query.wrap r.columns;
      rows = (response_of cmd).rows ++ rows;
    });
  }

  query_rows_lem :
      (cmd : TsQueryCommand) (c : RpbTsColumnDescription) (cs : List RpbTsColumnDescription)
      (t : TsRow) (ts : List TsRow) (rows : List (List TsCell))
      → get_bool cmd.protobuf.stream ≡ false
      → convert_from_pb_ts_rows (t ∷ ts) (some (c ∷ cs)) ≡ ok rows
      → Query.query_rows cmd (c ∷ cs) (t ∷ ts)
        ≡ ok (
          record cmd {
            response = some (record {
              columns = (response_of cmd).columns ++ map Query.wrap (c ∷ cs);
              rows = (response_of cmd).rows ++ rows;
            });
          },
          none,
        )
  unfolding Query.query_rows
  query_rows_lem cmd c cs t ts rows off e = rw e (if_false _ _ _ off)
    where
      if_false : {A : Type 0} (b : Bool) (x y : A) → b ≡ false → (if b then x else y) ≡ y
      if_false true x y h = cc
      if_false false x y h = refl

  -- Where the request of a TsQuery command that does not stream goes out, and the socket of the
  -- available connection delivers a first response with columns and with rows that can be read:
  -- `execute` returns without an error once it has read that response, also where it is not marked
  -- as the last one. The command is successful and holds the rows of that response only, and
  -- whatever follows it is left unread in the socket.
  pub execute_ts_query :
      (fuel : ℕ) (c : Connection) (cmd : TsQueryCommand) (w w' : W)
      (s : Sends net proto Query.api c cmd w) (sock : ℕ) (r : TsQueryResp)
      (col : RpbTsColumnDescription) (cols : List RpbTsColumnDescription) (t : TsRow)
      (ts : List TsRow) (rows : List (List TsCell))
      → s.waiting.conn ≡ some sock
      → available s.waiting ≡ true
      → get_bool cmd.protobuf.stream ≡ false
      → r.columns ≡ col ∷ cols
      → r.rows ≡ t ∷ ts
      → convert_from_pb_ts_rows (t ∷ ts) (some (col ∷ cols)) ≡ ok rows
      → Feeds net proto sock
          (wait net proto Query.api s)
          91
          (ts_query_resp new_ts_query_resp)
          (ts_query_resp r ∷ [])
          s.sent
          w'
      → (n : ℕ) × (execute net proto Query.api (suc fuel) c cmd w
          ≡ ok (
            record s.waiting { data_buf_cap = n; in_flight = false },
            holding cmd r rows,
            none,
            w',
          ))
  unfolding Query.on_success
  execute_ts_query fuel c cmd w w' s sock r col cols t ts rows conn up off rc rr e fs =
      let first =
        query_rows_lem
          (record cmd {
            impl = succeeded cmd.impl;
            done = get_bool r.done;
            response = some (response_of cmd);
          })
          col cols t ts rows off e in
      let takes : Consumes Query.api cmd (ts_query_resp r ∷ []) (holding cmd r rows) none =
        last (ts_query_resp r) (rw (rc, rr) first) refl in
      execute_stream net proto Query.api (ts_query_resp r ∷ []) fuel c cmd _ none w w' s sock
        query-IsSteady conn up (omega arith) (rw (built-same c cmd w s) takes) fs
