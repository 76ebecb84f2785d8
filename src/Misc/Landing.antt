-- ===== src/Misc/Landing.antt =====
-- misc_commands.go and connection.go: the execution of the commands that have one response.
use riak_go_client.Prelude.{ℕ, suc, ◌≡◌, refl, false, Option, none, some, arith, ok}
use riak_go_client.Errors.{Error}
use riak_go_client.Command.{ProtoApi}
use riak_go_client.Rpb.{Message, rpb_get_server_info_resp, rpb_get_bucket_resp}
use riak_go_client.Connection.{Connection, NetApi}
use riak_go_client.Connection.Execute.{execute}
use riak_go_client.Connection.Landing.{IsSimple, Lands, execute-Lands}
use riak_go_client.Misc.Ping
use riak_go_client.Misc.GetServerInfo
use riak_go_client.Misc.FetchBucketTypeProps
use riak_go_client.Misc.FetchBucketProps
use riak_go_client.Misc.StoreBucketTypeProps
use riak_go_client.Misc.StoreBucketProps
use riak_go_client.Misc.ResetBucket

module _ {W : Type 0} (net : NetApi W) (proto : ProtoApi Message) where
  ping-IsSimple : IsSimple net proto Ping.api
  unfolding Ping.construct_pb_request Ping.on_success
  ping-IsSimple = record {
    has_request_code = λ k e. absurd (omega arith);
    has_response_code = λ k e. absurd (omega arith);
    not_streaming = λ k. refl;
    builds = λ k. (_, refl);
    accepts = λ k msg. (_, refl);
  }

  info_accepts :
      (k : GetServerInfo.GetServerInfoCommand) (msg : Option Message)
      → (a : GetServerInfo.GetServerInfoCommand × Option Error) × (GetServerInfo.on_success k msg
          ≡ ok a)
  unfolding GetServerInfo.on_success
  info_accepts k none = (_, refl)
  info_accepts k (some (rpb_get_server_info_resp m)) = (_, refl)
  info_accepts k (some other) = (_, refl)

  info-IsSimple : IsSimple net proto GetServerInfo.api
  unfolding GetServerInfo.construct_pb_request
  info-IsSimple = record {
    has_request_code = λ k e. absurd (omega arith);
    has_response_code = λ k e. absurd (omega arith);
    not_streaming = λ k. refl;
    builds = λ k. (_, refl);
    accepts = info_accepts;
  }

  fetch_type_accepts :
      (k : FetchBucketTypeProps.FetchBucketTypePropsCommand) (msg : Option Message)
      → (a : FetchBucketTypeProps.FetchBucketTypePropsCommand × Option Error)
        × (FetchBucketTypeProps.on_success k msg ≡ ok a)
  unfolding FetchBucketTypeProps.on_success
  fetch_type_accepts k none = (_, refl)
  fetch_type_accepts k (some (rpb_get_bucket_resp m)) = (_, refl)
  fetch_type_accepts k (some other) = (_, refl)

  fetch_type-IsSimple : IsSimple net proto FetchBucketTypeProps.api
  unfolding FetchBucketTypeProps.construct_pb_request
  fetch_type-IsSimple = record {
    has_request_code = λ k e. absurd (omega arith);
    has_response_code = λ k e. absurd (omega arith);
    not_streaming = λ k. refl;
    builds = λ k. (_, refl);
    accepts = fetch_type_accepts;
  }

  fetch_accepts :
      (k : FetchBucketProps.FetchBucketPropsCommand) (msg : Option Message)
      → (a : FetchBucketProps.FetchBucketPropsCommand × Option Error) × (FetchBucketProps.on_success
            k msg
          ≡ ok a)
  unfolding FetchBucketProps.on_success
  fetch_accepts k none = (_, refl)
  fetch_accepts k (some (rpb_get_bucket_resp m)) = (_, refl)
  fetch_accepts k (some other) = (_, refl)

  fetch-IsSimple : IsSimple net proto FetchBucketProps.api
  unfolding FetchBucketProps.construct_pb_request
  fetch-IsSimple = record {
    has_request_code = λ k e. absurd (omega arith);
    has_response_code = λ k e. absurd (omega arith);
    not_streaming = λ k. refl;
    builds = λ k. (_, refl);
    accepts = fetch_accepts;
  }

  store_type-IsSimple : IsSimple net proto StoreBucketTypeProps.api
  unfolding StoreBucketTypeProps.construct_pb_request StoreBucketTypeProps.on_success
  store_type-IsSimple = record {
    has_request_code = λ k e. absurd (omega arith);
    has_response_code = λ k e. absurd (omega arith);
    not_streaming = λ k. refl;
    builds = λ k. (_, refl);
    accepts = λ k msg. (_, refl);
  }

  store-IsSimple : IsSimple net proto StoreBucketProps.api
  unfolding StoreBucketProps.construct_pb_request StoreBucketProps.on_success
  store-IsSimple = record {
    has_request_code = λ k e. absurd (omega arith);
    has_response_code = λ k e. absurd (omega arith);
    not_streaming = λ k. refl;
    builds = λ k. (_, refl);
    accepts = λ k msg. (_, refl);
  }

  reset-IsSimple : IsSimple net proto ResetBucket.api
  unfolding ResetBucket.construct_pb_request ResetBucket.on_success
  reset-IsSimple = record {
    has_request_code = λ k e. absurd (omega arith);
    has_response_code = λ k e. absurd (omega arith);
    not_streaming = λ k. refl;
    builds = λ k. (_, refl);
    accepts = λ k msg. (_, refl);
  }

  -- `execute` of any command for ping, for the server's information or for the properties of buckets
  -- and bucket types, on a connection that is not in flight and with fuel for one response, returns
  -- whatever the network does, with the connection not in flight; or it panics at a response of
  -- length 0.
  pub execute_each-Lands :
      (fuel : ℕ) (c : Connection) (w : W) (ping : Ping.PingCommand)
      (info : GetServerInfo.GetServerInfoCommand)
      (fetch_type : FetchBucketTypeProps.FetchBucketTypePropsCommand)
      (fetch : FetchBucketProps.FetchBucketPropsCommand)
      (store_type : StoreBucketTypeProps.StoreBucketTypePropsCommand)
      (store : StoreBucketProps.StoreBucketPropsCommand) (reset : ResetBucket.ResetBucketCommand)
      → c.in_flight ≡ false
      → Lands net proto Ping.api (execute net proto Ping.api (suc fuel) c ping w)
        × Lands net proto GetServerInfo.api
            (execute net proto GetServerInfo.api (suc fuel) c info w)
        × Lands net proto FetchBucketTypeProps.api
            (execute net proto FetchBucketTypeProps.api (suc fuel) c fetch_type w)
        × Lands net proto FetchBucketProps.api
            (execute net proto FetchBucketProps.api (suc fuel) c fetch w)
        × Lands net proto StoreBucketTypeProps.api
            (execute net proto StoreBucketTypeProps.api (suc fuel) c store_type w)
        × Lands net proto StoreBucketProps.api
            (execute net proto StoreBucketProps.api (suc fuel) c store w)
        × Lands net proto ResetBucket.api (execute net proto ResetBucket.api (suc fuel) c reset w)
  execute_each-Lands fuel c w ping info fetch_type fetch store_type store reset idle = (
    execute-Lands net proto Ping.api fuel c ping w ping-IsSimple idle,
    execute-Lands net proto GetServerInfo.api fuel c info w info-IsSimple idle,
    execute-Lands net proto FetchBucketTypeProps.api fuel c fetch_type w fetch_type-IsSimple idle,
    execute-Lands net proto FetchBucketProps.api fuel c fetch w fetch-IsSimple idle,
    execute-Lands net proto StoreBucketTypeProps.api fuel c store_type w store_type-IsSimple idle,
    execute-Lands net proto StoreBucketProps.api fuel c store w store-IsSimple idle,
    execute-Lands net proto ResetBucket.api fuel c reset w reset-IsSimple idle,
  )
