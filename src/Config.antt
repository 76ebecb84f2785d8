-- ===== src/Config.antt =====
-- consts.go, and the option structs that the components share: AuthOptions and connectionOptions
-- of connection.go. Durations are nanoseconds; an address and a TLS configuration are opaque
-- tokens.
use riak_go_client.Prelude.{ℕ, Option, ◌==◌, if◌then◌else◌, ◌*◌}
use Prim.Native.String.{String}

abbrev pub millisecond : ℕ
millisecond = 1000000

abbrev pub second : ℕ
second = 1000000000

abbrev pub default_min_connections : ℕ
default_min_connections = 1

abbrev pub default_max_connections : ℕ
default_max_connections = 256

abbrev pub default_idle_expiration_interval : ℕ
default_idle_expiration_interval = 5 * second

abbrev pub default_idle_timeout : ℕ
default_idle_timeout = 10 * second

abbrev pub default_connect_timeout : ℕ
default_connect_timeout = 3 * second

abbrev pub default_request_timeout : ℕ
default_request_timeout = 5 * second

abbrev pub default_health_check_interval : ℕ
default_health_check_interval = 125 * millisecond

abbrev pub default_execution_attempts : ℕ
default_execution_attempts = 3

abbrev pub default_queue_execution_interval : ℕ
default_queue_execution_interval = 125 * millisecond

abbrev pub default_init_buffer : ℕ
default_init_buffer = 2048

abbrev pub default_temp_net_error_retries : ℕ
default_temp_net_error_retries = 0

abbrev pub default_bucket_type : String
default_bucket_type = "default"

-- `if options.x == 0 { options.x = d }`.
abbrev pub or_default : ℕ → ℕ → ℕ
or_default x d = if x == 0 then d else x

pub record AuthOptions : Type 0 where
  pub user : String
  pub password : String
  pub tls_config : Option ℕ

pub record ConnectionOptions : Type 0 where
  pub remote_address : Option ℕ
  pub connect_timeout : ℕ
  pub request_timeout : ℕ
  pub auth_options : Option AuthOptions
  pub temp_net_error_retries : ℕ
