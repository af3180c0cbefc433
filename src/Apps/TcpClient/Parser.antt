-- ===== src/Apps/TcpClient/Parser.antt =====
-- src/apps/tcp_client/json/parser.cpp.
pub mod Exact
pub mod Open
use mathlib.Core.Option
use xerock.Base.{ℕ, ◌%◌, ◌^◌, Bool, Option, none, some, List, Text, if◌then◌else◌}
use xerock.Base.Int.{to_int32}
use xerock.Base.Run.{Run, done, ◌>>=◌, ◌and_then◌, when}
use xerock.Json.{Json}
use xerock.Json.Fields.{has_field, read_uint, read_string}
use xerock.Asio.{Asio, Endpoint}
use xerock.Apps.Endpoint.{is_valid_port, check_port, make_endpoint, get_endpoint}
use xerock.Apps.InData.{check_in_data, parse_data, check_local_data, get_local_data}
use xerock.Apps.TcpServer.Parser.{SecureType, secure_type, KeepAlive, default_options}

module _ ⦃N : Asio⦄ where
  pub record MessageOpen : Type 0 where
    pub secure : SecureType
    pub remote : Endpoint
    pub options : KeepAlive

  pub record MessageClose : Type 0 where
    pub local : Endpoint

  pub record MessageData : Type 0 where
    pub local : Endpoint
    pub payload : List ℕ

module _ ⦃J : Json⦄ where
  open J use {Value, is_object, is_string, is_uint, is_bool, member, get_bool}

  unfoldable pub check_data : Value → Run Bool
  check_data = check_in_data check_local_data

  unfoldable pub check_open_data : Value → Run Bool
  check_open_data d =
      has_field is_uint d "port"
      and_then has_field is_string d "secure"
      and_then has_field is_string d "addr"

  unfoldable pub check_open : Value → Run Bool
  unfolding check_open_data
  check_open = check_in_data check_open_data

  unfoldable pub check_close : Value → Run Bool
  check_close = check_in_data check_port

  unfoldable pub check_keepalive : Value → Run Bool
  check_keepalive obj = has_field is_object obj "options" and_then (do
    opt ← member obj "options"
    has_field is_bool opt "keepalive"
        and_then has_field is_uint opt "idle"
        and_then has_field is_uint opt "interval"
        and_then has_field is_uint opt "count")

  -- The numbers are unsigned, and are stored in an `int32_t`.
  unfoldable pub get_keepalive : Value → Run KeepAlive
  get_keepalive opt = do
    v ← member opt "keepalive"
    keep_alive ← get_bool v
    idle ← read_uint opt "idle"
    interval ← read_uint opt "interval"
    count ← read_uint opt "count"
    done (record {
      keep_alive = keep_alive;
      idle = some (to_int32 idle);
      interval = some (to_int32 interval);
      count = some (to_int32 count);
    })

  -- `if(check_keepalive(doc)) get_keepalive(doc["options"], data);`
  unfoldable pub options_of : Value → Run KeepAlive
  unfolding check_keepalive get_keepalive
  options_of doc = do
    given ← check_keepalive doc
    if given then (do opt ← member doc "options"; get_keepalive opt) else done default_options

module _ ⦃J : Json⦄ ⦃N : Asio⦄ where
  open J use {Value, member}

  unfoldable pub get_data : Value → Run (Option MessageData)
  get_data doc = do
    r ← get_local_data doc
    done (Option.map (λ (local, payload). record { local = local; payload = payload }) r)

  unfoldable pub parser_data : Value → Run (Option MessageData)
  unfolding check_data
  parser_data = parse_data check_data get_data

  -- The options are read only behind a valid address.
  unfoldable pub open_at : SecureType → Value → Option Endpoint → Run (Option MessageOpen)
  unfolding options_of
  open_at secure doc none = done none
  open_at secure doc (some e) = do
    options ← options_of doc
    done (some (record { secure = secure; remote = e; options = options }))

  -- The port is converted to `uint16_t` before it is tested.
  unfoldable pub get_open : Value → Run (Option MessageOpen)
  unfolding open_at make_endpoint
  get_open doc = do
    n ← read_uint doc "port"
    let port = n % 2 ^ 16
    when (is_valid_port port) (do
      secure ← read_string doc "secure"
      addr ← read_string doc "addr"
      remote ← make_endpoint port addr
      open_at (secure_type secure) doc remote)

  unfoldable pub parser_open : Value → Run (Option MessageOpen)
  unfolding check_open
  parser_open = parse_data check_open get_open

  unfoldable pub get_close : Value → Run (Option MessageClose)
  get_close doc = do r ← get_endpoint doc; done (Option.map (λ e. record { local = e }) r)

  unfoldable pub parser_close : Value → Run (Option MessageClose)
  unfolding check_close
  parser_close = parse_data check_close get_close
