-- ===== src/Apps/TcpServer/Parser.antt =====
-- src/apps/tcp_server/json/parser.cpp. The text keys are those of json/defines.hpp.
pub mod Exact
pub mod Truncation
pub mod Data
pub mod CloseClients
pub mod Open
use xerock.Base.{
  ℕ, ◌%◌, ◌^◌, Bool, true, false, Option, none, some, List, [], ◌∷◌, Text, codes, text_eq,
  if◌then◌else◌, ◌||◌,
}
use mathlib.Core.Option
use xerock.Base.Int.{ℤ}
use xerock.Base.Run.{Run, done, ◌>>=◌, ◌and_then◌, when}
use xerock.Json.{Json}
use xerock.Json.Fields.{has_field, read_uint, read_string}
use xerock.Json.Bytes.{read_bytes}
use xerock.Asio.{Asio, Endpoint}
use xerock.Apps.Endpoint.{is_valid_port, check_addr, get_endpoint, get_cut_endpoint}

pub data SecureType : Type 0 where
  plain ssl : SecureType

-- The members of `options`; `none` is a member that is not initialised.
pub record KeepAlive : Type 0 where
  pub keep_alive : Bool
  pub idle : Option ℤ
  pub interval : Option ℤ
  pub count : Option ℤ

pub record MessageOpen : Type 0 where
  pub secure : SecureType
  pub port : ℕ
  pub addr : Text
  pub options : KeepAlive

abbrev pub default_options : KeepAlive
default_options = record { keep_alive = false; idle = none; interval = none; count = none }

abbrev pub secure_type : Text → SecureType
secure_type s = if text_eq s (codes "ssl") then ssl else plain

module _ ⦃N : Asio⦄ where
  pub record MessageClose : Type 0 where
    pub endpoint : Endpoint

  pub record MessageCloseClient : Type 0 where
    pub endpoint : Endpoint
    pub clients : List Endpoint

  pub record MessageData : Type 0 where
    pub from : Endpoint
    pub to : List Endpoint
    pub payload : List ℕ

module _ ⦃J : Json⦄ where
  open J use {
    Value, is_object, is_string, is_uint, is_array, is_bool, is_int, member, elements, get_bool,
    get_int,
  }

  unfoldable pub check_close : Value → Run Bool
  check_close doc = has_field is_object doc "data" and_then (do
    d ← member doc "data"
    has_field is_uint d "port" and_then has_field is_string d "addr")

  unfoldable pub check_close_clients : Value → Run Bool
  unfolding check_addr
  check_close_clients doc = has_field is_object doc "data" and_then (do
    d ← member doc "data"
    (has_field is_object d "server" and_then (do s ← member d "server"; check_addr s))
        and_then (has_field is_object d "client" and_then (do c ← member d "client"; check_addr c)))

  -- The loop over the clients of a data message.
  unfoldable pub check_clients : List Value → Run Bool
  unfolding check_addr
  check_clients [] = done true
  check_clients (c ∷ cs) =
      let rest = check_clients cs in if is_object c then check_addr c and_then rest else done false

  unfoldable pub check_data : Value → Run Bool
  unfolding check_addr check_clients
  check_data doc = has_field is_object doc "data" and_then (do
    d ← member doc "data"
    (has_field is_object d "from" and_then (do f ← member d "from"; check_addr f))
        and_then (has_field is_array d "to"
            and_then (do t ← member d "to"; clients ← elements t; check_clients clients))
        and_then has_field (λ v. is_object v || is_string v) d "data")

  unfoldable pub check_open : Value → Run Bool
  check_open doc = has_field is_object doc "data" and_then (do
    d ← member doc "data"
    has_field is_uint d "port"
        and_then has_field is_string d "secure"
        and_then has_field is_string d "addr")

  unfoldable pub check_keepalive : Value → Run Bool
  check_keepalive obj = has_field is_object obj "options" and_then (do
    opt ← member obj "options"
    has_field is_bool opt "keepalive"
        and_then has_field is_int opt "idle"
        and_then has_field is_int opt "interval"
        and_then has_field is_int opt "count")

  unfoldable pub get_keepalive : Value → Run KeepAlive
  get_keepalive opt = do
    v ← member opt "keepalive"
    keep_alive ← get_bool v
    i ← member opt "idle"
    idle ← get_int i
    n ← member opt "interval"
    interval ← get_int n
    c ← member opt "count"
    count ← get_int c
    done (record {
      keep_alive = keep_alive;
      idle = some idle;
      interval = some interval;
      count = some count;
    })

  -- `if(check_keepalive(doc)) get_keepalive(doc["options"], data);`
  unfoldable pub options_of : Value → Run KeepAlive
  unfolding check_keepalive get_keepalive
  options_of doc = do
    given ← check_keepalive doc
    if given then (do opt ← member doc "options"; get_keepalive opt) else done default_options

  -- The port is converted to `uint16_t` before it is tested.
  unfoldable pub get_open : Value → Run (Option MessageOpen)
  unfolding options_of
  get_open doc = do
    n ← read_uint doc "port"
    let port = n % 2 ^ 16
    when (is_valid_port port) (do
      secure ← read_string doc "secure"
      addr ← read_string doc "addr"
      options ← options_of doc
      done (
          some
            (record { secure = secure_type secure; port = port; addr = addr; options = options })))

  unfoldable pub parser_open : Value → Run (Option MessageOpen)
  unfolding check_open get_open
  parser_open doc = do ok ← check_open doc; when ok (do d ← member doc "data"; get_open d)

module _ ⦃J : Json⦄ ⦃N : Asio⦄ where
  open J use {Value, member, elements}

  unfoldable pub get_close : Value → Run (Option MessageClose)
  get_close doc = do e ← get_endpoint doc; done (Option.map (λ e. record { endpoint = e }) e)

  unfoldable pub parser_close : Value → Run (Option MessageClose)
  unfolding check_close get_close
  parser_close doc = do ok ← check_close doc; when ok (do d ← member doc "data"; get_close d)

  unfoldable pub get_close_clients : Value → Run (Option MessageCloseClient)
  unfolding get_cut_endpoint
  get_close_clients doc = do
    server ← member doc "server"
    found ← get_endpoint server
    elim found [
      | none ↦ done none
      | some e ↦ do
        client ← member doc "client"
        c ← get_cut_endpoint client
        done (Option.map (λ c. record { endpoint = e; clients = c ∷ [] }) c)
    ]

  unfoldable pub parser_close_clients : Value → Run (Option MessageCloseClient)
  unfolding check_close_clients get_close_clients
  parser_close_clients doc = do
    ok ← check_close_clients doc
    when ok (do d ← member doc "data"; get_close_clients d)

  -- The loop that pushes the clients of a data message.
  unfoldable pub get_clients : List Value → Run (Option (List Endpoint))
  get_clients [] = done (some [])
  get_clients (c ∷ cs) =
      let rest = get_clients cs in
      do
        found ← get_endpoint c
        elim found [
          | none ↦ done none
          | some e ↦ do others ← rest; done (Option.map (λ es. e ∷ es) others)
        ]

  unfoldable pub get_data : Value → Run (Option MessageData)
  unfolding get_clients
  get_data doc = do
    f ← member doc "from"
    from ← get_endpoint f
    elim from [
      | none ↦ done none
      | some from ↦ do
        t ← member doc "to"
        clients ← elements t
        to ← get_clients clients
        elim to [
          | none ↦ done none
          | some to ↦ do
            v ← member doc "data"
            payload ← read_bytes v
            done (some (record { from = from; to = to; payload = payload }))
        ]
    ]

  unfoldable pub parser_data : Value → Run (Option MessageData)
  unfolding check_data get_data
  parser_data doc = do ok ← check_data doc; when ok (do d ← member doc "data"; get_data d)
