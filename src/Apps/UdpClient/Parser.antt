-- ===== src/Apps/UdpClient/Parser.antt =====
-- src/apps/udp_client/json/parser.cpp.
pub mod Exact
use mathlib.Core.Option
use xerock.Base.{ℕ, Bool, Option, none, some, List}
use xerock.Base.Run.{Run, done, ◌>>=◌}
use xerock.Json.{Json}
use xerock.Asio.{Asio, Endpoint}
use xerock.Apps.Endpoint.{check_port, get_endpoint, get_cut_endpoint}
use xerock.Apps.InData.{check_in_data, parse_data, check_local_data, get_local_data}

module _ ⦃N : Asio⦄ where
  pub record MessageOpen : Type 0 where
    pub remote : Endpoint

  pub record MessageClose : Type 0 where
    pub local : Endpoint

  pub record MessageData : Type 0 where
    pub local : Endpoint
    pub payload : List ℕ

module _ ⦃J : Json⦄ where
  open J use {Value}

  unfoldable pub check_data : Value → Run Bool
  check_data = check_in_data check_local_data

  unfoldable pub check_open : Value → Run Bool
  check_open = check_in_data check_port

  unfoldable pub check_close : Value → Run Bool
  check_close = check_in_data check_port

module _ ⦃J : Json⦄ ⦃N : Asio⦄ where
  open J use {Value}

  unfoldable pub get_data : Value → Run (Option MessageData)
  get_data doc = do
    r ← get_local_data doc
    done (Option.map (λ (local, payload). record { local = local; payload = payload }) r)

  unfoldable pub parser_data : Value → Run (Option MessageData)
  unfolding check_data
  parser_data = parse_data check_data get_data

  -- The port is converted to `uint16_t` before it is tested.
  unfoldable pub get_open : Value → Run (Option MessageOpen)
  get_open doc = do r ← get_cut_endpoint doc; done (Option.map (λ e. record { remote = e }) r)

  unfoldable pub parser_open : Value → Run (Option MessageOpen)
  unfolding check_open
  parser_open = parse_data check_open get_open

  unfoldable pub get_close : Value → Run (Option MessageClose)
  get_close doc = do r ← get_endpoint doc; done (Option.map (λ e. record { local = e }) r)

  unfoldable pub parser_close : Value → Run (Option MessageClose)
  unfolding check_close
  parser_close = parse_data check_close get_close
