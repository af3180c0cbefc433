-- ===== src/Apps/UdpServer/Parser.antt =====
-- src/apps/udp_server/json/parser.cpp. The code for a data message is that of `tcp_server`.
pub mod Exact
use mathlib.Core.Option
use xerock.Base.{Bool, Option, none, some, List, ℕ}
use xerock.Base.Run.{Run, done, ◌>>=◌}
use xerock.Json.{Json}
use xerock.Asio.{Asio, Endpoint}
use xerock.Apps.Endpoint.{check_port, get_endpoint}
use xerock.Apps.InData.{check_in_data, parse_data}
use xerock.Apps.TcpServer.Parser.{
  check_data as check_from_to, get_data as get_from_to, MessageData as FromTo,
}

module _ ⦃N : Asio⦄ where
  pub record MessageOpen : Type 0 where
    pub ep : Endpoint

  pub record MessageClose : Type 0 where
    pub ep : Endpoint

  pub record MessageData : Type 0 where
    pub from : Endpoint
    pub to : List Endpoint
    pub payload : List ℕ

module _ ⦃J : Json⦄ where
  open J use {Value}

  unfoldable pub check_data : Value → Run Bool
  check_data = check_from_to

  unfoldable pub check_open : Value → Run Bool
  check_open = check_in_data check_port

  unfoldable pub check_close : Value → Run Bool
  check_close = check_in_data check_port

module _ ⦃J : Json⦄ ⦃N : Asio⦄ where
  open J use {Value}

  unfoldable pub get_data : Value → Run (Option MessageData)
  get_data doc = do
    r ← get_from_to doc
    done (Option.map (λ (m : FromTo). record { from = m.from; to = m.to; payload = m.payload }) r)

  unfoldable pub parser_data : Value → Run (Option MessageData)
  unfolding check_data
  parser_data = parse_data check_data get_data

  unfoldable pub get_open : Value → Run (Option MessageOpen)
  get_open doc = do r ← get_endpoint doc; done (Option.map (λ e. record { ep = e }) r)

  unfoldable pub parser_open : Value → Run (Option MessageOpen)
  unfolding check_open
  parser_open = parse_data check_open get_open

  unfoldable pub get_close : Value → Run (Option MessageClose)
  get_close doc = do r ← get_endpoint doc; done (Option.map (λ e. record { ep = e }) r)

  unfoldable pub parser_close : Value → Run (Option MessageClose)
  unfolding check_close
  parser_close = parse_data check_close get_close
