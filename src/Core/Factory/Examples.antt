-- ===== src/Core/Factory/Examples.antt =====
-- Instances for the factory: a registry of applications, a clock, and an outbox with two open
-- sessions, which are numbers.
use xerock.Base.{ℕ, ◌+◌, refl, none, some, List, [], ◌∷◌, codes, Text, String}
use xerock.Json.Tree.{tree}
use xerock.Json.Tree.Builder.{builder}
use xerock.Json.Build.{c_str}
use xerock.Core.Message.{
  App-discrete, App, main, echo, tcp_server, udp_server, udp_client, tcp_client, serial,
}
use xerock.Core.Dispatcher.{Entry, find, lookup_app, lookup_name}
use xerock.Core.Outbox.{Outbox}
use xerock.Core.Factory.Accepted.{Named}

abbrev pub main_entry : Entry ℕ
main_entry = record { app = main; name = codes "main"; func = none }

abbrev pub echo_entry : Entry ℕ
echo_entry = record { app = echo; name = codes "echo"; func = some 7 }

abbrev pub entry : App → String → Entry ℕ
entry a name = record { app = a; name = codes name; func = some 7 }

abbrev pub apps : List (Entry ℕ)
apps =
    main_entry
    ∷ echo_entry
    ∷ entry tcp_server "tcp_server"
    ∷ entry udp_server "udp_server"
    ∷ entry udp_client "udp_client"
    ∷ entry tcp_client "tcp_client"
    ∷ entry serial "serial"
    ∷ []

abbrev pub clock : ℕ → ℕ
clock n = 1000 + n

abbrev pub outbox : Outbox ℕ Text
outbox = record { mid = 5; userid = 2; readings = 0; shares = 1 ∷ 2 ∷ []; sent = [] }

pub main-Named : Named apps main main_entry
unfolding lookup_app find App-discrete lookup_name c_str
main-Named = (refl, refl, refl, refl)

pub echo-Named : Named apps echo echo_entry
unfolding lookup_app find App-discrete lookup_name c_str
echo-Named = (refl, refl, refl, refl)

pub tcp_server-Named : Named apps tcp_server (entry tcp_server "tcp_server")
unfolding lookup_app find App-discrete lookup_name c_str
tcp_server-Named = (refl, refl, refl, refl)

pub udp_server-Named : Named apps udp_server (entry udp_server "udp_server")
unfolding lookup_app find App-discrete lookup_name c_str
udp_server-Named = (refl, refl, refl, refl)

pub udp_client-Named : Named apps udp_client (entry udp_client "udp_client")
unfolding lookup_app find App-discrete lookup_name c_str
udp_client-Named = (refl, refl, refl, refl)

pub tcp_client-Named : Named apps tcp_client (entry tcp_client "tcp_client")
unfolding lookup_app find App-discrete lookup_name c_str
tcp_client-Named = (refl, refl, refl, refl)

pub serial-Named : Named apps serial (entry serial "serial")
unfolding lookup_app find App-discrete lookup_name c_str
serial-Named = (refl, refl, refl, refl)
