-- ===== src/Apps/Endpoint/Examples.antt =====
-- An instance for written endpoints.
use xerock.Base.{◌≡◌, refl, arith, ◌<◌}
use xerock.Json.Tree.{tree}
use xerock.Json.Tree.Builder.{builder}
use xerock.Json.Build.{c_str}
use xerock.Asio.{Endpoint}
use xerock.Asio.Local.{local, loopback}

abbrev home : Endpoint
home = record { address = loopback; port = 8080 }

low : 1024 < 8080
low = omega arith

high : 8080 < 65536
high = omega arith

clean : c_str (local.to_string loopback) ≡ local.to_string loopback
unfolding c_str
clean = refl
