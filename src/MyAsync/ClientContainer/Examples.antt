-- ===== src/MyAsync/ClientContainer/Examples.antt =====
-- Instances for the containers of sockets. A socket is its two endpoints and the bytes given to it,
-- and an endpoint is true or false.

use xerock.Base.{ℕ, Bool, true, false, none, some, List, [], ◌∷◌, ◌++◌, refl}
use xerock.Base.Run.{done}
use xerock.MyAsync.Registry.{lookup, Distinct}
use xerock.MyAsync.Registry.Change.{Changes}
use xerock.MyAsync.ClientContainer.{SocketType, tcp_opened, tcp_close, tcp_write}
use xerock.MyAsync.ClientContainer.Refinement.{per_entry, after_close, Registers, tcp-Changes}

abbrev sockets : SocketType Bool
sockets = record {
  Socket = Bool × List ℕ;
  Code = ℕ;
  use_ssl = λ s. false;
  local_endpoint = λ s. done s.0;
  remote_endpoint = λ s. done s.0;
  open_socket = λ k s. done ((k, s.1), none);
  close_socket = λ s. none;
  close_client = λ s. s;
  write_socket = λ bytes s. (s.0, s.1 ++ bytes);
  write_to = λ k bytes s. (s.0, s.1 ++ bytes);
}

bool_discrete : Discrete Bool
bool_discrete = hlevel

abbrev one : List (Bool × (Bool × List ℕ))
one = (true, (true, [])) ∷ []

one-Distinct : Distinct bool_discrete one
unfolding Distinct lookup
one-Distinct = (refl, tt)

tcp-Changes_example :
    Registers sockets bool_discrete
      ((false, []), none)
      (done false)
      one
      (tcp_opened sockets bool_discrete ((false, []), none) one)
    × Changes bool_discrete true one
        (after_close sockets bool_discrete (lookup bool_discrete true one))
        (tcp_close sockets bool_discrete true one)
    × Changes bool_discrete true one
        (per_entry sockets bool_discrete
          (λ s. (some (s.0, s.1 ++ 7 ∷ []), none))
          (lookup bool_discrete true one))
        (tcp_write sockets bool_discrete true (7 ∷ []) one)
tcp-Changes_example =
    tcp-Changes sockets bool_discrete true ((false, []), none) (7 ∷ []) one one-Distinct
