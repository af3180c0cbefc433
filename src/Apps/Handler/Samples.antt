-- ===== src/Apps/Handler/Samples.antt =====
-- What the tests of the handlers share: the endpoints of `Local` can be compared, and an error's code.
use native.Mathlib.Decide.{ℕ_discrete}
use xerock.Base.{ap, [], arith}
use xerock.Base.Int.{pos}
use xerock.Core.Answers.{ErrorCode}
use xerock.Asio.{Endpoint}
use xerock.Asio.Local.{local, known_discrete}

pub endpoint_discrete : Discrete Endpoint
endpoint_discrete a b = elim (known_discrete a.address b.address) [
  | no n ↦ no (λ e. n (ap (λ (x : Endpoint). x.address) e))
  | yes p ↦ elim (ℕ_discrete a.port b.port) [
    | no n ↦ no (λ e. n (ap (λ (x : Endpoint). x.port) e))
    | yes q ↦ yes (ground (arith, p, q))
  ]
]

abbrev pub some_code : {E : Type 0} → E → ErrorCode
some_code e = record { value = pos 1; message = [] }
