-- ===== src/Apps/Endpoint.antt =====
-- The reading of an endpoint, `{"addr": …, "port": …}`, that the parsers of the applications
-- repeat: the port is tested, then the address is converted.
pub mod Cut
pub mod Written
mod Examples
use xerock.Base.{
  ℕ, ◌%◌, ◌^◌, ◌<◌, ◌≡◌, inl, inr, Bool, ◌&&◌, Option, none, some, Text, arith, ltb, true, false,
  Bool-cases, Option-cases,
}
use xerock.Base.Run.{Run, done, ◌>>=◌, ◌and_then◌, when, Settles, Settles-and_then, Decides}
use xerock.Json.{Json}
use xerock.Json.Fields.{Field, Has, has_field, has_field-Settles, read_uint, read_string}
use xerock.Asio.{Asio, Endpoint}

-- CONFIG_VALID_TCP_PORT_MIN and CONFIG_VALID_TCP_PORT_MAX are excluded.
unfoldable pub is_valid_port : ℕ → Bool
is_valid_port port = ltb 1024 port && ltb port 65536

pub invalid_lem : (n : ℕ) → is_valid_port n ≡ false → 1024 < n → n < 65536 → ⊥
unfolding is_valid_port
invalid_lem n h lo hi = ground arith

pub valid_lem : (n : ℕ) → is_valid_port n ≡ true → (1024 < n) × (n < 65536)
unfolding is_valid_port
valid_lem n h = ground arith

module _ ⦃J : Json⦄ where
  open J use {Value, is_object, is_string, is_uint}

  -- The tests of an address and a port, in both orders.
  unfoldable pub check_addr : Value → Run Bool
  check_addr d = has_field is_string d "addr" and_then has_field is_uint d "port"

  unfoldable pub check_port : Value → Run Bool
  check_port d = has_field is_uint d "port" and_then has_field is_string d "addr"

  -- The shape that `check_addr` looks for.
  abbrev pub HasAddr : Value → Type 0
  HasAddr d = Has is_string d "addr" × Has is_uint d "port"

  pub check_addr-Settles : (d : Value) → is_object d ≡ true → Settles (HasAddr d) (check_addr d)
  unfolding check_addr
  check_addr-Settles d h =
      Settles-and_then (has_field-Settles is_string d "addr" h)
        λ _. has_field-Settles is_uint d "port" h

  abbrev pub HasPort : Value → Type 0
  HasPort d = Has is_uint d "port" × Has is_string d "addr"

  pub check_port-Settles : (d : Value) → is_object d ≡ true → Settles (HasPort d) (check_port d)
  unfolding check_port
  check_port-Settles d h =
      Settles-and_then (has_field-Settles is_uint d "port" h)
        λ _. has_field-Settles is_string d "addr" h

module _ ⦃J : Json⦄ ⦃N : Asio⦄ where
  open J use {
    Value, is_object, is_string, is_uint, get_uint, get_string, get_uint-done, get_string-done,
  }
  open N use {make_address}

  unfoldable pub make_endpoint : ℕ → Text → Run (Option Endpoint)
  make_endpoint port addr = elim (make_address addr) [
    | none ↦ done none
    | some a ↦ done (some (record { address = a; port = port }))
  ]

  unfoldable pub get_endpoint : Value → Run (Option Endpoint)
  unfolding make_endpoint
  get_endpoint d = do
    port ← read_uint d "port"
    when (is_valid_port port) (do addr ← read_string d "addr"; make_endpoint port addr)

  -- The same where the port is converted to `uint16_t` before it is tested.
  unfoldable pub get_cut_endpoint : Value → Run (Option Endpoint)
  unfolding make_endpoint
  get_cut_endpoint d = do
    n ← read_uint d "port"
    let port = n % 2 ^ 16
    when (is_valid_port port) (do addr ← read_string d "addr"; make_endpoint port addr)

  -- The object d has a port strictly between the bounds and the text of the address.
  abbrev pub Names : Value → Endpoint → Type 0
  Names d e =
      (p a : Value) × (addr : Text) × Field is_uint d "port" p
      × Field is_string d "addr" a
      × (get_uint p ≡ done e.port)
      × (get_string a ≡ done addr)
      × (make_address addr ≡ some e.address)
      × (1024 < e.port)
      × (e.port < 65536)

  module _ {d p a : Value} (fp : Field is_uint d "port" p) (fa : Field is_string d "addr" a) where
    Names-port : (e : Endpoint) (n : ℕ) → get_uint p ≡ done n → Names d e → e.port ≡ n
    Names-port e n en s = cc (fp.0, s.3.0, s.5)

    Names-address :
        (e : Endpoint) (t : Text)
        → get_string a ≡ done t
        → Names d e
        → make_address t ≡ some e.address
    Names-address e t et s = cc (fa.0, s.4.0, s.6, s.7)

    pub get_endpoint-Decides : Decides (Names d) (get_endpoint d)
    unfolding get_endpoint
    get_endpoint-Decides =
        let (n, en, bound) = get_uint-done p fp.1 in
        let (s, es) = get_string-done a fa.1 in
        elim (Bool-cases (is_valid_port n)) [
          | inr bad ↦ inr (
            (λ e h.
                let q = Names-port e n en h in
                invalid_lem n bad (omega (arith, h.8)) (omega (arith, h.9))),
            rw (fp.0, en, bad),
          )
          | inl good ↦ elim (Option-cases (make_address s)) [
            | inl e ↦ inr (
              (λ x h. cc (Names-address x s es h)),
              rw (fp.0, en, good, fa.0, es, e, make_endpoint),
            )
            | inr (x, e) ↦ inl (
              record { address = x; port = n },
              (p, a, s, fp, fa, en, es, e, (valid_lem n good).0, (valid_lem n good).1),
              rw (fp.0, en, good, fa.0, es, e, make_endpoint),
            )
          ]
        ]

  -- An object names one endpoint at most.
  pub Names-unique : (d : Value) (e e' : Endpoint) → Names d e → Names d e' → e ≡ e'
  Names-unique d e e' h k =
      let port = Names-port h.3 h.4 e' e.port h.5 k in
      let address = Names-address h.3 h.4 e' h.2 h.6 k in ground (arith, port, address, h.7)
