-- ===== src/Apps/Endpoint/Cut.antt =====
-- The reading of an endpoint where the port is converted to 16 bits before it is tested.
use xerock.Base.{
  ℕ, ◌%◌, ◌^◌, ◌<◌, ◌≡◌, refl, ap, some, Text, inl, inr, arith, Bool-cases, Option-cases,
}
use xerock.Base.Run.{done, Decides}
use xerock.Json.{Json}
use xerock.Json.Fields.{Field}
use xerock.Asio.{Asio, Endpoint}
use xerock.Apps.Endpoint.{is_valid_port, valid_lem, invalid_lem, make_endpoint, get_cut_endpoint}

module _ ⦃J : Json⦄ ⦃N : Asio⦄ where
  open J use {Value, is_string, is_uint, get_uint, get_string, get_uint-done, get_string-done}
  open N use {make_address}

  -- The object d has the text of the address, and a port whose remainder by 65536 is this one.
  abbrev pub NamesCut : Value → Endpoint → Type 0
  NamesCut d e =
      (p a : Value) × (addr : Text) × (n : ℕ) × Field is_uint d "port" p
      × Field is_string d "addr" a
      × (get_uint p ≡ done n)
      × (get_string a ≡ done addr)
      × (make_address addr ≡ some e.address)
      × (e.port ≡ n % 2 ^ 16)
      × (1024 < e.port)

  module _ {d p a : Value} (fp : Field is_uint d "port" p) (fa : Field is_string d "addr" a) where
    NamesCut-port :
        (e : Endpoint) (n : ℕ) → get_uint p ≡ done n → NamesCut d e → e.port ≡ n % 2 ^ 16
    NamesCut-port e n en s =
        let same : s.3 ≡ n = cc (fp.0, s.4.0, s.6, en) in
        let cut = ap (λ (x : ℕ). x % 2 ^ 16) same in omega (arith, cut, s.9)

    NamesCut-address :
        (e : Endpoint) (t : Text)
        → get_string a ≡ done t
        → NamesCut d e
        → make_address t ≡ some e.address
    NamesCut-address e t et s = cc (fa.0, s.5.0, s.7, s.8)

    pub get_cut_endpoint-Decides : Decides (NamesCut d) (get_cut_endpoint d)
    unfolding get_cut_endpoint
    get_cut_endpoint-Decides =
        let (n, en, bound) = get_uint-done p fp.1 in
        let (s, es) = get_string-done a fa.1 in
        elim (Bool-cases (is_valid_port (n % 2 ^ 16))) [
          | inr bad ↦ inr (
            (λ e h.
                let q = NamesCut-port e n en h in
                invalid_lem (n % 2 ^ 16) bad (omega (arith, h.10)) (omega arith)),
            rw (fp.0, en, bad),
          )
          | inl good ↦ elim (Option-cases (make_address s)) [
            | inl e ↦ inr (
              (λ x h. cc (NamesCut-address x s es h)),
              rw (fp.0, en, good, fa.0, es, e, make_endpoint),
            )
            | inr (x, e) ↦ inl (
              record { address = x; port = n % 2 ^ 16 },
              (p, a, s, n, fp, fa, en, es, e, refl, (valid_lem _ good).0),
              rw (fp.0, en, good, fa.0, es, e, make_endpoint),
            )
          ]
        ]
