-- ===== src/Apps/Endpoint/Written.antt =====
-- The object of an endpoint in the messages of the daemon, as the `json/make.cpp` of every
-- application of sockets builds it.
use xerock.Base.{ℕ, ◌≡◌, refl, ap, ◌∙◌, ◌<◌, ◌^◌, inl, inr, some, [], ◌∷◌, arith}
use xerock.Base.Run.{done}
use xerock.Json.{Json}
use xerock.Json.Build.{Build, c_str, first_member}
use xerock.Core.Factory.Accepted.{built-Field}
use xerock.Asio.{Asio, Endpoint}
use xerock.Apps.Endpoint.{get_endpoint, Names, Names-unique, get_endpoint-Decides}

module _ ⦃J : Json⦄ ⦃B : Build J⦄ ⦃N : Asio⦄ where
  open J use {Value, is_string, is_uint}
  open B use {str, uint, object, is_string-str, get_string-str, is_uint-uint, get_uint-uint}
  open N use {Address, to_string, make_address-to_string}

  unfoldable pub endpoint_object : Endpoint → Value
  endpoint_object e = object (("addr", str (to_string e.address)) ∷ ("port", uint e.port) ∷ [])

  -- The object of an endpoint with a port strictly between the bounds names this endpoint, if the
  -- text of its address has no zero byte.
  pub endpoint_object-Names :
      (e : Endpoint)
      → 1024 < e.port
      → e.port < 65536
      → c_str (to_string e.address) ≡ to_string e.address
      → Names (endpoint_object e) e
  unfolding endpoint_object first_member
  endpoint_object-Names e lo hi clean =
      let fs = ("addr", str (to_string e.address)) ∷ ("port", uint e.port) ∷ [] in
      let small = port_small e.port hi in
      (
        uint e.port,
        str (to_string e.address),
        to_string e.address,
        built-Field is_uint fs "port" (uint e.port) refl (is_uint-uint e.port small),
        built-Field is_string fs "addr" (str (to_string e.address)) refl
            (is_string-str (to_string e.address)),
        get_uint-uint e.port small,
        get_string-str (to_string e.address) ∙ ap done clean,
        make_address-to_string e.address,
        lo,
        hi,
      )
    where
      port_small : (n : ℕ) → n < 65536 → n < 2 ^ 32
      port_small n h = omega arith

  -- So the parsers read it back from what the daemon wrote.
  pub get_endpoint-endpoint_object :
      (e : Endpoint)
      → 1024 < e.port
      → e.port < 65536
      → c_str (to_string e.address) ≡ to_string e.address
      → get_endpoint (endpoint_object e) ≡ done (some e)
  get_endpoint-endpoint_object e lo hi clean =
      let named = endpoint_object-Names e lo hi clean in
      elim (get_endpoint-Decides named.3 named.4) [
        | inl (x, h, r) ↦ r ∙ ap (λ y. done (some y)) (Names-unique (endpoint_object e) x e h named)
        | inr (absent, r) ↦ absurd (absent e named)
      ]
