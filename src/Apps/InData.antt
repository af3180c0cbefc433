-- ===== src/Apps/InData.antt =====
-- What the parsers of the applications have in common: a test of the document, and the reading of
-- its member `data`. The data message of `tcp_client` and of `udp_client` is the same.
use xerock.Base.{ℕ, ◌≡◌, true, subst, Bool, Option, none, some, List, inl, inr}
use xerock.Base.Run.{
  Run, done, ◌>>=◌, ◌and_then◌, when, Settles, Settles-and_then, Decides, Decides-check,
}
use xerock.Json.{Json}
use xerock.Json.Fields.{
  Field, Field-unique, With, Has, has_field, has_field-Settles, has_field-With, Decides-With,
}
use xerock.Json.Bytes.{read_bytes}
use xerock.Json.Payload.{is_payload, payload_text, Bytes, Unsigned, read_bytes-Bytes}
use xerock.Asio.{Asio, Endpoint}
use xerock.Apps.Endpoint.{
  check_addr, HasAddr, check_addr-Settles, get_endpoint, Names, get_endpoint-Decides,
}

module _ ⦃J : Json⦄ where
  open J use {Value, is_object, member}

  abbrev pub check_in_data : (Value → Run Bool) → Value → Run Bool
  check_in_data check doc =
      has_field is_object doc "data" and_then (do d ← member doc "data"; check d)

  -- `if(!check(doc)) return false; return get(doc["data"], data);`
  abbrev pub parse_data {ℓ} :
      {A : Type ℓ} → (Value → Run Bool) → (Value → Run (Option A)) → Value → Run (Option A)
  parse_data check get doc = do ok ← check doc; when ok (do d ← member doc "data"; get d)

  pub parse_data-Decides {ℓ} :
      {A : Type ℓ} (P : Value → Type 0) (S : Value → A → Type 0) (check : Value → Run Bool)
      (get : Value → Run (Option A)) (doc : Value)
      → is_object doc ≡ true
      → ((d : Value) → is_object d ≡ true → Settles (P d) (check d))
      → ((d : Value) → Field is_object doc "data" d → P d → Decides (S d) (get d))
      → ((d : Value) (a : A) → S d a → P d)
      → Decides
          (λ a. With is_object doc "data" (λ d. S d a))
          (parse_data (check_in_data check) get doc)
  parse_data-Decides P S check get doc h settles decides down =
      Decides-check (has_field-With h λ d f. settles d f.1)
        (λ (d, f, p). Decides-With S is_object doc "data" get d f (decides d f p))
        (λ a (d, f, s). (d, f, down d a s))

  -- The test of the data of a client: the payload, and the local endpoint.
  unfoldable pub check_local_data : Value → Run Bool
  check_local_data d =
      has_field is_payload d "data"
      and_then (has_field is_object d "local" and_then (do l ← member d "local"; check_addr l))

  abbrev pub HasLocal : Value → Type 0
  HasLocal d = Has is_payload d "data" × With is_object d "local" HasAddr

  pub check_local_data-Settles :
      (d : Value) → is_object d ≡ true → Settles (HasLocal d) (check_local_data d)
  unfolding check_local_data
  check_local_data-Settles d h =
      Settles-and_then (has_field-Settles is_payload d "data" h)
        λ _. has_field-With h λ l f. check_addr-Settles l f.1

module _ ⦃J : Json⦄ ⦃N : Asio⦄ where
  open J use {Value, is_object, member}

  unfoldable pub get_local_data : Value → Run (Option (Endpoint × List ℕ))
  get_local_data doc = do
    l ← member doc "local"
    found ← get_endpoint l
    elim found [
      | none ↦ done none
      | some e ↦ do v ← member doc "data"; payload ← read_bytes v; done (some (e, payload))
    ]

  -- The object `local` names the endpoint, and `data` has these bytes.
  abbrev pub LocalData : Value → Endpoint × List ℕ → Type 0
  LocalData d m =
      With is_object d "local" (λ l. Names l m.0) × With is_payload d "data" (λ v. Bytes v m.1)

  pub LocalData-HasLocal : (d : Value) (m : Endpoint × List ℕ) → LocalData d m → HasLocal d
  LocalData-HasLocal d m ((l, f, n), (v, g, b)) = ((v, g), (l, f, ((n.1, n.4), (n.0, n.3))))

  pub get_local_data-Decides :
      (d : Value)
      → HasLocal d
      → ((v : Value) → Field is_payload d "data" v → Unsigned v)
      → Decides (LocalData d) (get_local_data d)
  unfolding get_local_data
  get_local_data-Decides d ((v, fv), (l, fl, (ha, hp))) unsigned =
      let (bytes, read, e) = read_bytes-Bytes v (payload_text v fv.1) (unsigned v fv) in
      elim (get_endpoint-Decides hp.1 ha.1) [
        | inl (x, named, e') ↦
            inl ((x, bytes), ((l, fl, named), (v, fv, read)), rw (fl.0, e', fv.0, e))
        | inr (absent, e') ↦ inr (
          (λ m s.
              absent m.0
                (subst (λ w. Names w m.0) (Field-unique is_object d "local" s.0.1 fl) s.0.2)),
          rw (fl.0, e'),
        )
      ]
