-- ===== src/Json/Fields.antt =====
-- The idiom `d.HasMember(k) && d[k].IsX()` of every parser, and the reading `d[k].GetX()` that it
-- guards.
use xerock.Base.{ℕ, ◌≡◌, inl, inr, subst, Bool, true, false, Option, String, Text, Bool-cases}
use xerock.Base.Run.{Run, done, ◌>>=◌, ◌and_then◌, Settles, Decides}
use xerock.Json.{Json}

module _ ⦃J : Json⦄ where
  open J use {
    Value, is_object, has_member, member, get_uint, get_string, has_member-done, member-done,
    has_member-true,
  }

  abbrev pub has_field : (Value → Bool) → Value → String → Run Bool
  has_field test d k = has_member d k and_then (do w ← member d k; done (test w))

  abbrev pub read_uint : Value → String → Run ℕ
  read_uint d k = do w ← member d k; get_uint w

  abbrev pub read_string : Value → String → Run Text
  read_string d k = do w ← member d k; get_string w

  -- The member k of d is w, and passes the test.
  abbrev pub Field : (Value → Bool) → Value → String → Value → Type 0
  Field test d k w = (member d k ≡ done w) × (test w ≡ true)

  pub has_field-Field :
      (test : Value → Bool) (d : Value) (k : String) (w : Value)
      → Field test d k w
      → has_field test d k ≡ done true
  has_field-Field test d k w f = rw (has_member-true d k w f.0, f.0, f.1)

  pub Field-unique :
      (test : Value → Bool) (d : Value) (k : String) {v w : Value}
      → Field test d k v
      → Field test d k w
      → v ≡ w
  Field-unique test d k f g = cc (f.0, g.0)

  -- The object d has a member k that passes the test and satisfies Q.
  abbrev pub With : (Value → Bool) → Value → String → (Value → Type 0) → Type 0
  With test d k Q = (w : Value) × Field test d k w × Q w

  abbrev pub Has : (Value → Bool) → Value → String → Type 0
  Has test d k = (w : Value) × Field test d k w

  has_field-present :
      (test : Value → Bool) (d : Value) (k : String)
      → has_member d k ≡ done true
      → Settles (Has test d k) (has_field test d k)
  has_field-present test d k h =
      let (w, e) = member-done d k h in
      elim (Bool-cases (test w)) [
        | inl t ↦ inl ((w, (e, t)), has_field-Field test d k w (e, t))
        | inr t ↦ inr ((λ s. cc (s.1.0, s.1.1, e, t)), rw (h, e, t))
      ]

  has_field-of :
      (test : Value → Bool) (d : Value) (k : String) (b : Bool)
      → has_member d k ≡ done b
      → Settles (Has test d k) (has_field test d k)
  has_field-of test d k true e = has_field-present test d k e
  has_field-of test d k false e = inr ((λ s. cc (has_member-true d k s.0 s.1.0, e)), rw e)

  -- In an object the idiom tells whether there is such a member.
  pub has_field-Settles :
      (test : Value → Bool) (d : Value) (k : String)
      → is_object d ≡ true
      → Settles (Has test d k) (has_field test d k)
  has_field-Settles test d k h = let (b, e) = has_member-done d k h in has_field-of test d k b e

  -- The idiom, and then a test of the member.
  pub has_field-With :
      {test : Value → Bool} {d : Value} {k : String} {Q : Value → Type 0} {next : Value → Run Bool}
      → is_object d ≡ true
      → ((w : Value) → Field test d k w → Settles (Q w) (next w))
      → Settles (With test d k Q) (has_field test d k and_then (do w ← member d k; next w))
  has_field-With {test} {d} {k} {Q} h step = elim (has_field-Settles test d k h) [
    | inr (absent, e) ↦ inr ((λ s. absent (s.0, s.1)), rw e)
    | inl ((w, f), e) ↦ elim (step w f) [
      | inl (q, e') ↦ inl ((w, f, q), rw (e, f.0, e'))
      | inr (absent, e') ↦
          inr ((λ s. absent (subst Q (Field-unique test d k s.1 f) s.2)), rw (e, f.0, e'))
    ]
  ]

  -- A parser that goes on in a member.
  pub Decides-With {ℓ} :
      {A : Type ℓ} (Q : Value → A → Type 0) (test : Value → Bool) (d : Value) (k : String)
      (next : Value → Run (Option A)) (w : Value)
      → Field test d k w
      → Decides (Q w) (next w)
      → Decides (λ a. With test d k (λ v. Q v a)) (do v ← member d k; next v)
  Decides-With Q test d k next w f (inl (a, q, e)) = inl (a, (w, f, q), rw (f.0, e))
  Decides-With Q test d k next w f (inr (absent, e)) =
      inr ((λ a s. absent a (subst (λ v. Q v a) (Field-unique test d k s.1 f) s.2)), rw (f.0, e))
