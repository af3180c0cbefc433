-- ===== src/Core/Dispatcher/Laws.antt =====
-- On the registration of an application.
use mathlib.Core.Logic.{ite, if_pos, if_neg}
use xerock.Base.{
  ◌≡◌, refl, ap, Text, text_eq, Bool-cases, none, some, List, [], ◌∷◌, ◌++◌, arith, inl, inr,
  Option-cases,
}
use xerock.Core.Message.{App, App-discrete}
use xerock.Core.Dispatcher.{Entry, find, register_app, lookup_app, lookup_name}

module _ {ℓ} {H : Type ℓ} where
  find-append :
      (a : App) (e : Entry H) (es : List (Entry H))
      → find a es ≡ none
      → find a (es ++ e ∷ []) ≡ find a (e ∷ [])
  unfolding find
  find-append a e [] h = refl
  find-append a e (x ∷ es) h = ground (arith, find-append a e es)

  find-append_some :
      (a : App) (e x : Entry H) (es : List (Entry H))
      → find a es ≡ some x
      → find a (es ++ e ∷ []) ≡ some x
  unfolding find
  find-append_some a e x [] h = cc
  find-append_some a e x (y ∷ es) h = ground (arith, find-append_some a e x es)

  -- After a registration the application is found: by its earlier entry if it had one, else by the
  -- new one. What is found for another application does not change.
  pub lookup_app-register_app :
      (e : Entry H) (apps : List (Entry H)) (a : App)
      → lookup_app (register_app e apps) a ≡ elim (lookup_app apps a) [
        | some x ↦ some x
        | none ↦ ite (App-discrete e.app a) (some e) none
      ]
  unfolding lookup_app register_app find
  lookup_app-register_app e apps a = elim (Option-cases (find e.app apps)) [
    | inl absent ↦ elim (Option-cases (find a apps)) [
      | inl h ↦ rw (absent, h, register_app, find-append a e apps h)
      | inr (x, h) ↦ rw (absent, h, register_app, find-append_some a e x apps h)
    ]
    | inr (x, found) ↦ elim (Option-cases (find a apps)) [
      | inl h ↦ elim (App-discrete e.app a) [
        | yes same ↦ cc (same, found, h)
        | no other ↦ rw (found, h, register_app, if_neg _ other)
      ]
      | inr (y, h) ↦ rw (found, h, register_app)
    ]
  ]

  -- An application that a name leads to is registered.
  pub found_again :
      (apps : List (Entry H)) (name : Text) (e : Entry H)
      → lookup_name apps name ≡ some e
      → (x : Entry H) × (find e.app apps ≡ some x)
  unfolding lookup_name find
  found_again [] name e h = cc
  found_again (y ∷ ys) name e h = elim (App-discrete y.app e.app) [
    | yes same ↦ (y, if_pos (App-discrete y.app e.app) same _ _)
    | no other ↦ elim (Bool-cases (text_eq y.name name)) [
      | inl t ↦ absurd (other (let eq : y ≡ e = cc (h, t) in ap (λ (z : Entry H). z.app) eq))
      | inr f ↦
          let (x, g) = found_again ys name e (rw f at h) in
          (x, rw (if_neg (App-discrete y.app e.app) other _ _) g)
    ]
  ]
