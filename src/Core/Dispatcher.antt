-- ===== src/Core/Dispatcher.antt =====
-- src/core/app.cpp: `App` and `Dispatcher`. The map of applications is a list of its entries in the
-- order of iteration, which the C++ library leaves open.
pub mod Laws
mod Examples
use mathlib.Core.Logic.{ite}
use xerock.Base.{
  ℕ, Bool, true, false, Option, none, some, List, [], ◌∷◌, ◌++◌, Text, text_eq, if◌then◌else◌,
}
use xerock.Core.Message.{App, main, App-discrete}

-- `func_` is empty for the application that handles no message.
pub record Entry {ℓ} (H : Type ℓ) : Type ℓ where
  pub app : App
  pub name : Text
  pub func : Option H

module _ {ℓ} {H : Type ℓ} where
  -- apps.find(app)
  unfoldable pub find : App → List (Entry H) → Option (Entry H)
  find a [] = none
  find a (e ∷ es) = ite (App-discrete e.app a) (some e) (find a es)

  unfoldable pub register_app : Entry H → List (Entry H) → List (Entry H)
  unfolding find
  register_app e apps = elim (find e.app apps) [ none ↦ apps ++ e ∷ [] | some _ ↦ apps ]

  -- Dispatcher::app, also the function of json/factory.cpp that looks a name up.
  unfoldable pub lookup_app : List (Entry H) → App → Option (Entry H)
  unfolding find
  lookup_app apps a = find a apps

  -- Dispatcher::name: the first entry of the iteration with this name.
  unfoldable pub lookup_name : List (Entry H) → Text → Option (Entry H)
  lookup_name [] n = none
  lookup_name (e ∷ es) n = if text_eq e.name n then some e else lookup_name es n

  -- `if(app.func_) app.func_(…)`: `run` is the call of a handler, which changes the world W.
  abbrev pub called {κ} : {W : Type κ} → Option H → (H → W → W) → W → W
  called none run w = w
  called (some h) run w = run h w

  abbrev pub exec_found {κ} : {W : Type κ} → Option (Entry H) → (H → W → W) → W → Bool × W
  exec_found none run w = (false, w)
  exec_found (some e) run w = (true, called e.func run w)

  -- Dispatcher::exec
  unfoldable pub exec {κ} : {W : Type κ} → List (Entry H) → App → (H → W → W) → W → Bool × W
  unfolding find
  exec apps a run w = exec_found (find a apps) run w

  -- The names that `for_each` collects for the list of applications.
  unfoldable pub names : List (Entry H) → List Text
  names [] = []
  names (e ∷ es) = e.name ∷ names es
