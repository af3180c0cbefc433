-- ===== src/Core/Dispatcher/Examples.antt =====
-- Tests and instances for the registry. A handler is a number here.
use xerock.Base.{ℕ, ◌≡◌, refl, ◌+◌, true, none, some, List, [], ◌∷◌, codes}
use xerock.Core.Message.{main, echo, App-discrete}
use xerock.Core.Dispatcher.{Entry, lookup_name, exec, names}

abbrev main_entry : Entry ℕ
main_entry = record { app = main; name = codes "main"; func = none }

abbrev echo_entry : Entry ℕ
echo_entry = record { app = echo; name = codes "echo"; func = some 7 }

abbrev apps : List (Entry ℕ)
apps = main_entry ∷ echo_entry ∷ []

echo_runs : exec apps echo (λ h w. h + w) 1 ≡ (true, 8)
unfolding exec App-discrete
echo_runs = refl

echo_named : lookup_name apps (codes "echo") ≡ some echo_entry
unfolding lookup_name
echo_named = refl

apps_named : names apps ≡ codes "main" ∷ codes "echo" ∷ []
unfolding names
apps_named = refl
