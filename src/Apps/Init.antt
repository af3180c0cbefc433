-- ===== src/Apps/Init.antt =====
-- src/apps/init_apps.cpp with every application compiled in, and the applications' names.
mod Examples
use xerock.Base.{◌≡◌, refl, Option, none, some, List, [], Text, codes}
use xerock.Core.Message.{
  App, main, echo, serial, monitor, tcp_server, tcp_client, udp_client, udp_server, App-discrete,
}
use xerock.Core.Dispatcher.{Entry, register_app, lookup_app, lookup_name}

-- `Apps::X::name` of each application.
unfoldable pub app_name : App → Text
app_name main = codes "main"
app_name echo = codes "echo"
app_name serial = codes "serial"
app_name monitor = codes "monitor"
app_name tcp_server = codes "tcp_server"
app_name tcp_client = codes "tcp_client"
app_name udp_client = codes "udp_client"
app_name udp_server = codes "udp_server"

module _ {ℓ} {H : Type ℓ} where
  -- Each `register_app(Core::App{app, name, func})`; `handlers` gives the function that is bound.
  unfoldable pub init_apps : (App → H) → List (Entry H)
  unfolding app_name register_app
  init_apps handlers = add udp_server (
      add udp_client (
        add tcp_client
          (add tcp_server (add monitor (add serial (add echo (register_app main_entry [])))))))
    where
      main_entry : Entry H
      main_entry = record { app = main; name = app_name main; func = none }

      add : App → List (Entry H) → List (Entry H)
      add a = register_app (record { app = a; name = app_name a; func = some (handlers a) })

  -- Every application is registered under its name, and both the application and the name lead to
  -- its entry.
  pub init_apps-lookup :
      (handlers : App → H) (a : App)
      → (e : Entry H) × (lookup_app (init_apps handlers) a ≡ some e)
        × (lookup_name (init_apps handlers) (app_name a) ≡ some e)
        × (e.app ≡ a)
  unfolding init_apps lookup_app lookup_name App-discrete
  init_apps-lookup handlers main =
      (record { app = main; name = app_name main; func = none }, refl, refl, refl)
  init_apps-lookup handlers a =
      (record { app = a; name = app_name a; func = some (handlers a) }, refl, refl, refl)
