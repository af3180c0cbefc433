-- ===== src/Apps/Main/Make.antt =====
-- src/apps/main/json/make.cpp, the messages of the application `main`.
use xerock.Base.{ℕ, some, List, [], ◌∷◌, Text}
use xerock.Base.Run.{Run}
use xerock.Json.{Json}
use xerock.Json.Build.{Build}
use xerock.Core.Message.{main, status, config}
use xerock.Core.Dispatcher.{Entry}
use xerock.Core.Outbox.{Outbox, user_id}
use xerock.Core.Factory.{value_data, strings_data, create_control}

module _ {ℓ} ⦃J : Json⦄ ⦃B : Build J⦄ {H : Type ℓ} {S : Type 0} (now : ℕ → ℕ)
    (apps : List (Entry H)) where
  open B use {uint, object}

  unfoldable pub make_status : ℕ → Outbox S Text → Run (Text × Outbox S Text)
  make_status nusers o =
      create_control now apps main status
        (some (value_data (object (("nusers", uint nusers) ∷ [])))) o

  unfoldable pub make_uid : Outbox S Text → Run (Text × Outbox S Text)
  make_uid o =
      let (uid, o₁) = user_id o in
      create_control now apps main status (some (value_data (object (("uid", uint uid) ∷ [])))) o₁

  unfoldable pub make_app_list : List Text → Outbox S Text → Run (Text × Outbox S Text)
  make_app_list app_list o = create_control now apps main config (some (strings_data app_list)) o
