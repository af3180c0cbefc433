-- ===== src/Apps/Main/Parser.antt =====
-- src/apps/main/json/parser.cpp.
pub mod Exact
use xerock.Base.{ℕ, Bool, Option, none, some, List, Text, codes, text_eq, if◌then◌else◌}
use xerock.Base.Run.{Run, done, ◌>>=◌, ◌and_then◌, when}
use xerock.Json.{Json}
use xerock.Json.Fields.{has_field, read_string}
use xerock.Core.Message.{
  App, MessageType, payload, control, Control, status, config, open_control, close, custom, error,
  MainData, type_text, control_text,
}
use xerock.Core.Dispatcher.{Entry, lookup_name}

-- The chain of comparisons of `get_type`.
unfoldable pub control_of : Text → Option Control
unfolding control_text
control_of t =
    if text_eq t (control_text status)
    then some status
    else if text_eq t (control_text error)
    then some error
    else if text_eq t (control_text open_control)
    then some open_control
    else if text_eq t (control_text close)
    then some close
    else if text_eq t (control_text config)
    then some config
    else if text_eq t (control_text custom)
    then some custom
    else none

abbrev pub found_control : Option Control → Option (MessageType × Option Control)
found_control none = none
found_control (some k) = some (control, some k)

abbrev pub found_app {ℓ} : {H : Type ℓ} → Option (Entry H) → Option App
found_app none = none
found_app (some e) = some e.app

module _ ⦃J : Json⦄ where
  open J use {Value, is_object, is_string, is_uint64, member, get_uint64}

  unfoldable pub check_message : Value → Run Bool
  check_message doc =
      done (is_object doc)
      and_then has_field is_string doc "app"
      and_then has_field is_uint64 doc "time"
      and_then has_field is_string doc "type"

  -- `get_type` behind the test for a data message.
  unfoldable pub get_control : Value → Run (Option (MessageType × Option Control))
  get_control doc = do
    type ← read_string doc "type"
    when (text_eq type (type_text control)) (do
      ok ← has_field is_string doc "ctype"
      when ok (do c ← read_string doc "ctype"; done (found_control (control_of c))))

  -- The type, and the control that is set with it.
  unfoldable pub get_type : Value → Run (Option (MessageType × Option Control))
  get_type doc = do
    type ← read_string doc "type"
    if text_eq type (type_text payload) then done (some (payload, none)) else get_control doc

  unfoldable pub get_time : Value → Run ℕ
  get_time doc = do v ← member doc "time"; get_uint64 v

module _ {ℓ} ⦃J : Json⦄ {H : Type ℓ} (apps : List (Entry H)) where
  open J use {Value}

  unfoldable pub get_app : Value → Run (Option App)
  get_app doc = do name ← read_string doc "app"; done (found_app (lookup_name apps name))

  unfoldable pub parser_main : Value → Run (Option MainData)
  parser_main doc = do
    ok ← check_message doc
    when ok (do
      a ← get_app doc
      elim a [
        | none ↦ done none
        | some a ↦ do
          t ← get_type doc
          elim t [
            | none ↦ done none
            | some (type, kind) ↦ do
              time ← get_time doc
              done (some (record { app = a; time = time; type = type; control = kind }))
          ]
      ])
