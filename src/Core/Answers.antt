-- ===== src/Core/Answers.antt =====
-- src/core/error.cpp and src/core/include/core/json/{error_message_impl,fail_message_impl}.hpp: the
-- errors of messages, and the answers that carry an error. An error code is its value and the text of its category.
pub mod Accepted
mod Examples
use xerock.Base.{ℕ, ◌==◌, some, List, [], ◌∷◌, String, Text, codes, if◌then◌else◌}
use xerock.Base.Int.{ℤ, pos, negsuc}
use xerock.Base.Run.{Run, done, ◌>>=◌}
use xerock.Json.{Json}
use xerock.Json.Build.{Build}
use xerock.Core.Message.{App, error}
use xerock.Core.Dispatcher.{Entry}
use xerock.Core.Outbox.{Outbox, write, write_all}
use xerock.Core.Factory.{value_data, create_control}

pub data MessageErrc : Type 0 where
  ill_formed app_not_found server_internal_error resource_in_use resource_not_found : MessageErrc

pub record ErrorCode : Type 0 where
  pub value : ℤ
  pub message : Text

abbrev pub errc_value : MessageErrc → ℤ
errc_value ill_formed = pos 10
errc_value app_not_found = pos 11
errc_value server_internal_error = pos 20
errc_value resource_in_use = pos 21
errc_value resource_not_found = pos 22

-- Message_Err_Category::message
unfoldable pub message : ℤ → Text
message (negsuc n) = codes "(unrecognized error)"
message (pos n) =
    if n == 10
    then codes "Ill formed message"
    else if n == 11
    then codes "App not found"
    else if n == 20
    then codes "Server internal error"
    else if n == 21
    then codes "Resoruce in use"
    else if n == 22
    then codes "Resource not founde"
    else codes "(unrecognized error)"

unfoldable pub make_error_code : MessageErrc → ErrorCode
unfolding message
make_error_code e = record { value = errc_value e; message = message (errc_value e) }

module _ ⦃J : Json⦄ ⦃B : Build J⦄ where
  open J use {Value}
  open B use {str, int, object}

  -- The document under "data" of an answer.
  unfoldable pub error_fields : ErrorCode → Text → List (String × Value)
  error_fields ec what =
      ("code", int ec.value) ∷ ("message", str ec.message) ∷ ("what", str what) ∷ []

module _ {ℓ} ⦃J : Json⦄ ⦃B : Build J⦄ {H : Type ℓ} {S : Type 0} (now : ℕ → ℕ)
    (apps : List (Entry H)) where
  open J use {Value}
  open B use {object}

  unfoldable pub make_error_message :
      App → ErrorCode → Text → Outbox S Text → Run (Text × Outbox S Text)
  unfolding error_fields
  make_error_message app ec what o =
      create_control now apps app error (some (value_data (object (error_fields ec what)))) o

  -- `fail_message` to one session, and to all of them.
  unfoldable pub fail_message : S → App → ErrorCode → Text → Outbox S Text → Run (Outbox S Text)
  unfolding make_error_message
  fail_message ws app ec what o = do
    (text, o') ← make_error_message app ec what o
    done (write ws text o')

  unfoldable pub fail_message_all : App → ErrorCode → Text → Outbox S Text → Run (Outbox S Text)
  unfolding make_error_message
  fail_message_all app ec what o = do
    (text, o') ← make_error_message app ec what o
    done (write_all text o')
