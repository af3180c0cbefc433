-- ===== src/Core/Answers/Accepted.antt =====
-- On the answers that carry an error.
use xerock.Base.{ℕ, Option, some, List, [], ◌∷◌, Text}
use xerock.Json.{Json}
use xerock.Json.Build.{Build}
use xerock.Core.Message.{App, error}
use xerock.Core.Dispatcher.{Entry}
use xerock.Core.Outbox.{Outbox}
use xerock.Core.Factory.{Content, value_data}
use xerock.Core.Factory.Accepted.{Named}
use xerock.Core.Factory.Sent.{Sends, write-Sends, write_all-Sends}
use xerock.Core.Answers.{
  ErrorCode, error_fields, make_error_message, fail_message, fail_message_all,
}

module _ ⦃J : Json⦄ ⦃B : Build J⦄ where
  open B use {object}

  -- What an answer says of an error.
  abbrev pub said : ErrorCode → Text → Option (Content J.Value)
  said ec what = some (value_data (object (error_fields ec what)))

module _ {ℓ} ⦃J : Json⦄ ⦃B : Build J⦄ {H : Type ℓ} (apps : List (Entry H)) {S : Type 0}
    (now : ℕ → ℕ) where
  -- For a registered application whose name leads back to it, both kinds of answer end, with one
  -- message that reads as an error of the application and says the code, the text and what failed: to the one session, and to all open ones.
  pub fail_message-Sends :
      (ws : S) (a : App) (e : Entry H) (ec : ErrorCode) (what : Text) (o : Outbox S Text)
      → Named apps a e
      → Sends apps now (ws ∷ []) a error (said ec what) o (fail_message now apps ws a ec what o)
        × Sends apps now o.shares a error (said ec what) o (fail_message_all now apps a ec what o)
  unfolding fail_message fail_message_all make_error_message
  fail_message-Sends ws a e ec what o named = (
    write-Sends apps now ws a e error (said ec what) o named,
    write_all-Sends apps now a e error (said ec what) o named,
  )
