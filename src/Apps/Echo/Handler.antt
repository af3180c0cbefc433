-- ===== src/Apps/Echo/Handler.antt =====
-- src/apps/echo/json/echo.cpp.
use xerock.Base.{ℕ, ◌%◌, ◌^◌, ◌≡◌, Option, none, some, List, [], ◌∷◌, ◌++◌, Text}
use xerock.Base.Run.{Run, done, ◌>>=◌}
use xerock.Json.{Json}
use xerock.Json.Build.{Build}
use xerock.Core.Message.{echo, payload, error}
use xerock.Core.Dispatcher.{Entry}
use xerock.Core.Outbox.{Outbox, write_all}
use xerock.Core.Factory.{value_data, create_data, content}
use xerock.Core.Factory.Accepted.{Named, parser_main-data_document}
use xerock.Core.Factory.Sent.{Sends}
use xerock.Core.Answers.{ill_formed, make_error_code, fail_message}
use xerock.Core.Answers.Accepted.{said, fail_message-Sends}
use xerock.Apps.Main.Parser.{parser_main}
use xerock.Apps.Echo.Parser.{EchoData, parser_echo}

module _ {ℓ} ⦃J : Json⦄ ⦃B : Build J⦄ {H : Type ℓ} {S : Type 0} (now : ℕ → ℕ)
    (apps : List (Entry H)) where
  open J use {Value, member}
  open B use {print}

  unfoldable pub send_echo : Value → Outbox S Text → Run (Outbox S Text)
  unfolding create_data
  send_echo doc o = do
    v ← member doc "data"
    (message, o') ← create_data now apps echo (value_data v) o
    done (write_all message o')

  abbrev pub echoed_or_refused : S → Value → Option EchoData → Outbox S Text → Run (Outbox S Text)
  echoed_or_refused ws doc none o = fail_message now apps ws echo (make_error_code ill_formed) [] o
  echoed_or_refused ws doc (some m) o = send_echo doc o

  unfoldable pub echo_app : S → Value → Outbox S Text → Run (Outbox S Text)
  unfolding send_echo
  echo_app ws doc o = do r ← parser_echo doc; echoed_or_refused ws doc r o

  -- The run ends with one message to all sessions, the print of a document that is read as a data
  -- message of `echo` and that has this under "data".
  abbrev pub EchoesTo : Value → Outbox S Text → Run (Outbox S Text) → Type 0
  EchoesTo v o r =
      (doc' : Value) × (o' : Outbox S Text) × (r ≡ done o')
      × (parser_main apps doc'
          ≡ done (
              some (record {
                app = echo;
                time = now o.readings % 2 ^ 64;
                type = payload;
                control = none;
              })))
      × (member doc' "data" ≡ done v)
      × (o'.sent ≡ o.sent ++ (o.shares, print doc') ∷ [])
      × (o'.shares ≡ o.shares)

  -- With `echo` registered, its handler sends the member "data" of a message that its parser accepts
  -- to every open session, as a data message of `echo`.
  pub echo_app-EchoesTo :
      (ws : S) (e : Entry H) (doc v : Value) (d : EchoData) (o : Outbox S Text)
      → Named apps echo e
      → parser_echo doc ≡ done (some d)
      → member doc "data" ≡ done v
      → EchoesTo v o (echo_app ws doc o)
  unfolding echo_app send_echo create_data write_all content
  echo_app-EchoesTo ws e doc v d o named accepted found =
      let (doc', o', h, read, carries, quiet) =
        parser_main-data_document apps now echo e (value_data v) o named in
      (
        doc',
        write_all (print doc') o',
        rw (accepted, found, h),
        read,
        carries,
        rw (quiet.0, quiet.1),
        quiet.1,
      )

  -- With `echo` registered, a message that its parser does not accept is answered to the sender alone,
  -- as ill formed.
  pub echo_app-Sends :
      (ws : S) (e : Entry H) (doc : Value) (o : Outbox S Text)
      → Named apps echo e
      → parser_echo doc ≡ done none
      → Sends apps now
          (ws ∷ [])
          echo
          error
          (said (make_error_code ill_formed) [])
          o
          (echo_app ws doc o)
  unfolding echo_app
  echo_app-Sends ws e doc o named refused =
      rw refused (fail_message-Sends apps now ws echo e (make_error_code ill_formed) [] o named).0
