-- ===== src/Apps/Handler.antt =====
-- What the handlers of the applications have in common: a state of their own beside the outbox, the
-- answer with an error to the sender, and the status to all sessions.
pub mod Commands
pub mod Samples
use xerock.Base.{ℕ, ◌%◌, ◌^◌, ◌≡◌, refl, Option, none, some, List, [], ◌∷◌, ◌++◌, Text}
use xerock.Base.Run.{Run, done, ◌>>=◌}
use xerock.Json.{Json}
use xerock.Json.Build.{Build}
use xerock.Core.Message.{App, status, error}
use xerock.Core.Dispatcher.{Entry}
use xerock.Core.Outbox.{Outbox, write_all}
use xerock.Core.Factory.{Content, value_data, create_control}
use xerock.Core.Factory.Accepted.{Named}
use xerock.Core.Factory.Sent.{ControlOf, Sends, write_all-Sends}
use xerock.Core.Answers.{ErrorCode, fail_message}
use xerock.Core.Answers.Accepted.{said, fail_message-Sends}

-- What a handler tells the users.
pub data Answer (V : Type 0) : Type 0 where
  silent : Answer V
  refused : App → ErrorCode → Answer V
  announced : V → Answer V

module _ {ℓ} ⦃J : Json⦄ ⦃B : Build J⦄ {H : Type ℓ} (now : ℕ → ℕ) (apps : List (Entry H))
    {S : Type 0} where
  abbrev pub broadcast : App → J.Value → Outbox S Text → Run (Outbox S Text)
  broadcast ap doc o = do
    (text, o') ← create_control now apps ap status (some (value_data doc)) o
    done (write_all text o')

module _ {ℓ} ⦃J : Json⦄ ⦃B : Build J⦄ {H : Type ℓ} (now : ℕ → ℕ) (apps : List (Entry H))
    {S M : Type 0} where
  -- `fail_message(ws, app, ec);` and `write_all(make_status_message(…));`
  abbrev pub fail : App → S → ErrorCode → M × Outbox S Text → Run (M × Outbox S Text)
  fail ap ws ec (m, o) = do o' ← fail_message now apps ws ap ec [] o; done (m, o')

  abbrev pub send_status : App → J.Value → M × Outbox S Text → Run (M × Outbox S Text)
  send_status ap doc (m, o) = do o' ← broadcast now apps ap doc o; done (m, o')

  -- `if(!parser(doc, data)) { fail_message(ws, app, ILL_FORMED); return; }`, for the error ec.
  abbrev pub if_parsed :
      {A : Type 0}
      → App
      → S
      → ErrorCode
      → Option A
      → M × Outbox S Text
      → (A → Run (M × Outbox S Text))
      → Run (M × Outbox S Text)
  if_parsed ap ws ec none st next = fail ap ws ec st
  if_parsed ap ws ec (some a) st next = next a

  -- The rest of a handler after a call that left m and may have returned an error:
  -- `if(ec) { fail_message(ws, app, ec); return; }`.
  abbrev pub if_error :
      {E : Type 0}
      → App
      → S
      → (E → ErrorCode)
      → M × Option E
      → Outbox S Text
      → (M → Run (M × Outbox S Text))
      → Run (M × Outbox S Text)
  if_error ap ws code (m, none) o next = next m
  if_error ap ws code (m, some e) o next = fail ap ws (code e) (m, o)

  -- The handler ends with this state and this answer: no message; or one to the sender, an error
  -- of this application with this code; or one to all sessions, a status of it with this document.
  abbrev pub Answers :
      App → S → Outbox S Text → M × Answer J.Value → Run (M × Outbox S Text) → Type 0
  Answers ap ws o (m, silent) r = r ≡ done (m, o)
  Answers ap ws o (m, refused by ec) r =
      (text : Text) × (o' : Outbox S Text) × (r ≡ done (m, o'))
      × ControlOf apps by error (said ec []) (now o.readings % 2 ^ 64) text
      × (o'.sent ≡ o.sent ++ (ws ∷ [], text) ∷ [])
      × (o'.shares ≡ o.shares)
  Answers ap ws o (m, announced doc) r =
      (text : Text) × (o' : Outbox S Text) × (r ≡ done (m, o'))
      × ControlOf apps ap status (some (value_data doc)) (now o.readings % 2 ^ 64) text
      × (o'.sent ≡ o.sent ++ (o.shares, text) ∷ [])
      × (o'.shares ≡ o.shares)

  module _ (ap : App) (ws : S) (e : Entry H) (named : Named apps ap e) (o : Outbox S Text) where
    pub fail-Answers :
        (to : App) (m : M) (ec : ErrorCode)
        → Answers to ws o (m, refused ap ec) (fail ap ws ec (m, o))
    unfolding fail
    fail-Answers to m ec =
        let (text, o', h, of, sent, shares) =
          (fail_message-Sends apps now ws ap e ec [] o named).0 in
        (text, o', rw h, of, sent, shares)

    pub send_status-Answers :
        (m : M) (doc : J.Value) → Answers ap ws o (m, announced doc) (send_status ap doc (m, o))
    send_status-Answers m doc =
        let (text, o', h, of, sent, shares) =
          write_all-Sends apps now ap e status (some (value_data doc)) o named in
        (text, o', rw h, of, sent, shares)
