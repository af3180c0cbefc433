-- ===== src/Apps/Handler/Commands.antt =====
-- On a handler as one that reads a command from a message and then obeys it.
use xerock.Base.{ℕ, ◌≡◌, refl, Option, none, some, List, Text}
use xerock.Base.Run.{Run, done, abort, ◌>>=◌}
use xerock.Json.{Json}
use xerock.Json.Build.{Build}
use xerock.Core.Message.{App}
use xerock.Core.Dispatcher.{Entry}
use xerock.Core.Outbox.{Outbox}
use xerock.Core.Factory.Accepted.{Named}
use xerock.Core.Answers.{ErrorCode, ill_formed, make_error_code}
use xerock.Apps.Handler.{
  Answer, silent, refused, announced, fail, if_parsed, if_error, send_status, Answers, fail-Answers,
  send_status-Answers,
}

-- A message is ill formed, asks for the status, or asks for something of the application's own.
pub data Command (A : Type 0) : Type 0 where
  nonsense report : Command A
  call : A → Command A

abbrev pub parsed_command : {A D : Type 0} → (D → Run (Command A)) → Option D → Run (Command A)
parsed_command f none = done nonsense
parsed_command f (some d) = f d

-- A call on a container after which nothing is said, and one after which the status is, whose
-- document may throw.
abbrev pub quietly : {M V : Type 0} → M → Run (M × Answer V)
quietly m = done (m, silent)

abbrev pub publicly : {M V : Type 0} → (M → Run V) → M → Run (M × Answer V)
publicly doc m = do v ← doc m; done (m, announced v)

-- What a call on a container means: its error refuses the message.
abbrev pub answered :
    {M V E : Type 0}
    → App
    → (E → ErrorCode)
    → (M → Run (M × Answer V))
    → M × Option E
    → Run (M × Answer V)
answered by code after (m, none) = after m
answered by code after (m, some e) = done (m, refused by (code e))

-- The meaning of a command, given that of the calls and the document of the status.
abbrev pub carry_out :
    {M V A : Type 0}
    → App
    → (A → M → Run (M × Answer V))
    → (M → Run V)
    → Command A
    → M
    → Run (M × Answer V)
carry_out ap act doc nonsense m = done (m, refused ap (make_error_code ill_formed))
carry_out ap act doc report m = publicly doc m
carry_out ap act doc (call a) m = act a m

module _ {ℓ} ⦃J : Json⦄ ⦃B : Build J⦄ {H : Type ℓ} (now : ℕ → ℕ) (apps : List (Entry H))
    {S M A : Type 0} (ap : App) (ws : S) (o : Outbox S Text)
    (act : A → M → Run (M × Answer J.Value)) (doc : M → Run J.Value) where
  -- The handler answers so, and it dies exactly where this does.
  abbrev pub Meets : Run (M × Answer J.Value) → Run (M × Outbox S Text) → Type 0
  Meets (done a) r = Answers now apps ap ws o a r
  Meets abort r = r ≡ abort

  -- The handler answers as the command says, and it dies exactly where the reading of the command
  -- does, or what the command says.
  abbrev pub Obeys : Run (Command A) → M → Run (M × Outbox S Text) → Type 0
  Obeys (done c) m r = Meets (carry_out ap act doc c m) r
  Obeys abort m r = r ≡ abort

  module _ (e : Entry H) (named : Named apps ap e) (m : M) where
    pub nonsense-Obeys :
        Obeys (done nonsense) m (fail now apps ap ws (make_error_code ill_formed) (m, o))
    nonsense-Obeys = fail-Answers now apps ap ws e named o ap m (make_error_code ill_formed)

    send-Meets :
        (v : Run J.Value)
        → Meets (do x ← v; done (m, announced x)) (do x ← v; send_status now apps ap x (m, o))
    send-Meets abort = refl
    send-Meets (done x) = send_status-Answers now apps ap ws e named o m x

    pub report-Obeys : Obeys (done report) m (do x ← doc m; send_status now apps ap x (m, o))
    report-Obeys = send-Meets (doc m)

    pub if_parsed-Obeys :
        {D : Type 0} (p : Run (Option D)) (f : D → Run (Command A))
        (next : D → Run (M × Outbox S Text))
        → ((d : D) → Obeys (f d) m (next d))
        → Obeys
            (do r ← p; parsed_command f r)
            m
            (do r ← p; if_parsed now apps ap ws (make_error_code ill_formed) r (m, o) next)
    unfolding if_parsed
    if_parsed-Obeys abort f next h = refl
    if_parsed-Obeys (done none) f next h = nonsense-Obeys
    if_parsed-Obeys (done (some d)) f next h = h d

  pub if_error-Meets :
      (by : App) (e : Entry H)
      → Named apps by e
      → {E : Type 0} (code : E → ErrorCode) (after : M → Run (M × Answer J.Value))
        (r : M × Option E) (next : M → Run (M × Outbox S Text))
      → ((m' : M) → Meets (after m') (next m'))
      → Meets (answered by code after r) (if_error now apps by ws code r o next)
  if_error-Meets by e named code after (m', none) next h = h m'
  if_error-Meets by e named code after (m', some x) next h =
      fail-Answers now apps by ws e named o ap m' (code x)

  -- The same for a call that may throw.
  pub call-Meets :
      {R : Type 0} (call : Run R) (after : R → Run (M × Answer J.Value))
      (next : R → Run (M × Outbox S Text))
      → ((r : R) → Meets (after r) (next r))
      → Meets (do r ← call; after r) (do r ← call; next r)
  call-Meets abort after next h = refl
  call-Meets (done r) after next h = h r
