-- ===== src/Apps/Monitor/Handler.antt =====
-- src/apps/monitor/monitor.cpp. The executor stands beside the outbox; what it reports by itself is in
-- its own list. `start` tells whether the readings of `calculate` succeed.
use xerock.Base.{ℕ, ◌≡◌, refl, true, false, inl, inr, ◌⊎◌, Option, none, some, List, Text}
use xerock.Base.Run.{Run, done, abort, ◌>>=◌}
use xerock.Json.{Json}
use xerock.Json.Build.{Build}
use xerock.Json.Fields.{With}
use xerock.Core.Message.{MessageType, payload, control, Control, status, MainData, monitor}
use xerock.Core.Dispatcher.{Entry}
use xerock.Core.Outbox.{Outbox}
use xerock.Core.Factory.Accepted.{Named}
use xerock.Core.Answers.{ill_formed, make_error_code}
use xerock.Apps.Handler.{refused, Answers, if_parsed, fail-Answers}
use xerock.Apps.Monitor.Parser.{MonitorMessage, set_monitor, cancel_monitor, parse_app}
use xerock.Apps.Monitor.Parser.Exact.{Asks, IsKnown, parse_app-Decides}
use xerock.Apps.Monitor.Executor.{
  Executor, Start, Event, set, cancelled, continuos, set_sample, init, cancel, step,
}

-- What is done with the executor by an accepted message.
unfoldable pub command : Start → MonitorMessage → Executor → Executor
unfolding continuos set_sample init cancel
command start (set_monitor n cont) s = init start (set_sample n (continuos cont s))
command start cancel_monitor s = cancel (continuos false s)

abbrev pub event : Start → MonitorMessage → Event
event start (set_monitor n cont) = set n cont start
event start cancel_monitor = cancelled

command-step :
    (start : Start) (m : MonitorMessage) (s : Executor) → command start m s ≡ step (event start m) s
unfolding command step
command-step start (set_monitor n c) s = refl
command-step start cancel_monitor s = refl

module _ {ℓ} ⦃J : Json⦄ ⦃B : Build J⦄ {H : Type ℓ} {S : Type 0} (now : ℕ → ℕ)
    (apps : List (Entry H)) (start : Start) where
  open J use {Value, is_object}

  unfoldable pub send_monitor_data :
      S → Value → Executor × Outbox S Text → Run (Executor × Outbox S Text)
  send_monitor_data ws doc (s, o) = do
    r ← parse_app doc
    if_parsed now apps monitor ws (make_error_code ill_formed) r (s, o)
        λ m. done (command start m s, o)

  -- The switch on `main.control`, which a control message has.
  abbrev pub on_control :
      Option Control → S → Value → Executor × Outbox S Text → Run (Executor × Outbox S Text)
  on_control none ws doc st = abort
  on_control (some status) ws doc st = send_monitor_data ws doc st
  on_control (some _) ws doc st = done st

  abbrev pub on_type :
      MessageType
      → Option Control
      → S
      → Value
      → Executor × Outbox S Text
      → Run (Executor × Outbox S Text)
  on_type control k ws doc st = on_control k ws doc st
  on_type payload k ws doc st = done st

  unfoldable pub monitor_app :
      S → MainData → Value → Executor × Outbox S Text → Run (Executor × Outbox S Text)
  unfolding send_monitor_data
  monitor_app ws m doc st = on_type m.type m.control ws doc st

  -- The message that the document asks for is a step of the executor, in silence; and where it asks
  -- for none, the executor stays as it is, and the sender is told that the message is ill formed.
  abbrev pub Behaves :
      S → Value → Executor → Outbox S Text → Run (Executor × Outbox S Text) → Type 0
  Behaves ws doc s o r =
      ((m : MonitorMessage) × With is_object doc "data" (λ d. Asks d m)
        × (r ≡ done (step (event start m) s, o)))
      ⊎ (((m : MonitorMessage) → ¬ With is_object doc "data" (λ d. Asks d m))
          × Answers now apps monitor ws o (s, refused monitor (make_error_code ill_formed)) r)

  -- With `monitor` registered, on a status message that is an object, whose type is "set" or
  -- "cancel" where it has one, the handler of the monitor behaves so.
  pub monitor_app-Behaves :
      (ws : S) (e : Entry H) (m : MainData) (doc : Value) (s : Executor) (o : Outbox S Text)
      → Named apps monitor e
      → m.type ≡ control
      → m.control ≡ some status
      → is_object doc ≡ true
      → IsKnown doc
      → Behaves ws doc s o (monitor_app ws m doc (s, o))
  unfolding monitor_app
  monitor_app-Behaves ws e m doc s o named t k h known = elim (parse_app-Decides doc h known) [
    | inl (a, asks, r) ↦ inl (a, asks, rw (t, k, r, command-step start a s) refl)
    | inr (none_asked, r) ↦ inr (
      none_asked,
      rw (t, k, r)
          (fail-Answers now apps monitor ws e named o monitor s (make_error_code ill_formed)),
    )
  ]
