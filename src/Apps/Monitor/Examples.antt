-- ===== src/Apps/Monitor/Examples.antt =====
-- Tests and instances for the executor, the parser and the handler.
use xerock.Base.{
  ℕ, ◌≡◌, refl, subst, sym, true, false, ◌⊎◌, inl, some, List, [], ◌∷◌, codes, String,
}
use xerock.Base.Int.{pos}
use xerock.Base.Run.{done, Decides}
use xerock.Json.Tree.{tree, Tree, num, str, bool, object, end, field}
use xerock.Json.Tree.Builder.{builder}
use xerock.Json.Fields.{With}
use xerock.Core.Message.{App-discrete, monitor, control, status, MainData}
use xerock.Core.Dispatcher.{Entry, lookup_app, find, lookup_name}
use xerock.Json.Build.{c_str}
use xerock.Core.Factory.Accepted.{Named}
use xerock.Core.Factory.Examples.{entry, clock, outbox}
use xerock.Apps.Samples.{message}
use xerock.Apps.Monitor.Parser.{parse_app, set_monitor}
use xerock.Apps.Monitor.Parser.Exact.{Asks, IsKnown, parse_app-Decides}
use xerock.Apps.Monitor.Handler.{monitor_app, Behaves, monitor_app-Behaves}
use xerock.Apps.Monitor.Executor.{
  Executor, created, Start, Expiry, Event, set, cancelled, expired, step, run, internal_error,
  monitor_message,
}
use xerock.Apps.Monitor.Timer.{IsSound, IsHung, run-IsSound, expired-hangs}

abbrev good : Start
good = record { info = true; uptime = true }

abbrev fine : Expiry
fine = record { failed = false; info = true; has_users = true; start = good }

abbrev unread : Expiry
unread = record fine { info = false }

abbrev commands : List Event
commands = set (pos 2) true good ∷ expired fine ∷ cancelled ∷ expired fine ∷ []

-- A set, two reports, and a cancel between them.
run_test : run commands created ≡ record created {
  sample = pos 2;
  sent = monitor_message (pos 2) ∷ monitor_message (pos 2) ∷ [];
}
unfolding step
run_test = refl

run-IsSound_example : IsSound (run commands created)
run-IsSound_example =
    run-IsSound commands created (tt, ((λ _. refl), (tt, ((λ _. refl), tt)))) (inl (refl, refl))

abbrev started : Executor
started = record created { is_running = true; waits = 1 }

expired-hangs_example :
    IsHung (run (expired unread ∷ commands) started)
    × ((run (expired unread ∷ commands) started).sent ≡ internal_error ∷ [])
expired-hangs_example = expired-hangs unread commands started refl refl refl refl

abbrev wish : String → Tree
wish type =
    object
      (field "type" (str (codes type)) (field "sample_time" (num 2) (field "cont" (bool true) end)))

wish-IsKnown : IsKnown (message (wish "set"))
wish-IsKnown d t f g =
    let inner : wish "set" ≡ d = cc f.0 in
    let text : str (codes "set") ≡ t =
      cc (subst (λ x. tree.member x "type" ≡ done t) (sym inner) g.0) in
    subst
      (λ x. (tree.get_string x ≡ done (codes "set")) ⊎ (tree.get_string x ≡ done (codes "cancel")))
      text (inl refl)

set_test : parse_app (message (wish "set")) ≡ done (some (set_monitor (pos 2) true))
unfolding parse_app
set_test = refl

parse_app-Decides_example :
    Decides
      (λ m. With tree.is_object (message (wish "set")) "data" (λ d. Asks d m))
      (parse_app (message (wish "set")))
parse_app-Decides_example = parse_app-Decides (message (wish "set")) refl wish-IsKnown

abbrev other : Tree
other = object (field "type" (str (codes "get")) end)

abbrev apps : List (Entry ℕ)
apps = entry monitor "monitor" ∷ []

monitor-Named : Named apps monitor (entry monitor "monitor")
unfolding lookup_app find App-discrete lookup_name c_str
monitor-Named = (refl, refl, refl, refl)

abbrev main_data : MainData
main_data = record { app = monitor; time = 1000; type = control; control = some status }

monitor_app-Behaves_example :
    Behaves clock apps good 1
      (message (wish "set"))
      created
      outbox
      (monitor_app clock apps good 1 main_data (message (wish "set")) (created, outbox))
monitor_app-Behaves_example =
    monitor_app-Behaves clock apps good 1 (entry monitor "monitor") main_data (message (wish "set"))
      created outbox monitor-Named refl refl refl wish-IsKnown
