-- ===== src/Apps/Monitor/Executor.antt =====
-- src/apps/monitor/executor.cpp. What the system reports is an argument: whether a reading of the
-- process and of its time succeeds. The messages to all users are kept in a list, the oldest first.
use xerock.Base.{ℕ, zero, suc, Bool, true, false, List, [], ◌∷◌, ◌++◌, if◌then◌else◌}
use xerock.Base.Int.{ℤ, pos}

pub data Report : Type 0 where
  internal_error : Report
  monitor_message : ℤ → Report

-- `waits` counts the outstanding waits for the timer.
pub record Executor : Type 0 where
  pub sample : ℤ
  pub keep_reading : Bool
  pub is_running : Bool
  pub waits : ℕ
  pub sent : List Report

abbrev pub created : Executor
created = record { sample = pos 1; keep_reading = false; is_running = false; waits = 0; sent = [] }

-- The readings at the start of a round: `process_info(start_)` and `process_uptime`.
pub record Start : Type 0 where
  pub info : Bool
  pub uptime : Bool

abbrev send : Report → Executor → Executor
send r s = record s { sent = s.sent ++ r ∷ [] }

abbrev stop : Executor → Executor
stop s = record s { is_running = false }

unfoldable pub calculate : Start → Executor → Executor
calculate start s =
    if start.info
    then (if start.uptime then record s { waits = suc s.waits } else stop (send internal_error s))
    else stop (send internal_error s)

unfoldable pub continuos : Bool → Executor → Executor
continuos cont s = record s { keep_reading = cont }

unfoldable pub set_sample : ℤ → Executor → Executor
set_sample samp s = record s { sample = samp }

unfoldable pub init : Start → Executor → Executor
unfolding calculate
init start s = if s.is_running then s else calculate start (record s { is_running = true })

-- An outstanding wait ends with an error, in a handler of its own.
unfoldable pub cancel : Executor → Executor
cancel s = record s { keep_reading = false }

-- How a wait ends: with an error, and otherwise with the reading `process_info(end_)`, the users that
-- there are, and the readings of the next round.
pub record Expiry : Type 0 where
  pub failed : Bool
  pub info : Bool
  pub has_users : Bool
  pub start : Start

unfoldable pub do_wait : Expiry → Executor → Executor
unfolding calculate
do_wait x s =
    let told = send (monitor_message s.sample) s in
    if x.failed
    then stop s
    else if x.info
    then (if x.has_users
        then (if s.keep_reading then calculate x.start told else stop told)
        else stop s)
    else send internal_error s

-- What happens to the executor: the two commands of the handler, and the end of a wait.
pub data Event : Type 0 where
  set : ℤ → Bool → Start → Event
  cancelled : Event
  expired : Expiry → Event

abbrev pub end_wait : Expiry → ℕ → Executor → Executor
end_wait x zero s = s
end_wait x (suc n) s = do_wait x (record s { waits = n })

unfoldable pub step : Event → Executor → Executor
unfolding continuos set_sample init cancel do_wait
step (set samp cont start) s = init start (set_sample samp (continuos cont s))
step cancelled s = cancel (continuos false s)
step (expired x) s = end_wait x s.waits s

abbrev pub run : List Event → Executor → Executor
run [] s = s
run (e ∷ es) s = run es (step e s)
