-- ===== src/Apps/Monitor/Parser.antt =====
-- src/apps/monitor/json/parser.cpp.
pub mod Exact
use xerock.Base.{ℕ, Bool, true, Option, none, some, codes, text_eq, if◌then◌else◌}
use xerock.Base.Int.{ℤ}
use xerock.Base.Run.{Run, done, ◌>>=◌, ◌and_then◌}
use xerock.Json.{Json}
use xerock.Json.Fields.{has_field, read_string}
use xerock.Apps.InData.{check_in_data, parse_data}

-- `Message_Monitor_Data`, where a cancel leaves the time of a sample as it was, and `cont` is false. The
-- time goes from `int` to `unsigned int` and back, which keeps it.
pub data MonitorMessage : Type 0 where
  set_monitor : ℤ → Bool → MonitorMessage
  cancel_monitor : MonitorMessage

module _ ⦃J : Json⦄ where
  open J use {Value, is_object, is_string, is_int, is_bool, member, get_string, get_int, get_bool}

  abbrev check_set : Value → Run Bool
  check_set d = has_field is_int d "sample_time" and_then has_field is_bool d "cont"

  unfoldable pub check_status_message : Value → Run Bool
  check_status_message d =
      done (is_object d)
      and_then (has_field is_string d "type" and_then (do
        v ← member d "type"
        t ← get_string v
        if text_eq t (codes "set") then check_set d else done true))

  abbrev read_set : Value → Run (Option MonitorMessage)
  read_set d = do
    v ← member d "sample_time"
    n ← get_int v
    w ← member d "cont"
    c ← get_bool w
    done (some (set_monitor n c))

  unfoldable pub get_monitor : Value → Run (Option MonitorMessage)
  get_monitor d = do
    t ← read_string d "type"
    if text_eq t (codes "cancel") then done (some cancel_monitor) else read_set d

  unfoldable pub parse_app : Value → Run (Option MonitorMessage)
  unfolding check_status_message get_monitor
  parse_app doc = parse_data (check_in_data check_status_message) get_monitor doc
