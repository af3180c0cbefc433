-- ===== src/Apps/Serial/Handler.antt =====
-- src/apps/serial/serial.cpp. The ports are those of the container. `code` gives the value and the
-- text of an error of the library's, `no_such_device` is the code of that name, and `values` the
-- numbers of the library's enumerations. The ports of the machine are asked for with each status;
-- the model has them as an argument. A failure of a port because its file is missing calls
-- `close_callback` before it is returned (serial_type.cpp), and an open and a setting of an option
-- can fail; the closing of a port and the reading of its options, which have no path, do not fail
-- so.
pub mod Status
mod Examples
use xerock.Base.{ℕ, Bool, true, false, Option, none, some, List, Text, if◌then◌else◌}
use xerock.Base.Run.{Run, done, abort, ◌>>=◌}
use xerock.Json.{Json}
use xerock.Json.Build.{Build}
use xerock.Core.Message.{
  MessageType, payload, control, Control, status, open_control, close, MainData, serial,
}
use xerock.Core.Dispatcher.{Entry}
use xerock.Core.Outbox.{Outbox}
use xerock.Core.Answers.{ErrorCode, ill_formed, make_error_code}
use xerock.MyAsync.SerialContainer.{
  Error, system, already_connected, SerialType, Serials, Outcome, container_is_open, container_open,
  container_close, container_write, container_config,
}
use xerock.Apps.Handler.{fail, send_status, if_parsed, if_error}
use xerock.Apps.Serial.Parser.{
  Parity, StopBits, FlowControl, SerialConfig, parser_serial_config, parser_serial_close,
  parser_serial_data,
}
use xerock.Apps.Serial.Make.{PortOption, status_document}

pub record Machine (T : SerialType) : Type 0 where
  pub character_size : ℕ → Option ℕ
  pub parity_value : Parity → ℕ
  pub stop_bits_value : StopBits → ℕ
  pub flow_control_value : FlowControl → ℕ
  pub get_option : PortOption → T.Port → Option ℕ
  pub ports : List Text
  pub code : Error T.Code → ErrorCode
  pub no_such_device : ErrorCode
  -- no_such_file_or_directory
  pub is_missing : T.Code → Bool
  -- `get_port_name()`, which is empty until the file of the port is open.
  pub port_name : T.Port → Text
  -- The port that a container makes.
  pub made : T.Port

module _ (T : SerialType) (eq : Discrete Text) where
  abbrev pub World : Type 0 → Type 0
  World S = Serials T eq × Outbox S Text

  module _ (c : Machine T) where
    unfoldable pub configured : SerialConfig → Serials T eq → Serials T eq × Outcome T eq
    configured d m =
        container_config T eq d.port d.baud d.char_size (c.parity_value d.parity)
          (c.stop_bits_value d.stopbits) (c.flow_control_value d.fc) m

module _ {ℓ} ⦃J : Json⦄ ⦃B : Build J⦄ {H : Type ℓ} {S : Type 0} (now : ℕ → ℕ)
    (apps : List (Entry H)) (T : SerialType) (eq : Discrete Text) (c : Machine T) where
  open J use {Value}

  unfoldable pub serial_send_status : World T eq S → Run (World T eq S)
  unfolding status_document
  serial_send_status (m, o) =
      send_status now apps serial (status_document T eq c.get_option c.ports m) (m, o)

  unfoldable pub serial_message : S → Value → World T eq S → Run (World T eq S)
  serial_message ws doc (m, o) = do
    r ← parser_serial_data doc
    if_parsed now apps serial ws (make_error_code ill_formed) r (m, o)
        λ (port, bytes).
          if_error now apps serial ws c.code (container_write T eq port bytes m) o
            λ m'. done (m', o)

  -- The callback of serial_open, which `fail` of the port with this name calls in the course of a
  -- call on the container: `serials->close(serial->get_port_name(), ec); serial_send_status(serials);`.
  unfoldable pub called_back :
      Text → Serials T eq × Outcome T eq → Outbox S Text → Run (World T eq S)
  unfolding serial_send_status
  called_back name (m, some (system e)) o =
      if c.is_missing e
      then serial_send_status ((container_close T eq name m).0, o)
      else done (m, o)
  called_back name (m, _) o = done (m, o)

  unfoldable pub serial_config : S → SerialConfig → World T eq S → Run (World T eq S)
  unfolding configured called_back
  serial_config ws d (m, o) =
      let r = configured T eq c d m in
      do
        (m', o') ← called_back d.port r o
        if_error now apps serial ws c.code (m', r.1) o' λ m₂. done (m₂, o')

  unfoldable pub serial_open : S → Value → World T eq S → Run (World T eq S)
  unfolding serial_config called_back
  serial_open ws doc (m, o) = do
    r ← parser_serial_config c.character_size doc
    if_parsed now apps serial ws (make_error_code ill_formed) r (m, o)
        λ d.
          if container_is_open T eq d.port m
          then fail now apps serial ws (c.code already_connected) (m, o)
          else (let r = container_open T eq d.port d.baud c.made m in
              do
                (m', o') ← called_back (c.port_name (T.open_port d.port d.baud c.made).0) r o
                if_error now apps serial ws c.code (m', r.1) o' λ m₂. serial_config ws d (m₂, o'))

  unfoldable pub serial_close : S → Value → World T eq S → Run (World T eq S)
  serial_close ws doc (m, o) = do
    r ← parser_serial_close doc
    if_parsed now apps serial ws (make_error_code ill_formed) r (m, o)
        λ port.
          if_error now apps serial ws (λ _. c.no_such_device) (container_close T eq port m) o
            λ m'. done (m', o)

  -- The switch on `main.control`, which a control message has, and the status behind it.
  abbrev pub on_control : Option Control → S → Value → World T eq S → Run (World T eq S)
  on_control none ws doc st = abort
  on_control (some open_control) ws doc st = do st' ← serial_open ws doc st; serial_send_status st'
  on_control (some close) ws doc st = do st' ← serial_close ws doc st; serial_send_status st'
  on_control (some status) ws doc st = serial_send_status st
  on_control (some _) ws doc st = done st

  abbrev pub on_type : MessageType → Option Control → S → Value → World T eq S → Run (World T eq S)
  on_type control k ws doc st = on_control k ws doc st
  on_type payload k ws doc st = serial_message ws doc st

  unfoldable pub serial_app : S → MainData → Value → World T eq S → Run (World T eq S)
  unfolding serial_open serial_close serial_send_status serial_message
  serial_app ws m doc st = on_type m.type m.control ws doc st
