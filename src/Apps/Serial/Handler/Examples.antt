-- ===== src/Apps/Serial/Handler/Examples.antt =====
-- An instance for the handler. A port is whether it is open and the bytes that it was given, and its
-- file is missing.
use xerock.Base.{
  ℕ, List, [], ◌∷◌, ◌++◌, ◌==◌, if◌then◌else◌, some, none, Bool, true, false, Text, text_eq,
  text_eq_iff, codes, Bool-cases, inl, inr,
}
use xerock.Base.Int.{pos}
use xerock.Json.Tree.{tree, Tree, num, str, object, end, field}
use xerock.Json.Tree.Builder.{builder}
use xerock.Core.Message.{serial, control, open_control, MainData}
use xerock.Core.Factory.Examples.{apps, entry, clock, outbox, serial-Named}
use xerock.MyAsync.SerialContainer.{SerialType, Serials}
use xerock.Apps.Samples.{message}
use xerock.Apps.Handler.Samples.{some_code}
use xerock.Apps.Serial.Handler.{Machine, serial_app}
use xerock.Apps.Serial.Handler.Status.{Behaves, serial_app-Behaves}

text_discrete : Discrete Text
text_discrete a b = elim (Bool-cases (text_eq a b)) [
  | inl h ↦ yes ((text_eq_iff a b).0 h)
  | inr h ↦ no (λ e. cc ((text_eq_iff a b).1 e, h))
]

abbrev port_type : SerialType
port_type = record {
  Port = Bool × List ℕ;
  Code = ℕ;
  is_open = λ s. s.0;
  open_port = λ name baud s. (s, some 2);
  close_port = λ s. ((false, s.1), none);
  write_port = λ bytes s. (s.0, s.1 ++ bytes);
  set_option = λ o s. (s, none);
}

abbrev machine : Machine port_type
machine = record {
  character_size = λ n. some n;
  parity_value = λ p. 0;
  stop_bits_value = λ p. 0;
  flow_control_value = λ p. 0;
  get_option = λ o s. some 8;
  ports = codes "ttyS0" ∷ codes "ttyS1" ∷ [];
  code = some_code;
  no_such_device = record { value = pos 6; message = [] };
  is_missing = λ e. e == 2;
  port_name = λ s. if s.0 then codes "ttyS0" else [];
  made = (false, []);
}

abbrev serials : Serials port_type text_discrete
serials = (codes "ttyS0", (true, [])) ∷ []

abbrev open_message : Tree
open_message = message (
    object (
      field "port" (str (codes "ttyUSB0")) (
        field "baudrate" (num 9600) (
          field "parity" (num 0) (
            field "stopbit" (num 0) (
              field "char_size" (num 8) (
                field "flow_control" (num 0)
                  (field "fc_start" (num 17) (field "fc_stop" (num 19) end)))))))))

abbrev main_data : MainData
main_data = record { app = serial; time = 1000; type = control; control = some open_control }

serial_app-Behaves_example :
    Behaves clock apps port_type text_discrete machine 1 control
      (some open_control)
      open_message
      serials
      outbox
      (serial_app clock apps port_type text_discrete machine 1 main_data open_message
        (serials, outbox))
serial_app-Behaves_example =
    serial_app-Behaves clock apps port_type text_discrete machine 1 (entry serial "serial")
      main_data open_message serials outbox serial-Named
