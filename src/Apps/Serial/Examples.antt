-- ===== src/Apps/Serial/Examples.antt =====
-- Tests and instances for the parsers of `serial`.
use xerock.Base.{ℕ, ◌≡◌, refl, sym, subst, ◌&&◌, Option, none, some, leb, codes, if◌then◌else◌}
use xerock.Base.Run.{done, Decides}
use xerock.Json.Tree.{tree, Tree, num, str, object, end, field}
use xerock.Json.Fields.{Field, With}
use xerock.Apps.Samples.{message, numbers}
use xerock.Apps.Serial.Parser.{
  two, odd, hardware, stop_bits_of, parity_of, flow_control_of, parser_serial_config,
}
use xerock.Apps.Serial.Parser.Config.{Configures, Supported, parser_serial_config-Decides}

-- A library that supports characters of 5 to 8 bits.
abbrev sizes : ℕ → Option ℕ
sizes n = if leb 5 n && leb n 8 then some n else none

abbrev settings : ℕ → Tree
settings size = object (
    field "port" (str (codes "COM3")) (
      field "baudrate" (num 9600) (
        field "parity" (num 1) (
          field "stopbit" (num 2) (
            field "char_size" (num size) (
              field "flow_control" (num 2)
                (field "fc_start" (num 273) (field "fc_stop" (num 19) end))))))))

abbrev data_object : Tree
data_object = object (field "port" (str (codes "COM3")) (field "data" numbers end))

config_accepted :
    parser_serial_config sizes (message (settings 8))
    ≡ done (
        some (record {
          port = codes "COM3";
          baud = 9600;
          char_size = 8;
          parity = odd;
          stopbits = two;
          fc = hardware;
          fc_start = 17;
          fc_stop = 19;
        }))
unfolding parser_serial_config stop_bits_of parity_of flow_control_of
config_accepted = refl

settings-Supported :
    (d : Tree) → Field tree.is_object (message (settings 8)) "data" d → Supported sizes d
settings-Supported d f =
    let inner : settings 8 ≡ d = cc f.0 in subst (Supported sizes) inner supported
  where
    supported : Supported sizes (settings 8)
    supported v n g e =
        let value : num 8 ≡ v = cc g.0 in
        let same : 8 ≡ n = cc (subst (λ w. tree.get_uint w ≡ done n) (sym value) e) in
        subst (λ x. (c : ℕ) × (sizes x ≡ some c)) same (8, refl)

parser_serial_config-Decides_example :
    Decides
      (λ m. With tree.is_object (message (settings 8)) "data" (λ d. Configures sizes d m))
      (parser_serial_config sizes (message (settings 8)))
parser_serial_config-Decides_example =
    parser_serial_config-Decides sizes (message (settings 8)) refl settings-Supported
