-- ===== src/Apps/Serial/Parser.antt =====
-- src/apps/serial/json/parser.cpp. The constructor of `boost::asio::serial_port_base::character_size`
-- throws on a size that it does not support; it is the parameter `character_size`.
pub mod Codes
pub mod Config
pub mod Data
use xerock.Base.{ℕ, ◌%◌, Bool, ◌||◌, Option, none, some, List, Text, if◌then◌else◌, ◌==◌}
use xerock.Base.Run.{Run, done, abort, ◌>>=◌, ◌and_then◌, when}
use xerock.Json.{Json}
use xerock.Json.Fields.{has_field, read_uint, read_string}
use xerock.Json.Bytes.{read_bytes}

pub data StopBits : Type 0 where
  one onepointfive two : StopBits

pub data Parity : Type 0 where
  no_parity odd even : Parity

pub data FlowControl : Type 0 where
  no_control software hardware : FlowControl

pub record SerialConfig : Type 0 where
  pub port : Text
  pub baud : ℕ
  pub char_size : ℕ
  pub parity : Parity
  pub stopbits : StopBits
  pub fc : FlowControl
  pub fc_start : ℕ
  pub fc_stop : ℕ

unfoldable pub stop_bits_of : ℕ → Option StopBits
stop_bits_of sb =
    if sb == 0
    then some one
    else if sb == 2
    then some two
    else if sb == 1
    then some onepointfive
    else none

unfoldable pub parity_of : ℕ → Option Parity
parity_of parity =
    if parity == 0
    then some no_parity
    else if parity == 1
    then some odd
    else if parity == 2
    then some even
    else none

unfoldable pub flow_control_of : ℕ → Option FlowControl
flow_control_of fc =
    if fc == 0
    then some no_control
    else if fc == 1
    then some software
    else if fc == 2
    then some hardware
    else none

-- The exception of a constructor leaves the parser.
abbrev pub or_throw {ℓ} : {A : Type ℓ} → Option A → Run A
or_throw none = abort
or_throw (some a) = done a

-- `else return false;`
abbrev pub or_false {ℓ κ} :
    {A : Type ℓ} {B : Type κ} → Option A → (A → Run (Option B)) → Run (Option B)
or_false none k = done none
or_false (some a) k = k a

module _ ⦃J : Json⦄ where
  open J use {Value, is_object, is_string, is_uint, member}

  unfoldable pub check_serial_close_message : Value → Run Bool
  check_serial_close_message doc =
      has_field is_object doc "data"
      and_then (do d ← member doc "data"; done (is_object d) and_then has_field is_string d "port")

  unfoldable pub check_config_data : Value → Run Bool
  check_config_data doc =
      done (is_object doc)
      and_then has_field is_string doc "port"
      and_then has_field is_uint doc "baudrate"
      and_then has_field is_uint doc "parity"
      and_then has_field is_uint doc "stopbit"
      and_then has_field is_uint doc "char_size"
      and_then has_field is_uint doc "flow_control"
      and_then has_field is_uint doc "fc_start"
      and_then has_field is_uint doc "fc_stop"

  unfoldable pub check_serial_config_message : Value → Run Bool
  unfolding check_config_data
  check_serial_config_message d =
      has_field is_object d "data" and_then (do doc ← member d "data"; check_config_data doc)

  unfoldable pub check_serial_data : Value → Run Bool
  check_serial_data doc = has_field is_object doc "data" and_then (do
    d ← member doc "data"
    done (is_object doc)
        and_then has_field is_string d "port"
        and_then has_field (λ v. is_object v || is_string v) d "data")

  unfoldable pub parser_serial_close : Value → Run (Option Text)
  unfolding check_serial_close_message
  parser_serial_close doc = do
    ok ← check_serial_close_message doc
    when ok (do d ← member doc "data"; port ← read_string d "port"; done (some port))

  unfoldable pub get_serial_data : Value → Run (Option (Text × List ℕ))
  get_serial_data d = do
    port ← read_string d "port"
    v ← member d "data"
    payload ← read_bytes v
    done (some (port, payload))

  unfoldable pub parser_serial_data : Value → Run (Option (Text × List ℕ))
  unfolding check_serial_data get_serial_data
  parser_serial_data doc = do
    ok ← check_serial_data doc
    when ok (do d ← member doc "data"; get_serial_data d)

module _ ⦃J : Json⦄ (character_size : ℕ → Option ℕ) where
  open J use {Value, member}

  unfoldable pub get_serial_config : Value → Run (Option SerialConfig)
  get_serial_config doc = do
    port ← read_string doc "port"
    baud ← read_uint doc "baudrate"
    size ← read_uint doc "char_size"
    char_size ← or_throw (character_size size)
    sb ← read_uint doc "stopbit"
    or_false (stop_bits_of sb) λ stopbits. do
      p ← read_uint doc "parity"
      or_false (parity_of p) λ parity. do
        f ← read_uint doc "flow_control"
        or_false (flow_control_of f) λ fc. do
          start ← read_uint doc "fc_start"
          stop ← read_uint doc "fc_stop"
          done (
              some (record {
                port = port;
                baud = baud;
                char_size = char_size;
                parity = parity;
                stopbits = stopbits;
                fc = fc;
                fc_start = start % 256;
                fc_stop = stop % 256;
              }))

  unfoldable pub parser_serial_config : Value → Run (Option SerialConfig)
  unfolding check_serial_config_message get_serial_config
  parser_serial_config doc = do
    ok ← check_serial_config_message doc
    when ok (do d ← member doc "data"; get_serial_config d)
