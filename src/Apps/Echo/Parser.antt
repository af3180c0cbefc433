-- ===== src/Apps/Echo/Parser.antt =====
-- src/apps/echo/json/parser.cpp. The result of `json_2_byte_array` is not looked at.
pub mod Exact
use xerock.Base.{ℕ, Bool, Option, none, some, List, [], Text, codes, text_eq, if◌then◌else◌}
use xerock.Base.Run.{Run, done, ◌>>=◌, ◌and_then◌, when}
use xerock.Json.{Json}
use xerock.Json.Fields.{has_field, read_string}
use xerock.Json.Bytes.{json_2_byte_array}

pub data EchoType : Type 0 where
  string binary hex octo : EchoType

pub record EchoData : Type 0 where
  pub type : EchoType
  pub payload : List ℕ

unfoldable pub echo_type_of : Text → Option EchoType
echo_type_of t =
    if text_eq t (codes "text")
    then some string
    else if text_eq t (codes "hex")
    then some hex
    else if text_eq t (codes "binary")
    then some binary
    else if text_eq t (codes "octo")
    then some octo
    else none

module _ ⦃J : Json⦄ where
  open J use {Value, is_object, is_string, has_member, member}

  unfoldable pub check_echo_data : Value → Run Bool
  check_echo_data d =
      done (is_object d) and_then has_field is_string d "type" and_then has_member d "data"

  unfoldable pub check_echo_message : Value → Run Bool
  unfolding check_echo_data
  check_echo_message doc =
      has_field is_object doc "data" and_then (do d ← member doc "data"; check_echo_data d)

  -- What follows a type that is known.
  unfoldable pub get_echo_data : Value → Option EchoType → Run (Option EchoData)
  get_echo_data doc none = done none
  get_echo_data doc (some t) = do
    v ← member doc "data"
    r ← json_2_byte_array v []
    done (some (record { type = t; payload = r.1 }))

  unfoldable pub get_echo_message : Value → Run (Option EchoData)
  unfolding get_echo_data
  get_echo_message doc = do type ← read_string doc "type"; get_echo_data doc (echo_type_of type)

  unfoldable pub parser_echo : Value → Run (Option EchoData)
  unfolding check_echo_message get_echo_message
  parser_echo doc = do
    ok ← check_echo_message doc
    when ok (do d ← member doc "data"; get_echo_message d)
