-- ===== src/Asio/Local.antt =====
-- Two addresses with their texts: the instance of `Asio` that tests use.
use xerock.Base.{◌≡◌, refl, Option, none, some, Text, codes, text_eq, if◌then◌else◌}
use xerock.Asio.{Asio}

pub data Known : Type 0 where
  any loopback : Known

pub known_discrete : Discrete Known
known_discrete = hlevel

abbrev make_address : Text → Option Known
make_address t =
    if text_eq t (codes "127.0.0.1")
    then some loopback
    else if text_eq t (codes "0.0.0.0")
    then some any
    else none

abbrev to_string : Known → Text
to_string any = codes "0.0.0.0"
to_string loopback = codes "127.0.0.1"

pub make_address-to_string : (a : Known) → make_address (to_string a) ≡ some a
make_address-to_string any = refl
make_address-to_string loopback = refl

instance abbrev pub local : Asio
local = record {
  Address = Known;
  address_discrete = known_discrete;
  make_address = make_address;
  to_string = to_string;
  make_address-to_string = make_address-to_string;
}
