-- ===== src/Apps/Serial/Make.antt =====
-- src/apps/serial/json/make.cpp, with `get_config` of
-- src/libs/my_async/include/my_async/serial/impl/container_impl.hpp. The names of the ports of the
-- machine are an argument, and `get_option` reads an option of a port, `none` for an error.
use xerock.Base.{ℕ, Option, none, some, List, [], ◌∷◌, ◌++◌, map, String, Text, if◌then◌else◌}
use xerock.Base.Run.{Run}
use xerock.Json.{Json}
use xerock.Json.Build.{Build}
use xerock.Core.Message.{serial}
use xerock.Core.Dispatcher.{Entry}
use xerock.Core.Outbox.{Outbox}
use xerock.Core.Factory.{value_data, create_data, make_data_array}
use xerock.MyAsync.Registry.{lookup}
use xerock.MyAsync.SerialContainer.{SerialType, Serials, container_is_open}

pub data PortOption : Type 0 where
  baud size parity stopbit flowcontrol : PortOption

-- The five values that get_config reads.
pub record Config : Type 0 where
  pub baud : ℕ
  pub size : ℕ
  pub parity : ℕ
  pub stopbit : ℕ
  pub flowcontrol : ℕ

-- `if(ec) return;` behind a reading.
infixl 5 ◌>>=◌
abbrev ◌>>=◌ : {A B : Type 0} → Option A → (A → Option B) → Option B
none >>= f = none
some a >>= f = f a

module _ (T : SerialType) (eq : Discrete Text) (get_option : PortOption → T.Port → Option ℕ) where
  unfoldable pub read_config : T.Port → Option Config
  read_config s = do
    br ← get_option baud s
    ch ← get_option size s
    pa ← get_option parity s
    sb ← get_option stopbit s
    fc ← get_option flowcontrol s
    some (record { baud = br; size = ch; parity = pa; stopbit = sb; flowcontrol = fc })

  abbrev config_found : Option T.Port → Option Config
  config_found none = none
  config_found (some s) = read_config s

  -- Container::get_config; `none` is an error code.
  unfoldable pub get_config : Text → Serials T eq → Option Config
  get_config port m = config_found (lookup eq port m)

module _ ⦃J : Json⦄ ⦃B : Build J⦄ where
  open J use {Value}
  open B use {str, uint, object}

  unfoldable pub config_object : Config → Value
  config_object c = object (
      ("baudrate", uint c.baud)
      ∷ ("char_size", uint c.size)
      ∷ ("parity", uint c.parity)
      ∷ ("stopbit", uint c.stopbit)
      ∷ ("flow_control", uint c.flowcontrol)
      ∷ [])

  -- `if(!ec) d.AddMember("config", c)`
  abbrev pub with_config : List (String × Value) → Option Config → Value
  with_config fs none = object fs
  with_config fs (some c) = object (fs ++ ("config", config_object c) ∷ [])

  unfoldable pub received_document : Text → List ℕ → Value
  unfolding make_data_array
  received_document port bytes = object (("port", str port) ∷ ("data", make_data_array bytes) ∷ [])

module _ ⦃J : Json⦄ ⦃B : Build J⦄ (T : SerialType) (eq : Discrete Text)
    (get_option : PortOption → T.Port → Option ℕ) where
  open J use {Value}
  open B use {str, bool, object, array}

  unfoldable pub port_object : Serials T eq → Text → Value
  unfolding get_config
  port_object m p =
      let fs = ("port", str p) ∷ ("open", bool (container_is_open T eq p m)) ∷ [] in
      if container_is_open T eq p m
      then with_config fs (get_config T eq get_option p m)
      else object fs

  -- What make_serial_status puts under "data", for the ports of the machine.
  unfoldable pub status_document : List Text → Serials T eq → Value
  unfolding port_object
  status_document ports m = object (("ports", array (map (port_object m) ports)) ∷ [])

module _ {ℓ} ⦃J : Json⦄ ⦃B : Build J⦄ {H : Type ℓ} {S : Type 0} (now : ℕ → ℕ)
    (apps : List (Entry H)) where
  unfoldable pub serial_make_data : Text → List ℕ → Outbox S Text → Run (Text × Outbox S Text)
  unfolding received_document
  serial_make_data port bytes o =
      create_data now apps serial (value_data (received_document port bytes)) o
