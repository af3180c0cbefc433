-- ===== src/MyAsync/SerialContainer.antt =====
-- src/libs/my_async/include/my_async/serial/impl/container_impl.hpp: the open serial ports, by name.
-- The type of a port is a parameter of the container's template, here the record `SerialType`; a
-- port that the container shares is the value in its map. An error code is `none` for no error.
pub mod Refinement
mod Examples
use xerock.Base.{ℕ, Bool, true, false, Option, none, some, List, [], ◌∷◌, Text, if◌then◌else◌}
use xerock.MyAsync.Registry.{lookup, assign, erase}

pub data Setting : Type 0 where
  baud_rate character_size parity stop_bits flow_control : ℕ → Setting

pub data Error (E : Type 0) : Type 0 where
  already_connected not_connected : Error E
  system : E → Error E

pub record SerialType : Type 1 where
  pub Port : Type 0
  pub Code : Type 0
  pub is_open : Port → Bool
  pub open_port : Text → ℕ → Port → Port × Option Code
  pub close_port : Port → Port × Option Code
  pub write_port : List ℕ → Port → Port
  pub set_option : Setting → Port → Port × Option Code

module _ (S : SerialType) (eq : Discrete Text) where
  open S use {Port, Code, is_open, open_port, close_port, write_port, set_option}

  abbrev pub Serials : Type 0
  Serials = List (Text × Port)

  abbrev pub Outcome : Type 0
  Outcome = Option (Error Code)

  abbrev pub reported : Option Code → Outcome
  reported none = none
  reported (some e) = some (system e)

  unfoldable pub container_is_open : Text → Serials → Bool
  container_is_open name m = elim (lookup eq name m) [ none ↦ false | some s ↦ is_open s ]

  -- `if(serial == serials.end()) { ec = not_connected; return; }`
  abbrev pub if_present : Option Port → Serials → (Port → Serials × Outcome) → Serials × Outcome
  if_present none m k = (m, some not_connected)
  if_present (some s) m k = k s

  -- `if(serial_ != serials.end()) { ec = already_connected; return; }`
  abbrev pub if_absent : Option Port → Serials → Serials × Outcome → Serials × Outcome
  if_absent none m r = r
  if_absent (some s) m r = (m, some already_connected)

  -- What `open` does with the new port, once it has tried to open it.
  unfoldable pub opened : Text → Serials → Port × Option Code → Serials × Outcome
  opened name m (s, none) = (assign eq name s m, none)
  opened name m (s, some e) = (m, some (system e))

  unfoldable pub container_open : Text → ℕ → Port → Serials → Serials × Outcome
  unfolding opened
  container_open name baud made m =
      if_absent (lookup eq name m) m (opened name m (open_port name baud made))

  -- `if(is_open()) close(ec);`
  unfoldable pub close_if_open : Port → Outcome
  close_if_open s = if is_open s then reported (close_port s).1 else none

  unfoldable pub container_close : Text → Serials → Serials × Outcome
  unfolding close_if_open
  container_close name m = if_present (lookup eq name m) m λ s. (erase eq name m, close_if_open s)

  unfoldable pub container_write : Text → List ℕ → Serials → Serials × Outcome
  container_write name bytes m =
      if_present (lookup eq name m) m λ s. (assign eq name (write_port bytes s) m, none)

  -- `if(ec) return;`
  abbrev pub or_return : (Port → Port × Outcome) → Port × Option Code → Port × Outcome
  or_return k (s, none) = k s
  or_return k (s, some e) = (s, some (system e))

  -- `set_option(option, ec); if(ec) return;` for each.
  unfoldable pub set_options : List Setting → Port → Port × Outcome
  set_options [] s = (s, none)
  set_options (o ∷ os) s = or_return (λ s'. set_options os s') (set_option o s)

  unfoldable pub container_config : Text → ℕ → ℕ → ℕ → ℕ → ℕ → Serials → Serials × Outcome
  unfolding set_options
  container_config name baud ch par sb fw m = if_present (lookup eq name m) m λ s.
      let r =
        set_options
          (baud_rate baud ∷ character_size ch ∷ parity par ∷ stop_bits sb ∷ flow_control fw ∷ [])
          s in
      (assign eq name r.0 m, r.1)

  -- The ports that are not open are closed, and stay in the map.
  unfoldable pub check_ports : Serials → Serials × Bool
  check_ports [] = ([], false)
  check_ports ((name, s) ∷ m) =
      let rest = check_ports m in
      if is_open s then ((name, s) ∷ rest.0, rest.1) else ((name, (close_port s).0) ∷ rest.0, true)

  -- The calls that change the map by the name of a port.
  pub data Call : Type 0 where
    call_open : ℕ → Port → Call
    call_close : Call
    call_write : List ℕ → Call
    call_config : ℕ → ℕ → ℕ → ℕ → ℕ → Call

  unfoldable pub exec : Text → Call → Serials → Serials × Outcome
  unfolding container_open container_close container_write container_config
  exec name (call_open baud made) = container_open name baud made
  exec name call_close = container_close name
  exec name (call_write bytes) = container_write name bytes
  exec name (call_config baud ch par sb fw) = container_config name baud ch par sb fw
