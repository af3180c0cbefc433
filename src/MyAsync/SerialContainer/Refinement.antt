-- ===== src/MyAsync/SerialContainer/Refinement.antt =====
-- On the calls of the container of serial ports, seen from one name.
use xerock.Base.{◌≡◌, sym, subst, Option, none, some, [], ◌∷◌, Text, inl, inr, Option-cases}
use xerock.MyAsync.Registry.{lookup, Distinct}
use xerock.MyAsync.Registry.Change.{Changes, Changes-same, Changes-assign, Changes-erase}
use xerock.MyAsync.SerialContainer.{
  baud_rate, character_size, parity, stop_bits, flow_control, already_connected, not_connected,
  system, SerialType, Serials, Outcome, close_if_open, opened, set_options, Call, call_open,
  call_close, call_write, call_config, exec,
}

module _ (S : SerialType) (eq : Discrete Text) where
  open S use {Port, Code, open_port, write_port}

  abbrev pub entry : Port × Option Code → Option Port × Outcome S eq
  entry (s, none) = (some s, none)
  entry (s, some e) = (none, some (system e))

  -- The call on the entry of its name alone: `none` is a name without a port.
  abbrev pub effect : Text → Call S eq → Option Port → Option Port × Outcome S eq
  effect name (call_open baud made) (some s) = (some s, some already_connected)
  effect name (call_open baud made) none = entry (open_port name baud made)
  effect name call_close none = (none, some not_connected)
  effect name call_close (some s) = (none, close_if_open S eq s)
  effect name (call_write bytes) none = (none, some not_connected)
  effect name (call_write bytes) (some s) = (some (write_port bytes s), none)
  effect name (call_config baud ch par sb fw) none = (none, some not_connected)
  effect name (call_config baud ch par sb fw) (some s) =
      let r =
        set_options S eq
          (baud_rate baud ∷ character_size ch ∷ parity par ∷ stop_bits sb ∷ flow_control fw ∷ [])
          s in
      (some r.0, r.1)

  opened-Changes :
      (name : Text) (m : Serials S eq) (r : Port × Option Code)
      → Distinct eq m
      → lookup eq name m ≡ none
      → Changes eq name m (entry r) (opened S eq name m r)
  unfolding opened
  opened-Changes name m (s, none) d h = Changes-assign eq name m s none d
  opened-Changes name m (s, some e) d h = Changes-same eq name m none (some (system e)) d h

  exec-absent :
      (name : Text) (c : Call S eq) (m : Serials S eq)
      → Distinct eq m
      → lookup eq name m ≡ none
      → Changes eq name m (effect name c none) (exec S eq name c m)
  unfolding exec
  exec-absent name (call_open baud made) m d h =
      rw (h) (opened-Changes name m (open_port name baud made) d h)
  exec-absent name call_close m d h = rw (h) (Changes-same eq name m none (some not_connected) d h)
  exec-absent name c m d h = rw (h) (Changes-same eq name m none (some not_connected) d h)

  exec-present :
      (name : Text) (c : Call S eq) (m : Serials S eq) (s : Port)
      → Distinct eq m
      → lookup eq name m ≡ some s
      → Changes eq name m (effect name c (some s)) (exec S eq name c m)
  unfolding exec
  exec-present name (call_open baud made) m s d h =
      rw h (Changes-same eq name m (some s) (some already_connected) d h)
  exec-present name call_close m s d h = rw h (Changes-erase eq name m (close_if_open S eq s) d)
  exec-present name c m s d h = rw h (Changes-assign eq name m _ _ d)

  -- If no name occurs twice in the container, then each of open, close, write and config returns
  -- what the call on the entry of its name alone returns, changes this entry as that does and no
  -- other, and no name comes to occur twice.
  pub exec-Changes :
      (name : Text) (c : Call S eq) (m : Serials S eq)
      → Distinct eq m
      → Changes eq name m (effect name c (lookup eq name m)) (exec S eq name c m)
  exec-Changes name c m d = elim (Option-cases (lookup eq name m)) [
    | inl h ↦
        subst (λ x. Changes eq name m (effect name c x) (exec S eq name c m)) (sym h)
          (exec-absent name c m d h)
    | inr (s, h) ↦
        subst (λ x. Changes eq name m (effect name c x) (exec S eq name c m)) (sym h)
          (exec-present name c m s d h)
  ]
