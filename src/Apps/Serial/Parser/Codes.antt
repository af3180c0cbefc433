-- ===== src/Apps/Serial/Parser/Codes.antt =====
-- On the numbers that stand for stop bits, parity and flow control.
use xerock.Base.{ℕ, zero, suc, ◌≡◌, ◌≢◌, refl, Option, none, some, inl, inr, ◌⊎◌, arith}
use xerock.Apps.Serial.Parser.{
  StopBits, one, onepointfive, two, Parity, no_parity, odd, even, FlowControl, no_control, software,
  hardware, stop_bits_of, parity_of, flow_control_of,
}

-- The numbers of the protocol.
abbrev pub stop_bits_code : StopBits → ℕ
stop_bits_code one = 0
stop_bits_code onepointfive = 1
stop_bits_code two = 2

abbrev pub parity_code : Parity → ℕ
parity_code no_parity = 0
parity_code odd = 1
parity_code even = 2

abbrev pub flow_control_code : FlowControl → ℕ
flow_control_code no_control = 0
flow_control_code software = 1
flow_control_code hardware = 2

-- The reading f of a number inverts the code.
abbrev pub Reads : {A : Type 0} → (ℕ → Option A) → (A → ℕ) → ℕ → Type 0
Reads {A} f code n =
    ((a : A) × (f n ≡ some a) × (n ≡ code a)) ⊎ ((f n ≡ none) × ((a : A) → n ≢ code a))

pub stop_bits_of-Reads : (n : ℕ) → Reads stop_bits_of stop_bits_code n
unfolding stop_bits_of
stop_bits_of-Reads zero = inl (one, refl, refl)
stop_bits_of-Reads (suc zero) = inl (onepointfive, refl, refl)
stop_bits_of-Reads (suc (suc zero)) = inl (two, refl, refl)
stop_bits_of-Reads (suc (suc (suc n))) = inr (ground arith, other)
  where
    other : (a : StopBits) → suc (suc (suc n)) ≢ stop_bits_code a
    other one e = omega arith
    other two e = omega arith
    other onepointfive e = omega arith

pub parity_of-Reads : (n : ℕ) → Reads parity_of parity_code n
unfolding parity_of
parity_of-Reads zero = inl (no_parity, refl, refl)
parity_of-Reads (suc zero) = inl (odd, refl, refl)
parity_of-Reads (suc (suc zero)) = inl (even, refl, refl)
parity_of-Reads (suc (suc (suc n))) = inr (ground arith, other)
  where
    other : (a : Parity) → suc (suc (suc n)) ≢ parity_code a
    other no_parity e = omega arith
    other odd e = omega arith
    other even e = omega arith

pub flow_control_of-Reads : (n : ℕ) → Reads flow_control_of flow_control_code n
unfolding flow_control_of
flow_control_of-Reads zero = inl (no_control, refl, refl)
flow_control_of-Reads (suc zero) = inl (software, refl, refl)
flow_control_of-Reads (suc (suc zero)) = inl (hardware, refl, refl)
flow_control_of-Reads (suc (suc (suc n))) = inr (ground arith, other)
  where
    other : (a : FlowControl) → suc (suc (suc n)) ≢ flow_control_code a
    other no_control e = omega arith
    other software e = omega arith
    other hardware e = omega arith
