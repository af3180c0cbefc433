-- ===== src/MyAsync/SerialContainer/Examples.antt =====
-- Tests and instances for the container of serial ports. A port is whether it is open, and the bytes
-- that it was given.
use xerock.Base.{
  ℕ, refl, Bool, true, false, none, List, [], ◌∷◌, ◌++◌, Text, codes, text_eq, text_eq_iff,
  Bool-cases, inl, inr,
}
use xerock.MyAsync.Registry.{lookup, Distinct}
use xerock.MyAsync.Registry.Change.{Changes}
use xerock.MyAsync.SerialContainer.{SerialType, call_write, exec}
use xerock.MyAsync.SerialContainer.Refinement.{effect, exec-Changes}

abbrev ports : SerialType
ports = record {
  Port = Bool × List ℕ;
  Code = ℕ;
  is_open = λ p. p.0;
  open_port = λ name baud p. ((true, p.1), none);
  close_port = λ p. ((false, p.1), none);
  write_port = λ bytes p. (p.0, p.1 ++ bytes);
  set_option = λ o p. (p, none);
}

text_discrete : Discrete Text
text_discrete s t = elim (Bool-cases (text_eq s t)) [
  | inl e ↦ yes ((text_eq_iff s t).0 e)
  | inr e ↦ no (λ p. cc ((text_eq_iff s t).1 p, e))
]

abbrev one_open : List (Text × (Bool × List ℕ))
one_open = (codes "COM3", (true, [])) ∷ []

one_open-Distinct : Distinct text_discrete one_open
unfolding Distinct lookup
one_open-Distinct = (refl, tt)

exec-Changes_example :
    Changes text_discrete
      (codes "COM3")
      one_open
      (effect ports text_discrete
        (codes "COM3")
        (call_write (1 ∷ 2 ∷ []))
        (lookup text_discrete (codes "COM3") one_open))
      (exec ports text_discrete (codes "COM3") (call_write (1 ∷ 2 ∷ [])) one_open)
exec-Changes_example =
    exec-Changes ports text_discrete (codes "COM3") (call_write (1 ∷ 2 ∷ [])) one_open
      one_open-Distinct
