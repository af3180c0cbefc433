-- ===== src/SystemInfo/Cmdline.antt =====
-- On the loop over /proc/<pid>/cmdline, in which every argument ends with a zero.
use xerock.Base.{
  ℕ, suc, ◌≤◌, ◌≡◌, refl, sym, ap, ◌∙◌, true, false, Bool-cases, inl, inr, some, List, [], ◌∷◌,
  ◌++◌, Text, length, arith, if◌then◌else◌, All, ◌==◌, map, append_assoc, append-nil,
}
use xerock.Base.Loop.{EndsIn, EndsIn-round, EndsIn-leave, EndsIn-same}
use xerock.Istream.{over, is_space, read_char}
use xerock.SystemInfo.Process.{Splitting, split_char, split_round, read_cmdline}

abbrev splitting : List Text → Text → Text → Splitting
splitting cmd arg rest = record { cmd = cmd; arg = arg; stream = over rest }

-- What the loop makes of a text, by recursion on the text.
abbrev split : List Text → Text → Text → List Text
split cmd arg [] = cmd
split cmd arg (c ∷ cs) =
    if is_space c
    then split cmd arg cs
    else if c == 0
    then split (cmd ++ arg ∷ []) [] cs
    else split cmd (arg ++ c ∷ []) cs

module _ (cmd : List Text) (arg : Text) (c : ℕ) (cs : Text) where
  space_round :
      is_space c ≡ true
      → split_round (splitting cmd arg (c ∷ cs)) ≡ split_round (splitting cmd arg cs)
  unfolding split_round read_char
  space_round h = rw h

  zero_round :
      is_space c ≡ false
      → (c == 0) ≡ true
      → split_round (splitting cmd arg (c ∷ cs)) ≡ inl (splitting (cmd ++ arg ∷ []) [] cs)
  unfolding split_round read_char split_char
  zero_round h z = rw (h, z)

  char_round :
      is_space c ≡ false
      → (c == 0) ≡ false
      → split_round (splitting cmd arg (c ∷ cs)) ≡ inl (splitting cmd (arg ++ c ∷ []) cs)
  unfolding split_round read_char split_char
  char_round h z = rw (h, z)

empty_round : (cmd : List Text) (arg : Text) → split_round (splitting cmd arg []) ≡ inr cmd
unfolding split_round read_char split_char
empty_round cmd arg = refl

split-EndsIn :
    (cmd : List Text) (arg text : Text)
    → EndsIn (suc (length text)) split_round (splitting cmd arg text) (split cmd arg text)
split-EndsIn cmd arg [] = EndsIn-leave split_round (empty_round cmd arg)
split-EndsIn cmd arg (c ∷ cs) = elim (Bool-cases (is_space c)) [
  | inl h ↦ rw h λ fuel b.
      EndsIn-same split_round (space_round cmd arg c cs h) (split-EndsIn cmd arg cs) fuel
        (omega arith)
  | inr h ↦ elim (Bool-cases (c == 0)) [
    | inl z ↦
        rw (h, z)
          (EndsIn-round split_round (zero_round cmd arg c cs h z)
            (split-EndsIn (cmd ++ arg ∷ []) [] cs))
    | inr z ↦
        rw (h, z)
          (EndsIn-round split_round (char_round cmd arg c cs h z)
            (split-EndsIn cmd (arg ++ c ∷ []) cs))
  ]
]

-- The arguments as the kernel writes them.
abbrev pub cmdline_text : List Text → Text
cmdline_text [] = []
cmdline_text (a ∷ rest) = a ++ 0 ∷ cmdline_text rest

abbrev pub drop_spaces : Text → Text
drop_spaces [] = []
drop_spaces (c ∷ cs) = if is_space c then drop_spaces cs else c ∷ drop_spaces cs

abbrev pub IsArgument : Text → Type 0
IsArgument a = All (λ c. (c == 0) ≡ false) a

split-argument :
    (cmd : List Text) (arg a more : Text)
    → IsArgument a
    → split cmd arg (a ++ 0 ∷ more) ≡ split (cmd ++ (arg ++ drop_spaces a) ∷ []) [] more
split-argument cmd arg [] more h = rw (append-nil arg)
split-argument cmd arg (c ∷ cs) more (h, hs) = elim (Bool-cases (is_space c)) [
  | inl s ↦ rw s (split-argument cmd arg cs more hs)
  | inr s ↦ rw (
    s,
    h,
    split-argument cmd (arg ++ c ∷ []) cs more hs,
    append_assoc arg (c ∷ []) (drop_spaces cs),
  )
]

split-cmdline_text :
    (cmd args : List Text)
    → All IsArgument args
    → split cmd [] (cmdline_text args) ≡ cmd ++ map drop_spaces args
split-cmdline_text cmd [] h = sym (append-nil cmd)
split-cmdline_text cmd (a ∷ args) (h, hs) =
    split-argument cmd [] a (cmdline_text args) h
    ∙ split-cmdline_text (cmd ++ drop_spaces a ∷ []) args hs
    ∙ append_assoc cmd (drop_spaces a ∷ []) (map drop_spaces args)

-- The loop over the command line of a process ends within one round more than the file has
-- characters, and adds the arguments, each without its white space.
pub read_cmdline-cmdline_text :
    (cmd args : List Text) (fuel : ℕ)
    → All IsArgument args
    → suc (length (cmdline_text args)) ≤ fuel
    → read_cmdline fuel cmd (cmdline_text args) ≡ some (cmd ++ map drop_spaces args)
unfolding read_cmdline
read_cmdline-cmdline_text cmd args fuel h b =
    split-EndsIn cmd [] (cmdline_text args) fuel b ∙ ap some (split-cmdline_text cmd args h)
