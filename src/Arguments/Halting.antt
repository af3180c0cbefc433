-- ===== src/Arguments/Halting.antt =====
-- On the end of the loop over the configuration file.
use xerock.Base.{
  ℕ, suc, ◌≤◌, ◌≡◌, refl, Bool, true, false, Bool-cases, inl, inr, ◌⊎◌, some, none, [], ◌∷◌, ◌++◌,
  Text, codes, length, arith, ◌==◌,
}
use xerock.Base.Int.{ℤ}
use xerock.Base.Loop.{Hangs, halting, stuck-Hangs, Hangs-round, Progress}
use xerock.Istream.{
  Istream, over, good, is_space, is_digit, read_number, read_int, ignore, getline, to_int,
}
use xerock.Istream.Progress.{
  weight, weight-ignore, weight-getline-good, weight-read_word, weight-read_number, Stuck,
  Stuck-read_word, Stuck-read_number, Stuck-ignore, Stuck-getline,
}
use xerock.Arguments.{Arguments, Reading, read_value, read_line, read_round, read_config_file}

module _ (ssl : Bool) where
  weight-read_value :
      (attr : Text) (args : Arguments) (s : Istream)
      → weight (read_value ssl attr args s).1 ≤ weight s
  unfolding read_value
  weight-read_value attr args s = ground (
    arith,
    weight-read_number to_int args.port s,
    weight-read_word args.addr s,
    weight-read_number to_int args.threads s,
    weight-read_word args.key s,
    weight-read_word args.cert s,
  )

  weight-read_line :
      (args : Arguments) (p : Text × Istream) → weight (read_line ssl args p).stream ≤ weight p.1
  unfolding read_line
  weight-read_line args ([], s) = omega arith
  weight-read_line args (c ∷ cs, s) = omega (
    arith,
    weight-ignore 10 (read_value ssl (c ∷ cs) args s).1,
    weight-read_value (c ∷ cs) args s,
  )

  Stuck-read_value :
      (attr : Text) (args : Arguments) (s : Istream)
      → Stuck s
      → Stuck (read_value ssl attr args s).1
  unfolding read_value
  Stuck-read_value attr args s h = ground (
    arith,
    Stuck-read_number to_int args.port s h,
    Stuck-read_word args.addr s h,
    Stuck-read_number to_int args.threads s h,
    Stuck-read_word args.key s h,
    Stuck-read_word args.cert s h,
  )

  Stuck-read_line :
      (args : Arguments) (p : Text × Istream) → Stuck p.1 → Stuck (read_line ssl args p).stream
  unfolding read_line ignore
  Stuck-read_line args ([], s) h = h
  Stuck-read_line args (c ∷ cs, s) h =
      Stuck-ignore 10 (read_value ssl (c ∷ cs) args s).1 (Stuck-read_value (c ∷ cs) args s h)

  -- A round that does not leave the loop.
  round_on :
      (r : Reading)
      → r.stream.eof ≡ false
      → read_round ssl r ≡ inl (read_line ssl r.args (getline 61 r.attr r.stream))
  unfolding read_round
  round_on r e = rw e

  Stuck-round :
      (r : Reading)
      → Stuck r.stream
      → (r' : Reading) × (read_round ssl r ≡ inl r') × Stuck r'.stream
  Stuck-round r h = (
    read_line ssl r.args (getline 61 r.attr r.stream),
    round_on r h.1,
    Stuck-read_line r.args (getline 61 r.attr r.stream) (Stuck-getline 61 r.attr r.stream h),
  )

  pub Stuck-Hangs : (r : Reading) → Stuck r.stream → Hangs (read_round ssl) r
  Stuck-Hangs = stuck-Hangs (read_round ssl) (λ r. Stuck r.stream) Stuck-round

  round-Progress :
      (r : Reading) → Progress (read_round ssl) (λ s. weight s.stream) (λ s. Stuck s.stream) r
  unfolding read_round
  round-Progress r = elim (Bool-cases r.stream.eof) [
    | inl e ↦ inl (r.args, rw e)
    | inr e ↦ elim (Bool-cases r.stream.failed) [
      | inl f ↦ let (r', e', h) = Stuck-round r (f, e) in inr (r', e', inl h)
      | inr f ↦
          let fine : good r.stream ≡ true = rw (e, f) in
          let p = getline 61 r.attr r.stream in
          inr (
            read_line ssl r.args p,
            round_on r e,
            inr (
                omega
                  (arith, weight-read_line r.args p, weight-getline-good 61 r.attr r.stream fine)),
          )
    ]
  ]

  -- The loop over a configuration file ends within two rounds more than the file has characters, or
  -- it never ends.
  pub read_config_file-Ends :
      (file : Text) (args : Arguments)
      → ((a : Arguments) × ((fuel : ℕ)
            → suc (suc (length file)) ≤ fuel
            → read_config_file ssl fuel file args ≡ some a))
        ⊎ ((fuel : ℕ) → read_config_file ssl fuel file args ≡ none)
  unfolding read_config_file
  read_config_file-Ends file args =
      halting (read_round ssl) (λ s. weight s.stream) (λ s. Stuck s.stream) Stuck-Hangs
        round-Progress (record { attr = []; args = args; stream = over file })

-- The first character behind the white space starts no number.
abbrev pub NoNumber : Text → Type 0
NoNumber [] = ⊥
NoNumber (c ∷ cs) =
    (is_space c ≡ false) × (is_digit c ≡ false) × ((c == 43) ≡ false) × ((c == 45) ≡ false)

failed_port : (old : ℤ) (text : Text) → NoNumber text → Stuck (read_int old (over text)).1
unfolding read_number
failed_port old [] h = absurd h
failed_port old (c ∷ cs) (s, d, p, m) = rw (s, m, p, d) (refl, refl)

line_Hangs :
    (ssl : Bool) (attr : Text) (args : Arguments) (rest text : Text)
    → getline 61 [] (over rest) ≡ (attr, over text)
    → Stuck (read_line ssl args (attr, over text)).stream
    → Hangs (read_round ssl) (record { attr = []; args = args; stream = over rest })
unfolding read_round
line_Hangs ssl attr args rest text e h =
    Hangs-round (read_round ssl) (rw e) (Stuck-Hangs ssl (read_line ssl args (attr, over text)) h)

-- Where the value of PORT, or of THREADS, on the first line starts no number, the loop over the file
-- never ends.
pub read_config_file-Hangs :
    (ssl : Bool) (text : Text) (args : Arguments) (fuel : ℕ)
    → NoNumber text
    → (read_config_file ssl fuel (codes "PORT=" ++ text) args ≡ none)
      × (read_config_file ssl fuel (codes "THREADS=" ++ text) args ≡ none)
unfolding read_config_file read_line read_value getline
read_config_file-Hangs ssl text args fuel h = (
  line_Hangs ssl (codes "PORT") args (codes "PORT=" ++ text) text refl
      (Stuck-ignore 10 (read_int args.port (over text)).1 (failed_port args.port text h)) fuel,
  line_Hangs ssl (codes "THREADS") args (codes "THREADS=" ++ text) text refl
      (Stuck-ignore 10 (read_int args.threads (over text)).1 (failed_port args.threads text h))
      fuel,
)
