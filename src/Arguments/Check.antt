-- ===== src/Arguments/Check.antt =====
-- On the arguments that `check_arguments` lets pass.
use xerock.Base.{
  ℕ, ◌≤◌, ◌≡◌, ◌≢◌, sym, subst, Bool, true, false, ◌||◌, some, none, Option, List, [], ◌∷◌, Text,
  length, arith, if_lem, if_cases, ◌==◌, ltb, leb,
}
use xerock.Base.Int.{ℤ, pos, negsuc}
use xerock.Istream.{at_end, read_word, read_number}
use xerock.Istream.Decimal.{show, show_int}
use xerock.Arguments.{Arguments, default_arguments, Build, Cmdline, read_config_file}
use xerock.Arguments.CommandLine.{
  Outcome, returned, exited, is_port, below_one, is_zero, output_config, check_keys, check_threads,
  check_address, check_given, check_port, read_config, config_given, check_arguments, and_then_port,
  given_keys, lacks_keys, threads_given, port_given,
}

abbrev pub IsPort : ℤ → Type 0
IsPort (pos n) = (2 ≤ n) × (n ≤ 65535)
IsPort (negsuc n) = ⊥

abbrev pub IsPositive : ℤ → Type 0
IsPositive (pos n) = 1 ≤ n
IsPositive (negsuc n) = ⊥

abbrev pub HasKeys : Bool → Arguments → Type 0
HasKeys true args = (args.key ≢ []) × (args.cert ≢ [])
HasKeys false args = Unit

-- What is true of the arguments where the check returns.
data Accepts (ssl : Bool) : Outcome → Type 0 where
  exits : {success : Bool} {printed : Text} → Accepts ssl (exited success printed)
  passes :
      {args : Arguments} {printed : Text}
      → IsPort args.port
      → IsPositive args.threads
      → HasKeys ssl args
      → Accepts ssl (returned args printed)

is_port-IsPort : (p : ℤ) → is_port p ≡ true → IsPort p
is_port-IsPort (pos n) h = ground (arith, h)
is_port-IsPort (negsuc n) h = cc h

below_one-IsPositive : (p : ℤ) → below_one p ≡ false → IsPositive p
below_one-IsPositive (pos n) h = ground (arith, h)
below_one-IsPositive (negsuc n) h = cc h

right_false : (a b : Bool) → (a || b) ≡ false → b ≡ false
right_false false b h = h
right_false true b h = cc h

HasKeys-true : (args : Arguments) → lacks_keys args ≡ false → HasKeys true args
HasKeys-true args h = nonempty args.key args.cert h
  where
    nonempty : (k c : Text) → (at_end k || at_end c) ≡ false → (k ≢ []) × (c ≢ [])
    nonempty [] c h = cc h
    nonempty (x ∷ k) [] h = cc h
    nonempty (x ∷ k) (y ∷ c) h = ((λ e. cc), (λ e. cc))

module _ (B : Build) (cmdl : Cmdline) (name : Text) where
  output_config-Accepts :
      (ssl : Bool) (args : Arguments) (printed : Text)
      → IsPort args.port
      → IsPositive args.threads
      → HasKeys ssl args
      → Accepts ssl (output_config B cmdl name args printed)
  unfolding output_config
  output_config-Accepts ssl args printed p t k =
      if_lem (Accepts ssl) (cmdl.flag _) exits (passes p t k)

  check_keys-Accepts :
      (args : Arguments)
      → IsPort args.port
      → IsPositive args.threads
      → Accepts B.use_ssl (check_keys B cmdl name args)
  unfolding check_keys given_keys
  check_keys-Accepts args p t =
      let keyed : Arguments = given_keys cmdl args in
      if_cases (Accepts B.use_ssl) B.use_ssl
        (λ s.
          if_cases (Accepts B.use_ssl) (lacks_keys keyed) (λ _. exits)
            λ h.
              output_config-Accepts B.use_ssl keyed [] p t
                (subst (λ b. HasKeys b keyed) (sym s) (HasKeys-true keyed h)))
        (λ s. output_config-Accepts B.use_ssl args _ p t (subst (λ b. HasKeys b args) (sym s) tt))

  check_threads-Accepts :
      (args : Arguments) → IsPort args.port → Accepts B.use_ssl (check_threads B cmdl name args)
  unfolding check_threads
  check_threads-Accepts args p =
      let r = threads_given cmdl args in
      if_cases (Accepts B.use_ssl) (r.1.failed || below_one r.0) (λ _. exits)
        λ h.
          check_keys-Accepts (record args { threads = r.0 }) p
            (below_one-IsPositive r.0 (right_false r.1.failed (below_one r.0) h))

  check_address-Accepts :
      (args : Arguments) → IsPort args.port → Accepts B.use_ssl (check_address B cmdl name args)
  unfolding check_address
  check_address-Accepts args p = check_threads-Accepts _ p

  check_given-Accepts : (args : Arguments) → Accepts B.use_ssl (check_given B cmdl name args)
  unfolding check_given
  check_given-Accepts args = if_lem (Accepts B.use_ssl) (is_zero args.port) exits (
      if_cases (Accepts B.use_ssl) (is_port args.port)
        (λ h. check_address-Accepts args (is_port-IsPort args.port h)) (λ _. exits))

  check_port-Accepts : (args : Arguments) → Accepts B.use_ssl (check_port B cmdl name args)
  unfolding check_port
  check_port-Accepts args =
      if_lem (Accepts B.use_ssl) (length cmdl.positional == 2)
        (if_lem (Accepts B.use_ssl) (port_given cmdl args).1.failed exits
          (check_given-Accepts (record args { port = (port_given cmdl args).0 })))
        (check_given-Accepts args)

  -- An outcome that is not of lacking fuel.
  abbrev Always : Option Outcome → Type 0
  Always none = Unit
  Always (some o) = Accepts B.use_ssl o

  and_then_port-Always : (o : Option Arguments) → Always (and_then_port B cmdl name o)
  unfolding and_then_port
  and_then_port-Always none = tt
  and_then_port-Always (some args) = check_port-Accepts args

  read_config-Always :
      (fuel : ℕ) (path : Text) (args : Arguments) (file : Option Text)
      → Always (read_config B cmdl name fuel path args file)
  unfolding read_config
  read_config-Always fuel path args none = exits
  read_config-Always fuel path args (some file) =
      and_then_port-Always (read_config_file B.use_ssl fuel file args)

  check_arguments-Always :
      (fuel : ℕ) (files : Text → Option Text) (args : Arguments)
      → Always (check_arguments B cmdl name fuel files args)
  unfolding check_arguments
  check_arguments-Always fuel files args =
      let c = config_given cmdl in
      if_lem Always (cmdl.flag _) exits (
        if_lem Always (cmdl.flag _) exits (
          if_lem Always (cmdl.flag _) exits (
            if_lem Always (cmdl.flag _) exits (
              if_lem Always c.1.failed (check_port-Accepts args)
                (read_config-Always fuel c.0 args (files c.0))))))

  accepted :
      {args : Arguments} {printed : Text}
      → Accepts B.use_ssl (returned args printed)
      → IsPort args.port × IsPositive args.threads × HasKeys B.use_ssl args
  accepted (passes p t k) = (p, t, k)

  -- Where `check_arguments` returns, with any configuration file and any arguments before, the port
  -- is from 2 to 65535, there is at least one thread, and with SSL a key and a certificate are named.
  pub check_arguments-Bounds :
      (fuel : ℕ) (files : Text → Option Text) (old args : Arguments) (printed : Text)
      → check_arguments B cmdl name fuel files old ≡ some (returned args printed)
      → IsPort args.port × IsPositive args.threads × HasKeys B.use_ssl args
  check_arguments-Bounds fuel files old args printed e =
      accepted (subst Always e (check_arguments-Always fuel files old))

  -- Without SSL, a command line that is a port from 2 to 65535 alone is accepted: `check_arguments`
  -- returns the port with the address and the number of threads that are the defaults, and prints
  -- nothing.
  pub check_arguments-Returns :
      (fuel n : ℕ) (files : Text → Option Text)
      → B.use_ssl ≡ false
      → ((names : List Text) → cmdl.flag names ≡ false)
      → ((names : List Text) → cmdl.param names ≡ none)
      → length cmdl.positional ≡ 2
      → (port_given cmdl default_arguments).0 ≡ pos n
      → (port_given cmdl default_arguments).1.failed ≡ false
      → 2 ≤ n
      → n ≤ 65535
      → check_arguments B cmdl name fuel files default_arguments
        ≡ some (returned (record default_arguments { port = pos n }) [])
  unfolding check_arguments check_port check_given check_address check_threads check_keys
      output_config read_word read_number show_int show
  check_arguments-Returns fuel n files plain flags params two number fine low high =
      let given : (n == 0) ≡ false = ground (arith, low) in
      let above : ltb 1 n ≡ true = ground (arith, low) in
      let below : leb n 65535 ≡ true = ground (arith, high) in
      let two' : (length cmdl.positional == 2) ≡ true = ground (arith, two) in
      simp (flags, params, two', fine, number, given, above, below, plain)
