-- ===== src/Arguments/Config.antt =====
-- On the configuration that is printed and read.
use xerock.Base.{
  ℕ, ◌≤◌, ◌≡◌, refl, Bool, true, false, inl, inr, some, [], Text, codes, arith, if◌then◌else◌,
}
use xerock.Base.Int.{ℤ}
use xerock.Base.Loop.{EndsIn, EndsIn-round, EndsIn-leave}
use xerock.Istream.{over, ignore, getline}
use xerock.Istream.Decimal.{show_int, IsInt32, read_int-show_int}
use xerock.Istream.Words.{IsWord, read_word-IsWord}
use xerock.Arguments.{
  Arguments, Reading, line, make_config_options_output, read_value, read_line, read_round,
  read_config_file,
}

abbrev reading : Text → Arguments → Text → Reading
reading attr args rest = record { attr = attr; args = args; stream = over rest }

module _ (ssl : Bool) where
  port_round :
      (attr : Text) (args : Arguments) (p : ℤ) (r : Text)
      → IsInt32 p
      → read_round ssl (reading attr args (line (codes "PORT") (show_int p) r))
        ≡ inl (reading (codes "PORT") (record args { port = p }) r)
  unfolding read_round read_line read_value getline ignore
  port_round attr args p r b = rw (read_int-show_int p args.port r b)

  addr_round :
      (attr : Text) (args : Arguments) (w r : Text)
      → IsWord w
      → read_round ssl (reading attr args (line (codes "ADDRESS") w r))
        ≡ inl (reading (codes "ADDRESS") (record args { addr = w }) r)
  unfolding read_round read_line read_value getline ignore
  addr_round attr args w r b = rw (read_word-IsWord w args.addr r b)

  threads_round :
      (attr : Text) (args : Arguments) (p : ℤ) (r : Text)
      → IsInt32 p
      → read_round ssl (reading attr args (line (codes "THREADS") (show_int p) r))
        ≡ inl (reading (codes "THREADS") (record args { threads = p }) r)
  unfolding read_round read_line read_value getline ignore
  threads_round attr args p r b = rw (read_int-show_int p args.threads r b)

  end_round :
      (attr : Text) (args : Arguments)
      → (r : Reading) × (read_round ssl (reading attr args []) ≡ inl r)
        × (read_round ssl r ≡ inr args)
  unfolding read_round read_line getline
  end_round attr args = (_, refl, refl)

  -- Behind the last line.
  end_EndsIn :
      (attr : Text) (args : Arguments) → EndsIn 2 (read_round ssl) (reading attr args []) args
  end_EndsIn attr args =
      let (r, e, e') = end_round attr args in
      EndsIn-round (read_round ssl) e (EndsIn-leave (read_round ssl) e')

key_round :
    (attr : Text) (args : Arguments) (w r : Text)
    → IsWord w
    → read_round true (reading attr args (line (codes "KEY") w r))
      ≡ inl (reading (codes "KEY") (record args { key = w }) r)
unfolding read_round read_line read_value getline ignore
key_round attr args w r b = rw (read_word-IsWord w args.key r b)

cert_round :
    (attr : Text) (args : Arguments) (w r : Text)
    → IsWord w
    → read_round true (reading attr args (line (codes "CERT") w r))
      ≡ inl (reading (codes "CERT") (record args { cert = w }) r)
unfolding read_round read_line read_value getline ignore
cert_round attr args w r b = rw (read_word-IsWord w args.cert r b)

-- What an extraction reads back: numbers that fit, and words without white space.
pub record IsWritable (ssl : Bool) (args : Arguments) : Type 0 where
  pub port_fits : IsInt32 args.port
  pub threads_fit : IsInt32 args.threads
  pub addr_word : IsWord args.addr
  pub key_word : ssl ≡ true → IsWord args.key
  pub cert_word : ssl ≡ true → IsWord args.cert

-- The arguments that the file does not hold stay as they were.
abbrev pub kept : Bool → Arguments → Arguments → Arguments
kept true old args = args
kept false old args = record args { key = old.key; cert = old.cert }

-- The members of the arguments that the lines before have set.
keys_EndsIn :
    (ssl : Bool) (old args : Arguments)
    → IsWritable ssl args
    → EndsIn 4
        (read_round ssl)
        (reading
          (codes "THREADS")
          (record args { key = old.key; cert = old.cert })
          (if ssl then line (codes "KEY") args.key (line (codes "CERT") args.cert []) else []))
        (kept ssl old args)
keys_EndsIn true old args w =
    let keyed : Arguments = record args { cert = old.cert } in
    let bare : Arguments = record args { key = old.key; cert = old.cert } in
    EndsIn-round (read_round true)
      (key_round (codes "THREADS") bare args.key (line (codes "CERT") args.cert [])
        (w.key_word refl))
      (EndsIn-round (read_round true)
        (cert_round (codes "KEY") keyed args.cert [] (w.cert_word refl))
        (end_EndsIn true (codes "CERT") args))
keys_EndsIn false old args w =
    λ fuel b. end_EndsIn false (codes "THREADS") (kept false old args) fuel (omega arith)

-- A printed configuration is read back: the loop of `read_config_file` ends within seven rounds, with
-- the arguments that were printed, where the numbers fit in an `int` and the texts are words. Without
-- SSL the key and the certificate are those from before.
pub read_config_file-make_config_options_output :
    (ssl : Bool) (old args : Arguments) (fuel : ℕ)
    → IsWritable ssl args
    → 7 ≤ fuel
    → read_config_file ssl fuel (make_config_options_output ssl args) old ≡ some (kept ssl old args)
unfolding read_config_file make_config_options_output
read_config_file-make_config_options_output ssl old args fuel w b =
    let round = read_round ssl in
    let keys : Text =
      if ssl then line (codes "KEY") args.key (line (codes "CERT") args.cert []) else [] in
    let with_port : Arguments = record old { port = args.port } in
    let with_addr : Arguments = record with_port { addr = args.addr } in
    let threads : Text = line (codes "THREADS") (show_int args.threads) keys in
    EndsIn-round round
      (port_round ssl [] old args.port (line (codes "ADDRESS") args.addr threads) w.port_fits)
      (EndsIn-round round (addr_round ssl (codes "PORT") with_port args.addr threads w.addr_word) (
        EndsIn-round round
          (threads_round ssl (codes "ADDRESS") with_addr args.threads keys w.threads_fit)
          (keys_EndsIn ssl old args w)))
      fuel b
