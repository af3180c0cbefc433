-- ===== src/Arguments.antt =====
-- src/arguments.cpp and arguments.hpp: the command line and the configuration file. The parser of
-- the command line is argh; a file is the text that it holds.
pub mod Check
pub mod CommandLine
pub mod Config
pub mod Halting
mod Examples
use xerock.Base.{
  ℕ, ◌==◌, ◌≡◌, Bool, true, false, ◌||◌, ◌&&◌, not, Option, none, some, List, [], ◌∷◌, ◌++◌, ltb,
  leb, inl, inr, ◌⊎◌, Text, codes, text_eq, if◌then◌else◌,
}
use xerock.Base.Int.{ℤ, pos, negsuc}
use xerock.Base.Loop.{loop}
use xerock.Istream.{Istream, over, failing, read_word, read_int, ignore, getline}
use xerock.Istream.Decimal.{show_int}

pub record Arguments : Type 0 where
  pub addr : Text
  pub port : ℤ
  pub threads : ℤ
  pub key : Text
  pub cert : Text

abbrev pub default_arguments : Arguments
default_arguments = record {
  addr = codes "0.0.0.0";
  port = pos 0;
  threads = pos 1;
  key = [];
  cert = [];
}

-- What the build decides, `USE_SSL` and `USE_APP_*`.
pub record Build : Type 0 where
  pub use_ssl : Bool
  pub use_echo : Bool
  pub use_serial : Bool
  pub use_monitor : Bool
  pub use_tcp_server : ℕ
  pub use_tcp_client : ℕ
  pub use_udp_client : Bool

-- What argh has parsed: which flags are set, the value of a parameter with one of the names, and the
-- arguments in order, the program first.
pub record Cmdline : Type 0 where
  pub flag : List Text → Bool
  pub param : List Text → Option Text
  pub positional : List Text

-- `<< name << "=" << value << "\n"`, before what comes next.
abbrev pub line : Text → Text → Text → Text
line name value more = name ++ 61 ∷ (value ++ 10 ∷ more)

unfoldable pub make_config_options_output : Bool → Arguments → Text
make_config_options_output ssl args = line (codes "PORT") (show_int args.port) (
    line (codes "ADDRESS") args.addr (
      line (codes "THREADS") (show_int args.threads)
        (if ssl then line (codes "KEY") args.key (line (codes "CERT") args.cert []) else [])))

-- The variables of the loop over the file.
pub record Reading : Type 0 where
  pub attr : Text
  pub args : Arguments
  pub stream : Istream

-- An extraction into a member of the arguments.
abbrev pub into : {A : Type 0} → (A → Arguments) → A × Istream → Arguments × Istream
into set (a, s) = (set a, s)

module _ (ssl : Bool) where
  unfoldable pub read_value : Text → Arguments → Istream → Arguments × Istream
  read_value attr args s =
      if text_eq attr (codes "PORT")
      then into (λ n. record args { port = n }) (read_int args.port s)
      else if text_eq attr (codes "ADDRESS")
      then into (λ t. record args { addr = t }) (read_word args.addr s)
      else if text_eq attr (codes "THREADS")
      then into (λ n. record args { threads = n }) (read_int args.threads s)
      else if ssl && text_eq attr (codes "KEY")
      then into (λ t. record args { key = t }) (read_word args.key s)
      else if ssl && text_eq attr (codes "CERT")
      then into (λ t. record args { cert = t }) (read_word args.cert s)
      else (args, s)

  -- Behind getline.
  unfoldable pub read_line : Arguments → Text × Istream → Reading
  unfolding read_value
  read_line args ([], s) = record { attr = []; args = args; stream = s }
  read_line args (c ∷ cs, s) = record {
    attr = c ∷ cs;
    args = (read_value (c ∷ cs) args s).0;
    stream = ignore 10 (read_value (c ∷ cs) args s).1;
  }

  -- One round of the loop, which ends with the file.
  unfoldable pub read_round : Reading → Reading ⊎ Arguments
  unfolding read_line
  read_round r =
      if r.stream.eof then inr r.args else inl (read_line r.args (getline 61 r.attr r.stream))

  -- The whole loop, on fuel.
  unfoldable pub read_config_file : ℕ → Text → Arguments → Option Arguments
  unfolding read_round loop
  read_config_file fuel file args =
      loop fuel read_round (record { attr = []; args = args; stream = over file })
