-- ===== src/Arguments/Examples.antt =====
-- Tests and instances for the command line and the configuration file.
use mathlib.Core.List.{cons-ne-nil}
use xerock.Base.{
  ℕ, suc, ◌≤◌, ◌≡◌, refl, true, false, ◌⊎◌, Option, none, some, [], ◌∷◌, ◌++◌, length, Text, codes,
  arith,
}
use xerock.Base.Int.{pos}
use xerock.Istream.{read_number}
use xerock.Istream.Decimal.{show, show_int}
use xerock.Arguments.{
  Arguments, Build, Cmdline, default_arguments, make_config_options_output, read_config_file,
}
use xerock.Arguments.CommandLine.{returned, check_arguments, apps_text}
use xerock.Arguments.Config.{IsWritable, read_config_file-make_config_options_output}
use xerock.Arguments.Halting.{read_config_file-Ends, read_config_file-Hangs}
use xerock.Arguments.Check.{
  IsPort, IsPositive, HasKeys, check_arguments-Bounds, check_arguments-Returns,
}

abbrev secured : Arguments
secured = record {
  addr = codes "127.0.0.1";
  port = pos 8080;
  threads = pos 4;
  key = codes "k.pem";
  cert = codes "c.pem";
}

secured-IsWritable : IsWritable true secured
secured-IsWritable = record {
  port_fits = omega arith;
  threads_fit = omega arith;
  addr_word = (cons-ne-nil _ _, ground arith);
  key_word = λ _. (cons-ne-nil _ _, ground arith);
  cert_word = λ _. (cons-ne-nil _ _, ground arith);
}

printed :
    make_config_options_output true secured
    ≡ codes "PORT=8080\nADDRESS=127.0.0.1\nTHREADS=4\nKEY=k.pem\nCERT=c.pem\n"
unfolding make_config_options_output show_int show
printed = refl

read_config_file-make_config_options_output_example :
    read_config_file true 7 (make_config_options_output true secured) default_arguments
    ≡ some secured
read_config_file-make_config_options_output_example =
    read_config_file-make_config_options_output true default_arguments secured 7 secured-IsWritable
      (omega arith)

abbrev small_file : Text
small_file = codes "PORT=80\n"

read_config_file-Ends_example :
    ((a : Arguments) × ((fuel : ℕ)
        → suc (suc (length small_file)) ≤ fuel
        → read_config_file false fuel small_file default_arguments ≡ some a))
    ⊎ ((fuel : ℕ) → read_config_file false fuel small_file default_arguments ≡ none)
read_config_file-Ends_example = read_config_file-Ends false small_file default_arguments

read_config_file-Hangs_example :
    (read_config_file false 1000 (codes "PORT=" ++ codes "http\n") default_arguments ≡ none)
    × (read_config_file false 1000 (codes "THREADS=" ++ codes "http\n") default_arguments ≡ none)
read_config_file-Hangs_example =
    read_config_file-Hangs false (codes "http\n") default_arguments 1000 (refl, refl, refl, refl)

abbrev build : Build
build = record {
  use_ssl = false;
  use_echo = true;
  use_serial = true;
  use_monitor = false;
  use_tcp_server = 3;
  use_tcp_client = 1;
  use_udp_client = true;
}

-- `xerock 8080`.
abbrev port_alone : Cmdline
port_alone = record {
  flag = λ names. false;
  param = λ names. none;
  positional = codes "xerock" ∷ codes "8080" ∷ [];
}

abbrev no_files : Text → Option Text
no_files path = none

port_alone_returns :
    check_arguments build port_alone (codes "xerock") 0 no_files default_arguments
    ≡ some (returned (record default_arguments { port = pos 8080 }) [])
unfolding read_number
port_alone_returns =
    check_arguments-Returns build port_alone (codes "xerock") 0 8080 no_files refl (λ n. refl)
      (λ n. refl) refl refl refl (omega arith) (omega arith)

check_arguments-Bounds_example :
    IsPort (pos 8080)
    × IsPositive (pos 1)
    × HasKeys false (record default_arguments { port = pos 8080 })
check_arguments-Bounds_example =
    check_arguments-Bounds build port_alone (codes "xerock") 0 no_files default_arguments
      (record default_arguments { port = pos 8080 }) [] port_alone_returns

-- The text of `--apps` lacks a sign of equality.
apps_printed :
    apps_text build
    ≡ codes
        "echo=true,serial=true,monitor=false,tcp_server=plain,ssl,tcp_client=plain,udp_clienttrue\n"
unfolding apps_text
apps_printed = refl
