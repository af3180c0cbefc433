-- ===== src/Arguments/CommandLine.antt =====
-- src/arguments.cpp: the texts of the help and `check_arguments`.
use xerock.Base.{
  ℕ, ◌==◌, Bool, true, false, ◌||◌, ◌&&◌, Option, none, some, List, [], ◌∷◌, ◌++◌, ltb, leb, length,
  Text, String, codes, if◌then◌else◌,
}
use xerock.Base.Int.{ℤ, pos, negsuc}
use xerock.Istream.{Istream, over, failing, at_end, read_word, read_int}
use xerock.Istream.Decimal.{show_int}
use xerock.Arguments.{Arguments, Build, Cmdline, read_config_file, make_config_options_output}

unfoldable pub make_command_line_help : Text → Text
make_command_line_help name = name ++ codes " [options...] <port>"

-- `ss << a << b << …`.
abbrev printed_all : List Text → Text
printed_all [] = []
printed_all (t ∷ ts) = t ++ printed_all ts

unfoldable pub make_error_help : Text → Text
unfolding make_command_line_help
make_error_help name = printed_all (
    codes "Usage:\n\t"
    ∷ make_command_line_help name
    ∷ codes "\nExample:\n\t"
    ∷ name
    ∷ codes " 8080\n\t"
    ∷ name
    ∷ codes " --addr 127.0.0.1 --threads 5 8080\n\t"
    ∷ name
    ∷ codes " --key domain.key --cert domain.crt 8080\nMore options use: -h"
    ∷ [])

unfoldable pub make_help : Text → Text
unfolding make_command_line_help
make_help name = printed_all (
    make_command_line_help name
    ∷ codes "\nRequired:\n\t<port>: socket port.\n"
    ∷ codes "Required when compiled with SSL support:\n\t-k, --key=<path_key_file>\n"
    ∷ codes "\t\tPEM file with the SSL private key.\n\t-c, --cert=<path_cert_file>\n"
    ∷ codes "\t\tPEM file with SSL certificate\nOptions:\n\t-h, --help\n\t\tThis help message.\n"
    ∷ codes "\t-a, --addr=<addr> | Default: 0.0.0.0 (all interfaces)\n"
    ∷ codes "\t\tIP address that will be listened.\n\t-t, --threads=<num> | Default: 1\n"
    ∷ codes "\t\tNumber of threads that will share the work. <num> must be a number equal or "
    ∷ codes "greater 1.\n\t-o, --config [config_file]\n\t\tRead/write config file. If no argument "
    ∷ codes "provided, prints the configuration passed at command line (to be redirected to a "
    ∷ codes "file). If a argument is provided, reads configuration from this file (inline "
    ∷ codes "attributes overwrite file attributes).  \n \t-s, --ssl\n\t\tPrint 'true' if compiled "
    ∷ codes "with SSL support (otherwise 'false').\n\t-p, --apps\n\t\tPrints compiled apps name.\n"
    ∷ codes "\t-v, --version\n\t\tPrints version infomartion"
    ∷ [])

-- How `check_arguments` ends: it returns, or the process exits, and then with a success or not.
-- The text is what has been printed.
pub data Outcome : Type 0 where
  returned : Arguments → Text → Outcome
  exited : Bool → Text → Outcome

abbrev yes_no : Bool → Text
yes_no true = codes "true"
yes_no false = codes "false"

abbrev variants : ℕ → Text
variants n =
    if n == 0
    then codes "false"
    else if n == 1
    then codes "plain"
    else if n == 2
    then codes "ssl"
    else codes "plain,ssl"

-- The stream that argh makes of a value; where there is none, one that has failed.
abbrev pub stream_of : Option Text → Istream
stream_of (some t) = over t
stream_of none = failing (over [])

abbrev pub or_default : Text → Option Text → Text
or_default d (some t) = t
or_default d none = d

abbrev second : List Text → Option Text
second [] = none
second (t ∷ []) = none
second (t ∷ u ∷ ts) = some u

-- `args.port > 1 && args.port <= 65535`.
abbrev pub is_port : ℤ → Bool
is_port (pos n) = ltb 1 n && leb n 65535
is_port (negsuc n) = false

-- `args.threads < 1`.
abbrev pub below_one : ℤ → Bool
below_one (pos n) = ltb n 1
below_one (negsuc n) = true

abbrev pub is_zero : ℤ → Bool
is_zero (pos n) = n == 0
is_zero (negsuc n) = false

-- `if(cmdl(names)) cmdl(names) >> member;`
abbrev pub read_option : Text → Option Text → Text
read_option old (some t) = (read_word old (over t)).0
read_option old none = old

abbrev warning : Option Text → String → Text
warning (some t) what = codes what
warning none what = []

abbrev key_given : Cmdline → Option Text
key_given cmdl = cmdl.param (codes "-k" ∷ codes "--key" ∷ [])

abbrev cert_given : Cmdline → Option Text
cert_given cmdl = cmdl.param (codes "-c" ∷ codes "--cert" ∷ [])

-- The key and the certificate are read from the command line, where it has them.
unfoldable pub given_keys : Cmdline → Arguments → Arguments
given_keys cmdl args = record args {
  key = read_option args.key (key_given cmdl);
  cert = read_option args.cert (cert_given cmdl);
}

abbrev pub lacks_keys : Arguments → Bool
lacks_keys args = at_end args.key || at_end args.cert

-- `-t` or `--threads`, or else what the configuration file gave.
abbrev pub threads_given : Cmdline → Arguments → ℤ × Istream
threads_given cmdl args =
    read_int args.threads
      (over (or_default (show_int args.threads) (cmdl.param (codes "-t" ∷ codes "--threads" ∷ []))))

abbrev pub port_given : Cmdline → Arguments → ℤ × Istream
port_given cmdl args = read_int args.port (stream_of (second cmdl.positional))

abbrev pub config_given : Cmdline → Text × Istream
config_given cmdl = read_word [] (stream_of (cmdl.param (codes "-o" ∷ codes "--config" ∷ [])))

module _ (B : Build) where
  unfoldable pub apps_text : Text
  apps_text = printed_all (
      codes "echo="
      ∷ yes_no B.use_echo
      ∷ codes ",serial="
      ∷ yes_no B.use_serial
      ∷ codes ",monitor="
      ∷ yes_no B.use_monitor
      ∷ codes ",tcp_server="
      ∷ variants B.use_tcp_server
      ∷ codes ",tcp_client="
      ∷ variants B.use_tcp_client
      ∷ codes ",udp_client"
      ∷ yes_no B.use_udp_client
      ∷ codes "\n"
      ∷ [])

  module _ (cmdl : Cmdline) (name : Text) where
    abbrev refused : String → Outcome
    refused what = exited false (codes what ++ (make_error_help name ++ codes "\n"))

    abbrev refused_file : Text → Outcome
    refused_file what = exited false (what ++ (make_error_help name ++ codes "\n"))

    unfoldable pub output_config : Arguments → Text → Outcome
    output_config args printed =
        if cmdl.flag (codes "-o" ∷ codes "--config" ∷ [])
        then exited true (printed ++ make_config_options_output B.use_ssl args)
        else returned args printed

    unfoldable pub check_keys : Arguments → Outcome
    unfolding output_config given_keys
    check_keys args =
        if B.use_ssl
        then (if lacks_keys (given_keys cmdl args)
            then refused "ERROR! SSL support require key(-k)/certificate(-c) files.\n"
            else output_config (given_keys cmdl args) [])
        else output_config args (
            warning (key_given cmdl) "WARNING! No SSL support. Ignoring -k/--key option\n"
            ++ warning (cert_given cmdl) "WARNING! No SSL support. Ignoring -c/--cert option\n")

    unfoldable pub check_threads : Arguments → Outcome
    unfolding check_keys
    check_threads args =
        let r = threads_given cmdl args in
        if r.1.failed || below_one r.0
        then exited false
            (codes "ERROR! -t/--threads: argument option must be a positive interger (>= 1)\n")
        else check_keys (record args { threads = r.0 })

    unfoldable pub check_address : Arguments → Outcome
    unfolding check_threads
    check_address args =
        let value = cmdl.param (codes "-a" ∷ codes "--addr" ∷ []) in
        check_threads
          (record args { addr = (read_word args.addr (over (or_default args.addr value))).0 })

    unfoldable pub check_given : Arguments → Outcome
    unfolding check_address
    check_given args =
        if is_zero args.port
        then refused "ERROR! You must provide a listening port.\n"
        else if is_port args.port
        then check_address args
        else refused "ERROR! Listening port must be a positive number.\n"

    unfoldable pub check_port : Arguments → Outcome
    unfolding check_given
    check_port args =
        if length cmdl.positional == 2
        then (let r = port_given cmdl args in
            if r.1.failed
            then refused "ERROR! Invalid listening port.\n"
            else check_given (record args { port = r.0 }))
        else check_given args

    unfoldable pub and_then_port : Option Arguments → Option Outcome
    unfolding check_port
    and_then_port none = none
    and_then_port (some args) = some (check_port args)

    -- Behind the attempt to open the file.
    unfoldable pub read_config : ℕ → Text → Arguments → Option Text → Option Outcome
    unfolding and_then_port
    read_config fuel path args none =
        some
          (refused_file (codes "ERROR! Configuration file \"" ++ (path ++ codes "\" not found\n")))
    read_config fuel path args (some file) =
        and_then_port (read_config_file B.use_ssl fuel file args)

    -- The files that can be opened are given by their names. none means that the fuel for the loop
    -- over the file ran out.
    unfoldable pub check_arguments : ℕ → (Text → Option Text) → Arguments → Option Outcome
    unfolding read_config check_port
    check_arguments fuel files args =
        if cmdl.flag (codes "-h" ∷ codes "--help" ∷ [])
        then some (exited true (make_help name ++ codes "\n"))
        else if cmdl.flag (codes "-s" ∷ codes "-ssl" ∷ [])
        then some (exited true (yes_no B.use_ssl ++ codes "\n"))
        else if cmdl.flag (codes "-p" ∷ codes "--apps" ∷ [])
        then some (exited true apps_text)
        else if cmdl.flag (codes "-v" ∷ codes "--version" ∷ [])
        then some (exited true (codes "./xerock 0.1\nCopyright (C) 2021 Rafael Cunha\n"))
        else let r = config_given cmdl in
          if r.1.failed then some (check_port args) else read_config fuel r.0 args (files r.0)
