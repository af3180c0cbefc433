-- ===== src/Apps/Main/Examples.antt =====
-- Tests and instances for `parser_main`.
use xerock.Base.{ℕ, ◌≡◌, refl, some, List, [], ◌∷◌, codes}
use xerock.Base.Run.{done, Decides}
use xerock.Json.Tree.{tree, Tree, num, str, object, end, field}
use xerock.Core.Message.{echo, control, close, type_text}
use xerock.Core.Dispatcher.{Entry, lookup_name}
use xerock.Apps.Main.Parser.{
  control_of, check_message, get_app, get_control, get_type, get_time, parser_main,
}
use xerock.Apps.Main.Parser.Exact.{Envelope, parser_main-Decides}

abbrev apps : List (Entry ℕ)
apps = record { app = echo; name = codes "echo"; func = some 7 } ∷ []

abbrev close_echo : Tree
close_echo = object (
    field "app" (str (codes "echo")) (
      field "time" (num 1000)
        (field "type" (str (codes "control")) (field "ctype" (str (codes "close")) end))))

close_accepted :
    parser_main apps close_echo
    ≡ done (some (record { app = echo; time = 1000; type = control; control = some close }))
unfolding parser_main check_message get_app get_type get_control get_time control_of lookup_name
    type_text
close_accepted = refl

parser_main-Decides_example : Decides (Envelope apps close_echo) (parser_main apps close_echo)
parser_main-Decides_example = parser_main-Decides apps close_echo
