-- ===== src/Core/Session/Examples.antt =====
-- Instances for the sessions. The text "ok" is parsed to a message for `echo`, "late" to one without
-- a time, and no other text is parsed.
use native.Mathlib.Decide.{ℕ_discrete}
use xerock.Base.{
  ℕ, length, ◌+◌, ◌%◌, ◌^◌, ◌≡◌, refl, Option, none, some, [], ◌∷◌, codes, Text, text_eq,
  if◌then◌else◌,
}
use xerock.Base.Run.{Run, done}
use xerock.Json.Tree.{tree, Tree, num, str, object, end, field}
use xerock.Json.Build.{Build, c_str}
use xerock.Json.Tree.Builder.{builder_with}
use xerock.Core.Message.{MainData, status, config}
use xerock.Core.Outbox.{Outbox}
use xerock.Core.Dispatcher.{names}
use xerock.Core.Factory.{strings_data}
use xerock.Core.Factory.Examples.{apps, main_entry, clock, outbox, main-Named}
use xerock.Core.Session.{parse_object, on_message, insert, opened}
use xerock.Core.Session.Message.{Echo}
use xerock.Core.Session.Open.{Says, users_of, uid_of, opened_lem}
use xerock.Core.Session.Delivery.{Delivery, echoed, on_message-Delivery}

abbrev envelope : Tree
envelope = object (
    field "app" (str (codes "echo")) (field "type" (str (codes "data")) (field "time" (num 3) end)))

abbrev untimed : Tree
untimed = object (field "app" (str (codes "echo")) (field "type" (str (codes "data")) end))

abbrev parser : Text → Option Tree
parser t =
    if text_eq t (codes "ok")
    then some envelope
    else if text_eq t (codes "late")
    then some untimed
    else none

instance abbrev reader : Build tree
reader = builder_with parser

-- The handlers count their calls.
abbrev handle : ℕ → ℕ → MainData → Tree → ℕ × Outbox ℕ Text → Run (ℕ × Outbox ℕ Text)
handle h ws m d (w, o) = done (w + 1, o)

parsed : parse_object (codes "ok") ≡ some envelope
unfolding parse_object c_str
parsed = refl

parsed_untimed : parse_object (codes "late") ≡ some untimed
unfolding parse_object c_str
parsed_untimed = refl

on_message-Delivery_example :
    (d' : Tree) × Echo envelope (clock 0 % 2 ^ 64) d'
    × Delivery clock apps handle 1 envelope
        (clock 0 % 2 ^ 64)
        d'
        (0, echoed clock apps handle d' outbox)
        (on_message clock apps handle 1 (codes "ok") (0, outbox))
on_message-Delivery_example =
    on_message-Delivery clock apps handle 1 (codes "ok") envelope 0 outbox parsed refl

opened_lem_example :
    (uid list users : Text) × (o' : Outbox ℕ Text) × (opened clock apps ℕ_discrete 3 outbox
      ≡ done o')
    × (o'.shares ≡ insert ℕ_discrete 3 (1 ∷ 2 ∷ []))
    × (o'.sent ≡ (3 ∷ [], uid) ∷ (3 ∷ [], list) ∷ (insert ℕ_discrete 3 (1 ∷ 2 ∷ []), users) ∷ [])
    × Says apps status (uid_of 2) uid
    × Says apps config (strings_data (names apps)) list
    × Says apps status (users_of (length (insert ℕ_discrete 3 (1 ∷ 2 ∷ [])) % 2 ^ 32)) users
opened_lem_example = opened_lem apps clock ℕ_discrete 3 main_entry outbox main-Named
