-- ===== src/Core/Session.antt =====
-- src/core/json/websocket_session.cpp: what the daemon does when a user's session opens, closes, and
-- gets a message, with the calls of
-- src/libs/my_async/include/my_async/websocket/impl/session_static_callback_static_share_impl.hpp and
-- the set of open sessions of src/libs/utility/include/util/static_shareable.hpp. A handler of an
-- application and the state W of the applications are parameters. What goes to a stream is left out.
pub mod Message
pub mod Delivery
pub mod Open
mod Examples
use mathlib.Core.Logic.{ite}
use xerock.Base.{
  ℕ, ◌+◌, ◌-◌, ◌%◌, ◌^◌, Bool, true, false, Option, none, some, List, [], ◌∷◌, Text, length,
  if◌then◌else◌,
}
use xerock.Base.Run.{Run, done, ◌>>=◌}
use xerock.Json.{Json}
use xerock.Json.Build.{Build, c_str}
use xerock.Core.Message.{main, MainData}
use xerock.Core.Dispatcher.{Entry, exec, names}
use xerock.Core.Outbox.{Outbox, write, write_all}
use xerock.Core.Factory.{add_mid}
use xerock.Core.Answers.{ill_formed, app_not_found, MessageErrc, make_error_code, fail_message}
use xerock.Apps.Main.Parser.{parser_main}
use xerock.Apps.Main.Make.{make_status, make_uid, make_app_list}

-- `share_.insert` and `share_.erase` of a set.
module _ {S : Type 0} (eq : Discrete S) where
  unfoldable pub insert : S → List S → List S
  insert s [] = s ∷ []
  insert s (x ∷ xs) = ite (eq x s) (x ∷ xs) (x ∷ insert s xs)

  unfoldable pub erase : S → List S → List S
  erase s [] = []
  erase s (x ∷ xs) = ite (eq x s) xs (x ∷ erase s xs)

  unfoldable pub join : S → Outbox S Text → Outbox S Text
  unfolding insert
  join s o = record o { shares = insert s o.shares }

  unfoldable pub leave : S → Outbox S Text → Outbox S Text
  unfolding erase
  leave s o = record o { shares = erase s o.shares }

unfoldable pub get_num_shares : {S : Type 0} → Outbox S Text → ℕ
get_num_shares o = length o.shares

module _ {ℓ} ⦃J : Json⦄ ⦃B : Build J⦄ {H : Type ℓ} {S : Type 0} (now : ℕ → ℕ)
    (apps : List (Entry H)) where
  unfoldable pub send_status : ℕ → Outbox S Text → Run (Outbox S Text)
  unfolding make_status
  send_status nusers o = do (text, o') ← make_status now apps nusers o; done (write_all text o')

  unfoldable pub send_uid : S → Outbox S Text → Run (Outbox S Text)
  unfolding make_uid
  send_uid ws o = do (text, o') ← make_uid now apps o; done (write ws text o')

  unfoldable pub send_app_list : S → Outbox S Text → Run (Outbox S Text)
  unfolding make_app_list
  send_app_list ws o = do
    (text, o') ← make_app_list now apps (names apps) o
    done (write ws text o')

  -- The numbers are converted to `unsigned int`; one less is what is sent at the end of a session.
  unfoldable pub on_open : S → Outbox S Text → Run (Outbox S Text)
  unfolding send_uid send_app_list send_status get_num_shares
  on_open ws o = do
    o₁ ← send_uid ws o
    o₂ ← send_app_list ws o₁
    send_status (get_num_shares o₂ % 2 ^ 32) o₂

  unfoldable pub on_close : Outbox S Text → Run (Outbox S Text)
  unfolding send_status get_num_shares
  on_close o = send_status ((get_num_shares o % 2 ^ 32 + (2 ^ 32 - 1)) % 2 ^ 32) o

  -- Session_Static_Callback_Static_Share::on_open
  unfoldable pub opened : Discrete S → S → Outbox S Text → Run (Outbox S Text)
  unfolding on_open join
  opened eq ws o = on_open ws (join eq ws o)

-- `!d.Parse(…).HasParseError() && d.IsObject()`
module _ ⦃J : Json⦄ ⦃B : Build J⦄ where
  open J use {Value, is_object}
  open B use {parse}

  abbrev pub if_object : Option Value → Option Value
  if_object none = none
  if_object (some d) = if is_object d then some d else none

  unfoldable pub parse_object : Text → Option Value
  unfolding c_str
  parse_object body = if_object (parse (c_str body))

module _ {ℓ} ⦃J : Json⦄ ⦃B : Build J⦄ {H : Type ℓ} {S W : Type 0} (now : ℕ → ℕ)
    (apps : List (Entry H))
    (handle : H → S → MainData → J.Value → W × Outbox S Text → Run (W × Outbox S Text)) where
  open J use {Value}

  unfoldable pub refuse : S → MessageErrc → W × Outbox S Text → Run (W × Outbox S Text)
  unfolding make_error_code
  refuse ws e (w, o) = do o' ← fail_message now apps ws main (make_error_code e) [] o; done (w, o')

  -- `if(!Dispatcher::exec(…)) fail_message(…);`
  abbrev pub after_exec : S → Bool × Run (W × Outbox S Text) → Run (W × Outbox S Text)
  after_exec ws (true, r) = r
  after_exec ws (false, r) = do st ← r; refuse ws app_not_found st

  -- The message once it was parsed and echoed, for the result of `parser_main`.
  abbrev pub dispatch : S → Value → Option MainData → W × Outbox S Text → Run (W × Outbox S Text)
  dispatch ws d none st = refuse ws ill_formed st
  dispatch ws d (some m) st =
      after_exec ws (exec apps m.app (λ h r. do st' ← r; handle h ws m d st') (done st))

  abbrev pub on_object : S → Option Value → W × Outbox S Text → Run (W × Outbox S Text)
  on_object ws none st = refuse ws ill_formed st
  on_object ws (some d) (w, o) = do
    (text, d', o') ← add_mid now d o
    m ← parser_main apps d'
    dispatch ws d' m (w, write_all text o')

  unfoldable pub on_message : S → Text → W × Outbox S Text → Run (W × Outbox S Text)
  unfolding parse_object refuse add_mid
  on_message ws body st = on_object ws (parse_object body) st
