-- ===== src/Core/Factory.antt =====
-- src/core/json/factory.cpp: `Message::Factory`, the documents that the daemon sends. A document that
-- a `Writer` is given key by key is the object of these members in turn.
pub mod Accepted
pub mod Sent
pub mod Examples
use xerock.Base.{ℕ, Bool, true, Option, none, some, List, [], ◌∷◌, ◌++◌, String, Text, map, codes}
use xerock.Base.Int.{ℤ}
use xerock.Base.Run.{Run, done, abort, ◌>>=◌}
use xerock.Json.{Json}
use xerock.Json.Build.{Build}
use xerock.Core.Message.{App, MessageType, payload, control, Control, type_text, control_text}
use xerock.Core.Dispatcher.{Entry, lookup_app}
use xerock.Core.Outbox.{Outbox, get_mid, time, server_user_id}

-- The arguments of the overloads of `Factory::create`: what comes after the application, and after
-- the control. `Document` and `Value` stand for `data_value` and `control_value`.
pub data Content (V : Type 0) : Type 0 where
  int_data : ℤ → Content V
  uint_data : ℕ → Content V
  string_data : Text → Content V
  bytes_data : List ℕ → Content V
  value_data : V → Content V
  strings_data : List Text → Content V

abbrev pub entry_name {ℓ} : {H : Type ℓ} → Option (Entry H) → Run Text
entry_name none = abort
entry_name (some e) = done e.name

module _ {ℓ} {H : Type ℓ} (apps : List (Entry H)) where
  -- `app(ap)`; a null pointer is no text for the library.
  unfoldable pub app_text : App → Run Text
  app_text a = entry_name (lookup_app apps a)

module _ ⦃J : Json⦄ ⦃B : Build J⦄ where
  open J use {Value}
  open B use {str, int, uint, array}

  unfoldable pub make_data_array : List ℕ → Value
  make_data_array bytes = array (map uint bytes)

  unfoldable pub make_string_array : List Text → Value
  make_string_array texts = array (map str texts)

  -- The members that every message begins with, up to the type.
  abbrev pub header : Text → ℕ → ℕ → MessageType → List (String × Value)
  header name mid t type =
      ("app", str name)
      ∷ ("smid", uint mid)
      ∷ ("uid", uint server_user_id)
      ∷ ("time", uint t)
      ∷ ("type", str (type_text type))
      ∷ []

  -- What an overload writes under "data".
  unfoldable pub content : Content Value → Value
  unfolding make_data_array make_string_array
  content (int_data value) = int value
  content (uint_data value) = uint value
  content (string_data value) = str value
  content (bytes_data b) = make_data_array b
  content (value_data doc) = doc
  content (strings_data value) = make_string_array value

module _ ⦃J : Json⦄ ⦃B : Build J⦄ {S : Type 0} (now : ℕ → ℕ) where
  open J use {Value}
  open B use {uint, bool, add_member, set_member, print}

  -- `add_mid<true>`: the document is changed too.
  unfoldable pub add_mid : Value → Outbox S Text → Run (Text × Value × Outbox S Text)
  add_mid doc o = do
    let (mid, o₁) = get_mid o
    let doc₁ = add_member "echoed" (bool true) (add_member "smid" (uint mid) doc)
    let (t, o₂) = time now o₁
    doc₂ ← set_member "time" (uint t) doc₁
    done (print doc₂, doc₂, o₂)

module _ {ℓ} ⦃J : Json⦄ ⦃B : Build J⦄ {H : Type ℓ} {S : Type 0} (now : ℕ → ℕ)
    (apps : List (Entry H)) where
  open J use {Value}
  open B use {str, object, print}

  unfoldable pub make_data_obj : App → Outbox S Text → Run (List (String × Value) × Outbox S Text)
  make_data_obj ap o = do
    name ← app_text apps ap
    let (mid, o₁) = get_mid o
    let (t, o₂) = time now o₁
    done (header name mid t payload, o₂)

  unfoldable pub make_control_obj :
      App → Control → Outbox S Text → Run (List (String × Value) × Outbox S Text)
  make_control_obj ap con o = do
    name ← app_text apps ap
    let (mid, o₁) = get_mid o
    let (t, o₂) = time now o₁
    done (header name mid t control ++ ("ctype", str (control_text con)) ∷ [], o₂)

  -- The overloads without a control, and those with one: their documents before they are printed.
  unfoldable pub data_document : App → Content Value → Outbox S Text → Run (Value × Outbox S Text)
  unfolding make_data_obj content
  data_document ap c o = do
    (fields, o') ← make_data_obj ap o
    done (object (fields ++ ("data", content c) ∷ []), o')

  unfoldable pub control_document :
      App → Control → Option (Content Value) → Outbox S Text → Run (Value × Outbox S Text)
  unfolding make_control_obj content
  control_document ap con none o = do
    (fields, o') ← make_control_obj ap con o
    done (object fields, o')
  control_document ap con (some c) o = do
    (fields, o') ← make_control_obj ap con o
    done (object (fields ++ ("data", content c) ∷ []), o')

  unfoldable pub create_data : App → Content Value → Outbox S Text → Run (Text × Outbox S Text)
  create_data ap c o = do (doc, o') ← data_document ap c o; done (print doc, o')

  unfoldable pub create_control :
      App → Control → Option (Content Value) → Outbox S Text → Run (Text × Outbox S Text)
  create_control ap con c o = do (doc, o') ← control_document ap con c o; done (print doc, o')
