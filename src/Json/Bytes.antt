-- ===== src/Json/Bytes.antt =====
-- src/libs/utility/src/json_helper.cpp: `Util::json_2_byte_array`, and the payload that the parsers of
-- the applications read with it. `GetUint` asserts that an element is an unsigned number.
use xerock.Base.{ℕ, ◌%◌, Bool, true, false, List, [], ◌∷◌, if◌then◌else◌, ◌++◌}
use xerock.Base.Run.{Run, done, ◌>>=◌}
use xerock.Json.{Json}
use xerock.ByteArray.{copy}

module _ ⦃J : Json⦄ where
  open J use {
    Value, is_object, is_array, get_uint, get_string, elements, member_values, member_values-done,
  }

  -- `data.push_back(static_cast<uint8_t>(itr->GetUint()))` for each element.
  unfoldable pub push_all : List Value → List ℕ → Run (List ℕ)
  push_all [] bytes = done bytes
  push_all (v ∷ vs) bytes = do n ← get_uint v; push_all vs (bytes ++ (n % 256) ∷ [])

  unfoldable pub json_2_byte_array : Value → List ℕ → Run (Bool × List ℕ)
  unfolding push_all
  json_2_byte_array doc bytes =
      if is_array doc
      then (do vs ← elements doc; r ← push_all vs bytes; done (true, r))
      else if is_object doc
      then (do vs ← member_values doc; r ← push_all vs bytes; done (true, r))
      else done (false, bytes)

  -- `if(v.IsObject()) json_2_byte_array(v, data); else data = v.GetString();` on an empty array.
  unfoldable pub read_bytes : Value → Run (List ℕ)
  unfolding json_2_byte_array copy
  read_bytes v =
      if is_object v
      then (do r ← json_2_byte_array v []; done r.1)
      else (do s ← get_string v; done (copy s))
