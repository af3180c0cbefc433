-- ===== src/Apps/Samples.antt =====
-- Documents that the tests of the parsers share.
use xerock.Base.{ℕ, ◌≡◌, refl, subst, true, All, [], ◌∷◌, codes}
use xerock.Base.Run.{done}
use xerock.Json.Tree.{tree, Tree, num, str, object, end, field}
use xerock.Json.Fields.{Field}
use xerock.Json.Payload.{is_payload, Unsigned}
use xerock.Asio.Local.{local}

abbrev pub addressed : ℕ → Tree
addressed port = object (field "addr" (str (codes "127.0.0.1")) (field "port" (num port) end))

abbrev pub message : Tree → Tree
message d = object (field "data" d end)

abbrev pub open_message : ℕ → Tree
open_message port = message (
    object (
      field "addr" (str (codes "127.0.0.1"))
        (field "port" (num port) (field "secure" (str (codes "plain")) end))))

abbrev pub numbers : Tree
numbers = object (field "0" (num 300) end)

-- The message of a client with the payload `numbers`.
abbrev pub local_object : Tree
local_object = object (field "local" (addressed 8080) (field "data" numbers end))

pub numbers-Unsigned : Unsigned numbers
numbers-Unsigned vs o h =
    let same : num 300 ∷ [] ≡ vs = cc h in subst (All λ w. tree.is_uint w ≡ true) same (refl, tt)

-- A document has one payload.
pub payload-Unsigned :
    (doc : Tree) {d v : Tree}
    → tree.member doc "data" ≡ done d
    → tree.member d "data" ≡ done v
    → Unsigned v
    → (d' v' : Tree) → Field tree.is_object doc "data" d'
    → Field is_payload d' "data" v'
    → Unsigned v'
payload-Unsigned doc {d} {v} ed ev h d' v' fd fv =
    let inner : d ≡ d' = cc (ed, fd.0) in subst Unsigned (cc (inner, ev, fv.0)) h
