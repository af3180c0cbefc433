-- ===== src/Core/Session/Message.antt =====
-- On the messages that a session gets.
use text.Mathlib.Text.{◌==◌ as same_key}
use xerock.Base.{ℕ, ◌+◌, ◌%◌, ◌^◌, ◌≡◌, refl, ◌∙◌, true, false, String, Text}
use xerock.Base.Run.{done, abort}
use xerock.Json.{Json}
use xerock.Json.Build.{Build}
use xerock.Core.Outbox.{Outbox, get_mid, time}
use xerock.Core.Factory.{add_mid}

module _ ⦃J : Json⦄ ⦃B : Build J⦄ where
  open J use {Value, is_object, is_string, member, has_member, get_string}
  open B use {
    bool, uint, print, add_member, is_object-add_member, member-add_member, has_member-add_member,
    set_member-abort, set_member-done,
  }

  -- What the echo of a document keeps: the members that the factory does not write.
  abbrev pub Keeps : Value → Value → Type 0
  Keeps d d' =
      (j : String)
      → same_key "smid" j ≡ false
      → same_key "echoed" j ≡ false
      → same_key "time" j ≡ false
      → member d' j ≡ member d j

  -- The document with the two members that are added at its end.
  stamped : Value → ℕ → Value
  stamped d mid = add_member "echoed" (bool true) (add_member "smid" (uint mid) d)

  stamped-is_object : (d : Value) (mid : ℕ) → is_object d ≡ true → is_object (stamped d mid) ≡ true
  unfolding stamped
  stamped-is_object d mid o =
      is_object-add_member "echoed" (bool true) _ (is_object-add_member "smid" (uint mid) d o)

  stamped-has_time :
      (d : Value) (mid : ℕ)
      → is_object d ≡ true
      → has_member (stamped d mid) "time" ≡ has_member d "time"
  unfolding stamped
  stamped-has_time d mid o =
      has_member-add_member "echoed" "time" (bool true) _
        (is_object-add_member "smid" (uint mid) d o) refl
      ∙ has_member-add_member "smid" "time" (uint mid) d o refl

  stamped-member :
      (d : Value) (mid : ℕ) (j : String)
      → is_object d ≡ true
      → same_key "smid" j ≡ false
      → same_key "echoed" j ≡ false
      → member (stamped d mid) j ≡ member d j
  unfolding stamped
  stamped-member d mid j o s e =
      member-add_member "echoed" j (bool true) _ (is_object-add_member "smid" (uint mid) d o) e
      ∙ member-add_member "smid" j (uint mid) d o s

  -- The echo of an object with a time, when it is made.
  abbrev pub Echo : Value → ℕ → Value → Type 0
  Echo d t d' = (is_object d' ≡ true) × (member d' "time" ≡ done (uint t)) × Keeps d d'

  module _ {S : Type 0} (now : ℕ → ℕ) where
    abbrev pub ticked : Outbox S Text → Outbox S Text
    ticked o = record o { mid = (o.mid + 1) % 2 ^ 64; readings = o.readings + 1 }

    pub add_mid-Echo :
        (d : Value) (o : Outbox S Text)
        → is_object d ≡ true
        → has_member d "time" ≡ done true
        → (d' : Value) × Echo d (now o.readings % 2 ^ 64) d'
          × (add_mid now d o ≡ done (print d', d', ticked o))
    unfolding add_mid get_mid time stamped
    add_mid-Echo d o ob h =
        let t = now o.readings % 2 ^ 64 in
        let (e, set, oe, te, keep) =
          set_member-done "time" (uint t) (stamped d o.mid) (stamped-is_object d o.mid ob)
            (stamped-has_time d o.mid ob ∙ h) in
        (e, (oe, te, λ j s c n. keep j n ∙ stamped-member d o.mid j ob s c), rw set)

    -- A document without a member "time" ends the daemon, by the assertion of `operator[]`.
    pub add_mid-abort :
        (d : Value) (o : Outbox S Text)
        → is_object d ≡ true
        → has_member d "time" ≡ done false
        → add_mid now d o ≡ abort
    unfolding add_mid get_mid time stamped
    add_mid-abort d o ob h = rw (
        set_member-abort "time" (uint (now o.readings % 2 ^ 64)) (stamped d o.mid)
          (stamped-has_time d o.mid ob ∙ h))
