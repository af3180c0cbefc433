-- ===== src/Core/Session/Open.antt =====
-- On the opening and the end of a session.
use mathlib.Core.Logic.{if_pos, if_neg}
use mathlib.Core.List.{Memᴰ}
use xerock.Base.{
  ℕ, ◌+◌, ◌-◌, ◌%◌, ◌^◌, ◌<◌, ◌≡◌, sym, subst, some, List, [], ◌∷◌, ◌++◌, append_assoc, Text,
  length, arith, ap, ◌∙◌,
}
use xerock.Base.Run.{done}
use xerock.Json.{Json}
use xerock.Json.Build.{Build}
use xerock.Core.Message.{main, Control, status, config}
use xerock.Core.Dispatcher.{Entry, names}
use xerock.Core.Outbox.{Outbox, user_id}
use xerock.Core.Factory.{Content, value_data, strings_data}
use xerock.Core.Factory.Accepted.{Named}
use xerock.Core.Factory.Sent.{ControlOf, Sends, write-Sends, write_all-Sends}
use xerock.Apps.Main.Make.{make_status, make_uid, make_app_list}
use xerock.Core.Session.{
  insert, erase, join, leave, get_num_shares, send_status, send_uid, send_app_list, on_open,
  on_close, opened,
}

module _ ⦃J : Json⦄ ⦃B : Build J⦄ where
  open B use {uint, object}

  abbrev pub users_of : ℕ → Content J.Value
  users_of n = value_data (object (("nusers", uint n) ∷ []))

  abbrev pub uid_of : ℕ → Content J.Value
  uid_of n = value_data (object (("uid", uint n) ∷ []))

module _ {ℓ} ⦃J : Json⦄ ⦃B : Build J⦄ {H : Type ℓ} (apps : List (Entry H)) where
  -- A control message of `main`, of some time.
  abbrev pub Says : Control → Content J.Value → Text → Type 0
  Says k c text = (t : ℕ) × ControlOf apps main k (some c) t text

module _ {ℓ} ⦃J : Json⦄ ⦃B : Build J⦄ {H : Type ℓ} (apps : List (Entry H)) {S : Type 0}
    (now : ℕ → ℕ) where
  open B use {uint, object}

  send_status-Sends :
      (n : ℕ) (e : Entry H) (o : Outbox S Text)
      → Named apps main e
      → Sends apps now o.shares main status (some (users_of n)) o (send_status now apps n o)
  unfolding send_status make_status
  send_status-Sends n e o named = write_all-Sends apps now main e status (some (users_of n)) o named

  send_uid-Sends :
      (ws : S) (e : Entry H) (o : Outbox S Text)
      → Named apps main e
      → Sends apps now
          (ws ∷ [])
          main
          status
          (some (uid_of (o.userid % 2 ^ 32)))
          o
          (send_uid now apps ws o)
  unfolding send_uid make_uid user_id
  send_uid-Sends ws e o named =
      write-Sends apps now ws main e status (some (uid_of (o.userid % 2 ^ 32)))
        (record o { userid = (o.userid + 1) % 2 ^ 64 }) named

  send_app_list-Sends :
      (ws : S) (e : Entry H) (o : Outbox S Text)
      → Named apps main e
      → Sends apps now
          (ws ∷ [])
          main
          config
          (some (strings_data (names apps)))
          o
          (send_app_list now apps ws o)
  unfolding send_app_list make_app_list
  send_app_list-Sends ws e o named =
      write-Sends apps now ws main e config (some (strings_data (names apps))) o named

  -- With `main` registered, the opening of a session ends, with three messages: its
  -- number, from the counter of users, and the names of the applications to the session alone, and
  -- the number of open sessions to all of them, itself included.
  pub opened_lem :
      (eq : Discrete S) (ws : S) (e : Entry H) (o : Outbox S Text)
      → Named apps main e
      → (uid list users : Text) × (o' : Outbox S Text) × (opened now apps eq ws o ≡ done o')
        × (o'.shares ≡ insert eq ws o.shares)
        × (o'.sent
            ≡ o.sent ++ (ws ∷ [], uid) ∷ (ws ∷ [], list) ∷ (insert eq ws o.shares, users) ∷ [])
        × Says apps status (uid_of (o.userid % 2 ^ 32)) uid
        × Says apps config (strings_data (names apps)) list
        × Says apps status (users_of (length (insert eq ws o.shares) % 2 ^ 32)) users
  unfolding opened on_open join get_num_shares
  opened_lem eq ws e o named =
      let o₀ = join eq ws o in
      let (uid, o₁, h₁, c₁, s₁, r₁) = send_uid-Sends ws e o₀ named in
      let (list, o₂, h₂, c₂, s₂, r₂) = send_app_list-Sends ws e o₁ named in
      let (users, o₃, h₃, c₃, s₃, r₃) = send_status-Sends (length o₂.shares % 2 ^ 32) e o₂ named in
      (
        uid,
        list,
        users,
        o₃,
        rw (h₁, h₂, h₃),
        rw (r₃, r₂, r₁),
        rw (s₃, s₂, s₁, r₂, r₁, append_assoc o.sent, append_assoc o.sent),
        (_, c₁),
        (_, c₂),
        (
          _,
          subst
              (λ n.
                ControlOf apps main status (some (users_of (n % 2 ^ 32))) (now o₂.readings % 2 ^ 64)
                  users)
              (ap length (r₂ ∙ r₁)) c₃,
        ),
      )

module _ {S : Type 0} (eq : Discrete S) where
  length-erase :
      (ws : S) (shares : List S) → Memᴰ ws shares → length (erase eq ws shares) + 1 ≡ length shares
  unfolding erase
  length-erase ws [] m = elim m [ ]
  length-erase ws (x ∷ xs) (Memᴰ.head e) = rw (if_pos (eq x ws) (sym e)) (omega arith)
  length-erase ws (x ∷ xs) (Memᴰ.tail m) = elim (eq x ws) [
    | yes e ↦ rw (if_pos (eq x ws) e) (omega arith)
    | no n ↦ rw (if_neg (eq x ws) n) (omega (arith, length-erase ws xs m))
  ]

  one_less : (n m : ℕ) → m + 1 ≡ n → n < 2 ^ 32 → (n % 2 ^ 32 + (2 ^ 32 - 1)) % 2 ^ 32 ≡ m
  one_less n m h small = omega arith

  -- With fewer than 2^32 sessions, the end of an open session announces the number of sessions that
  -- remain when it has left, though it has not left yet.
  pub on_close-leave {ℓ} :
      ⦃J : Json⦄ ⦃B : Build J⦄ {H : Type ℓ} (apps : List (Entry H)) (now : ℕ → ℕ) (ws : S)
      (o : Outbox S Text)
      → Memᴰ ws o.shares
      → length o.shares < 2 ^ 32
      → on_close now apps o ≡ send_status now apps (get_num_shares (leave eq ws o)) o
  unfolding on_close get_num_shares leave
  on_close-leave apps now ws o here small = rw (
      one_less (length o.shares) (length (erase eq ws o.shares)) (length-erase ws o.shares here)
        small)
