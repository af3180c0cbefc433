-- ===== src/Core/Factory/Sent.antt =====
-- On the control messages of the factory, from the document to the session that is given it.
use xerock.Base.{ℕ, ◌%◌, ◌^◌, ◌≡◌, refl, ap, Option, some, List, [], ◌∷◌, ◌++◌, Text}
use xerock.Base.Run.{Run, done, ◌>>=◌}
use xerock.Json.{Json}
use xerock.Json.Build.{Build}
use xerock.Core.Message.{App, control, Control}
use xerock.Core.Dispatcher.{Entry}
use xerock.Core.Outbox.{Outbox, Quiet, write, write_all}
use xerock.Core.Factory.{Content, create_control}
use xerock.Core.Factory.Accepted.{Named, Carries, parser_main-control_document}
use xerock.Apps.Main.Parser.{parser_main}

module _ {ℓ} ⦃J : Json⦄ ⦃B : Build J⦄ {H : Type ℓ} (apps : List (Entry H)) where
  open J use {Value}
  open B use {print}

  -- The print of a document that is read as a control message of the application and of this time,
  -- and that has this content.
  abbrev pub ControlOf : App → Control → Option (Content Value) → ℕ → Text → Type 0
  ControlOf a k c t text =
      (doc : Value) × (print doc ≡ text)
      × (parser_main apps doc
          ≡ done (some (record { app = a; time = t; type = control; control = some k })))
      × Carries c doc

  module _ {S : Type 0} (now : ℕ → ℕ) where
    -- The run ends, and one control message with this content was sent to these sessions in it.
    abbrev pub Sends :
        List S
        → App
        → Control
        → Option (Content Value)
        → Outbox S Text
        → Run (Outbox S Text)
        → Type 0
    Sends to a k c o r =
        (text : Text) × (o' : Outbox S Text) × (r ≡ done o')
        × ControlOf a k c (now o.readings % 2 ^ 64) text
        × (o'.sent ≡ o.sent ++ (to, text) ∷ [])
        × (o'.shares ≡ o.shares)

    created :
        (ap : App) (e : Entry H) (k : Control) (c : Option (Content Value)) (o : Outbox S Text)
        → Named apps ap e
        → (text : Text) × (o' : Outbox S Text) × (create_control now apps ap k c o
            ≡ done (text, o'))
          × ControlOf ap k c (now o.readings % 2 ^ 64) text
          × Quiet o o'
    unfolding create_control
    created ap e k c o named =
        let (doc, o', h, read, carries, quiet) =
          parser_main-control_document apps now ap e k c o named in
        (print doc, o', rw h, (doc, refl, read, carries), quiet)

    pub write-Sends :
        (ws : S) (ap : App) (e : Entry H) (k : Control) (c : Option (Content Value))
        (o : Outbox S Text)
        → Named apps ap e
        → Sends
            (ws ∷ [])
            ap
            k
            c
            o
            (do (text, o') ← create_control now apps ap k c o; done (write ws text o'))
    unfolding write
    write-Sends ws ap e k c o named =
        let (text, o', h, of, same) = created ap e k c o named in
        (text, write ws text o', rw h, of, rw same.0, same.1)

    pub write_all-Sends :
        (ap : App) (e : Entry H) (k : Control) (c : Option (Content Value)) (o : Outbox S Text)
        → Named apps ap e
        → Sends o.shares ap k c o
            (do (text, o') ← create_control now apps ap k c o; done (write_all text o'))
    unfolding write_all
    write_all-Sends ap e k c o named =
        let (text, o', h, of, same) = created ap e k c o named in
        (text, write_all text o', rw h, of, rw (same.0, same.1), same.1)
