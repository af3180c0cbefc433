-- ===== src/MyAsync/ListenerContainer/Examples.antt =====
-- Instances for the container of listeners. A session is its number, the bytes that were written to it
-- and whether it is open; its number is its endpoint.
use native.Mathlib.Decide.{ℕ_discrete}
use xerock.Base.{
  ℕ, ◌≡◌, refl, Bool, true, false, none, List, [], ◌∷◌, ◌++◌, map, ◌||◌, if◌then◌else◌,
}
use xerock.Base.Run.{done, abort}
use xerock.MyAsync.Registry.{lookup, Distinct}
use xerock.MyAsync.Registry.Change.{Changes}
use xerock.MyAsync.ListenerContainer.{
  SessionType, Listener, Listeners, all_connected, deliver, open_listener, close_listener, write,
  write_each, write_clients, close_clients, close_listener_clients,
}
use xerock.MyAsync.ListenerContainer.Delivery.{is_nil, occurrences, written, write_each-written}
use xerock.MyAsync.ListenerContainer.Refinement.{
  after_make, after_close, per_listener, Runs, listeners-Changes,
}

abbrev sessions : SessionType ℕ
sessions = record {
  Session = ℕ × List ℕ × Bool;
  Code = ℕ;
  is_connected = λ s. s.2;
  endpoint = λ s. s.0;
  close_session = λ s. (s.0, s.1, false);
  write_session = λ bytes s. (s.0, s.1 ++ bytes, s.2);
}

abbrev two : Listener sessions
two = record { use_ssl = false; share = (1, [], true) ∷ (2, [], true) ∷ []; closing = false }

abbrev at_nine : Listeners sessions ℕ_discrete
at_nine = (9, two) ∷ []

at_nine-Distinct : Distinct ℕ_discrete at_nine
unfolding Distinct lookup
at_nine-Distinct = (refl, tt)

-- The last session has lost its connection.
abbrev lost : Listener sessions
lost = record two { share = (1, [], true) ∷ (2, [], false) ∷ [] }

twice :
    write_each sessions ℕ_discrete (1 ∷ 1 ∷ []) (7 ∷ []) two
    ≡ done (record two { share = (1, 7 ∷ 7 ∷ [], true) ∷ (2, [], true) ∷ [] })
unfolding write_each write deliver all_connected ℕ_discrete
twice = refl

lost_aborts : write_each sessions ℕ_discrete (1 ∷ []) (7 ∷ []) lost ≡ abort
unfolding write_each write deliver all_connected ℕ_discrete
lost_aborts = refl

write_each-written_example : write_each sessions ℕ_discrete (1 ∷ 1 ∷ []) (7 ∷ []) two ≡ (
    if is_nil sessions ℕ_discrete (1 ∷ 1 ∷ []) || all_connected sessions ℕ_discrete two.share
    then done (record two {
      share =
          map
            (λ s.
              written sessions ℕ_discrete
                (occurrences sessions ℕ_discrete s.0 (1 ∷ 1 ∷ []))
                (7 ∷ [])
                s)
            two.share;
    })
    else abort)
write_each-written_example =
    write_each-written sessions ℕ_discrete (λ bytes s. refl) (λ bytes s. refl) (1 ∷ 1 ∷ []) (7 ∷ [])
      two

listeners-Changes_example :
    Changes ℕ_discrete 9 at_nine
      (after_make sessions ℕ_discrete true (two, none) (lookup ℕ_discrete 9 at_nine))
      (open_listener sessions ℕ_discrete true true false 9 (two, none) at_nine)
    × Changes ℕ_discrete 9 at_nine
        (after_close sessions ℕ_discrete (lookup ℕ_discrete 9 at_nine))
        (close_listener sessions ℕ_discrete 9 at_nine)
    × Runs sessions ℕ_discrete 9 at_nine
        (per_listener sessions ℕ_discrete
          (write_each sessions ℕ_discrete (1 ∷ []) (7 ∷ []))
          (lookup ℕ_discrete 9 at_nine))
        (write_clients sessions ℕ_discrete 9 (1 ∷ []) (7 ∷ []) at_nine)
    × Runs sessions ℕ_discrete 9 at_nine
        (per_listener sessions ℕ_discrete
          (close_clients sessions ℕ_discrete (1 ∷ []))
          (lookup ℕ_discrete 9 at_nine))
        (close_listener_clients sessions ℕ_discrete 9 (1 ∷ []) at_nine)
listeners-Changes_example =
    listeners-Changes sessions ℕ_discrete true true false 9 (two, none) (1 ∷ []) (7 ∷ []) at_nine
      at_nine-Distinct
