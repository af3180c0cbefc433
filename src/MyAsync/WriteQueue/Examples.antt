-- ===== src/MyAsync/WriteQueue/Examples.antt =====
-- Tests and instances for the write queue.
use xerock.Base.{ℕ, ◌≡◌, ◌≢◌, refl, none, some, List, [], ◌∷◌}
use xerock.Base.Run.{done, abort}
use xerock.MyAsync.WriteQueue.{Session, writing, completed, broken, Reach, opened, posted}
use xerock.MyAsync.WriteQueue.Order.{session, IsValid, Reach-IsValid, Reach_never_aborts}
use xerock.MyAsync.WriteQueue.Stall.{complete, complete_sends_all, post_all, broken_stalls}

-- Messages and error codes are numbers here.
abbrev one_queued : Session ℕ ℕ
one_queued = session (1 ∷ 2 ∷ []) (some 1) [] []

two_posts : Reach (1 ∷ 2 ∷ []) one_queued
unfolding writing
two_posts = posted 2 (posted 1 opened refl) refl

Reach-IsValid_example : IsValid (1 ∷ 2 ∷ []) one_queued
Reach-IsValid_example = Reach-IsValid two_posts

Reach_never_aborts_example :
    ((d : ℕ) → writing d one_queued ≢ abort)
    × ((d : ℕ) → one_queued.in_flight ≡ some d → completed d one_queued ≢ abort)
    × ((ec : ℕ) → broken ec one_queued ≢ abort)
Reach_never_aborts_example = Reach_never_aborts two_posts

complete_sends_all_example : complete 2 one_queued ≡ done (session [] none (1 ∷ 2 ∷ []) [])
complete_sends_all_example = complete_sends_all two_posts refl

abbrev late : List ℕ
late = 3 ∷ []

abbrev stalled : List ℕ → Session ℕ ℕ
stalled queue = session queue none [] (9 ∷ [])

broken_stalls_example : post_all late (stalled (1 ∷ 2 ∷ [])) ≡ done (stalled (1 ∷ 2 ∷ 3 ∷ []))
unfolding broken
broken_stalls_example = broken_stalls 1 9 late two_posts refl refl
