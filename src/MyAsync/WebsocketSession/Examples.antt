-- ===== src/MyAsync/WebsocketSession/Examples.antt =====
-- Tests and instances for the session of a user.
use xerock.Base.{
  ℕ, suc, ◌+◌, ◌≡◌, ◌==◌, refl, true, inl, inr, some, none, [], ◌∷◌, ◌++◌, codes, length, ◌≤◌,
}
use xerock.Base.Run.{done}
use xerock.MyAsync.WriteQueue.{Session, writing, completed, broken}
use xerock.MyAsync.WriteQueue.Order.{session}
use xerock.MyAsync.ServerSession.{called_open, called_read, called_error}
use xerock.MyAsync.ServerSession.Ends.{Ordered}
use xerock.MyAsync.WebsocketSession.{
  Endings, idle, reading, WebsocketSession, on_run, run_request, on_handshake, on_accept, on_read,
  do_read, fail, write, Lives, ran, upgraded, shaken, accepted, read, given, written, broke,
}
use xerock.MyAsync.WebsocketSession.Sent.{Lives_sends_in_order}
use xerock.MyAsync.WebsocketSession.Ends.{reports, waits, Sorted, Lives-reports, Lives-Ordered}

-- Messages, what is read and errors are numbers here.
abbrev endings : Endings ℕ
endings = record { is_aborted = λ ec. ec == 125; is_closed = λ ec. ec == 1 }

abbrev St : Type 0
St = WebsocketSession ℕ ℕ ℕ

-- A message came in, one is being written, and two more were given.
abbrev busy : St
busy = record {
  stage = reading;
  out = session (7 ∷ 8 ∷ []) (some 7) [] [];
  posts = 9 ∷ [];
  calls = called_read 5 ∷ called_open ∷ [];
  is_text = true;
  closings = 0;
}

busy_lives : Lives endings (7 ∷ 8 ∷ 9 ∷ []) busy
unfolding writing on_run on_handshake on_accept do_read on_read write
busy_lives =
    written 8
      (written 7
        (given 9 (
          given 8 (given 7 (read (inl 5) (accepted none (shaken none (ran true) refl) refl) refl))))
        refl refl)
      refl refl

Lives_sends_in_order_example :
    ((busy.out.sent ++ busy.out.queue) ++ busy.posts ≡ 7 ∷ 8 ∷ 9 ∷ [])
    × ((d : ℕ) → (q : Session ℕ ℕ) × (writing d busy.out ≡ done q))
    × ((d : ℕ) → busy.out.in_flight ≡ some d → (q : Session ℕ ℕ) × (completed d busy.out ≡ done q))
Lives_sends_in_order_example = Lives_sends_in_order endings busy_lives

Lives-Ordered_example : Ordered busy.calls
Lives-Ordered_example = Lives-Ordered endings busy_lives

-- The peer resets the connection while a message is written: on_close_f is not called.
abbrev lost : St
lost = record {
  stage = idle;
  out = session (7 ∷ []) none [] (104 ∷ []);
  posts = [];
  calls = called_error 104 (codes "read") ∷ called_error 104 (codes "write") ∷ called_open ∷ [];
  is_text = true;
  closings = 0;
}

lost_lives : Lives endings (7 ∷ []) lost
unfolding writing broken run_request on_accept do_read on_read fail write
lost_lives =
    read (inr 104)
      (broke 7 104 (written 7 (given 7 (accepted none upgraded refl)) refl refl) refl refl) refl

Lives-reports_example :
    (reports lost.calls + waits lost.stage ≡ suc (length lost.out.failures))
    × (reports lost.calls ≤ 2)
    × Sorted endings lost.calls
Lives-reports_example = Lives-reports endings lost_lives
