-- ===== src/MyAsync/ServerSession/Examples.antt =====
-- Tests and instances for the session of a tcp server.
use xerock.Base.{ℕ, suc, ◌+◌, ◌≡◌, ◌==◌, refl, false, inl, inr, none, [], ◌∷◌, codes, length, ◌≤◌}
use xerock.MyAsync.WriteQueue.{empty, writing, broken}
use xerock.MyAsync.WriteQueue.Order.{session}
use xerock.MyAsync.ServerSession.{
  Kinds, Stream, called_open, called_read, called_error, called_close, nothing, ServerSession,
  on_run, on_read, do_accept, do_read, fail, close, Reach, ran, read, written, broke,
}
use xerock.MyAsync.ServerSession.Ends.{closes, waiting, Ordered, Reach-closes, Reach-Ordered}

-- Messages, what is read, errors and the stream are numbers here.
abbrev kinds : Kinds ℕ
kinds = record {
  is_aborted = λ ec. ec == 125;
  is_eof = λ ec. ec == 2;
  is_truncated = λ ec. ec == 1;
}

abbrev stream : Stream ℕ ℕ
stream = record { shutdown = λ n. (n, none); cancel = λ n. (n, none); close = λ n. (suc n, none) }

abbrev St : Type 0
St = ServerSession ℕ ℕ ℕ ℕ

-- The peer resets the connection while a message is written.
abbrev lost : St
lost = record {
  pending = nothing;
  out = session (7 ∷ []) none [] (104 ∷ []);
  calls =
      called_close 104
      ∷ called_error 104 (codes "read")
      ∷ called_close 104
      ∷ called_error 104 (codes "write")
      ∷ called_open
      ∷ [];
  posted = 2;
  stream = 0;
}

lost_reached : Reach kinds stream false lost
unfolding writing broken on_run do_accept do_read on_read fail close
lost_reached = read (inr 104) (broke 7 104 (written 7 (ran 0) refl) refl refl) refl

Reach-closes_example :
    (closes lost.calls + waiting lost.pending ≡ suc (length lost.out.failures))
    × (closes lost.calls ≤ 2)
Reach-closes_example = Reach-closes kinds stream false lost_reached

-- A message came in and the peer closed its side.
abbrev over : St
over = record {
  pending = nothing;
  out = empty;
  calls = called_close 2 ∷ called_read 9 ∷ called_open ∷ [];
  posted = 0;
  stream = 0;
}

over_reached : Reach kinds stream false over
unfolding on_run do_accept do_read on_read fail
over_reached = read (inr 2) (read (inl 9) (ran 0) refl) refl

Reach-Ordered_example : Ordered over.calls
Reach-Ordered_example = Reach-Ordered kinds stream false over_reached
