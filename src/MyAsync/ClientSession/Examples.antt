-- ===== src/MyAsync/ClientSession/Examples.antt =====
-- Tests and instances for the client of tcp.
use xerock.Base.{ℕ, suc, ◌+◌, ◌≡◌, ◌==◌, refl, true, inl, inr, none, some, [], ◌∷◌, codes}
use xerock.MyAsync.WriteQueue.{empty}
use xerock.MyAsync.ServerSession.{Stream}
use xerock.MyAsync.ClientSession.{
  Kinds, called_back, called_open, called_read, called_error, called_close, nothing, ClientSession,
  open_cb, opened_cb, on_handshake_cb, connected, on_read, do_read, fail, Reach, asked_open, met,
  shaken, read,
}
use xerock.MyAsync.ClientSession.Answer.{answers, unanswered, Announced, Reach-answers}

-- Messages, what is read, errors and the stream are numbers here.
abbrev kinds : Kinds ℕ
kinds = record {
  is_aborted = λ ec. ec == 125;
  is_eof = λ ec. ec == 2;
  is_truncated = λ ec. ec == 1;
  is_refused = λ ec. ec == 111;
}

abbrev stream : Stream ℕ ℕ
stream = record { shutdown = λ n. (n, none); cancel = λ n. (n, none); close = λ n. (suc n, none) }

-- Over SSL a message came in, and the stream was cut.
abbrev cut : ClientSession ℕ ℕ ℕ ℕ
cut = record {
  pending = nothing;
  out = empty;
  calls = called_close 1 ∷ called_read 9 ∷ called_open ∷ called_back none ∷ [];
  posted = 0;
  stream = 0;
}

cut_reached : Reach kinds true stream cut
unfolding open_cb opened_cb connected on_handshake_cb on_read do_read fail
cut_reached =
    read (inr 1) (read (inl 9) (shaken none (met none (asked_open 0) refl) refl) refl) refl

Reach-answers_example : (answers cut.calls + unanswered cut.pending ≡ 1) × Announced cut.calls
Reach-answers_example = Reach-answers kinds true cut_reached

-- A refused connection: on_error is called, and on_close is not.
abbrev refused : ClientSession ℕ ℕ ℕ ℕ
refused = record {
  pending = nothing;
  out = empty;
  calls = called_error 111 (codes "open") ∷ called_back (some 111) ∷ [];
  posted = 0;
  stream = 0;
}

refused_reached : Reach kinds true stream refused
unfolding open_cb opened_cb fail
refused_reached = met (some 111) (asked_open 0) refl
