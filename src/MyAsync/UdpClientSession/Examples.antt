-- ===== src/MyAsync/UdpClientSession/Examples.antt =====
-- Tests and instances for a client of udp. Endpoints, messages and errors are numbers here.
use xerock.Base.{ℕ, ◌≡◌, ◌==◌, refl, some, none, List, [], ◌∷◌}
use xerock.Base.Run.{done}
use xerock.MyAsync.UdpClientSession.{
  Quiets, UdpClient, Event, received, posted, sent, not_sent, asked, open_client, do_read, run,
}
use xerock.MyAsync.UdpClientSession.Aims.{IsAt, open_client-aims, received-turns}

abbrev quiets : Quiets ℕ
quiets = record { is_aborted = λ ec. ec == 125; is_bad_descriptor = λ ec. ec == 9 }

abbrev talk : List (Event ℕ ℕ ℕ ℕ)
talk = posted 1 ∷ posted 2 ∷ received 80 5 ∷ sent ∷ not_sent 111 none ∷ asked none ∷ []

open_client-aims_example :
    (s : UdpClient ℕ ℕ ℕ ℕ) × (run quiets talk (open_client 80) ≡ done s)
    × (s.endpoint ≡ 80)
    × IsAt 80 s.aims
open_client-aims_example = open_client-aims quiets 80 talk (tt, (tt, (refl, (tt, (tt, (tt, tt))))))

-- A client that was opened for 80, and is sent a datagram by 81.
received-turns_example :
    (s : UdpClient ℕ ℕ ℕ ℕ) × (run quiets (received 81 5 ∷ posted 1 ∷ []) (open_client 80) ≡ done s)
    × (s.aims ≡ 81 ∷ [])
    × (s.out.in_flight ≡ some 1)
unfolding open_client do_read
received-turns_example = received-turns quiets 81 5 1 (open_client 80) refl refl refl
