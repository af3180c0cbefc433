-- ===== src/MyAsync/UdpClientSession/Aims.antt =====
-- On where a client of udp sends to.
use xerock.Base.{
  ◌≡◌, refl, Bool, true, false, Option, none, some, List, [], ◌∷◌, ◌++◌, All, All-append, if_lem,
  ◌||◌, Text, codes,
}
use xerock.Base.Run.{Run, done}
use xerock.MyAsync.WriteQueue.{Session, empty}
use xerock.MyAsync.WriteQueue as Queue
use xerock.MyAsync.WriteQueue.Order.{
  session, IsValid, writing-IsValid, completed-IsValid, broken-IsValid,
}
use xerock.MyAsync.UdpClientSession.{
  called_read, Quiets, UdpClient, Event, received, not_received, posted, sent, not_sent, asked,
  open_client, do_read, close, fail, on_read, aim, first, writing, on_write, on_write_failed,
  end_read, end_write, step, run,
}

module _ {Endpoint : Type 0} where
  abbrev pub IsAt : Endpoint → List Endpoint → Type 0
  IsAt peer es = All (λ e. e ≡ peer) es

  aim-IsAt :
      {D : Type 0} (peer e : Endpoint) (o : Option D) (es : List Endpoint)
      → e ≡ peer
      → IsAt peer es
      → IsAt peer (aim e o es)
  unfolding aim
  aim-IsAt peer e none es h a = a
  aim-IsAt peer e (some d) es h a = All-append (λ x. x ≡ peer) es (e ∷ []) a (h, tt)

module _ {D Endpoint Bytes Error : Type 0} where
  abbrev pub IsFrom : Endpoint → Event D Endpoint Bytes Error → Type 0
  IsFrom peer (received sender bytes) = sender ≡ peer
  IsFrom peer (not_received ec r) = Unit
  IsFrom peer (posted d) = Unit
  IsFrom peer sent = Unit
  IsFrom peer (not_sent ec r) = Unit
  IsFrom peer (asked r) = Unit

  abbrev pub IsGood : Endpoint → UdpClient D Endpoint Bytes Error → Type 0
  IsGood peer s = ((ds : List D) × IsValid ds s.out) × (s.endpoint ≡ peer) × IsAt peer s.aims

  abbrev pub Stays : Endpoint → Run (UdpClient D Endpoint Bytes Error) → Type 0
  Stays peer r = (s : UdpClient D Endpoint Bytes Error) × (r ≡ done s) × IsGood peer s

  module _ (E : Quiets Error) (peer : Endpoint) where
    fail-IsGood :
        (ec : Error) (what : Text) (r : Option Error) (s : UdpClient D Endpoint Bytes Error)
        → IsGood peer s
        → IsGood peer (fail E ec what r s)
    unfolding fail close
    fail-IsGood ec what r s g = if_lem (IsGood peer) (E.is_aborted ec || E.is_bad_descriptor ec) g g

    end_read-IsGood :
        (b : Bool) (e : Event D Endpoint Bytes Error) (s : UdpClient D Endpoint Bytes Error)
        → IsFrom peer e
        → IsGood peer s
        → IsGood peer (end_read E b e s)
    unfolding on_read do_read
    end_read-IsGood true (received sender bytes) s f (v, h, a) = (v, f, a)
    end_read-IsGood true (not_received ec r) s f g =
        fail-IsGood ec _ r (record s { is_reading = false }) g
    end_read-IsGood true _ s f g = g
    end_read-IsGood false e s f g = g

    end_write-Stays :
        (o : Option D) (e : Event D Endpoint Bytes Error) (s : UdpClient D Endpoint Bytes Error)
        → s.out.in_flight ≡ o
        → IsGood peer s
        → Stays peer (end_write E o e s)
    unfolding on_write on_write_failed
    end_write-Stays (some d) sent s w ((ds, v), h, a) =
        let (q, e, v') = completed-IsValid ds s.out d v w in
        (
          record s { out = q; aims = aim s.endpoint q.in_flight s.aims },
          rw e refl,
          ((ds, v'), h, aim-IsAt peer s.endpoint q.in_flight s.aims h a),
        )
    end_write-Stays (some d) (not_sent ec r) s w ((ds, v), h, a) =
        let (q, e, v') = broken-IsValid ds s.out ec v in
        (
          fail E ec (codes "write") r (record s { out = q }),
          rw e refl,
          fail-IsGood ec _ r (record s { out = q }) ((ds, v'), h, a),
        )
    end_write-Stays (some d) _ s w g = (s, refl, g)
    end_write-Stays none e s w g = (s, refl, g)

    step-Stays :
        (e : Event D Endpoint Bytes Error) (s : UdpClient D Endpoint Bytes Error)
        → IsFrom peer e
        → IsGood peer s
        → Stays peer (step E e s)
    unfolding step writing close
    step-Stays (received sender bytes) s f g =
        (_, refl, end_read-IsGood s.is_reading (received sender bytes) s f g)
    step-Stays (not_received ec r) s f g =
        (_, refl, end_read-IsGood s.is_reading (not_received ec r) s f g)
    step-Stays (posted d) s f ((ds, v), h, a) =
        let (q, e, v') = writing-IsValid ds s.out d v in
        (
          record s { out = q; aims = aim s.endpoint (first s.out.queue d) s.aims },
          rw e refl,
          ((ds ++ d ∷ [], v'), h, aim-IsAt peer s.endpoint (first s.out.queue d) s.aims h a),
        )
    step-Stays sent s f g = end_write-Stays s.out.in_flight sent s refl g
    step-Stays (not_sent ec r) s f g = end_write-Stays s.out.in_flight (not_sent ec r) s refl g
    step-Stays (asked r) s f g = (_, refl, g)

    run-Stays :
        (es : List (Event D Endpoint Bytes Error)) (s : UdpClient D Endpoint Bytes Error)
        → All (IsFrom peer) es
        → IsGood peer s
        → Stays peer (run E es s)
    run-Stays [] s f g = (s, refl, g)
    run-Stays (e ∷ es) s (f, fs) g =
        let (s₁, h₁, g₁) = step-Stays e s f g in
        let (s₂, h₂, g₂) = run-Stays es s₁ fs g₁ in (s₂, rw h₁ h₂, g₂)

    -- A client of udp that is opened for a peer, and that gets datagrams from this peer alone, goes
    -- through any events without a fault, and starts every operation for the peer.
    pub open_client-aims :
        (es : List (Event D Endpoint Bytes Error))
        → All (IsFrom peer) es
        → (s : UdpClient D Endpoint Bytes Error) × (run E es (open_client peer) ≡ done s)
          × (s.endpoint ≡ peer)
          × IsAt peer s.aims
    unfolding open_client do_read
    open_client-aims es f =
        let (s, h, (v, p, a)) =
          run-Stays es (open_client peer) f
            (([], record { consistent = tt; in_order = refl }), refl, tt) in
        (s, h, p, a)

  -- A datagram of any sender that comes to a client of udp which reads, and has nothing to write,
  -- turns the client: the next message is sent to that sender.
  pub received-turns :
      (E : Quiets Error) (sender : Endpoint) (bytes : Bytes) (d : D)
      (s : UdpClient D Endpoint Bytes Error)
      → s.is_reading ≡ true
      → s.out.queue ≡ []
      → s.out.in_flight ≡ none
      → (s' : UdpClient D Endpoint Bytes Error) × (run E (received sender bytes ∷ posted d ∷ []) s
          ≡ done s')
        × (s'.aims ≡ s.aims ++ sender ∷ [])
        × (s'.out.in_flight ≡ some d)
  unfolding step on_read do_read writing aim Queue.writing
  received-turns E sender bytes d s r q f = (
    record {
      endpoint = sender;
      is_reading = true;
      out = session (d ∷ []) (some d) s.out.sent s.out.failures;
      aims = s.aims ++ sender ∷ [];
      calls = called_read sender bytes ∷ s.calls;
    },
    rw (r, q, f) refl,
    refl,
    refl,
  )
