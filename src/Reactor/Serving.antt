-- ===== src/Reactor/Serving.antt =====
-- What ends the server's loop, and what it has handed to picoquic until then.
use weft_warp_loop.Base.{
  ℕ, suc, true, ◌≡◌, refl, sym, ap, ◌∙◌, some, List, [], ◌∷◌, ◌++◌, append_assoc, append-nil, arith,
  Bytes, lookup, nat_eq,
}
use weft_warp_loop.Ffi.{Ffi}
use weft_warp_loop.Server.Callback.{Call, run}
use weft_warp_loop.Server.Live.{Live}
use weft_warp_loop.Server.Live.Closed.{run-Live}
use weft_warp_loop.Reactor.Engine.{
  Engine, Finite, Ran, ran, threw, DrainResult, all_sent, broke_off, Fails, drain-Drained,
}
use weft_warp_loop.Reactor.Serve.{
  Wake, recv_error, timer, recv_v6, recv_v4, Serving, on_wake, serve_round, and_then, serve,
  starting, fanout_server,
}

-- The datagrams of the IPv4 wakes, in their order.
abbrev pub datagrams : List Wake → List (ℕ × Bytes)
datagrams [] = []
datagrams (recv_error ∷ ws) = datagrams ws
datagrams (timer ∷ ws) = datagrams ws
datagrams (recv_v6 bytes ∷ ws) = datagrams ws
datagrams (recv_v4 peer bytes ∷ ws) = (peer, bytes) ∷ datagrams ws

abbrev first_of : List Wake → Wake
first_of [] = timer
first_of (w ∷ ws) = w

same_first : (w v : Wake) (ws vs : List Wake) → w ∷ ws ≡ v ∷ vs → w ≡ v
same_first w v ws vs e = ap first_of e

module _ (ffi : Ffi) (engine : Engine Call) (finite : Finite engine) where
  -- The loop is where it was, after wakes that handed these datagrams over.
  pub record Served (l l' : Serving ffi engine) (came : List (ℕ × Bytes)) : Type 0 where
    pub one_read : l'.outstanding ≡ 1
    pub all_handed : l'.handed ≡ l.handed ++ came
    pub live : Live l'.app

  -- It goes on after all its wakes, or an error of a send was thrown after the first of them.
  pub data ServeResult (l : Serving ffi engine) (wakes : List Wake) (r : Ran (Serving ffi engine))
      : Type 0 where
    goes_on :
        (l' : Serving ffi engine)
        → r ≡ ran l'
        → Served l l' (datagrams wakes)
        → ServeResult l wakes r
    ended :
        (l' : Serving ffi engine) (came later : List Wake)
        → r ≡ threw l'
        → wakes ≡ came ++ later
        → Fails engine (run ffi)
        → Served l l' (datagrams came)
        → ServeResult l wakes r

  on_wake-Served :
      (l : Serving ffi engine) (w : Wake)
      → l.outstanding ≡ 1
      → Live l.app
      → Served l (on_wake ffi engine l w) (datagrams (w ∷ []))
  on_wake-Served l recv_error o i =
      rw o (record { one_read = refl; all_handed = sym (append-nil l.handed); live = i })
  on_wake-Served l timer o i = record {
    one_read = o;
    all_handed = sym (append-nil l.handed);
    live = i;
  }
  on_wake-Served l (recv_v6 bytes) o i =
      rw o (record { one_read = refl; all_handed = sym (append-nil l.handed); live = i })
  on_wake-Served l (recv_v4 peer bytes) o i = rw o (record {
    one_read = refl;
    all_handed = refl;
    live = run-Live ffi l.app (engine.incoming peer bytes l.quic).2 i;
  })

  serve_round-ServeResult :
      (l : Serving ffi engine) (w : Wake)
      → l.outstanding ≡ 1
      → Live l.app
      → ServeResult l (w ∷ []) (serve_round ffi engine finite.backlog l w)
  serve_round-ServeResult l w o i =
      let m = on_wake ffi engine l w in
      let a = on_wake-Served l w o i in
      go m a (serve_round ffi engine finite.backlog l w) (
        drain-Drained engine (run ffi) finite Live (λ s calls h. run-Live ffi s calls h) true
          (suc (finite.backlog m.quic)) m a.live (omega arith))
    where
      go :
          (m : Serving ffi engine)
          → Served l m (datagrams (w ∷ []))
          → (r : Ran (Serving ffi engine)) → DrainResult engine (run ffi) true Live m r
          → ServeResult l (w ∷ []) r
      go m a r (all_sent l' e d) = goes_on l' e (record {
        one_read = d.outstanding_eq ∙ a.one_read;
        all_handed = d.handed_eq ∙ a.all_handed;
        live = d.kept;
      })
      go m a r (broke_off l' e waited f d) = ended l' (w ∷ []) [] e refl f (record {
        one_read = d.outstanding_eq ∙ a.one_read;
        all_handed = d.handed_eq ∙ a.all_handed;
        live = d.kept;
      })

  datagrams_one :
      (w : Wake) (ws : List Wake) → datagrams (w ∷ []) ++ datagrams ws ≡ datagrams (w ∷ ws)
  datagrams_one recv_error ws = refl
  datagrams_one timer ws = refl
  datagrams_one (recv_v6 bytes) ws = refl
  datagrams_one (recv_v4 peer bytes) ws = refl

  -- After one wake and then others.
  Served-trans :
      (w : Wake) (ws : List Wake) (l m l' : Serving ffi engine)
      → Served l m (datagrams (w ∷ []))
      → Served m l' (datagrams ws)
      → Served l l' (datagrams (w ∷ ws))
  Served-trans w ws l m l' a b = record {
    one_read = b.one_read;
    all_handed =
        b.all_handed
        ∙ ap (λ h. h ++ datagrams ws) a.all_handed
        ∙ append_assoc l.handed (datagrams (w ∷ [])) (datagrams ws)
        ∙ ap (λ d. l.handed ++ d) (datagrams_one w ws);
    live = b.live;
  }

  later_wakes :
      (w : Wake) (wakes : List Wake) (l m : Serving ffi engine) (r : Ran (Serving ffi engine))
      → Served l m (datagrams (w ∷ []))
      → ServeResult m wakes r
      → ServeResult l (w ∷ wakes) r
  later_wakes w wakes l m r a (goes_on l' e b) = goes_on l' e (Served-trans w wakes l m l' a b)
  later_wakes w wakes l m r a (ended l' came later e split f b) =
      ended l' (w ∷ came) later e (ap (λ ws. w ∷ ws) split) f (Served-trans w came l m l' a b)

  first_wake :
      (w : Wake) (wakes : List Wake) (l : Serving ffi engine) (r : Ran (Serving ffi engine))
      (next : Serving ffi engine → Ran (Serving ffi engine))
      → ((m : Serving ffi engine) → m.outstanding ≡ 1 → Live m.app → ServeResult m wakes (next m))
      → ServeResult l (w ∷ []) r
      → ServeResult l (w ∷ wakes) (and_then ffi engine r next)
  first_wake w wakes l r next h (goes_on m e a) =
      rw e (later_wakes w wakes l m (next m) a (h m a.one_read a.live))
  first_wake w wakes l r next h (ended m [] later e split f a) =
      rw e (ended m [] (w ∷ wakes) refl refl f a)
  first_wake w wakes l r next h (ended m (v ∷ []) later e split f a) =
      rw e (ended m (w ∷ []) wakes refl refl f (rw (same_first w v [] later split) a))
  first_wake w wakes l r next h (ended m (v ∷ u ∷ came) later e split f a) = absurd (ground arith)

  serve-ServeResult :
      (wakes : List Wake) (l : Serving ffi engine)
      → l.outstanding ≡ 1
      → Live l.app
      → ServeResult l wakes (serve ffi engine finite.backlog wakes l)
  unfolding serve
  serve-ServeResult [] l o i =
      goes_on l refl (record { one_read = o; all_handed = sym (append-nil l.handed); live = i })
  serve-ServeResult (w ∷ wakes) l o i =
      first_wake w wakes l (serve_round ffi engine finite.backlog l w)
        (serve ffi engine finite.backlog wakes) (λ m o' i'. serve-ServeResult wakes m o' i')
        (serve_round-ServeResult l w o i)

  -- Whatever wakes the loop of fanoutServer, in whichever order, it has a result, of one of two
  -- kinds. It goes on after all its wakes, with one read outstanding, every IPv4 datagram handed
  -- to picoquic in the order they came, and delivery entries that name streams that are there. Or
  -- a send has ended with an error, which the plain wait throws; then the same holds of the wakes
  -- until that one. So neither a read error nor an IPv6 sender nor a negative count of a send ends
  -- it. It assumes that picoquic has only so many datagrams ready at a time.
  pub fanout_server-Served :
      (quic : engine.State) (core : ffi.State) (wakes : List Wake)
      → (r : Ran (Serving ffi engine)) × (fanout_server ffi engine finite.backlog
            (some quic)
            core
            wakes
          ≡ some r)
        × ServeResult (starting ffi engine quic core) wakes r
  unfolding fanout_server lookup
  fanout_server-Served quic core wakes = (
    serve ffi engine finite.backlog wakes (starting ffi engine quic core),
    refl,
    serve-ServeResult wakes (starting ffi engine quic core) refl (λ c a i f. absurd (ground arith)),
  )
