-- ===== src/Server/Pump/Chunks.antt =====
-- The loop of `pumpStream` as a whole: it ends, and how a stream is cut into events does not matter.
use weft_warp_loop.Base.{
  ℕ, zero, suc, ◌<◌, ◌≡◌, refl, ◌⊎◌, inl, inr, Bool, true, false, Option, none, some, arith, Bytes,
  length,
}
use weft_warp_loop.Ffi.{Ffi}
use weft_warp_loop.Server.{Stream, Server}
use weft_warp_loop.Server.Pump.{Round, again, waits, refuses, settle, pump_round, pump, pump_stream}
use weft_warp_loop.Server.Pump.Rounds.{received, Shrinks, pump_round-Shrinks}
use weft_warp_loop.Server.Pump.Received.{pump_round-Extends}

module _ (ffi : Ffi) (cnx stream rtt : ℕ) where
  abbrev Out : Type 0
  Out = Bool × Server ffi.State × Stream

  -- The rounds of one call, to its return.
  pub data Pumps : Server ffi.State → Stream → Out → Type 0 where
    wait :
        {s : Server ffi.State} {st : Stream}
        → pump_round ffi s cnx stream rtt st ≡ waits
        → Pumps s st (false, s, st)
    refuse :
        {s s' : Server ffi.State} {st st' : Stream}
        → pump_round ffi s cnx stream rtt st ≡ refuses s' st'
        → Pumps s st (true, s', st')
    go_on :
        {s s' : Server ffi.State} {st st' : Stream} {out : Out}
        → pump_round ffi s cnx stream rtt st ≡ again s' st'
        → Pumps s' st' out
        → Pumps s st out

  abbrev Ended : Server ffi.State → Stream → Option Out → Type 0
  Ended s st r = (out : Out) × (r ≡ some out) × Pumps s st out

  settle-Ended :
      (f : ℕ) (s : Server ffi.State) (st : Stream) (r : Round ffi.State)
      → pump_round ffi s cnx stream rtt st ≡ r
      → Shrinks (length st.buf) r
      → ((s' : Server ffi.State) (st' : Stream)
          → length st'.buf < length st.buf
          → Ended s' st' (pump ffi f s' cnx stream rtt st'))
      → Ended s st (settle ffi s st (λ s' st'. pump ffi f s' cnx stream rtt st') r)
  settle-Ended f s st (again s' st') e h ih =
      let (out, ran, d) = ih s' st' h in (out, ran, go_on e d)
  settle-Ended f s st waits e h ih = ((false, s, st), refl, wait e)
  settle-Ended f s st (refuses s' st') e h ih = ((true, s', st'), refl, refuse e)

  pump-Ended :
      (f : ℕ) (s : Server ffi.State) (st : Stream)
      → length st.buf < f
      → Ended s st (pump ffi f s cnx stream rtt st)
  unfolding pump
  pump-Ended zero s st h = absurd (omega arith)
  pump-Ended (suc f) s st h =
      settle-Ended f s st (pump_round ffi s cnx stream rtt st) refl
        (pump_round-Shrinks ffi s cnx stream rtt st) (λ s' st' l. pump-Ended f s' st' (omega arith))

  -- The loop of pumpStream returns, from every server and stream state: the fuel of one round more
  -- than the buffer has bytes is enough, and the result is that of the rounds run one after
  -- another until one of them returns.
  pub pump_stream-Pumps :
      (s : Server ffi.State) (st : Stream)
      → (pump ffi (suc (length st.buf)) s cnx stream rtt st
          ≡ some (pump_stream ffi s cnx stream rtt st))
        × Pumps s st (pump_stream ffi s cnx stream rtt st)
  unfolding pump_stream
  pump_stream-Pumps s st =
      let (out, ran, d) = pump-Ended (suc (length st.buf)) s st (omega arith) in rw ran (refl, d)

  -- Fuel changes whether a result is reached, not which.
  pump-Pumps :
      (f : ℕ) {s : Server ffi.State} {st : Stream} {out : Out}
      → Pumps s st out
      → (pump ffi f s cnx stream rtt st ≡ none) ⊎ (pump ffi f s cnx stream rtt st ≡ some out)
  unfolding pump
  pump-Pumps zero d = inl refl
  pump-Pumps (suc f) (wait e) = inr (rw (e, settle))
  pump-Pumps (suc f) (refuse e) = inr (rw (e, settle))
  pump-Pumps (suc f) (go_on e d) = rw (e, settle) (pump-Pumps f d)

  -- The rounds have one result.
  pub Pumps-pump_stream :
      {s : Server ffi.State} {st : Stream} {out : Out}
      → Pumps s st out
      → pump_stream ffi s cnx stream rtt st ≡ out
  Pumps-pump_stream {s} {st} {out} d =
      let (ran, _) = pump_stream-Pumps s st in
      elim (pump-Pumps (suc (length st.buf)) d) [ inl stuck ↦ cc | inr got ↦ cc ]

  Pumps-received :
      {s : Server ffi.State} {st : Stream} {first out : Out} (more : Bytes)
      → Pumps s st first
      → first.0 ≡ false
      → Pumps first.1 (received first.2 more) out
      → Pumps s (received st more) out
  Pumps-received more (wait e) w d = d
  Pumps-received more (refuse e) w d = absurd (cc)
  Pumps-received {s} {st} more (go_on e p) w d =
      go_on (rw e at (pump_round-Extends ffi s cnx stream more rtt st)) (Pumps-received more p w d)

  -- If the loop did not return because it refused a header line, then running it on a buffer with
  -- more bytes at its end gives what running it first, and then again on what is left with those
  -- bytes appended, gives: the same server, the same stream state. Both runs have the same round-
  -- trip time. So how the bytes of a stream are cut into events does not matter, as long as no
  -- line is refused and that time does not change.
  pub pump_stream-received :
      (s : Server ffi.State) (st : Stream) (more : Bytes)
      → (pump_stream ffi s cnx stream rtt st).0 ≡ false
      → let (refused, s', st') = pump_stream ffi s cnx stream rtt st in
        pump_stream ffi s cnx stream rtt (received st more)
        ≡ pump_stream ffi s' cnx stream rtt (received st' more)
  pump_stream-received s st more w =
      Pumps-pump_stream (Pumps-received more (pump_stream-Pumps s st).1 w (pump_stream-Pumps _ _).1)
