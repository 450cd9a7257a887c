-- ===== src/Server/Live/Closed.antt =====
-- A connection that was closed: nothing is delivered to it and nothing is written to it.
use weft_warp_loop.Base.{
  ℕ, ◌≡◌, ◌≢◌, refl, sym, ap, ◌∙◌, inl, inr, false, Option, none, some, List, [], ◌∷◌, ◌++◌, arith,
  ◌==◌, ==_iff, Option-cases, Bytes, Dict, lookup, insert, nat_eq, lookup-insert_ne,
  lookup-erase_eq, lookup-erase_ne, All, All-map,
}
use weft_warp_loop.Ffi.{Ffi}
use weft_warp_loop.Server.{Stream, Write, Server, cleanup_stream}
use weft_warp_loop.Server.Callback.{
  Event, stream_data, stream_fin, stream_reset, close, application_close, other, streams_of,
  stream_at, put_stream, on_data, cleanup_all, on_close, callback, on_fin, on_reset, Call, run,
}
use weft_warp_loop.Server.Pump.{pump_stream}
use weft_warp_loop.Server.Live.{Live, Spared, Spared-refl, Spared-trans}
use weft_warp_loop.Server.Live.Cleanup.{cleanup_stream-streams, cleanup_all-Cleaned}
use weft_warp_loop.Server.Live.Pumping.{pump_stream-Safe}
use weft_warp_loop.Server.Live.Events.{put_stream-here, put_stream-Live, callback-Live}
use weft_warp_loop.Server.Live.Writes.{absent, Answers, Wrote, callback-Wrote}

module _ {C : Type 0} where
  -- The tables have nothing of the connection.
  pub record Gone (s : Server C) (cnx : ℕ) : Type 0 where
    pub streams_none : lookup cnx s.streams ≡ none
    pub delivery_none : lookup cnx s.delivery ≡ none

  -- With the streams, the delivery stream is gone too.
  streams-Gone : (s : Server C) (cnx : ℕ) → Live s → lookup cnx s.streams ≡ none → Gone s cnx
  streams-Gone s cnx l e = record {
    streams_none = e;
    delivery_none = elim (Option-cases (lookup cnx s.delivery)) [
      | inl e' ↦ e'
      | inr ((a, i), f) ↦
          let (own, h) = l cnx a i f in
          absurd (ground (arith, absent s.streams cnx i e, rw own at h))
    ];
  }

module _ (ffi : Ffi) (s : Server ffi.State) (l : Live s) (cnx : ℕ) where
  on_close-none :
      (r : Option (Dict ℕ Stream))
      → lookup cnx s.streams ≡ r
      → lookup cnx (on_close ffi s cnx r).streams ≡ none
  on_close-none none e = e
  on_close-none (some m) e =
      lookup-erase_eq cnx cnx (cleanup_all ffi s cnx m).streams ((==_iff cnx cnx).1 refl)

  callback-closed :
      (stream : ℕ) (bytes : Bytes) (rtt : ℕ)
      → lookup cnx (callback ffi close s cnx stream bytes rtt).streams ≡ none
  unfolding callback
  callback-closed stream bytes rtt = on_close-none (lookup cnx s.streams) refl

  -- After a close event of a connection, neither the table of streams nor the table of delivery
  -- streams has an entry for it, provided that the delivery entries before named streams that are
  -- there.
  pub callback-Gone :
      (stream : ℕ) (bytes : Bytes) (rtt : ℕ) → Gone (callback ffi close s cnx stream bytes rtt) cnx
  callback-Gone stream bytes rtt =
      streams-Gone (callback ffi close s cnx stream bytes rtt) cnx
        (callback-Live ffi s l cnx stream close bytes rtt) (callback-closed stream bytes rtt)

-- A connection's events leave the streams of another as they are.
module _ (ffi : Ffi) (s : Server ffi.State) (l : Live s) (cnx stream other_cnx : ℕ)
    (apart : (cnx == other_cnx) ≡ false) where
  on_data-elsewhere :
      (bytes : Bytes) (rtt : ℕ)
      → lookup other_cnx (on_data ffi s cnx stream bytes rtt).0.streams ≡ lookup other_cnx s.streams
  unfolding on_data
  on_data-elsewhere bytes rtt =
      let old = stream_at s cnx stream in
      let st = record old { buf = old.buf ++ bytes } in
      let ready = put_stream s cnx stream st in
      let pumped =
        pump_stream-Safe ffi ready cnx stream rtt st (put_stream-Live s cnx stream st l)
          (put_stream-here s cnx stream st) in
      lookup-insert_ne cnx other_cnx _ (pump_stream ffi ready cnx stream rtt st).1.streams apart
      ∙ ap (lookup other_cnx) pumped.same
      ∙ lookup-insert_ne cnx other_cnx (insert stream st (streams_of s cnx)) s.streams apart

  on_fin-elsewhere :
      (r : Server ffi.State × Stream)
      → lookup other_cnx (on_fin ffi r cnx stream).streams ≡ lookup other_cnx r.0.streams
  on_fin-elsewhere (t, st) =
      lookup-insert_ne cnx other_cnx _ (cleanup_stream ffi t cnx stream st).streams apart
      ∙ ap (lookup other_cnx) (cleanup_stream-streams ffi t cnx stream st)

  on_reset-elsewhere :
      (r : Option Stream)
      → lookup other_cnx (on_reset ffi s cnx stream r).streams ≡ lookup other_cnx s.streams
  on_reset-elsewhere none = refl
  on_reset-elsewhere (some st) = on_fin-elsewhere (s, st)

  on_close-elsewhere :
      (r : Option (Dict ℕ Stream))
      → lookup other_cnx (on_close ffi s cnx r).streams ≡ lookup other_cnx s.streams
  on_close-elsewhere none = refl
  on_close-elsewhere (some m) =
      lookup-erase_ne cnx other_cnx (cleanup_all ffi s cnx m).streams apart
      ∙ ap (lookup other_cnx) (cleanup_all-Cleaned ffi cnx s m l).streams_eq

  callback-elsewhere :
      (event : Event) (bytes : Bytes) (rtt : ℕ)
      → lookup other_cnx (callback ffi event s cnx stream bytes rtt).streams
        ≡ lookup other_cnx s.streams
  unfolding callback
  callback-elsewhere stream_data bytes rtt = on_data-elsewhere bytes rtt
  callback-elsewhere stream_fin bytes rtt =
      on_fin-elsewhere (on_data ffi s cnx stream bytes rtt) ∙ on_data-elsewhere bytes rtt
  callback-elsewhere stream_reset bytes rtt = on_reset-elsewhere (lookup stream (streams_of s cnx))
  callback-elsewhere close bytes rtt = on_close-elsewhere (lookup cnx s.streams)
  callback-elsewhere application_close bytes rtt = on_close-elsewhere (lookup cnx s.streams)
  callback-elsewhere other bytes rtt = refl

Wrote-Spared :
    {C : Type 0} (s t : Server C) (cnx stream gone : ℕ)
    → lookup gone s.streams ≡ none
    → cnx ≢ gone
    → Wrote s t cnx stream
    → Spared s t gone
Wrote-Spared s t cnx stream gone e apart h = record {
  written = h.written;
  sent_eq = h.sent_eq;
  spared = All-map {Q = λ (w : Write). w.cnx ≢ gone} spare h.written h.answers;
}
  where
    spare : (w : Write) → Answers s cnx stream w → w.cnx ≢ gone
    spare w (inl there) here = ground (arith, absent s.streams gone w.stream e, rw here at there)
    spare w (inr (own, _)) here = apart (sym own ∙ here)

-- Once the table of streams has nothing of a connection, as after it was closed, any sequence of
-- calls of the callback that are all about other connections writes nothing to that connection. It
-- holds from every state whose delivery entries name streams that are there.
pub run-Spared :
    (ffi : Ffi) (s : Server ffi.State) (cnx : ℕ) (calls : List Call)
    → Live s
    → lookup cnx s.streams ≡ none
    → All (λ (c : Call). c.cnx ≢ cnx) calls
    → Spared s (run ffi s calls) cnx
unfolding run
run-Spared ffi s cnx [] l e h = Spared-refl s cnx
run-Spared ffi s cnx (c ∷ cs) l e (apart, h) =
    let t = callback ffi c.event s c.cnx c.stream c.bytes c.rtt in
    let far : (c.cnx == cnx) ≡ false = ground (arith, apart) in
    Spared-trans
      (Wrote-Spared s t c.cnx c.stream cnx e apart
        (callback-Wrote ffi s l c.cnx c.stream c.event c.bytes c.rtt))
      (run-Spared ffi t cnx cs (callback-Live ffi s l c.cnx c.stream c.event c.bytes c.rtt)
        (callback-elsewhere ffi s l c.cnx c.stream cnx far c.event c.bytes c.rtt ∙ e) h)

-- Over any sequence of calls of the callback, from a state where this holds, every entry of the
-- delivery table stands under the connection it names and names a stream that is in the table of
-- streams.
pub run-Live :
    (ffi : Ffi) (s : Server ffi.State) (calls : List Call) → Live s → Live (run ffi s calls)
unfolding run
run-Live ffi s [] l = l
run-Live ffi s (c ∷ cs) l =
    run-Live ffi (callback ffi c.event s c.cnx c.stream c.bytes c.rtt) cs
      (callback-Live ffi s l c.cnx c.stream c.event c.bytes c.rtt)
