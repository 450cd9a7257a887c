-- ===== src/Server/Live/Writes.antt =====
-- What the stream callback writes, and what is left of a connection that was closed.
use weft_warp_loop.Base.{
  ℕ, ◌≡◌, refl, sym, ◌∙◌, ◌⊎◌, inl, inr, true, false, Option, none, some, List, [], ◌++◌,
  append-nil, ◌==◌, ==_iff, Bool-cases, Bytes, Dict, lookup, insert, nat_eq, lookup-insert, All,
  All-map,
}
use weft_warp_loop.Ffi.{Ffi}
use weft_warp_loop.Server.{Stream, Write, Server}
use weft_warp_loop.Server.Callback.{
  Event, stream_data, stream_fin, stream_reset, close, application_close, other, streams_of,
  stream_at, put_stream, on_data, on_close, callback, on_fin, on_reset,
}
use weft_warp_loop.Server.Live.{has_stream, Live, IsOpen}
use weft_warp_loop.Server.Live.Cleanup.{cleanup_stream-sent, cleanup_all-Cleaned}
use weft_warp_loop.Server.Live.Pumping.{pump_stream-Safe}
use weft_warp_loop.Server.Live.Events.{has_stream-insert, put_stream-here, put_stream-Live}

module _ {C : Type 0} where
  -- The write goes to a stream that was there before, or to the event's own.
  abbrev pub Answers : Server C → ℕ → ℕ → Write → Type 0
  Answers s cnx stream w =
      (has_stream s.streams w.cnx w.stream ≡ true) ⊎ ((w.cnx ≡ cnx) × (w.stream ≡ stream))

  pub record Wrote (s t : Server C) (cnx stream : ℕ) : Type 0 where
    pub written : List Write
    pub sent_eq : t.sent ≡ s.sent ++ written
    pub answers : All (Answers s cnx stream) written

  silent : (s t : Server C) (cnx stream : ℕ) → t.sent ≡ s.sent → Wrote s t cnx stream
  silent s t cnx stream e = record {
    written = [];
    sent_eq = e ∙ sym (append-nil s.sent);
    answers = tt;
  }

  put_stream-back :
      (s : Server C) (cnx stream : ℕ) (st : Stream) (w : Write)
      → IsOpen (put_stream s cnx stream st) w
      → Answers s cnx stream w
  put_stream-back s cnx stream st w h =
      let f =
        sym (has_stream-insert s.streams cnx (insert stream st (streams_of s cnx)) w.cnx w.stream)
        ∙ h in
      elim (Bool-cases (cnx == w.cnx)) [
        | inl own ↦ elim (Bool-cases (stream == w.stream)) [
          | inl this ↦ inr (sym ((==_iff cnx w.cnx).0 own), sym ((==_iff stream w.stream).0 this))
          | inr that ↦
              let g = rw (own, lookup-insert stream w.stream st (streams_of s cnx), that) at f in
              inl (rw (← (==_iff cnx w.cnx).0 own) g)
        ]
        | inr apart ↦ inl (rw apart at f)
      ]

module _ (ffi : Ffi) (s : Server ffi.State) (l : Live s) (cnx stream : ℕ) where
  on_data-Wrote :
      (bytes : Bytes) (rtt : ℕ) → Wrote s (on_data ffi s cnx stream bytes rtt).0 cnx stream
  unfolding on_data
  on_data-Wrote bytes rtt =
      let old = stream_at s cnx stream in
      let st = record old { buf = old.buf ++ bytes } in
      let ready = put_stream s cnx stream st in
      let pumped =
        pump_stream-Safe ffi ready cnx stream rtt st (put_stream-Live s cnx stream st l)
          (put_stream-here s cnx stream st) in
      record {
        written = pumped.written;
        sent_eq = pumped.sent_eq;
        answers = All-map (put_stream-back s cnx stream st) pumped.written pumped.opened;
      }

  on_fin-Wrote :
      (r : Server ffi.State × Stream)
      → Wrote s r.0 cnx stream
      → Wrote s (on_fin ffi r cnx stream) cnx stream
  on_fin-Wrote (t, st) h = record {
    written = h.written;
    sent_eq = cleanup_stream-sent ffi t cnx stream st ∙ h.sent_eq;
    answers = h.answers;
  }

  on_reset-Wrote : (r : Option Stream) → Wrote s (on_reset ffi s cnx stream r) cnx stream
  on_reset-Wrote none = silent s s cnx stream refl
  on_reset-Wrote (some st) = silent s _ cnx stream (cleanup_stream-sent ffi s cnx stream st)

  on_close-Wrote : (r : Option (Dict ℕ Stream)) → Wrote s (on_close ffi s cnx r) cnx stream
  on_close-Wrote none = silent s s cnx stream refl
  on_close-Wrote (some m) = silent s _ cnx stream (cleanup_all-Cleaned ffi cnx s m l).sent_eq

  -- All that one call of the callback writes, whichever event it is, goes to streams that had an
  -- entry before the call or to the stream that the event is about, provided that the delivery
  -- entries before named streams that are there.
  pub callback-Wrote :
      (event : Event) (bytes : Bytes) (rtt : ℕ)
      → Wrote s (callback ffi event s cnx stream bytes rtt) cnx stream
  unfolding callback
  callback-Wrote stream_data bytes rtt = on_data-Wrote bytes rtt
  callback-Wrote stream_fin bytes rtt =
      on_fin-Wrote (on_data ffi s cnx stream bytes rtt) (on_data-Wrote bytes rtt)
  callback-Wrote stream_reset bytes rtt = on_reset-Wrote (lookup stream (streams_of s cnx))
  callback-Wrote close bytes rtt = on_close-Wrote (lookup cnx s.streams)
  callback-Wrote application_close bytes rtt = on_close-Wrote (lookup cnx s.streams)
  callback-Wrote other bytes rtt = silent s s cnx stream refl

-- A table without the connection has none of its streams.
pub absent :
    (m : Dict ℕ (Dict ℕ Stream)) (cnx i : ℕ) → lookup cnx m ≡ none → has_stream m cnx i ≡ false
unfolding lookup
absent m cnx i e = rw e refl
