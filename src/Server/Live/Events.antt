-- ===== src/Server/Live/Events.antt =====
-- The stream callback under the invariant of delivery streams.
use weft_warp_loop.Base.{
  ℕ, ◌≡◌, ◌≢◌, refl, sym, ◌∙◌, inl, inr, true, false, Option, none, some, ◌++◌, arith, ◌==◌, ==_iff,
  ==-refl, if◌then◌else◌, Bool-cases, is_some, Bytes, Dict, lookup, insert, erase, nat_eq, bytes_eq,
  lookup-insert, lookup-erase_ne,
}
use weft_warp_loop.Ffi.{Ffi}
use weft_warp_loop.Server.{Stream, Server, cleanup_stream}
use weft_warp_loop.Server.Callback.{
  Event, stream_data, stream_fin, stream_reset, close, application_close, other, streams_of,
  stream_at, put_stream, drop_stream, on_data, cleanup_all, on_close, callback, on_fin, on_reset,
}
use weft_warp_loop.Server.Pump.{pump_stream}
use weft_warp_loop.Server.Live.{has_stream, Live}
use weft_warp_loop.Server.Live.Cleanup.{
  Kept, cleanup_stream-Kept, cleanup_stream-streams, cleanup_all-Cleaned,
}
use weft_warp_loop.Server.Live.Pumping.{pump_stream-Safe}

-- How the table of streams answers after an entry was set.
pub has_stream-insert :
    (m : Dict ℕ (Dict ℕ Stream)) (cnx : ℕ) (inner : Dict ℕ Stream) (a i : ℕ)
    → has_stream (insert cnx inner m) a i
      ≡ (if cnx == a then is_some (lookup i inner) else has_stream m a i)
has_stream-insert m cnx inner a i = elim (Bool-cases (cnx == a)) [
  | inl same ↦ rw (lookup-insert cnx a inner m, same)
  | inr apart ↦ rw (lookup-insert cnx a inner m, apart)
]

module _ {C : Type 0} (s : Server C) (cnx stream : ℕ) (st : Stream) where
  pub put_stream-here : has_stream (put_stream s cnx stream st).streams cnx stream ≡ true
  put_stream-here =
      has_stream-insert s.streams cnx _ cnx stream
      ∙ rw (==-refl cnx, lookup-insert stream stream st (streams_of s cnx), ==-refl stream)

  -- No stream is lost by it.
  put_stream-keeps :
      (a i : ℕ)
      → has_stream s.streams a i ≡ true
      → has_stream (put_stream s cnx stream st).streams a i ≡ true
  put_stream-keeps a i h =
      has_stream-insert s.streams cnx (insert stream st (streams_of s cnx)) a i
      ∙ elim (Bool-cases (cnx == a)) [
        | inl same ↦
            rw (same, lookup-insert stream i st (streams_of s cnx))
              (elim (Bool-cases (stream == i)) [
                | inl this ↦ rw this
                | inr that ↦ rw (that, (==_iff cnx a).0 same) h
              ])
        | inr apart ↦ rw apart h
      ]

  pub put_stream-Live : Live s → Live (put_stream s cnx stream st)
  put_stream-Live l c a i e = (let (p, h) = l c a i e in (p, put_stream-keeps a i h))

-- An ended stream leaves the table, and nothing is delivered there any more.
module _ {C : Type 0} (s t : Server C) (cnx stream : ℕ) (same : t.streams ≡ s.streams) where
  drop_stream-keeps :
      (a i : ℕ)
      → (a ≡ cnx → i ≢ stream)
      → has_stream s.streams a i ≡ true
      → has_stream (drop_stream t cnx stream).streams a i ≡ true
  drop_stream-keeps a i apart h =
      has_stream-insert t.streams cnx (erase stream (streams_of t cnx)) a i
      ∙ elim (Bool-cases (cnx == a)) [
        | inl own ↦
            let here : a ≡ cnx = sym ((==_iff cnx a).0 own) in
            let past : (stream == i) ≡ false = ground (arith, apart here) in
            rw (own, lookup-erase_ne stream i (streams_of t cnx) past, same, (==_iff cnx a).0 own) h
        | inr far ↦ rw (far, same) h
      ]

  pub drop_stream-Live : Live s → Kept s t cnx stream → Live (drop_stream t cnx stream)
  drop_stream-Live l k c a i e =
      let (was, apart) = k c a i e in
      let (own, h) = l c a i was in (own, drop_stream-keeps a i (λ x. apart (sym own ∙ x)) h)

module _ (ffi : Ffi) (s : Server ffi.State) (l : Live s) (cnx stream : ℕ) where
  pub on_data-Live : (bytes : Bytes) (rtt : ℕ) → Live (on_data ffi s cnx stream bytes rtt).0
  unfolding on_data
  on_data-Live bytes rtt =
      let old = stream_at s cnx stream in
      let st = record old { buf = old.buf ++ bytes } in
      let ready = put_stream s cnx stream st in
      let pumped =
        pump_stream-Safe ffi ready cnx stream rtt st (put_stream-Live s cnx stream st l)
          (put_stream-here s cnx stream st) in
      put_stream-Live (pump_stream ffi ready cnx stream rtt st).1 cnx stream _ pumped.live

  on_fin-Live : (r : Server ffi.State × Stream) → Live r.0 → Live (on_fin ffi r cnx stream)
  on_fin-Live (t, st) h =
      drop_stream-Live t (cleanup_stream ffi t cnx stream st) cnx stream
        (cleanup_stream-streams ffi t cnx stream st) h (cleanup_stream-Kept ffi t cnx stream st h)

  on_reset-Live : (r : Option Stream) → Live (on_reset ffi s cnx stream r)
  on_reset-Live none = l
  on_reset-Live (some st) = on_fin-Live (s, st) l

  closed-Live :
      (m : Dict ℕ Stream) → lookup cnx s.streams ≡ some m → Live (on_close ffi s cnx (some m))
  closed-Live m e c a i f =
      let cleaned = cleanup_all-Cleaned ffi cnx s m l in
      let (was, gone) = cleaned.kept c a i f in
      let (own, h) = l c a i was in
      (
        own,
        elim (Bool-cases (cnx == a)) [
          | inl same ↦
              let here : cnx ≡ a = (==_iff cnx a).0 same in
              let closed : has_stream s.streams a i ≡ false =
                rw (← here, e, gone (sym own ∙ sym here)) refl in
              cc
          | inr far ↦
              rw (lookup-erase_ne cnx a (cleanup_all ffi s cnx m).streams far, cleaned.streams_eq) h
        ],
      )

  on_close-Live :
      (r : Option (Dict ℕ Stream)) → lookup cnx s.streams ≡ r → Live (on_close ffi s cnx r)
  on_close-Live none e = l
  on_close-Live (some m) e = closed-Live m e

  -- Whatever the event, delivery streams stay streams that are there.
  pub callback-Live :
      (event : Event) (bytes : Bytes) (rtt : ℕ) → Live (callback ffi event s cnx stream bytes rtt)
  unfolding callback
  callback-Live stream_data bytes rtt = on_data-Live bytes rtt
  callback-Live stream_fin bytes rtt =
      on_fin-Live (on_data ffi s cnx stream bytes rtt) (on_data-Live bytes rtt)
  callback-Live stream_reset bytes rtt = on_reset-Live (lookup stream (streams_of s cnx))
  callback-Live close bytes rtt = on_close-Live (lookup cnx s.streams) refl
  callback-Live application_close bytes rtt = on_close-Live (lookup cnx s.streams) refl
  callback-Live other bytes rtt = l
