-- ===== src/Load/Lifecycle.antt =====
-- A player's states over the life of its connection.
use weft_warp_loop.Base.{
  ℕ, ◌≡◌, refl, ap, ◌∙◌, ◌⊎◌, inl, inr, false, List, [], ◌∷◌, ◌++◌, append-nil, if_both,
}
use weft_warp_loop.Wire.Decimal.{ℤ}
use weft_warp_loop.Server.{Write}
use weft_warp_loop.Load.Player.{
  Player, is_connecting, is_done, send_all_ticks, ClientEvent, almost_ready, ready, stream_data,
  stream_fin, close, application_close, other, on_ready, on_client_close, client_callback,
  client_run,
}
use weft_warp_loop.Load.Publishing.{starting}

-- It was connected before, and has nothing to send any more.
abbrev pub Quiet : Player × List Write → Type 0
Quiet (p, ws) = (is_connecting p.state ≡ false) × (ws ≡ [])

on_ready-Quiet : (cnx : ℕ) (p : Player) → is_connecting p.state ≡ false → Quiet (on_ready cnx p)
on_ready-Quiet cnx p h = rw (h, on_ready) (h, refl)

on_client_close-Quiet : (p : Player) → is_connecting p.state ≡ false → Quiet (on_client_close p)
on_client_close-Quiet p h = if_both Quiet (is_done p.state) _ _ (h, refl) (refl, refl)

client_callback-Quiet :
    (e : ClientEvent) (cnx : ℕ) (p : Player)
    → is_connecting p.state ≡ false
    → Quiet (client_callback e cnx p)
unfolding client_callback
client_callback-Quiet almost_ready cnx p h = on_ready-Quiet cnx p h
client_callback-Quiet ready cnx p h = on_ready-Quiet cnx p h
client_callback-Quiet stream_data cnx p h = (h, refl)
client_callback-Quiet stream_fin cnx p h = (h, refl)
client_callback-Quiet close cnx p h = on_client_close-Quiet p h
client_callback-Quiet application_close cnx p h = on_client_close-Quiet p h
client_callback-Quiet other cnx p h = (h, refl)

client_run-Quiet :
    (es : List ClientEvent) (cnx : ℕ) (p : Player)
    → is_connecting p.state ≡ false
    → Quiet (client_run es cnx p)
unfolding client_run
client_run-Quiet [] cnx p h = (h, refl)
client_run-Quiet (e ∷ es) cnx p h =
    let (q, w) = client_callback-Quiet e cnx p h in
    let (r, v) = client_run-Quiet es cnx (client_callback e cnx p).0 q in
    (r, ap (λ l. l ++ (client_run es cnx (client_callback e cnx p).0).1) w ∙ v)

-- The writes of a run are none, or those of the one event that found the connection ready.
abbrev pub Once : List Write → List Write → Type 0
Once ws one = (ws ≡ []) ⊎ (ws ≡ one)

module _ (cnx : ℕ) (id : ℤ) (n old : ℕ) where
  abbrev sent_when_ready : List Write
  sent_when_ready = (client_callback ready cnx (starting id n old)).1

  then_quiet :
      (es : List ClientEvent) (r : Player × List Write)
      → is_connecting r.0.state ≡ false
      → Once r.1 sent_when_ready
      → Once (r.1 ++ (client_run es cnx r.0).1) sent_when_ready
  then_quiet es (p, ws) h o = rw ((client_run-Quiet es cnx p h).1, append-nil ws) o

  -- Over any sequence of events of its connection, a player that waits for it sends nothing, or
  -- sends what it sends when the connection becomes ready, once.
  pub client_run-Once :
      (es : List ClientEvent) → Once (client_run es cnx (starting id n old)).1 sent_when_ready
  unfolding client_run client_callback send_all_ticks
  client_run-Once [] = inl refl
  client_run-Once (almost_ready ∷ es) =
      then_quiet es (on_ready cnx (starting id n old)) refl (inr refl)
  client_run-Once (ready ∷ es) = then_quiet es (on_ready cnx (starting id n old)) refl (inr refl)
  client_run-Once (stream_data ∷ es) = client_run-Once es
  client_run-Once (stream_fin ∷ es) = client_run-Once es
  client_run-Once (close ∷ es) = then_quiet es (on_client_close (starting id n old)) refl (inl refl)
  client_run-Once (application_close ∷ es) =
      then_quiet es (on_client_close (starting id n old)) refl (inl refl)
  client_run-Once (other ∷ es) = client_run-Once es
