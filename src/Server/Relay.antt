-- ===== src/Server/Relay.antt =====
-- What the loops over targets, pieces and history write, in closed form.
use weft_warp_loop.Base.{
  ℕ, ◌≡◌, refl, sym, ap, ◌∙◌, Option, none, some, List, [], ◌∷◌, ◌++◌, append_assoc, append-nil,
  Bytes, Dict, lookup, nat_eq, All, All-append,
}
use weft_warp_loop.Server.{Write, Server, add_to_stream, add_all, to_target, relay, framed, replay}

abbrev pub writes_to : ℕ → ℕ → List Bytes → List Write
writes_to cnx stream [] = []
writes_to cnx stream (b ∷ bs) =
    record { cnx = cnx; stream = stream; bytes = b } ∷ writes_to cnx stream bs

abbrev pub writes_at : Option (ℕ × ℕ) → List Bytes → List Write
writes_at none pieces = []
writes_at (some (cnx, stream)) pieces = writes_to cnx stream pieces

-- Each target that has a delivery stream gets every piece there, in the order of the targets.
abbrev pub deliveries : Dict ℕ (ℕ × ℕ) → List ℕ → List Bytes → List Write
deliveries d [] pieces = []
deliveries d (t ∷ ts) pieces = writes_at (lookup t d) pieces ++ deliveries d ts pieces

-- Each packet of a history behind its length.
abbrev pub replayed : ℕ → ℕ → List Bytes → List Write
replayed cnx stream [] = []
replayed cnx stream (p ∷ ps) = writes_to cnx stream (framed p) ++ replayed cnx stream ps

module _ {C : Type 0} where
  abbrev pub with_sent : Server C → List Write → Server C
  with_sent s new = record s { sent = s.sent ++ new }

  with_sent-with_sent :
      (s : Server C) (a b : List Write) → with_sent (with_sent s a) b ≡ with_sent s (a ++ b)
  with_sent-with_sent s a b = ap (λ l. record s { sent = l }) (append_assoc s.sent a b)

  with_sent-nil : (s : Server C) → s ≡ with_sent s []
  with_sent-nil s = ap (λ l. record s { sent = l }) (sym (append-nil s.sent))

  pub add_all_lem :
      (s : Server C) (cnx stream : ℕ) (pieces : List Bytes)
      → add_all s cnx stream pieces ≡ with_sent s (writes_to cnx stream pieces)
  unfolding add_all
  add_all_lem s cnx stream [] = with_sent-nil s
  add_all_lem s cnx stream (b ∷ bs) =
      add_all_lem (add_to_stream s cnx stream b) cnx stream bs
      ∙ with_sent-with_sent s (record { cnx = cnx; stream = stream; bytes = b } ∷ [])
          (writes_to cnx stream bs)

  to_target_lem :
      (s : Server C) (d : Option (ℕ × ℕ)) (pieces : List Bytes)
      → to_target s d pieces ≡ with_sent s (writes_at d pieces)
  to_target_lem s none pieces = with_sent-nil s
  to_target_lem s (some (cnx, stream)) pieces = add_all_lem s cnx stream pieces

  -- The relay loop changes nothing of the server but what was sent, and what it sends is, for each
  -- target in order that has a delivery entry, each piece in order, on the stream of that entry.
  pub relay_lem :
      (s : Server C) (ts : List ℕ) (pieces : List Bytes)
      → relay s ts pieces ≡ with_sent s (deliveries s.delivery ts pieces)
  unfolding relay
  relay_lem s [] pieces = with_sent-nil s
  relay_lem s (t ∷ ts) pieces =
      let now = writes_at (lookup t s.delivery) pieces in
      ap (λ q. relay q ts pieces) (to_target_lem s (lookup t s.delivery) pieces)
      ∙ relay_lem (with_sent s now) ts pieces
      ∙ with_sent-with_sent s now (deliveries s.delivery ts pieces)

  pub replay_lem :
      (s : Server C) (cnx stream : ℕ) (ps : List Bytes)
      → replay s cnx stream ps ≡ with_sent s (replayed cnx stream ps)
  unfolding replay
  replay_lem s cnx stream [] = with_sent-nil s
  replay_lem s cnx stream (p ∷ ps) =
      let now = writes_to cnx stream (framed p) in
      ap (λ q. replay q cnx stream ps) (add_all_lem s cnx stream (framed p))
      ∙ replay_lem (with_sent s now) cnx stream ps
      ∙ with_sent-with_sent s now (replayed cnx stream ps)

-- A property of a write's stream holds of all the writes to it.
module _ (P : ℕ → ℕ → Type 0) where
  abbrev pub Aimed : Write → Type 0
  Aimed w = P w.cnx w.stream

  pub writes_to-All :
      (cnx stream : ℕ) (pieces : List Bytes)
      → P cnx stream
      → All Aimed (writes_to cnx stream pieces)
  writes_to-All cnx stream [] h = tt
  writes_to-All cnx stream (b ∷ bs) h = (h, writes_to-All cnx stream bs h)

  pub replayed-All :
      (cnx stream : ℕ) (ps : List Bytes) → P cnx stream → All Aimed (replayed cnx stream ps)
  replayed-All cnx stream [] h = tt
  replayed-All cnx stream (p ∷ ps) h =
      All-append Aimed (writes_to cnx stream (framed p)) (replayed cnx stream ps)
        (writes_to-All cnx stream (framed p) h) (replayed-All cnx stream ps h)

  -- What holds of the delivery stream of every target holds of every write.
  pub deliveries-All :
      (d : Dict ℕ (ℕ × ℕ)) (ts : List ℕ) (pieces : List Bytes)
      → All (λ t. (cnx stream : ℕ) → lookup t d ≡ some (cnx, stream) → P cnx stream) ts
      → All Aimed (deliveries d ts pieces)
  deliveries-All d [] pieces h = tt
  deliveries-All d (t ∷ ts) pieces h =
      All-append Aimed (writes_at (lookup t d) pieces) (deliveries d ts pieces)
        (at (lookup t d) refl) (deliveries-All d ts pieces h.1)
    where
      at : (r : Option (ℕ × ℕ)) → lookup t d ≡ r → All Aimed (writes_at r pieces)
      at none e = tt
      at (some (cnx, stream)) e = writes_to-All cnx stream pieces (h.0 cnx stream e)
