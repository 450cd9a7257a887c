-- ===== src/Core/Delivery.antt =====
-- From a subscription to a delivery, through the host and its rooms together.
use weft_warp_loop.Base.{
  not, ◌&&◌, List, ==_iff, if◌then◌else◌, occurs, occurs-append, arith, ℕ, ◌≡◌, refl, ap, ◌∙◌,
  false, some, [], ◌∷◌, ◌++◌, ◌==◌, Bytes, lookup, insert, nat_eq, bytes_eq,
}
use weft_warp_loop.Ffi.{Ffi, sentinel}
use weft_warp_loop.Server.{Server, get_or_create_room, subscribed, handle_sub, handle_pub, relay_if}
use weft_warp_loop.Server.Relay.{deliveries, relay_lem}
use weft_warp_loop.Core.SlotMap.{find, unpack}
use weft_warp_loop.Core.Stale.{update-find}
use weft_warp_loop.Core.Rooms.{Room, Rooms, contains, without, sub, targets, sub_room, pub_targets}
use weft_warp_loop.Core.Kernels.{Zones, Sketches, KernelState, kernels}

module _ (ffi : Ffi) (s : Server ffi.State) (topic : Bytes) (room : ℕ)
    (known : lookup topic s.topic_to_room ≡ some room) (there : (room == sentinel) ≡ false) where
  get_known : get_or_create_room ffi s topic ≡ (room, s)
  unfolding get_or_create_room
  get_known = rw (known, get_or_create_room) refl

  handle_sub-known :
      (cnx stream : ℕ) → handle_sub ffi s cnx stream topic ≡ subscribed ffi s cnx stream room
  unfolding handle_sub
  handle_sub-known cnx stream = rw (get_known, handle_sub, there) refl

  handle_pub-known :
      (cnx : ℕ) (bytes : Bytes)
      → handle_pub ffi s cnx topic bytes
        ≡ relay_if ffi s (ffi.room_targets room cnx s.core) (bytes ∷ [])
  unfolding handle_pub
  handle_pub-known cnx bytes = rw (get_known, handle_pub, there) refl

sub_room-find :
    (rooms : Rooms) (room c : ℕ) (r : Room)
    → find rooms (unpack room) ≡ some r
    → find (sub_room room c rooms) (unpack room) ≡ some (sub r c)
unfolding sub_room
sub_room-find rooms room c r h = rw (h, sub_room) (update-find rooms (unpack room) r (sub r c) h)

pub_targets-found :
    (rooms : Rooms) (room p : ℕ) (r : Room)
    → find rooms (unpack room) ≡ some r
    → pub_targets room p rooms ≡ targets r p
unfolding pub_targets
pub_targets-found rooms room p r h = rw (h, pub_targets) refl

occurs-without :
    (t p : ℕ) (xs : List ℕ) → occurs t (without p xs) ≡ (if t == p then 0 else occurs t xs)
unfolding occurs without
occurs-without t p [] = ground arith
occurs-without t p (x ∷ xs) = ground (arith, occurs-without t p xs, ==_iff x p, ==_iff x t)

contains-occurs : (xs : List ℕ) (c : ℕ) → contains xs c ≡ not (occurs c xs == 0)
unfolding contains occurs
contains-occurs [] c = refl
contains-occurs (x ∷ xs) c = ground (arith, contains-occurs xs c)

-- How often a connection stands among those a publish by `p` goes to, when `c` has just subscribed.
abbrev pub receives : List ℕ → ℕ → ℕ → ℕ → ℕ
receives subscribers c p t =
    if t == p
    then 0
    else if (t == c) && (occurs c subscribers == 0)
    then 1
    else occurs t subscribers

occurs-sub :
    (r : Room) (c t : ℕ)
    → occurs t (sub r c).subscribers
      ≡ (if (t == c) && (occurs c r.subscribers == 0) then 1 else occurs t r.subscribers)
unfolding sub occurs
occurs-sub r c t = ground (
  arith,
  contains-occurs r.subscribers c,
  occurs-append t r.subscribers (c ∷ []),
  ==_iff t c,
  ==_iff c t,
)

occurs-targets :
    (r : Room) (c p t : ℕ) → occurs t (targets (sub r c) p) ≡ receives r.subscribers c p t
unfolding targets
occurs-targets r c p t = rw (occurs-without t p (sub r c).subscribers, occurs-sub r c t) refl

-- After a connection has subscribed to a topic whose room is known and live, a publish on that
-- topic by any connection sends the payload to the targets of the room with the new subscriber, on
-- the delivery stream of each, where the new one is on the stream it subscribed on, and nothing
-- else. Among these targets the publisher does not stand, the new subscriber stands once if it was
-- none before, and every other connection stands as often as among the subscribers from before. It
-- is about the host together with the rooms of the kernel, for any zones and sketches.
pub handle_pub-handle_sub :
    (zones : Zones) (sketches : Sketches) (s : Server (KernelState zones.World sketches.Board))
    (topic : Bytes) (room : ℕ) (r : Room) (c stream p : ℕ) (payload : Bytes)
    → lookup topic s.topic_to_room ≡ some room
    → (room == sentinel) ≡ false
    → find s.core.rooms (unpack room) ≡ some r
    → ((handle_pub
          (kernels zones sketches)
          (handle_sub (kernels zones sketches) s c stream topic)
          p
          topic
          payload).sent
        ≡ s.sent
          ++ deliveries (insert c (c, stream) s.delivery) (targets (sub r c) p) (payload ∷ []))
      × ((t : ℕ) → occurs t (targets (sub r c) p) ≡ receives r.subscribers c p t)
handle_pub-handle_sub zones sketches s topic room r c stream p payload known there found =
    let ffi = kernels zones sketches in
    let s1 = subscribed ffi s c stream room in
    let aim : pub_targets room p s1.core.rooms ≡ targets (sub r c) p =
      pub_targets-found s1.core.rooms room p (sub r c)
        (sub_room-find s.core.rooms room c r found) in
    (
      ap (λ t. (handle_pub ffi t p topic payload).sent)
            (handle_sub-known ffi s topic room known there c stream)
          ∙ ap (λ t. t.sent) (handle_pub-known ffi s1 topic room known there p payload)
          ∙ ap (λ t. t.sent) (relay_lem s1 (pub_targets room p s1.core.rooms) (payload ∷ []))
          ∙ ap (λ ts. s.sent ++ deliveries (insert c (c, stream) s.delivery) ts (payload ∷ [])) aim,
      λ t. occurs-targets r c p t,
    )
