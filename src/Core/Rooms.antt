-- ===== src/Core/Rooms.antt =====
-- `Room` (fanout-core/Fanoutcore/FanoutCore.lean) and the exports over rooms of Ffi.lean.
use weft_warp_loop.Base.{
  ℕ, ◌≡◌, ◌≢◌, refl, Bool, true, false, Option, none, some, List, [], ◌∷◌, ◌++◌, ◌==◌, ==_iff,
  if◌then◌else◌, arith, All, inl, inr, Bool-cases,
}
use weft_warp_loop.Core.SlotMap.{SlotId, SlotMap, find, alloc, update, pack, unpack}
use weft_warp_loop.Ffi.{sentinel}

-- `Room`; UInt64 connection ids.
pub record Room : Type 0 where
  pub subscribers : List ℕ

unfoldable pub contains : List ℕ → ℕ → Bool
contains [] c = false
contains (x ∷ xs) c = if x == c then true else contains xs c

-- `filter (· != c)`.
unfoldable pub without : ℕ → List ℕ → List ℕ
without c [] = []
without c (x ∷ xs) = let rest = without c xs in if x == c then rest else x ∷ rest

abbrev pub empty_room : Room
empty_room = record { subscribers = [] }

-- `Room.sub`, `Room.unsub` and `Room.targets`.
unfoldable pub sub : Room → ℕ → Room
sub r c = if contains r.subscribers c then r else record { subscribers = r.subscribers ++ (c ∷ []) }

unfoldable pub unsub : Room → ℕ → Room
unsub r c = record { subscribers = without c r.subscribers }

unfoldable pub targets : Room → ℕ → List ℕ
targets r publisher = without publisher r.subscribers

abbrev pub Rooms : Type 0
Rooms = SlotMap Room

abbrev room_of : Option (SlotMap Room × SlotId) → Rooms → Option ℕ × Rooms
room_of none s = (some sentinel, s)
room_of (some (s', id)) s = (some (pack id), s')

-- `allocRoom`, `sub`, `unsub` and `pubTargets` of Ffi.lean. They have no error results.
unfoldable pub alloc_room : Rooms → Option ℕ × Rooms
alloc_room s = room_of (alloc s empty_room) s

abbrev change : Rooms → SlotId → (Room → Room) → Option Room → Rooms
change s id f none = s
change s id f (some room) = update s id (f room)

unfoldable pub sub_room : ℕ → ℕ → Rooms → Rooms
sub_room room c s = change s (unpack room) (λ r. sub r c) (find s (unpack room))

unfoldable pub unsub_room : ℕ → ℕ → Rooms → Rooms
unsub_room room c s = change s (unpack room) (λ r. unsub r c) (find s (unpack room))

abbrev targets_of : Option Room → ℕ → List ℕ
targets_of none publisher = []
targets_of (some room) publisher = targets room publisher

unfoldable pub pub_targets : ℕ → ℕ → Rooms → List ℕ
pub_targets room publisher s = targets_of (find s (unpack room)) publisher

pub without-All : (c : ℕ) (xs : List ℕ) → All (λ t. t ≢ c) (without c xs)
unfolding without
without-All c [] = tt
without-All c (x ∷ xs) = elim (Bool-cases (x == c)) [
  | inl same ↦ rw same (without-All c xs)
  | inr apart ↦ rw apart (ground (arith, apart), without-All c xs)
]

targets_of-All : (r : Option Room) (c : ℕ) → All (λ t. t ≢ c) (targets_of r c)
unfolding targets
targets_of-All none c = tt
targets_of-All (some room) c = without-All c room.subscribers

-- A publisher is not among the targets of its own publish.
pub pub_targets-All : (room c : ℕ) (s : Rooms) → All (λ t. t ≢ c) (pub_targets room c s)
unfolding pub_targets
pub_targets-All room c s = targets_of-All (find s (unpack room)) c

contains-without :
    (c d : ℕ) (xs : List ℕ) → contains (without c xs) d ≡ (if c == d then false else contains xs d)
unfolding contains without
contains-without c d [] = ground arith
contains-without c d (x ∷ xs) = ground (arith, contains-without c d xs)

contains-append :
    (c d : ℕ) (xs : List ℕ) → contains (xs ++ (c ∷ [])) d ≡ (if contains xs d then true else c == d)
unfolding contains
contains-append c d [] = ground arith
contains-append c d (x ∷ xs) = ground (arith, contains-append c d xs)

contains-sub :
    (r : Room) (c d : ℕ)
    → contains (sub r c).subscribers d ≡ (if c == d then true else contains r.subscribers d)
unfolding sub
contains-sub r c d = elim (Bool-cases (contains r.subscribers c)) [
  | inl there ↦ rw there (elim (Bool-cases (c == d)) [
    | inl same ↦ rw (same, ← (==_iff c d).0 same) there
    | inr apart ↦ rw apart refl
  ])
  | inr new ↦ rw (new, contains-append c d r.subscribers) (ground arith)
]

-- After a connection subscribed, the targets of a publish are those from before and that
-- connection, without the publisher, whether or not it was subscribed already.
pub targets-sub :
    (r : Room) (c p d : ℕ)
    → contains (targets (sub r c) p) d
      ≡ (if p == d then false else if c == d then true else contains (targets r p) d)
unfolding targets
targets-sub r c p d =
    rw
      (
        contains-without p d (sub r c).subscribers,
        contains-sub r c d,
        contains-without p d r.subscribers,
      )
      (ground arith)

-- After a connection left a room, the targets of a publish are those from before without that
-- connection.
pub targets-unsub :
    (r : Room) (c p d : ℕ)
    → contains (targets (unsub r c) p) d ≡ (if c == d then false else contains (targets r p) d)
unfolding targets unsub
targets-unsub r c p d =
    rw
      (
        contains-without p d (without c r.subscribers),
        contains-without c d r.subscribers,
        contains-without p d r.subscribers,
      )
      (ground arith)
