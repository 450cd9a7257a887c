-- ===== src/Http3/Exchange.antt =====
-- `artifacts_mmo_h3_request` and `main` of artifacts_mmo_h3_client.c: what is acquired, released
-- and returned on every path.
use weft_warp_loop.Base.{
  if_split, zero, suc, take, is_some, length, ap, ◌∙◌, arith, ℕ, ◌≡◌, ◌⊎◌, refl, inl, inr, Bool,
  true, false, not, ◌&&◌, Option, none, some, List, [], ◌∷◌, ◌++◌, if◌then◌else◌, if_both, ltb,
  Bytes,
}
use weft_warp_loop.Wire.Decimal.{codes}
use weft_warp_loop.Boot.Guest.{c_text}

-- What the vendored code and the file system answer.
pub record Answers : Type 0 where
  pub resolves : Bool
  pub has_quic : Bool
  pub has_cnx : Bool
  pub starts : Bool
  -- `picoquic_packet_loop_v2` returns 0.
  pub loop_ok : Bool
  -- The response file, if it opens.
  pub file : Option Bytes
  -- `ftell` gives a length, and malloc gives memory.
  pub sized : Bool
  pub has_memory : Bool
  -- How many bytes `fread` gives, of those that the file has.
  pub got : ℕ

pub data Resource : Type 0 where
  quic demo_ctx response_file : Resource

pub data Step : Type 0 where
  acquire : Resource → Step
  release : Resource → Step

abbrev pub from_file : Answers → Option Bytes → Option Bytes × List Step
from_file a none = (none, [])
from_file a (some content) = (
  if a.sized && a.has_memory then some (take a.got content) else none,
  acquire response_file ∷ release response_file ∷ [],
)

abbrev pub read_response : Answers → Option Bytes × List Step
read_response a = if a.loop_ok then from_file a a.file else (none, [])

abbrev pub exchange : Option Bytes × List Step → Option Bytes × List Step
exchange (response, steps) =
    (response, acquire quic ∷ acquire demo_ctx ∷ (steps ++ (release demo_ctx ∷ release quic ∷ [])))

-- `artifacts_mmo_h3_request`.
unfoldable pub artifacts_mmo_h3_request : Answers → Option Bytes × List Step
artifacts_mmo_h3_request a =
    if not a.resolves
    then (none, [])
    else if not a.has_quic
    then (none, [])
    else if not a.has_cnx
    then (none, acquire quic ∷ release quic ∷ [])
    else if not a.starts
    then (none, acquire quic ∷ acquire demo_ctx ∷ release demo_ctx ∷ release quic ∷ [])
    else exchange (read_response a)

abbrev pub answered : Option Bytes → ℕ × Bytes
answered none = (1, [])
answered (some response) = (0, c_text response ++ codes "\n")

abbrev pub with_key : Option Bytes → Option Bytes → ℕ × Bytes
with_key none response = (1, [])
with_key (some token) response = answered response

-- `main`: the exit code and what goes to stdout, by the number of arguments, the key and the
-- response, which `fputs` writes up to a NUL.
unfoldable pub main : ℕ → Option Bytes → Option Bytes → ℕ × Bytes
main argc key response = if ltb argc 6 then (1, []) else with_key key response

abbrev pub same : Resource → Resource → Bool
same quic quic = true
same demo_ctx demo_ctx = true
same response_file response_file = true
same _ _ = false

-- Every resource is released once, after all that was acquired later; `held` is the stack of what
-- is held.
unfoldable pub is_nested : List Step → List Resource → Bool
is_nested [] [] = true
is_nested [] (r ∷ held) = false
is_nested (acquire r ∷ steps) held = is_nested steps (r ∷ held)
is_nested (release r ∷ steps) [] = false
is_nested (release r ∷ steps) (q ∷ held) = same r q && is_nested steps held

-- The part of the file's content that was read, which is all of it unless the read was short.
pub record ReadFrom (a : Answers) (response : Bytes) : Type 0 where
  pub unread : Bytes
  pub whole : a.file ≡ some (response ++ unread)
  pub all_or_got : (unread ≡ []) ⊎ (length response ≡ a.got)

-- Whether nothing fails, a short read apart.
abbrev pub all_well : Answers → Bool
all_well a =
    a.resolves
    && (a.has_quic
        && (a.has_cnx
            && (a.starts && (a.loop_ok && (is_some a.file && (a.sized && a.has_memory))))))

abbrev pub FromFile : Answers → Option Bytes → Type 0
FromFile a none = Unit
FromFile a (some response) = ReadFrom a response

-- Resources are nested; there is a response exactly if nothing failed, and it is from the file.
pub record Sound (a : Answers) (r : Option Bytes × List Step) : Type 0 where
  pub nested : is_nested r.1 [] ≡ true
  pub answers : is_some r.0 ≡ all_well a
  pub from : FromFile a r.0

take-split :
    (n : ℕ) (xs : Bytes)
    → (ys : Bytes) × (xs ≡ take n xs ++ ys) × ((ys ≡ []) ⊎ (length (take n xs) ≡ n))
unfolding take
take-split zero xs = (xs, refl, inr refl)
take-split (suc n) [] = ([], refl, inl refl)
take-split (suc n) (x ∷ xs) =
    let (ys, e, h) = take-split n xs in
    (ys, ap (λ (l : Bytes). x ∷ l) e, elim h [ inl all ↦ inl all | inr full ↦ inr (ap suc full) ])

module _ (a : Answers) where
  from_file-nested : (f : Option Bytes) → is_nested (exchange (from_file a f)).1 [] ≡ true
  unfolding is_nested
  from_file-nested none = refl
  from_file-nested (some content) = refl

  from_file-answers :
      (f : Option Bytes) → is_some (from_file a f).0 ≡ (is_some f && (a.sized && a.has_memory))
  from_file-answers none = refl
  from_file-answers (some content) = ground arith

  from_file-from : (f : Option Bytes) → a.file ≡ f → FromFile a (from_file a f).0
  from_file-from none e = tt
  from_file-from (some content) e =
      let (unread, whole, all) = take-split a.got content in
      if_both (FromFile a) (a.sized && a.has_memory) _ _
        (record { unread = unread; whole = e ∙ ap (λ (l : Bytes). some l) whole; all_or_got = all })
        tt

  request-nested : is_nested (artifacts_mmo_h3_request a).1 [] ≡ true
  unfolding artifacts_mmo_h3_request is_nested
  request-nested =
      let P = λ (r : Option Bytes × List Step). is_nested r.1 [] ≡ true in
      if_both P (not a.resolves) _ _ refl (
        if_both P (not a.has_quic) _ _ refl (
          if_both P (not a.has_cnx) _ _ refl (
            if_both P (not a.starts) _ _ refl
              (if_both (λ r. P (exchange r)) a.loop_ok _ _ (from_file-nested a.file) refl))))

  request-from : FromFile a (artifacts_mmo_h3_request a).0
  unfolding artifacts_mmo_h3_request
  request-from =
      let P = λ (r : Option Bytes × List Step). FromFile a r.0 in
      if_both P (not a.resolves) _ _ tt (
        if_both P (not a.has_quic) _ _ tt (
          if_both P (not a.has_cnx) _ _ tt (
            if_both P (not a.starts) _ _ tt
              (if_both P a.loop_ok _ _ (from_file-from a.file refl) tt))))

  request-answers : is_some (artifacts_mmo_h3_request a).0 ≡ all_well a
  unfolding artifacts_mmo_h3_request
  request-answers =
      let P = λ (r : Option Bytes × List Step). is_some r.0 ≡ all_well a in
      if_split P (not a.resolves) _ _ (λ t. ground (arith, t))
        (λ resolves.
          if_split P (not a.has_quic) _ _ (λ t. ground (arith, t))
            (λ has_quic.
              if_split P (not a.has_cnx) _ _ (λ t. ground (arith, t))
                (λ has_cnx.
                  if_split P (not a.starts) _ _ (λ t. ground (arith, t))
                    (λ starts.
                      if_split P a.loop_ok _ _
                        (λ ok.
                          from_file-answers a.file
                          ∙ ground (arith, resolves, has_quic, has_cnx, starts, ok))
                        (λ t. ground (arith, t))))))

  -- On every path of artifacts_mmo_h3_request each resource that was acquired is released once, in
  -- reverse order. There is a response exactly if resolving, creating the context and the
  -- connection, starting, the packet loop, opening the file, its length and the memory all
  -- succeed. The response is then the beginning of the file's content: all of it, or as many bytes
  -- as fread gave.
  pub artifacts_mmo_h3_request-Sound : Sound a (artifacts_mmo_h3_request a)
  artifacts_mmo_h3_request-Sound = record {
    nested = request-nested;
    answers = request-answers;
    from = request-from;
  }
