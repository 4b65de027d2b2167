-- ===== src/Server/Delegator/Dispatch.antt =====
-- Which handler a package reaches, and what comes back.
use Prim.Native.Nat.{bit_or}
use pttarticle_recommander.Common.{
  ℕ, ◌+◌, ◌≡◌, ◌≢◌, refl, subst, List, [], ◌∷◌, none, some, arith, ◌==◌, Bool-cases, Option-cases,
  inl, inr,
}
use pttarticle_recommander.Common.Results.{Error, ok, err, protocol_error}
use pttarticle_recommander.Common.Exec.{Exec}
use pttarticle_recommander.Protocol.Bytes.{Bytes}
use pttarticle_recommander.Protocol.PackageType.{
  reply_query_bit, query_max_id, query_doc_meta_data_after_id, query_doc_meta_data_after_time,
  query_doc_meta_data_of_author, query_doc_meta_data_series, query_doc_real_data, query_id_by_url,
  query_url_by_id,
}
use pttarticle_recommander.Server.Backend.{Backend}
use pttarticle_recommander.Server.Arguments.{
  ArgStruct, string_struct, identity_struct, time_struct, unpack_args_buf,
}
use pttarticle_recommander.Server.Arguments.Packed.{unpack_args_buf-errors}
use pttarticle_recommander.Server.Delegator.{
  handle_query_max_id, handle_query_doc_meta_data_after_id, handle_query_doc_meta_data_after_time,
  handle_query_doc_meta_data_of_author, handle_query_doc_meta_data_series,
  handle_query_doc_real_data, handle_query_id_by_url, handle_query_url_by_id, handlers, find,
  handle_package,
}

-- The arguments of each supported query, as the protocol documents them.
abbrev pub signatures : List (ℕ × List ArgStruct)
signatures =
    (query_max_id, string_struct ∷ [])
    ∷ (query_doc_meta_data_after_id, string_struct ∷ identity_struct ∷ [])
    ∷ (query_doc_meta_data_after_time, string_struct ∷ time_struct ∷ [])
    ∷ (query_doc_meta_data_of_author, string_struct ∷ string_struct ∷ [])
    ∷ (query_doc_meta_data_series, string_struct ∷ identity_struct ∷ [])
    ∷ (query_doc_real_data, string_struct ∷ identity_struct ∷ [])
    ∷ (query_id_by_url, string_struct ∷ [])
    ∷ (query_url_by_id, string_struct ∷ identity_struct ∷ [])
    ∷ []

module _ {A B : Type 0} (P : ℕ → A → B → Type 0) where
  -- Two dictionaries with one list of keys, and values that `P` relates.
  abbrev Aligned : List (ℕ × A) → List (ℕ × B) → Type 0
  Aligned [] [] = Unit
  Aligned [] (q ∷ m) = ⊥
  Aligned (p ∷ l) [] = ⊥
  Aligned ((k, a) ∷ l) ((j, b) ∷ m) = (k ≡ j) × P k a b × Aligned l m

  Aligned-find :
      (l : List (ℕ × A)) (m : List (ℕ × B)) (key : ℕ) (a : A)
      → Aligned l m
      → find key l ≡ some a
      → (b : B) × (find key m ≡ some b) × P key a b
  unfolding find
  Aligned-find [] m key a h p = cc
  Aligned-find (q ∷ l) [] key a h p = absurd h
  Aligned-find ((k, a') ∷ l) ((j, b) ∷ m) key a (e, r, h) p = elim (Bool-cases (k == key)) [
    | inl here ↦
        let d : k ≡ key = ground arith in
        let c : a' ≡ a = ground arith in
        (b, ground arith, subst (λ x. P x a b) d (subst (λ x. P k x b) c r))
    | inr further ↦
        let (b', q, r') = Aligned-find l m key a h (ground arith) in (b', ground (arith, q), r')
  ]

  Aligned-find-none :
      (l : List (ℕ × A)) (m : List (ℕ × B)) (key : ℕ)
      → Aligned l m
      → find key l ≡ none
      → find key m ≡ none
  unfolding find
  Aligned-find-none [] [] key h p = refl
  Aligned-find-none [] (q ∷ m) key h p = absurd h
  Aligned-find-none (q ∷ l) [] key h p = absurd h
  Aligned-find-none ((k, a) ∷ l) ((j, b) ∷ m) key (e, r, h) p =
      ground (arith, e, Aligned-find-none l m key h)

module _ {S : Type 0} (backend : Backend S) where
  -- The handler raises what unpacking by the signature raises, before it calls the backend.
  abbrev Unpacks : ℕ → List ArgStruct → (Bytes → Exec S Bytes) → Type 0
  Unpacks typee structs handler =
      (buf : Bytes) (s : S) (e : Error)
      → unpack_args_buf buf structs ≡ err e
      → handler buf s ≡ (err e, s)

  handlers-Unpack : Aligned Unpacks signatures (handlers backend)
  unfolding handle_query_max_id handle_query_doc_meta_data_after_id
      handle_query_doc_meta_data_after_time handle_query_doc_meta_data_of_author
      handle_query_doc_meta_data_series handle_query_doc_real_data handle_query_id_by_url
      handle_query_url_by_id handlers
  handlers-Unpack = (
    refl,
    (λ buf s e p. rw p),
    (
      refl,
      (λ buf s e p. rw p),
      (
        refl,
        (λ buf s e p. rw p),
        (
          refl,
          (λ buf s e p. rw p),
          (
            refl,
            (λ buf s e p. rw p),
            (
              refl,
              (λ buf s e p. rw p),
              (refl, (λ buf s e p. rw p), (refl, (λ buf s e p. rw p), tt)),
            ),
          ),
        ),
      ),
    ),
  )

  -- A package of a type that has no signature raises a `_ProtocolError`, and the backend is not
  -- called.
  pub unsupported :
      (typee : ℕ) (buf : Bytes) (s : S)
      → find typee signatures ≡ none
      → handle_package backend typee buf s ≡ (err protocol_error, s)
  unfolding handle_package
  unsupported typee buf s h =
      ground
        (arith, Aligned-find-none Unpacks signatures (handlers backend) typee handlers-Unpack h)

  -- Arguments that do not unpack by the signature of a supported query raise a
  -- `_ProtocolError`, and the backend is not called.
  pub malformed :
      (typee : ℕ) (structs : List ArgStruct) (buf : Bytes) (s : S) (e : Error)
      → find typee signatures ≡ some structs
      → unpack_args_buf buf structs ≡ err e
      → handle_package backend typee buf s ≡ (err protocol_error, s)
  unfolding handle_package
  malformed typee structs buf s e h p =
      let (handler, found, fails) =
        Aligned-find Unpacks signatures (handlers backend) typee structs handlers-Unpack h in
      ground (arith, found, fails buf s e p, unpack_args_buf-errors structs buf e p)

  abbrev FlagIsFree : ℕ → List ArgStruct → (Bytes → Exec S Bytes) → Type 0
  FlagIsFree typee structs handler = bit_or typee reply_query_bit ≡ typee + 1

  reply_types : Aligned FlagIsFree signatures (handlers backend)
  unfolding handlers
  reply_types = (
    refl,
    refl,
    (
      refl,
      refl,
      (refl, refl, (refl, refl, (refl, refl, (refl, refl, (refl, refl, (refl, refl, tt)))))),
    ),
  )

  -- A reply belongs to a query that has a signature, and its type is the query's plus one.
  pub reply_type :
      (typee : ℕ) (buf : Bytes) (s s' : S) (r : ℕ) (out : Bytes)
      → handle_package backend typee buf s ≡ (ok (r, out), s')
      → (r ≡ typee + 1) × (find typee signatures ≢ none)
  unfolding handle_package
  reply_type typee buf s s' r out h = elim (Option-cases (find typee signatures)) [
    | inl missing ↦ cc (h, unsupported typee buf s missing)
    | inr (structs, p) ↦
        let (handler, found, e) =
          Aligned-find FlagIsFree signatures (handlers backend) typee structs reply_types p in
        (ground (arith, found, e), λ q. cc (p, q))
  ]
