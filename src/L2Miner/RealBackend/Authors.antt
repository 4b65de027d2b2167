-- ===== src/L2Miner/RealBackend/Authors.antt =====
-- The query for an author's documents, on `RealBackend` of src/miner/modules/l2_miner/real_backend.py.
use pttarticle_recommander.Common.{ℕ, ◌≡◌, ◌≢◌, refl, List, [], ◌∷◌, Text, inl, inr}
use pttarticle_recommander.Common.Int.{ℤ}
use pttarticle_recommander.Common.Results.{ok, err, type_error, Result-cases}
use pttarticle_recommander.Common.Exec.{Exec, lift, ◌>>=◌}
use pttarticle_recommander.Protocol.Bytes.{Bytes}
use pttarticle_recommander.Protocol.PackageType.{query_doc_meta_data_of_author}
use pttarticle_recommander.Protocol.Types.DocMetaData.{DocMetaData}
use pttarticle_recommander.Server.Backend.{Sequence, iterator_value}
use pttarticle_recommander.Server.Arguments.{Arg, text, number, string_struct, unpack_args_buf}
use pttarticle_recommander.Server.Delegator.{
  pack_metas, call_text_text, handle_query_doc_meta_data_of_author, handlers, find, handle_package,
}
use pttarticle_recommander.L2Miner.Lookup.{Storing}
use pttarticle_recommander.L2Miner.RealBackend.{
  Workers, never, of_author, collect_all, get_doc_meta_data_of_author, real_backend,
}

module _ {S A B : Type 0} where
  -- A chain does not return, if nothing that follows a return of its first call does.
  >>=-never :
      (m : Exec S A) (f : A → Exec S B) (s : S) (b : B)
      → ((a : A) → (m s).0 ≡ ok a → (f a (m s).1).0 ≢ ok b)
      → ((m >>= f) s).0 ≢ ok b
  >>=-never m f s b h = elim (Result-cases (m s).0) [
    | inl (a, p) ↦ rw p (h a p)
    | inr (e, p) ↦ rw p (λ q. cc)
  ]

-- A backend whose answer about an author has no length.
abbrev NoLength : {S : Type 0} → (Text → Text → Exec S (Sequence DocMetaData)) → Type 0
NoLength {S} f =
    (board author : Text) (s : S) (q : Sequence DocMetaData)
    → (f board author s).0 ≡ ok q
    → pack_metas q ≡ err type_error

module _ {S : Type 0} (f : Text → Text → Exec S (Sequence DocMetaData))
    (no_length : NoLength f) where
  pack-never :
      (board author : Text) (s : S) (out : Bytes)
      → ((f board author >>= λ q. lift (pack_metas q)) s).0 ≢ ok out
  pack-never board author s out =
      >>=-never (f board author) (λ q. lift (pack_metas q)) s out
        λ q p e. let none_packed = no_length board author s q p in cc

  call-never :
      (args : List Arg) (s : S) (out : Bytes)
      → ((call_text_text f args >>= λ q. lift (pack_metas q)) s).0 ≢ ok out
  call-never [] s out = λ e. cc
  call-never (text b ∷ []) s out = λ e. cc
  call-never (number n ∷ args) s out = λ e. cc
  call-never (text b ∷ number n ∷ args) s out = λ e. cc
  call-never (text b ∷ text a ∷ []) s out = pack-never b a s out
  call-never (text b ∷ text a ∷ c ∷ args) s out = λ e. cc

module _ {S : Type 0} (storage : Text → Storing S) (cache_size : ℕ)
    (stored_max_id : Text → Exec S ℤ) (start_worker : Text → Exec S (Unit {0})) where
  author-NoLength :
      NoLength (get_doc_meta_data_of_author storage cache_size stored_max_id start_worker)
  unfolding get_doc_meta_data_of_author pack_metas
  author-NoLength board author w q h =
      elim (Result-cases
        (collect_all storage cache_size stored_max_id start_worker board never w).0) [
          | inl (metas, p) ↦
              let e : ok (iterator_value (of_author author metas)) ≡ ok q = rw p at h in
              let same : iterator_value (of_author author metas) ≡ q = cc in rw (← same) refl
          | inr (e, p) ↦ let c = rw p at h in cc
        ]

  handler-never :
      (buf : Bytes) (w : Workers S) (out : Bytes)
      → (handle_query_doc_meta_data_of_author
          (real_backend storage cache_size stored_max_id start_worker)
          buf
          w).0
        ≢ ok out
  unfolding handle_query_doc_meta_data_of_author
  handler-never buf w out =
      >>=-never (lift (unpack_args_buf buf (string_struct ∷ string_struct ∷ []))) _ w out λ args p.
        call-never (get_doc_meta_data_of_author storage cache_size stored_max_id start_worker)
          author-NoLength args w out

  -- No query for the documents of an author is ever answered by the delegator over
  -- `RealBackend`: whatever the arguments, the board and the state, it does not return.
  pub author_query-never :
      (buf : Bytes) (w : Workers S) (r : ℕ) (out : Bytes)
      → (handle_package
          (real_backend storage cache_size stored_max_id start_worker)
          query_doc_meta_data_of_author
          buf
          w).0
        ≢ ok (r, out)
  unfolding handle_package find handlers handle_query_doc_meta_data_of_author
  author_query-never buf w r out =
      >>=-never
        (handle_query_doc_meta_data_of_author
          (real_backend storage cache_size stored_max_id start_worker) buf)
        _ w (r, out) λ a p. absurd (handler-never buf w a p)
