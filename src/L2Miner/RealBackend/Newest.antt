-- ===== src/L2Miner/RealBackend/Newest.antt =====
-- The loop of `get_doc_meta_data_after_id` in src/miner/modules/l2_miner/real_backend.py, on a valid
-- cache.
use native.Mathlib.Decide.{dec_lt}
use pttarticle_recommander.Common.{
  ℕ, zero, suc, ◌+◌, ◌-◌, ◌≤◌, ◌<◌, ◌≡◌, refl, sym, ap, ◌∙◌, List, [], ◌∷◌, ◌++◌, append_assoc,
  append-nil, map, Option, some, Text, true, false, arith,
}
use pttarticle_recommander.Common.Int.{ℤ, pos, ltb_ℤ}
use pttarticle_recommander.Common.Results.{ok}
use pttarticle_recommander.Protocol.Types.DocMetaData.{DocMetaData}
use pttarticle_recommander.L2Miner.Document.{ADocument}
use pttarticle_recommander.L2Miner.Cache.Room.{IsValid}
use pttarticle_recommander.L2Miner.Lookup.{Storing, Mirror, safe_get_doc_by_id}
use pttarticle_recommander.L2Miner.Lookup.Answers.{IsStoring, safe_get_doc-IsDocument}
use pttarticle_recommander.L2Miner.RealBackend.{before_id, collect}

-- The identities of meta data.
abbrev pub ids_of : List DocMetaData → List (Option ℤ)
ids_of metas = map (λ m. m.idid) metas

-- `n` identities from `low` on.
abbrev pub ids_from : ℕ → ℕ → List (Option ℤ)
ids_from low zero = []
ids_from low (suc n) = some (pos low) ∷ ids_from (suc low) n

ids_from-suc : (low n : ℕ) → ids_from low (suc n) ≡ ids_from low n ++ some (pos (low + n)) ∷ []
ids_from-suc low zero = ap (λ k. some (pos k) ∷ []) (omega arith)
ids_from-suc low (suc n) =
    ap (λ l. some (pos low) ∷ l)
      (ids_from-suc (suc low) n ∙ ap (λ k. ids_from (suc low) n ++ some (pos k) ∷ []) (omega arith))

ids_from-zero : (low n : ℕ) (l : List (Option ℤ)) → n ≤ low → l ≡ ids_from low (n - low) ++ l
ids_from-zero low n l h = let e : n - low ≡ 0 = omega arith in ap (λ k. ids_from low k ++ l) (sym e)

ids_from-last :
    (low k : ℕ) (o : Option ℤ) (l : List (Option ℤ))
    → low ≤ k
    → o ≡ some (pos k)
    → ids_from low (k - low) ++ (o ∷ l) ≡ ids_from low (suc k - low) ++ l
ids_from-last low k o l h p =
    let e : suc k - low ≡ suc (k - low) = omega arith in
    let g : k ≡ low + (k - low) = omega arith in
    sym (append_assoc (ids_from low (k - low)) (o ∷ []) l)
    ∙ ap (λ i. (ids_from low (k - low) ++ i ∷ []) ++ l) (p ∙ ap (λ j. some (pos j)) g)
    ∙ ap (λ i. i ++ l) (sym (ids_from-suc low (k - low)))
    ∙ ap (λ j. ids_from low j ++ l) (sym e)

module _ {S : Type 0} (storage : Text → Storing S) (cache_size : ℕ) where
  -- The meta data of a document under its board.
  abbrev boarded : Text → ADocument → DocMetaData
  boarded board doc = record doc.meta_data { board = some board }

  before_id_lem :
      (low k : ℕ) (m : DocMetaData)
      → m.idid ≡ some (pos k)
      → before_id (pos low) m ≡ ok (ltb_ℤ (pos k) (pos low))
  unfolding before_id
  before_id_lem low k m e = rw (e, before_id)

  collect_on :
      (board : Text) (low k : ℕ) (ret : List DocMetaData) (doc : ADocument) (m m' : Mirror S)
      → safe_get_doc_by_id (storage board) cache_size (pos k) m ≡ (ok doc, m')
      → before_id (pos low) (boarded board doc) ≡ ok false
      → collect storage cache_size board (before_id (pos low)) (suc k) ret m
        ≡ collect storage cache_size board (before_id (pos low)) k (boarded board doc ∷ ret) m'
  unfolding collect
  collect_on board low k ret doc m m' p q = rw (p, q) refl

  collect_stop :
      (board : Text) (low k : ℕ) (ret : List DocMetaData) (doc : ADocument) (m m' : Mirror S)
      → safe_get_doc_by_id (storage board) cache_size (pos k) m ≡ (ok doc, m')
      → before_id (pos low) (boarded board doc) ≡ ok true
      → collect storage cache_size board (before_id (pos low)) (suc k) ret m ≡ (ok ret, m')
  unfolding collect
  collect_stop board low k ret doc m m' p q = rw (p, q) refl

  module _ (owner : Text → ℤ) (board : Text) (given : IsStoring (storage board) owner)
      (h : 0 < cache_size) where
    collect-ids :
        (low n : ℕ) (ret : List DocMetaData) (m : Mirror S)
        → low ≤ n
        → IsValid owner cache_size m.cache
        → (metas : List DocMetaData) × (m' : Mirror S) × (collect storage cache_size board
              (before_id (pos low))
              n
              ret
              m
            ≡ (ok metas, m'))
          × (ids_of metas ≡ ids_from low (n - low) ++ ids_of ret)
          × IsValid owner cache_size m'.cache
    collect-ids low zero ret m l v =
        (ret, m, unfold collect in refl, ids_from-zero low 0 (ids_of ret) (omega arith), v)
    collect-ids low (suc k) ret m l v =
        let (doc, m₁, p, is, v₁) =
          safe_get_doc-IsDocument (storage board) owner cache_size given (pos k) m (omega arith) h
            v in
        elim (dec_lt k low) [
          | yes less ↦
              let q : before_id (pos low) (boarded board doc) ≡ ok true =
                before_id_lem low k (boarded board doc) is.known ∙ ap ok (ground arith) in
              (
                ret,
                m₁,
                collect_stop board low k ret doc m m₁ p q,
                ids_from-zero low (suc k) (ids_of ret) (omega arith),
                v₁,
              )
          | no more ↦
              let q : before_id (pos low) (boarded board doc) ≡ ok false =
                before_id_lem low k (boarded board doc) is.known ∙ ap ok (ground arith) in
              let (metas, m₂, r, e, v₂) =
                collect-ids low k (boarded board doc ∷ ret) m₁ (omega arith) v₁ in
              (
                metas,
                m₂,
                collect_on board low k ret doc m m₁ p q ∙ r,
                e ∙ ids_from-last low k doc.meta_data.idid (ids_of ret) (omega arith) is.known,
                v₂,
              )
        ]

    -- On a valid cache of a size above zero, over a storage with the documents of the board,
    -- the loop of `get_doc_meta_data_after_id` over the documents before `n` ends, keeps the
    -- cache valid, and collects the meta data of exactly the identities from `low` up to `n`,
    -- each once and in rising order.
    pub collect_after_id :
        (low n : ℕ) (m : Mirror S)
        → low ≤ n
        → IsValid owner cache_size m.cache
        → (metas : List DocMetaData) × (m' : Mirror S) × (collect storage cache_size board
              (before_id (pos low))
              n
              []
              m
            ≡ (ok metas, m'))
          × (ids_of metas ≡ ids_from low (n - low))
          × IsValid owner cache_size m'.cache
    collect_after_id low n m l v =
        let (metas, m', p, e, valid) = collect-ids low n [] m l v in
        (metas, m', p, e ∙ append-nil (ids_from low (n - low)), valid)
