-- ===== src/L2Miner/RealBackend.antt =====
-- `RealBackend` of src/miner/modules/l2_miner/real_backend.py: a cache per board that was asked about.
pub mod Authors
pub mod Newest
pub mod Destroying
use pttarticle_recommander.Common.{
  ℕ, zero, suc, List, [], ◌∷◌, Option, none, some, Text, text_eq, ◌==◌, Bool, true, false, ◌||◌,
  if◌then◌else◌,
}
use pttarticle_recommander.Common.Int.{ℤ, pos, negsuc, pos_part, ◌+ℤ◌, ltb_ℤ}
use pttarticle_recommander.Common.Texts.{is_in}
use pttarticle_recommander.Common.Dict
use pttarticle_recommander.Common.Dict.{Dict}
use pttarticle_recommander.Common.Results.{Result, ok, err, type_error}
use pttarticle_recommander.Common.Exec.{Exec, pure, raise, lift, ◌>>=◌, ◌>>◌}
use pttarticle_recommander.Protocol.Types.DocMetaData.{DocMetaData}
use pttarticle_recommander.Protocol.Types.DocIdentity.{DocIdentity}
use pttarticle_recommander.Protocol.Types.DocRealData.{DocRealData}
use pttarticle_recommander.Server.Backend.{
  Sequence, list_value, iterator_value, none_value, Backend,
}
use pttarticle_recommander.L2Miner.Document.{ADocument}
use pttarticle_recommander.L2Miner.Cache
use pttarticle_recommander.L2Miner.Cache.{Cache}
use pttarticle_recommander.L2Miner.Lookup
use pttarticle_recommander.L2Miner.Lookup.{Storing, Mirror, safe_get_doc_by_id}

-- `_workers`, and the storages of all boards.
pub record Workers (S : Type 0) : Type 0 where
  pub caches : Dict Cache
  pub stored : S

-- `[m for m in metas if m.author == author]`
unfoldable pub of_author : Text → List DocMetaData → List DocMetaData
of_author author [] = []
of_author author (m ∷ metas) =
    let rest = of_author author metas in if text_eq m.author author then m ∷ rest else rest

-- The first board whose name stands in the url.
unfoldable pub board_of_url : Text → Dict Cache → Option Text
board_of_url url [] = none
board_of_url url ((board, c) ∷ caches) =
    if is_in board url then some board else board_of_url url caches

-- `if meta.idid < idid`, where a `None` cannot be compared.
unfoldable pub before_id : ℤ → DocMetaData → Result Bool
before_id idid meta = elim meta.idid [ none ↦ err type_error | some i ↦ ok (ltb_ℤ i idid) ]

abbrev pub before_time : ℤ → DocMetaData → Result Bool
before_time post_time meta = ok (ltb_ℤ meta.post_time post_time)

abbrev pub never : DocMetaData → Result Bool
never meta = ok false

module _ {S : Type 0} (storage : Text → Storing S) (cache_size : ℕ) where
  -- `yield_doc_meta_data_reversed_from_id` as far as the loop over it goes, from new to old; what is
  -- collected stands from old to new. The assignment of the board also reaches the cached document,
  -- where it is never read before the next such assignment.
  unfoldable pub collect :
      Text → (DocMetaData → Result Bool) → ℕ → List DocMetaData → Exec (Mirror S) (List DocMetaData)
  collect board stop zero ret m = (ok ret, m)
  collect board stop (suc idid) ret m =
      (do
        doc ← safe_get_doc_by_id (storage board) cache_size (pos idid)
        let meta = record doc.meta_data { board = some board }
        stopped ← lift (stop meta)
        if stopped then pure ret else collect board stop idid (meta ∷ ret))
        m

  -- The storage's `max_id`, and what starts the worker of a board and waits until it is updated.
  module _ (stored_max_id : Text → Exec S ℤ) (start_worker : Text → Exec S (Unit {0})) where
    abbrev pub put_cache :
        {A : Type 0} → Text → S → Result A × Mirror S → Dict Cache → Result A × Workers S
    put_cache board s (r, m) caches =
        (r, record { caches = Dict.insert board m.cache caches; stored = m.stored })

    abbrev pub run_cache : {A : Type 0} → Text → Exec (Mirror S) A → Cache → Exec (Workers S) A
    run_cache board f c w =
        put_cache board w.stored (f (record { cache = c; stored = w.stored })) w.caches

    abbrev pub start : Text → Exec (Workers S) (Unit {0})
    start board w = let r = start_worker board w.stored in (r.0, record w { stored = r.1 })

    -- `self._get_cache(board)`, and the method that is called on it.
    unfoldable pub on_board : {A : Type 0} → Text → Exec (Mirror S) A → Exec (Workers S) A
    on_board board f w = elim (Dict.lookup board w.caches) [
      | some c ↦ run_cache board f c w
      | none ↦ (do start board; run_cache board f Cache.init) w
    ]

    -- The property `max_id` of the cache, which asks the storage.
    abbrev pub max_id : Text → Exec (Mirror S) ℤ
    max_id board m = let r = stored_max_id board m.stored in (r.0, record m { stored = r.1 })

    -- The loops over `self._yield_board_meta(board, self._get_cache(board).max_id)`.
    unfoldable pub collect_all :
        Text → (DocMetaData → Result Bool) → Exec (Workers S) (List DocMetaData)
    collect_all board stop = do
      newest ← on_board board (max_id board)
      on_board board (collect board stop (pos_part (newest +ℤ pos 1)) [])

    unfoldable pub get_doc_meta_data_after_id : Text → ℤ → Exec (Workers S) (Sequence DocMetaData)
    get_doc_meta_data_after_id board idid = do
      ret ← collect_all board (before_id idid)
      pure (list_value ret)

    unfoldable pub get_doc_meta_data_after_time : Text → ℤ → Exec (Workers S) (Sequence DocMetaData)
    get_doc_meta_data_after_time board post_time = do
      ret ← collect_all board (before_time post_time)
      pure (list_value ret)

    -- `reversed([m for m in metas if m.author == author])`
    unfoldable pub get_doc_meta_data_of_author :
        Text → Text → Exec (Workers S) (Sequence DocMetaData)
    get_doc_meta_data_of_author board author = do
      metas ← collect_all board never
      pure (iterator_value (of_author author metas))

    -- `for meta in ...: return [meta]`: for a negative identity the loop has no round.
    unfoldable pub get_doc_meta_data_series : Text → ℤ → Exec (Workers S) (Sequence DocMetaData)
    get_doc_meta_data_series board (negsuc n) = do on_board board (pure tt); pure none_value
    get_doc_meta_data_series board (pos idid) = do
      doc ← on_board board (safe_get_doc_by_id (storage board) cache_size (pos idid))
      pure (list_value (record doc.meta_data { board = some board } ∷ []))

    unfoldable pub get_id_by_url : Text → Exec (Workers S) DocIdentity
    get_id_by_url url w = elim (board_of_url url w.caches) [
      | none ↦ (ok (record { board = []; idid = negsuc 0 }), w)
      | some board ↦
          (do
            idid ← on_board board (Lookup.get_id_by_url (storage board) cache_size url)
            pure (record { board = board; idid = idid }))
            w
    ]

    abbrev pub real_backend : Backend (Workers S)
    real_backend = record {
      get_max_id = λ board. on_board board (max_id board);
      get_doc_meta_data_after_id = get_doc_meta_data_after_id;
      get_doc_meta_data_after_time = get_doc_meta_data_after_time;
      get_doc_meta_data_of_author = get_doc_meta_data_of_author;
      get_doc_meta_data_series = get_doc_meta_data_series;
      get_doc_real_data =
          λ board idid. on_board board (Lookup.get_doc_real_data (storage board) cache_size idid);
      get_id_by_url = get_id_by_url;
      get_url_by_id =
          λ board idid. on_board board (Lookup.get_url_by_id (storage board) cache_size idid);
    }
