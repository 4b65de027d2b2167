-- ===== src/L2Miner/Threads.antt =====
-- The threads that share a `Cache` of src/miner/modules/l2_miner/cache.py: the handlers of connections,
-- the update notifier and the update threads of the board listener. What they interleave are the
-- sections under `_cache_lock`, each of which runs as a whole.
pub mod Safety
use pttarticle_recommander.Common.{ℕ, ◌≡◌, Text, some, Option}
use pttarticle_recommander.Common.Int.{ℤ}
use pttarticle_recommander.Common.Results.{Result}
use pttarticle_recommander.Common.Exec.{Exec}
use pttarticle_recommander.L2Miner.Document.{ADocument}
use pttarticle_recommander.L2Miner.Cache.{Cache, init, cache_doc_if_ok}
use pttarticle_recommander.L2Miner.Lookup.{cached_doc, known_id, flush_range}
use pttarticle_recommander.L2Miner.Lookup.Answers.{IsDocument}

module _ (owner : Text → ℤ) (cache_size : ℕ) where
  -- The sections, by what they return: the look-up of an identity, the look-up of a url, keeping a
  -- document that came from the storage, and flushing what the storage has fetched again.
  pub data Section : (A : Type 0) → Exec Cache A → Type 1 where
    look_up : (idid : ℤ) → Section (Option ADocument) (cached_doc idid)
    look_up_url : (url : Text) → Section (Option ℤ) (known_id url)
    keep :
        (idid : ℤ) (doc : ADocument)
        → IsDocument owner idid doc
        → Section (Unit {0}) (cache_doc_if_ok cache_size doc)
    flush : (min_id max_id : ℤ) → Section (Unit {0}) (flush_range min_id max_id)

  -- The caches that any order of sections may lead to, whichever threads run them.
  pub data Reachable : Cache → Type 1 where
    start : Reachable init
    later :
        {A : Type 0} {f : Exec Cache A} {c : Cache} → Reachable c → Section A f → Reachable (f c).1
