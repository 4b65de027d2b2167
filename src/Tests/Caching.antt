-- ===== src/Tests/Caching.antt =====
-- The miner's cache at documents whose url has as many characters as the identity says.
use pttarticle_recommander.Common.{
  ℕ, List, zero, suc, ◌≡◌, ◌≢◌, refl, ap, subst, [], ◌∷◌, length, get_elem?, none, some, Text,
  arith, text_eq, replicate,
}
use pttarticle_recommander.Common.Int.{ℤ, pos, negsuc, pos_part, ◌+ℤ◌, ◌≤ℤ◌}
use pttarticle_recommander.Common.Dict
use pttarticle_recommander.Common.Results.{ok}
use pttarticle_recommander.Protocol.Bytes.{Bytes}
use pttarticle_recommander.Protocol.PackageType.{query_doc_meta_data_of_author}
use pttarticle_recommander.Server.Delegator.{handle_package}
use pttarticle_recommander.L2Miner.RealBackend.{Workers, real_backend}
use pttarticle_recommander.L2Miner.RealBackend.{collect, before_id}
use pttarticle_recommander.L2Miner.RealBackend.Newest.{ids_of, collect_after_id}
use pttarticle_recommander.Protocol.Types.DocMetaData.{DocMetaData}
use pttarticle_recommander.L2Miner.RealBackend.Authors.{author_query-never}
use pttarticle_recommander.L2Miner.Document.{ADocument}
use pttarticle_recommander.L2Miner.Cache.{Cache, cache_doc_if_ok}
use pttarticle_recommander.L2Miner.Cache.Slots.{Held, IsHeld, id_at}
use pttarticle_recommander.L2Miner.Cache.Room.{IsValid}
use pttarticle_recommander.L2Miner.Cache.Keep.{Caches, cache_doc-IsValid, cache_newest_doc}
use pttarticle_recommander.L2Miner.Lookup.{
  Storing, Mirror, cached_doc, safe_get_doc_by_id, update_nearest_docs,
}
use pttarticle_recommander.L2Miner.Lookup.Answers.{IsDocument, IsStoring, safe_get_doc-IsDocument}
use pttarticle_recommander.L2Miner.Lookup.Flush.{update_misses}

abbrev pub owner : Text → ℤ
owner u = pos (length u)

-- The document with the identity `n`.
abbrev pub doc_at : ℕ → ADocument
doc_at n = record {
  url = replicate n 97;
  meta_data = record {
    idid = some (pos n);
    prev_id = some (pos n);
    title = [];
    author = [];
    post_time = pos 0;
    board = none;
    num_reply_rows = [];
  };
  real_data = record { content = []; reply_messages = [] };
}

abbrev two_documents : Cache
two_documents = record {
  docs = some (doc_at 1) ∷ some (doc_at 2) ∷ [];
  max_id = pos 2;
  min_id = pos 1;
  url_to_id = (97 ∷ [], pos 1) ∷ (97 ∷ 97 ∷ [], pos 2) ∷ [];
}

Held-at :
    (n : ℕ) (d : ADocument)
    → (doc_at n).meta_data.idid ≡ some (pos n)
    → owner (doc_at n).url ≡ pos n
    → Dict.lookup (doc_at n).url two_documents.url_to_id ≡ some (pos n)
    → some (some (doc_at n)) ≡ some (some d)
    → Held owner two_documents.url_to_id (pos n) d
Held-at n d k o m h =
    let same : doc_at n ≡ d = cc in
    subst (λ t. Held owner two_documents.url_to_id (pos n) t) same
      (record { known = k; owned = o; mapped = m })

two_documents-Held :
    (i : ℕ) (d : ADocument)
    → get_elem? two_documents.docs i ≡ some (some d)
    → Held owner two_documents.url_to_id (id_at two_documents i) d
unfolding Dict.lookup text_eq ◌+ℤ◌
two_documents-Held zero d h = Held-at 1 d refl refl refl h
two_documents-Held (suc zero) d h = Held-at 2 d refl refl refl h
two_documents-Held (suc (suc i)) d h = cc

two_documents-IsHeld : IsHeld owner two_documents
two_documents-IsHeld = record { at = two_documents-Held }

two_documents-IsValid : IsValid owner 2 two_documents
two_documents-IsValid = record { held = two_documents-IsHeld; within = omega arith; width = refl }

cache_doc-IsValid_example :
    (c : Cache) × (cache_doc_if_ok 2 (doc_at 3) two_documents ≡ (ok tt, c)) × IsValid owner 2 c
cache_doc-IsValid_example =
    cache_doc-IsValid owner 2 (pos 3) (doc_at 3) two_documents (omega arith) two_documents-IsValid
      refl refl

cache_newest_doc_example :
    (c : Cache) × (cache_doc_if_ok 2 (doc_at 3) two_documents ≡ (ok tt, c))
    × (c.max_id ≡ pos 3)
    × Caches c (pos 3) (doc_at 3)
cache_newest_doc_example =
    cache_newest_doc owner 2 (pos 3) (doc_at 3) two_documents (omega arith) two_documents-IsValid
      refl refl (omega arith)

-- A storage that has a document for each number, and fetches the one of number 2 again.
abbrev pub numbered : Storing ℕ
numbered = record {
  get_doc_by_id = λ idid s. (ok (some (doc_at (pos_part idid))), suc s);
  get_doc_by_url = λ u s. (ok (some (doc_at (length u))), suc s);
  update_after_time = λ t s. (ok (pos 2, pos 2), s);
}

abbrev url_at : ℕ → Text
url_at n = replicate n 97

length-url_at : (n : ℕ) → length (url_at n) ≡ n
length-url_at zero = refl
length-url_at (suc n) = ap suc (length-url_at n)

pub doc_at-IsDocument : (n : ℕ) → IsDocument owner (pos n) (doc_at n)
doc_at-IsDocument n = record { known = refl; owned = ap pos (length-url_at n) }

numbered-IsStoring : IsStoring numbered owner
numbered-IsStoring = record { doc_of = go }
  where
    go :
        (idid : ℤ) (s : ℕ)
        → pos 0 ≤ℤ idid
        → (doc : ADocument) × (s' : ℕ) × (numbered.get_doc_by_id idid s ≡ (ok (some doc), s'))
          × IsDocument owner idid doc
    go (pos n) s h = (doc_at n, suc s, refl, doc_at-IsDocument n)
    go (negsuc n) s h = absurd (omega arith)

abbrev mirror : Mirror ℕ
mirror = record { cache = two_documents; stored = 0 }

safe_get_doc-IsDocument_example :
    (doc : ADocument) × (m : Mirror ℕ) × (safe_get_doc_by_id numbered 2 (pos 5) mirror
      ≡ (ok doc, m))
    × IsDocument owner (pos 5) doc
    × IsValid owner 2 m.cache
safe_get_doc-IsDocument_example =
    safe_get_doc-IsDocument numbered owner 2 numbered-IsStoring (pos 5) mirror (omega arith)
      (omega arith) two_documents-IsValid

update_misses_example :
    (m : Mirror ℕ) × (update_nearest_docs numbered 2 (pos 100) mirror ≡ (ok tt, m))
    × IsValid owner 2 m.cache
    × (cached_doc (pos 2) m.cache ≡ (ok none, m.cache))
update_misses_example =
    update_misses numbered owner 2 (pos 100) (pos 2) (pos 2) (pos 2) mirror 0 refl
      two_documents-IsValid (omega arith) (omega arith)

abbrev no_workers : Workers ℕ
no_workers = record { caches = []; stored = 0 }

abbrev query_bytes : Bytes
query_bytes = 66 ∷ []

author_query-never_example :
    (handle_package
      (real_backend (λ b. numbered) 2 (λ b s. (ok (pos 7), s)) (λ b s. (ok tt, s)))
      query_doc_meta_data_of_author
      query_bytes
      no_workers).0
    ≢ ok (1025, query_bytes)
author_query-never_example =
    author_query-never (λ b. numbered) 2 (λ b s. (ok (pos 7), s)) (λ b s. (ok tt, s)) query_bytes
      no_workers 1025 query_bytes

collect_after_id_example :
    (metas : List DocMetaData) × (m : Mirror ℕ) × (collect
        (λ b. numbered)
        2
        []
        (before_id (pos 2))
        4
        []
        mirror
      ≡ (ok metas, m))
    × (ids_of metas ≡ some (pos 2) ∷ some (pos 3) ∷ [])
    × IsValid owner 2 m.cache
collect_after_id_example =
    collect_after_id (λ b. numbered) 2 owner [] numbered-IsStoring (omega arith) 2 4 mirror
      (omega arith) two_documents-IsValid
