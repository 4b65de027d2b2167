-- ===== src/Tests/Threads.antt =====
-- The theorems on the threads that share a cache, at a cache of two entries after three sections.
use pttarticle_recommander.Common.{◌≡◌, refl, [], ◌∷◌, some, arith, text_eq}
use pttarticle_recommander.Common.Int.{pos, ◌+ℤ◌, ◌-ℤ◌}
use pttarticle_recommander.Common.Results.{ok, err, key_error}
use pttarticle_recommander.L2Miner.Document.{ADocument}
use pttarticle_recommander.L2Miner.Cache.{
  Cache, init, write, entry, forget_url, set_entry, clean_slot, clean_cache_entry, pop_first,
  advance_min, shrink_loop, shrink_cache_size, restart_at, extend_right, extend_left, remember_url,
  keep_doc, move_forward, make_room, cache_doc_if_ok,
}
use pttarticle_recommander.Common.Dict
use pttarticle_recommander.L2Miner.Cache.Room.{IsValid}
use pttarticle_recommander.L2Miner.Lookup.{cached_doc, known_id, clean_entries, flush_range}
use pttarticle_recommander.L2Miner.Lookup.Answers.{IsDocument}
use pttarticle_recommander.L2Miner.Threads.{Reachable, start, later, keep, look_up_url, flush}
use pttarticle_recommander.L2Miner.Threads.Safety.{sections_return, never_wrong}
use pttarticle_recommander.Tests.Caching.{owner, doc_at, doc_at-IsDocument}

-- One thread keeps a document, another looks up a url, and the notifier flushes.
abbrev after_keep : Cache
after_keep = (cache_doc_if_ok 2 (doc_at 3) init).1

abbrev after_look : Cache
after_look = (known_id (97 ∷ []) after_keep).1

abbrev after_flush : Cache
after_flush = (flush_range (pos 1) (pos 2) after_look).1

after_flush-Reachable : Reachable owner 2 after_flush
after_flush-Reachable =
    later
      (later (later start (keep (pos 3) (doc_at 3) (doc_at-IsDocument 3))) (look_up_url (97 ∷ [])))
      (flush (pos 1) (pos 2))

sections_return_example :
    (value : Unit {0}) × (c : Cache) × (cache_doc_if_ok 2 (doc_at 4) after_flush ≡ (ok value, c))
    × IsValid owner 2 c
sections_return_example =
    sections_return owner 2 (cache_doc_if_ok 2 (doc_at 4)) after_flush (omega arith)
      after_flush-Reachable (keep (pos 4) (doc_at 4) (doc_at-IsDocument 4))

never_wrong_example :
    ((cached_doc (pos 3) after_flush).0 ≡ ok (some (doc_at 3))
      → IsDocument owner (pos 3) (doc_at 3))
    × ((known_id (97 ∷ []) after_flush).0 ≡ ok (some (pos 1)) → owner (97 ∷ []) ≡ pos 1)
never_wrong_example =
    never_wrong owner 2 after_flush (pos 3) (97 ∷ []) (doc_at 3) (pos 1) (omega arith)
      after_flush-Reachable

-- One url under two identities: flushing both asks twice for the removal of the url.
abbrev same_url : ADocument
same_url = record (doc_at 3) { meta_data = (doc_at 4).meta_data }

abbrev after_both : Cache
after_both = (cache_doc_if_ok 2 same_url (cache_doc_if_ok 2 (doc_at 3) init).1).1

second_clean-raises : (flush_range (pos 3) (pos 4) after_both).0 ≡ err key_error
unfolding flush_range clean_entries clean_cache_entry clean_slot entry forget_url set_entry write
    cache_doc_if_ok move_forward make_room keep_doc remember_url extend_right extend_left restart_at
    shrink_cache_size shrink_loop pop_first advance_min ◌+ℤ◌ ◌-ℤ◌ text_eq Dict.lookup Dict.insert
    Dict.remove
second_clean-raises = refl
