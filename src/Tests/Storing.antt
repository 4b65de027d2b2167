-- ===== src/Tests/Storing.antt =====
-- The theorems on the storage at a directory of three files.
use pttarticle_recommander.Common.{ℕ, suc, ◌≡◌, refl, [], ◌∷◌, none, some, Text, Bool, true}
use pttarticle_recommander.Common.Int.{ℤ, pos, ◌+ℤ◌}
use pttarticle_recommander.Common.Results.{ok}
use pttarticle_recommander.Common.Exec.{Exec}
use pttarticle_recommander.L2Miner.Document.{ADocument}
use pttarticle_recommander.L2Miner.Storage.{
  Files, find, Storage, identities, oldest_from, oldest_doc, identified, add_doc, init,
}
use pttarticle_recommander.L2Miner.Storage.Stored.{
  IsStored, IsOldest, add_doc-IsStored, oldest_doc-IsOldest,
}

abbrev blank : ADocument
blank = record {
  url = [];
  meta_data = record {
    idid = none;
    prev_id = none;
    title = [];
    author = [];
    post_time = pos 0;
    board = none;
    num_reply_rows = [];
  };
  real_data = record { content = []; reply_messages = [] };
}

abbrev crewer : Text → Exec ℕ ADocument
crewer url n = (ok blank, suc n)

abbrev doc_of : ℤ → ADocument
doc_of idid = identified idid blank

-- The files 7, 6 and 4; the file 5 is missing.
abbrev directory : Files
directory = (pos 7, doc_of (pos 7)) ∷ (pos 6, doc_of (pos 6)) ∷ (pos 4, doc_of (pos 4)) ∷ []

abbrev storage : Storage ℕ
storage = record { files = directory; max_id = pos 7; updated = true; net = 0 }

abbrev empty_storage : Storage ℕ
empty_storage = init [] 0

empty_storage-IsStored : IsStored empty_storage
unfolding find
empty_storage-IsStored = record { named = λ i d p. cc; bounded = λ i d p. cc }

add_doc-IsStored_example :
    (added : Bool) × (s : Storage ℕ) × (d : ADocument) × (add_doc crewer (pos 5) [] empty_storage
      ≡ (ok added, s))
    × IsStored s
    × (find (pos 5) s.files ≡ some d)
add_doc-IsStored_example =
    add_doc-IsStored crewer (pos 5) [] blank 1 empty_storage refl empty_storage-IsStored

oldest_is : oldest_doc storage ≡ some (doc_of (pos 6))
unfolding oldest_doc oldest_from find ◌+ℤ◌
oldest_is = refl

oldest_doc-IsOldest_example : IsOldest directory (identities (pos 7)) (doc_of (pos 6))
oldest_doc-IsOldest_example = oldest_doc-IsOldest storage (doc_of (pos 6)) oldest_is
