-- ===== src/Tests/Numbers.antt =====
-- The theorems on searching the storage for a url, with the numbers that the board listener reads from
-- urls, at two files of the board 'B'.
use pttarticle_recommander.Common.{
  ℕ, zero, suc, ◌+◌, ◌-◌, ◌/◌, ◌≡◌, refl, sym, ap, subst, ◌∙◌, true, [], ◌∷◌, none, some, Text, ltb,
  ◌||◌, if◌then◌else◌, arith,
}
use pttarticle_recommander.Common.Int.{ℤ, pos, negsuc, ◌+ℤ◌}
use pttarticle_recommander.Common.Results.{Result, ok, err, value_error}
use pttarticle_recommander.Common.Texts.{index_of, starts_with}
use pttarticle_recommander.L2Miner.Document.{ADocument}
use pttarticle_recommander.L2Miner.BoardListener.Search.{get_url_compare_num, num_of}
use pttarticle_recommander.L2Miner.Cache.{init}
use pttarticle_recommander.L2Miner.Cache.Owned.{init-IsOwned}
use pttarticle_recommander.L2Miner.Lookup.{Storing, Mirror}
use pttarticle_recommander.L2Miner.Lookup.Answers.{IsDocument}
use pttarticle_recommander.L2Miner.Lookup.Urls.{IsFinding, Identified, get_id_by_url-Identified}
use pttarticle_recommander.L2Miner.Storage.{Files, find, Storage, identities, get_doc_by_url}
use pttarticle_recommander.L2Miner.Storage.Searching.{IsSorted, newest_with, get_doc_by_url-newest}
use pttarticle_recommander.L2Miner.Storage.Finding.{IsMirror, IsNumbering, storage-IsFinding}
use pttarticle_recommander.L2Miner.Threads.Safety.{init-IsValid}

-- `int` of one digit.
abbrev int : Text → Result ℤ
int [] = err value_error
int (c ∷ []) = if ltb c 48 || ltb 57 c then err value_error else ok (pos (c - 48))
int (c ∷ (d ∷ t)) = err value_error

abbrev number_of : Text → Result ℤ
number_of url = get_url_compare_num int (66 ∷ []) (some url)

-- 'B/M.1.A' for the digit 1.
abbrev url_of : ℕ → Text
url_of n = 66 ∷ 47 ∷ 77 ∷ 46 ∷ (48 + n) ∷ 46 ∷ 65 ∷ []

abbrev identity_of : Result ℤ → ℤ
identity_of (ok (pos n)) = pos (n / 2)
identity_of (ok (negsuc n)) = negsuc 1
identity_of (err e) = negsuc 1

abbrev owner : Text → ℤ
owner url = identity_of (number_of url)

abbrev number : Text → ℤ
number url = elim (number_of url) [ ok n ↦ n | err e ↦ pos 0 ]

abbrev doc_of : ℕ → ADocument
doc_of n = record {
  url = url_of n;
  meta_data = record {
    idid = some (pos n);
    prev_id = none;
    title = [];
    author = [];
    post_time = pos 0;
    board = none;
    num_reply_rows = [];
  };
  real_data = record { content = []; reply_messages = [] };
}

number_of_zero : number_of (url_of 0) ≡ ok (pos 0)
unfolding get_url_compare_num num_of index_of starts_with ◌+ℤ◌
number_of_zero = refl

number_of_one : number_of (url_of 1) ≡ ok (pos 2)
unfolding get_url_compare_num num_of index_of starts_with ◌+ℤ◌
number_of_one = refl

number_zero : number (url_of 0) ≡ pos 0
unfolding get_url_compare_num num_of index_of starts_with ◌+ℤ◌
number_zero = refl

number_one : number (url_of 1) ≡ pos 2
unfolding get_url_compare_num num_of index_of starts_with ◌+ℤ◌
number_one = refl

-- The url of the board's index has no number.
no_number : number_of (66 ∷ 47 ∷ 105 ∷ 46 ∷ 104 ∷ []) ≡ err value_error
unfolding get_url_compare_num num_of index_of starts_with
no_number = refl

abbrev files : Files
files = (pos 1, doc_of 1) ∷ (pos 0, doc_of 0) ∷ []

abbrev two_files : Storage ℕ
two_files = record { files = files; max_id = pos 1; updated = true; net = 0 }

-- What holds of both files holds of every file.
module _ (P : ℕ → ADocument → Type 0) where
  no_more : (n : ℕ) → find (pos (suc (suc n))) files ≡ none
  unfolding find
  no_more n = ground arith

  at_files :
      P 0 (doc_of 0)
      → P 1 (doc_of 1)
      → (i : ℕ) (doc : ADocument) → find (pos i) files ≡ some doc
      → P i doc
  unfolding find
  at_files h k zero doc p = let e : doc_of 0 ≡ doc = cc in subst (λ d. P 0 d) e h
  at_files h k (suc zero) doc p = let e : doc_of 1 ≡ doc = cc in subst (λ d. P 1 d) e k
  at_files h k (suc (suc i)) doc p = cc (no_more i)

files_read :
    (i : ℕ) (doc : ADocument)
    → find (pos i) files ≡ some doc
    → number_of doc.url ≡ ok (number doc.url)
files_read =
    at_files (λ i doc. number_of doc.url ≡ ok (number doc.url))
      (number_of_zero ∙ ap ok (sym number_zero)) (number_of_one ∙ ap ok (sym number_one))

number_at : (i : ℕ) (doc : ADocument) → find (pos i) files ≡ some doc → number doc.url ≡ pos (i + i)
number_at = at_files (λ i doc. number doc.url ≡ pos (i + i)) number_zero number_one

files-IsSorted : IsSorted number files
files-IsSorted = record {
  sorted = λ i j a b l p q. rw (number_at i a p, number_at j b q) (omega (arith, l));
}

get_doc_by_url-newest_example :
    get_doc_by_url number_of (url_of 1) two_files
    ≡ ok (newest_with number files (identities (pos 1)) (number (url_of 1)))
get_doc_by_url-newest_example =
    get_doc_by_url-newest number number_of (url_of 1) two_files
      (number_of_one ∙ ap ok (sym number_one)) files_read files-IsSorted

-- The program's storage.
abbrev stored : Storing (Storage ℕ)
stored = record {
  get_doc_by_id = λ idid s. (ok (find idid s.files), s);
  get_doc_by_url = λ url s. (get_doc_by_url number_of url s, s);
  update_after_time = λ t s. (ok (pos 0, negsuc 0), s);
}

owner-IsNumbering : IsNumbering number_of owner
owner-IsNumbering = record { agree = λ u v n p q. ap identity_of p ∙ sym (ap identity_of q) }

stored-IsFinding : IsFinding stored owner (IsMirror number_of owner)
stored-IsFinding = storage-IsFinding number_of owner stored (λ url s. refl) owner-IsNumbering

files-IsMirror : IsMirror number_of owner two_files
files-IsMirror = record {
  mirrored =
      at_files (λ i doc. IsDocument owner (pos i) doc)
        (record { known = refl; owned = rw number_of_zero refl })
        (record { known = refl; owned = rw number_of_one refl });
}

abbrev mirror : Mirror (Storage ℕ)
mirror = record { cache = init; stored = two_files }

get_id_by_url-Identified_example :
    (r : Result ℤ) × (m : Mirror (Storage ℕ)) × Identified stored owner 2
      (IsMirror number_of owner)
      (url_of 1)
      mirror
      r
      m
get_id_by_url-Identified_example =
    get_id_by_url-Identified stored owner 2 (IsMirror number_of owner) stored-IsFinding (url_of 1)
      mirror (omega arith) (init-IsValid owner 2) (init-IsOwned owner) files-IsMirror
