-- ===== src/Tests/Searching.antt =====
-- The search for a page on a board of five pages, whose numbers are ten times the page's and five more.
use pttarticle_recommander.Common.{
  ℕ, suc, ◌+◌, ◌*◌, ◌≡◌, refl, List, [], ◌∷◌, none, some, Text, arith,
}
use pttarticle_recommander.Common.Int.{ℤ, pos}
use pttarticle_recommander.Common.Results.{Result, ok, err, index_error}
use pttarticle_recommander.Common.Exec.{Exec, pure}
use pttarticle_recommander.L2Miner.Document.{ADocument}
use pttarticle_recommander.L2Miner.BoardListener.Running.{
  UpdateThread, BoardListener, Threading, init, older_than, run_fill_old_docs,
}
use pttarticle_recommander.L2Miner.BoardListener.Running.Restarting.{Skips, fill-Skips}
use pttarticle_recommander.L2Miner.BoardListener.Search.{last, get_page_contain_url_num}
use pttarticle_recommander.L2Miner.BoardListener.Search.Sorted.{IsSorted}
use pttarticle_recommander.L2Miner.BoardListener.Search.Found.{IsFound, page_of_number}

abbrev low : ℕ → ℤ
low i = pos (10 * i)

abbrev high : ℕ → ℤ
high i = pos (10 * i + 5)

abbrev page_urls : ℕ → Exec ℕ (List Text)
page_urls i w = (ok (((10 * i) ∷ []) ∷ ((10 * i + 5) ∷ []) ∷ []), suc w)

abbrev number : Text → Result ℤ
number [] = err index_error
number (c ∷ url) = ok (pos c)

abbrev middle : ℕ → ℕ → Exec ℕ ℕ
middle l u w = (ok l, w)

board-IsSorted : IsSorted page_urls number low high 5
unfolding last
board-IsSorted = record {
  page = λ i h k w. record {
    front = (10 * i) ∷ [];
    back = (10 * i + 5) ∷ [];
    more = ((10 * i + 5) ∷ []) ∷ [];
    fetched = refl;
    ends = refl;
    front_num = refl;
    back_num = refl;
    within = (
      (pos (10 * i), refl, (omega arith, omega arith)),
      ((pos (10 * i + 5), refl, (omega arith, omega arith)), tt),
    );
  };
  ordered = λ i h k. omega arith;
  apart = λ i j h k l. omega (arith, k);
}

page_of_number_example :
    (i : ℕ) × (urls : List Text) × (v w : ℕ) × (get_page_contain_url_num page_urls number middle 4
        (pos 25)
        5
        0
      ≡ (ok (i, urls), w))
    × IsFound page_urls number low high middle board-IsSorted (pos 25) i urls v
page_of_number_example =
    page_of_number page_urls number low high middle board-IsSorted (pos 25) 4 0 (omega arith)
      (omega arith)

-- The oldest document is the first on page 2, and two threads are known.
abbrev oldest : ADocument
oldest = record {
  url = 20 ∷ [];
  meta_data = record {
    idid = some (pos 9);
    prev_id = none;
    title = [];
    author = [];
    post_time = pos 0;
    board = none;
    num_reply_rows = [];
  };
  real_data = record { content = []; reply_messages = [] };
}

abbrev quiet : Threading ℕ
quiet = record { start = λ thr. pure tt; stop = λ i. pure tt; join = λ i. pure tt }

abbrev second_page : List Text
second_page = (20 ∷ []) ∷ (25 ∷ []) ∷ []

none_older : older_than number (pos 20) second_page ≡ ok []
unfolding older_than
none_older = refl

fill-Skips_example :
    (t : BoardListener ℕ) × (thr : UpdateThread) × (run_fill_old_docs quiet number page_urls
        (λ n i. pure 0)
        (λ n i. pure (2, second_page))
        (some oldest)
        5
        (init 0)
      ≡ (ok tt, t))
    × (t.update_threads ≡ thr ∷ [])
    × ((x : ℕ)
        → Skips quiet number page_urls
            (λ n i. pure 0)
            (λ n i. pure (2, second_page))
            low
            high
            (pos 9)
            2
            thr
            x)
fill-Skips_example =
    fill-Skips quiet number page_urls (λ n i. pure 0) (λ n i. pure (2, second_page)) low high 3
      board-IsSorted oldest (pos 9) (pos 20) 2 second_page (init 0) 0 0 refl refl refl none_older
      refl refl (omega arith) (omega arith)
