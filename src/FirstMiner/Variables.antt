-- ===== src/FirstMiner/Variables.antt =====
-- The variables of `BBSCrawler.getContent` in src/miner/modules/mining.py, and the spans that are read into
-- them.
use pttarticle_recommander.Common.{
  ℕ, suc, ◌+◌, ◌==◌, List, [], ◌∷◌, ◌++◌, Option, none, some, Text, if◌then◌else◌,
}
use pttarticle_recommander.Common.Int.{ℤ, pos, ◌-ℤ◌, eqb_ℤ, negsuc}
use pttarticle_recommander.Common.Results
use pttarticle_recommander.Common.Results.{Result, ok, err, name_error}
use pttarticle_recommander.Common.Exec.{Exec, pure, lift, ◌>>=◌, ◌>>◌}
use pttarticle_recommander.Common.Texts.{find, between, from}
use pttarticle_recommander.FirstMiner.Replies.{Counts}
use pttarticle_recommander.FirstMiner.Build.{Entry}

-- The local variables of a document, which stay from one document to the next.
pub record Meta : Type 0 where
  pub meta_id : Option ℤ
  pub meta_name : Option Text
  pub meta_push : Option (List ℤ)
  pub meta_author : Option Text
  pub meta_board : Option Text
  pub meta_title : Option Text
  pub meta_time : Option Text

-- `next_id` is the variable `ID`, and `net` what the crawler sees of the network and of its files.
pub record Crawl (W : Type 0) : Type 0 where
  pub next_id : ℕ
  pub arr : List Entry
  pub index_failure : ℕ
  pub total_post_num : ℕ
  pub fetch_failure_num : ℕ
  pub post_id : Option Text
  pub meta : Meta
  pub net : W

abbrev pub nothing : Meta
nothing = record {
  meta_id = none;
  meta_name = none;
  meta_push = none;
  meta_author = none;
  meta_board = none;
  meta_title = none;
  meta_time = none;
}

abbrev pub start : {W : Type 0} → W → Crawl W
start w = record {
  next_id = 1;
  arr = [];
  index_failure = 0;
  total_post_num = 0;
  fetch_failure_num = 0;
  post_id = none;
  meta = nothing;
  net = w;
}

-- A variable that was never assigned raises.
abbrev pub bound_var : {A : Type 0} → Option A → Result A
bound_var none = err name_error
bound_var (some a) = ok a

-- The entry of the local variables, where one that no document has assigned yet raises.
unfoldable pub entry_in : Meta → Result Entry
entry_in m = Results.◌>>=◌ (bound_var m.meta_id) (λ id.
    Results.◌>>=◌ (bound_var m.meta_name) (λ name. Results.◌>>=◌ (bound_var m.meta_push) (λ push.
      Results.◌>>=◌ (bound_var m.meta_author) (λ author.
        Results.◌>>=◌ (bound_var m.meta_board) (λ board.
          Results.◌>>=◌ (bound_var m.meta_title) (λ title.
            Results.◌>>=◌ (bound_var m.meta_time) (λ time. ok (record {
              id = id;
              name = name;
              push = push;
              author = author;
              board = board;
              title = title;
              time = time;
            }))))))))

module _ {S A : Type 0} where
  -- `try` with an `except` of everything: the state stays as the failing code left it.
  abbrev pub caught : Result A → Exec S (Option A)
  caught (ok a) = pure (some a)
  caught (err e) = pure none

  unfoldable pub attempt : Exec S A → Exec S (Option A)
  attempt m s = caught (m s).0 (m s).1

module _ {W : Type 0} where
  abbrev pub on_net : {A : Type 0} → Exec W A → Exec (Crawl W) A
  on_net m s = let r = m s.net in (r.0, record s { net = r.1 })

  abbrev pub set_meta : (Meta → Meta) → Exec (Crawl W) (Unit {0})
  set_meta f s = (ok tt, record s { meta = f s.meta })

  -- `metaID= ID; metaName= str(post_id); metaPush = [like, arrow, dislike]`
  unfoldable pub begin_meta : Text → Counts → Exec (Crawl W) (Unit {0})
  begin_meta post_id n s = (
    ok tt,
    record s {
      meta = record s.meta {
        meta_id = some (pos s.next_id);
        meta_name = some post_id;
        meta_push = some (pos n.like ∷ pos n.arrow ∷ pos n.dislike ∷ []);
      };
    },
  )

  -- `self.arr.append(...); ID = ID + 1`
  unfoldable pub push_entry : Entry → Exec (Crawl W) (Unit {0})
  push_entry e s = (ok tt, record s { arr = s.arr ++ e ∷ []; next_id = suc s.next_id })

  -- The two messages that name a variable, which may not have been assigned.
  unfoldable pub report_post_id : Exec (Crawl W) (Unit {0})
  report_post_id s = elim s.post_id [ none ↦ (err name_error, s) | some t ↦ (ok tt, s) ]

  unfoldable pub report_meta_name : Exec (Crawl W) (Unit {0})
  report_meta_name s = elim s.meta.meta_name [ none ↦ (err name_error, s) | some t ↦ (ok tt, s) ]

  abbrev pub set_post_id : Text → Exec (Crawl W) (Unit {0})
  set_post_id post_id s = (ok tt, record s { post_id = some post_id })

  abbrev pub count_post : Exec (Crawl W) (Unit {0})
  count_post s = (ok tt, record s { total_post_num = s.total_post_num + 1 })

  abbrev pub count_fetch_failure : Exec (Crawl W) (Unit {0})
  count_fetch_failure s = (ok tt, record s { fetch_failure_num = s.fetch_failure_num + 1 })

  abbrev pub count_index_failure : Exec (Crawl W) (Unit {0})
  count_index_failure s = (ok tt, record s { index_failure = s.index_failure + 1 })

-- '(' and 'Re:'
abbrev pub open_bracket : Text
open_bracket = 40 ∷ []

abbrev pub reply_mark : Text
reply_mark = 82 ∷ 101 ∷ 58 ∷ []

module _ (parse_time : Text → Result Text) {W : Type 0} where
  -- What the span with a number is read for: the author, the board, the title and the time.
  unfoldable pub read_span : ℕ → Text → Exec (Crawl W) (Unit {0})
  read_span count span =
      if count == 1
      then set_meta (λ m. record m {
        meta_author = some (between span (pos 0) (find open_bracket span -ℤ pos 1));
      })
      else if count == 2
      then set_meta (λ m. record m { meta_board = some span })
      else if count == 3
      then (if eqb_ℤ (find reply_mark span) (negsuc 0)
          then set_meta (λ m. record m { meta_title = some span })
          else set_meta (λ m. record m { meta_title = some (from span (pos 4)) }))
      else if count == 4
      then (do
        time ← lift (parse_time (from span (pos 4)))
        set_meta (λ m. record m { meta_time = some time }))
      else pure tt

  unfoldable pub read_spans : ℕ → List Text → Exec (Crawl W) (Unit {0})
  read_spans count [] = pure tt
  read_spans count (span ∷ spans) = do read_span count span; read_spans (count + 1) spans
