-- ===== src/Tests/Workers.antt =====
-- The theorems on the board listener, the crewer and the notifier, at concrete threads and
-- pages.
use pttarticle_recommander.Common.{
  ℕ, zero, suc, ◌≡◌, refl, List, [], ◌∷◌, ◌++◌, true, none, some, Text, false, arith, ◌⊎◌, Bool,
  inl, inr,
}
use pttarticle_recommander.Common.Int.{ℤ, pos, negsuc}
use pttarticle_recommander.Common.Results.{Result, ok}
use pttarticle_recommander.Common.Exec.{Exec, pure}
use pttarticle_recommander.Common.Texts.{starts_with}
use pttarticle_recommander.Protocol.Types.DocMetaData.{DocMetaData, make}
use pttarticle_recommander.Protocol.Types.DocRealData.{DocRealData}
use pttarticle_recommander.L2Miner.BoardListener.{update, next, turn_pages, next_of_page, pop}
use pttarticle_recommander.L2Miner.BoardListener.Running.Dying.{run_loop, run_update}
use pttarticle_recommander.L2Miner.BoardListener.Running.Kept.{
  IsKept, now, cleaned, begun, ended_thread_stays,
}
use pttarticle_recommander.L2Miner.BoardListener.Running.{
  start_update_thread, clean_and_check_should_continue, UpdateThread, BoardListener, Threading,
}
use pttarticle_recommander.L2Miner.BoardListener.Running.Bookkeeping.{
  IsThreading, Stopped, stop-Stopped,
}
use pttarticle_recommander.L2Miner.Crewer.{
  Push, Page, dislike_tag, like_tag, parse, parsed, rows_of, count_mode, document, get_doc_by_url,
}
use pttarticle_recommander.L2Miner.Crewer.Attempts.{
  Refused, never, again, answered, first_answer_decides,
}
use pttarticle_recommander.L2Miner.Crewer.Rows.{IsCounted, parse-IsCounted}
use pttarticle_recommander.L2Miner.Notifier.{max_bit, notify_from}
use pttarticle_recommander.L2Miner.Notifier.Told.{
  Event, waited, told, Periods, IsTelling, round_told,
}

-- The threads that were joined.
abbrev pub Joined : Type 0
Joined = List ℕ

abbrev pub Member : ℕ → Joined → Type 0
Member i [] = ⊥
Member i (j ∷ js) = (i ≡ j) ⊎ Member i js

abbrev joining : Threading Joined
joining = record { start = λ thr. pure tt; stop = λ i. pure tt; join = λ i w. (ok tt, i ∷ w) }

joining-IsThreading : IsThreading joining Member
joining-IsThreading = record {
  stops = λ i w. (w, refl, λ j d. d);
  joins = λ i w. (i ∷ w, refl, inl refl, λ j d. inr d);
}

abbrev thread : ℕ → UpdateThread
thread i = record {
  ident = i;
  max_id = pos 4;
  min_url_num = negsuc 1;
  url_generator = record { curr_page_idx = 3; curr_page_urls = []; prev_url = [] };
}

abbrev pub nobody : Joined
nobody = []

abbrev listener : BoardListener Joined
listener = record {
  stop_flag = false;
  update_threads = thread 1 ∷ thread 2 ∷ [];
  died_threads = thread 0 ∷ [];
  started = 3;
  net = nobody;
}

stop-Stopped_example : (s : BoardListener Joined) × Stopped joining-IsThreading listener s
stop-Stopped_example = stop-Stopped joining-IsThreading listener

-- A cache that refuses its first document ends the thread; then the listener joins what has died, and
-- starts another thread.
abbrev no_urls : ℕ → Exec Joined (List Text)
no_urls i = pure []

abbrev number_three : Text → Result ℤ
number_three url = ok (pos 3)

abbrev refused : ℤ → Text → Exec Joined Bool
refused idid url = pure false

abbrev unstopped : ℕ → Exec Joined Bool
unstopped i = pure false

thread-run :
    run_loop joining no_urls number_three refused unstopped 4 (thread 1) nobody ≡ (ok tt, nobody)
unfolding update next turn_pages next_of_page pop
thread-run = refl

abbrev behind_run : BoardListener Joined
behind_run = (run_update joining no_urls number_three refused unstopped 4 (thread 1) listener).1

abbrev cleaned_up : BoardListener Joined
cleaned_up =
    (start_update_thread joining (pos 9) (pos 3) 5 [] []
      (clean_and_check_should_continue joining behind_run).1).1

ended_thread_stays_example : IsKept joining 1 cleaned_up
ended_thread_stays_example =
    ended_thread_stays joining no_urls number_three refused unstopped 4 (thread 1) listener
      cleaned_up nobody thread-run (inl refl) (begun (pos 9) (pos 3) 5 [] [] (cleaned now))

-- A page with a like, an arrow, a dislike without a text, and two dislikes.
abbrev page : Page
page = record {
  title = ok (84 ∷ []);
  author = ok (97 ∷ []);
  post_time = ok (pos 5);
  pushes = ok (
      record { tag = ok like_tag; userid = ok (98 ∷ []); content = ok (some (58 ∷ 32 ∷ 99 ∷ [])) }
      ∷ record { tag = ok (0x2192 ∷ []); userid = ok (98 ∷ []); content = ok (some []) }
      ∷ record { tag = ok dislike_tag; userid = ok (98 ∷ []); content = ok none }
      ∷ record { tag = ok dislike_tag; userid = ok (98 ∷ []); content = ok (some []) }
      ∷ record { tag = ok dislike_tag; userid = ok (98 ∷ []); content = ok (some []) }
      ∷ []);
  cleaned = ok (100 ∷ []);
}

abbrev page_meta : DocMetaData
page_meta = record {
  idid = none;
  prev_id = none;
  title = 84 ∷ [];
  author = 97 ∷ [];
  post_time = pos 5;
  board = none;
  num_reply_rows = pos 1 ∷ pos 1 ∷ pos 2 ∷ [];
}

abbrev page_data : DocRealData
page_data = record {
  content = 100 ∷ [];
  reply_messages =
      record { mode = pos 0; user = 98 ∷ []; message = 99 ∷ [] }
      ∷ record { mode = pos 1; user = 98 ∷ []; message = [] }
      ∷ record { mode = pos 2; user = 98 ∷ []; message = [] }
      ∷ record { mode = pos 2; user = 98 ∷ []; message = [] }
      ∷ [];
}

page-parse : parse page ≡ ok (page_meta, page_data)
unfolding parse rows_of count_mode make starts_with
page-parse = refl

parse-IsCounted_example :
    (pushes : List Push) × (page.pushes ≡ ok pushes) × IsCounted pushes page_meta page_data
parse-IsCounted_example = parse-IsCounted page page_meta page_data page-parse

-- A site that refuses the first two times.
abbrev site : Text → Exec ℕ (ℕ × Page)
site url zero = (ok (200, page), 0)
site url (suc w) = (ok (503, page), w)

refused_twice : Refused site (pure tt) (97 ∷ []) 2 2 0
refused_twice =
    again 1 503 page 2 1 0 refl (λ e. absurd (omega (arith, e)))
      (again 0 503 page 1 0 0 refl (λ e. absurd (omega (arith, e))) (never 0))

first_answer_decides_example :
    get_doc_by_url site (pure tt) (97 ∷ []) 2 ≡ (ok (document (97 ∷ []) (parsed (parse page))), 0)
first_answer_decides_example =
    first_answer_decides site (pure tt) (97 ∷ []) 2 2 0 0 (parsed (parse page)) (omega arith)
      refused_twice (answered page refl)

-- A clock that runs, and a cache that writes down what it is told.
abbrev wait_on : ℕ → Exec (List Event) Bool
wait_on n es = (ok true, es ++ waited n ∷ [])

abbrev write_down : ℕ → Exec (List Event) (Unit {0})
write_down n es = (ok tt, es ++ told n ∷ [])

telling : IsTelling wait_on write_down (λ es. es)
telling = record {
  waits = λ n es. (es ++ waited n ∷ [], refl, refl);
  tells = λ n es. (es ++ told n ∷ [], refl, refl);
}

abbrev no_events : List Event
no_events = []

round_told_example :
    (log es : List Event) × (notify_from wait_on write_down max_bit 1 no_events ≡ (ok true, log))
    × (log ≡ no_events ++ es)
    × Periods 1024 1 es
round_told_example = round_told telling no_events
