-- ===== src/Tests/Loops.antt =====
-- The theorems on the loops of the connection handler and of the board listener.
use pttarticle_recommander.Common.{
  ℕ, suc, ◌≡◌, ◌≢◌, refl, List, [], ◌∷◌, ◌++◌, take, arith, Bool, true, false, Text,
}
use pttarticle_recommander.Common.Int.{ℤ, pos}
use pttarticle_recommander.Common.Results.{Result, ok, err, out_of_fuel}
use pttarticle_recommander.Common.Exec.{Exec, pure}
use pttarticle_recommander.Protocol.Bytes.{Bytes}
use pttarticle_recommander.Protocol.PackageType.{reply_url_by_id}
use pttarticle_recommander.Protocol.Bytes.{le_bytes, pack_unsigned}
use pttarticle_recommander.Protocol.Net.PackageHeader
use pttarticle_recommander.Server.Connection.{Connection, recv_content_chunk, recv_while}
use pttarticle_recommander.Server.Connection.Ending.{IsGone, content_loop_spins}
use pttarticle_recommander.L2Miner.BoardListener.{UrlGenerator, update}
use pttarticle_recommander.L2Miner.BoardListener.Updating.{AllEnd, update_ends}
use pttarticle_recommander.Tests.Data.{url, header_of, header_bytes}

-- A peer that takes one byte at a time and sends nothing, and a handler that is stopped or not.
abbrev connection : Bool → Connection Bytes
connection stopped = record {
  stop_flag = pure stopped;
  recv = λ n w. (ok [], w);
  send = λ b w. (ok 1, w ++ take 1 b);
  close = pure tt;
}

abbrev nothing_sent : Bytes
nothing_sent = []

silent-IsGone : IsGone (connection false) (λ w. w ≡ nothing_sent)
silent-IsGone = record { running = λ w g. (w, refl, g); nothing = λ n w g. (w, refl, g) }

-- The peer is gone when two bytes of five have come.
content_loop_spins_example :
    (recv_while
      (connection false)
      (recv_content_chunk (connection false))
      100
      5
      (1 ∷ 2 ∷ [])
      nothing_sent).0
    ≡ err out_of_fuel
content_loop_spins_example =
    content_loop_spins silent-IsGone 100 5 (1 ∷ 2 ∷ []) nothing_sent (omega arith) refl

reply-dump :
    PackageHeader.dump (header_of reply_url_by_id 11) ≡ ok (header_bytes reply_url_by_id 11)
unfolding PackageHeader.dump pack_unsigned le_bytes
reply-dump = refl

abbrev one_url : ℕ → Exec ℕ (List Text)
one_url i w = (ok (url ∷ []), suc w)

abbrev nine : Text → Result ℤ
nine u = ok (pos 9)

abbrev added : ℤ → Text → Exec ℕ Bool
added i u w = (ok true, suc w)

abbrev generator : UrlGenerator
generator = record { curr_page_idx = 3; curr_page_urls = []; prev_url = [] }

all_end : AllEnd one_url nine added (pure false)
all_end = record {
  page_ends = λ i w e. cc;
  number_ends = λ u e. cc;
  add_ends = λ i u w e. cc;
  flag_ends = λ w e. cc;
}

update_ends_example :
    (update one_url nine (pos 0) added (pure false) 4 (pos 3) generator 0).0 ≢ err out_of_fuel
update_ends_example =
    update_ends one_url nine (pos 0) added (pure false) 4 3 generator 0 all_end (omega arith)
