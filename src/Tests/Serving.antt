-- ===== src/Tests/Serving.antt =====
-- The theorems on the loop of a connection's thread, at a connection that holds the bytes of both
-- directions.
use pttarticle_recommander.Common.{
  ℕ, zero, suc, ◌≡◌, ◌<◌, refl, ap, [], ◌∷◌, ◌++◌, length, take, drop, take-all, arith, sym, Bool,
  false, true, ◌∙◌,
}
use pttarticle_recommander.Common.Results.{ok, attribute_error}
use pttarticle_recommander.Common.Exec.{Exec, pure, raise}
use pttarticle_recommander.Protocol.Bytes.{Bytes, le_bytes, pack_unsigned}
use pttarticle_recommander.Protocol.PackageType.{query_url_by_id, reply_url_by_id}
use pttarticle_recommander.Protocol.Net.PackageHeader
use pttarticle_recommander.Common.Int.{pos}
use pttarticle_recommander.Server.Backend.{Backend, list_value, iterator_value}
use pttarticle_recommander.Server.Delegator.{find, handle_package}
use pttarticle_recommander.Server.Delegator.Answers.{answer-url_by_id}
use pttarticle_recommander.Server.Connection.{Connection}
use pttarticle_recommander.Server.Connection.Ending.{IsSink}
use pttarticle_recommander.Server.Connection.Run.{run}
use pttarticle_recommander.Server.Connection.Run.Closing.{
  IsClosing, IsRefused, no_signature, refused_closes,
}
use pttarticle_recommander.Server.Connection.Run.Round.{
  IsPeer, IsAnswered, Replied, serve_one-Replied,
}
use pttarticle_recommander.Server.Connection.Run.Stream.{Arrival, chunk, IsFeed}
use pttarticle_recommander.Tests.Data.{
  url, url_bytes, url-pack, doc_id, doc_id_bytes, doc_id-dump, header_of, header_bytes, take-drop,
  length-take-le,
}

-- The bytes that the peer has sent, those that it was sent, how often the connection was closed, and
-- whether the callback was called.
record Wire : Type 0 where
  pub incoming : Bytes
  pub outgoing : Bytes
  pub closed : ℕ
  pub notified : Bool

abbrev wired : Connection Wire
wired = record {
  stop_flag = pure false;
  recv = λ n w. (ok (take n w.incoming), record w { incoming = drop n w.incoming });
  send = λ b w. (ok (length b), record w { outgoing = w.outgoing ++ b });
  close = λ w. (ok tt, record w { closed = suc w.closed });
}

abbrev no_delay : Wire → ℕ
no_delay w = 0

wired-Arrival :
    (n : ℕ) (w : Wire) (front : Bytes)
    → w.incoming ≡ front
    → 0 < n
    → 0 < length front
    → Arrival wired (λ v. v.incoming) no_delay n w
wired-Arrival zero w front e h k = absurd (omega arith)
wired-Arrival (suc n) w [] e h k = absurd (omega arith)
wired-Arrival (suc n) w (x ∷ b) e h k =
    chunk x (take n b) (record w { incoming = drop n b })
      (ap (λ t. (ok (take (suc n) t), record w { incoming = drop (suc n) t })) e)
      (omega (arith, length-take-le n b)) (e ∙ ap (λ l. x ∷ l) (take-drop n b)) (omega arith)

wired-IsFeed : IsFeed wired (λ w. w.incoming) no_delay
wired-IsFeed = record {
  running = λ w. refl;
  arrival = λ n w h k. wired-Arrival n w (w.incoming) refl h k;
}

wired-IsSink : IsSink wired (λ w. w.outgoing)
wired-IsSink = record {
  running = λ w. refl;
  accept = λ x b w. (
    length b,
    record w { outgoing = w.outgoing ++ (x ∷ b) },
    refl,
    ap (λ l. w.outgoing ++ (x ∷ l)) (sym (take-all (length b) b (omega arith))),
  );
}

wired-IsPeer : IsPeer wired (λ w. w.incoming) (λ w. w.outgoing) no_delay
wired-IsPeer = record {
  feed = wired-IsFeed;
  sink = wired-IsSink;
  recv_quiet = λ n w. refl;
  send_quiet = λ b w. refl;
}

-- A backend that knows one url.
abbrev one_url : Backend Wire
one_url = record {
  get_max_id = λ b. pure (pos 7);
  get_doc_meta_data_after_id = λ b i. pure (list_value []);
  get_doc_meta_data_after_time = λ b t. pure (list_value []);
  get_doc_meta_data_of_author = λ b a. pure (iterator_value []);
  get_doc_meta_data_series = λ b i. pure (list_value []);
  get_doc_real_data = λ b i. raise attribute_error;
  get_id_by_url = λ u. pure doc_id;
  get_url_by_id = λ b i. pure url;
}

url_answered :
    (w : Wire)
    → handle_package one_url query_url_by_id doc_id_bytes w ≡ (ok (reply_url_by_id, url_bytes), w)
url_answered w =
    answer-url_by_id one_url doc_id doc_id_bytes url_bytes url w w doc_id-dump refl url-pack

url-IsAnswered :
    IsAnswered one_url
      (λ w. w.incoming)
      (λ w. w.outgoing)
      query_url_by_id
      doc_id_bytes
      reply_url_by_id
      url_bytes
url-IsAnswered = record {
  answer = λ w. ap (λ t. t.0) (url_answered w);
  pending_quiet = λ w. ap (λ t. t.1.incoming) (url_answered w);
  sent_quiet = λ w. ap (λ t. t.1.outgoing) (url_answered w);
}

query-dump :
    PackageHeader.dump (header_of query_url_by_id 13) ≡ ok (header_bytes query_url_by_id 13)
unfolding PackageHeader.dump pack_unsigned le_bytes
query-dump = refl

reply-dump :
    PackageHeader.dump (header_of reply_url_by_id 11) ≡ ok (header_bytes reply_url_by_id 11)
unfolding PackageHeader.dump pack_unsigned le_bytes
reply-dump = refl

-- The query, and a byte of the next.
abbrev query_sent : Wire
query_sent = record {
  incoming = header_bytes query_url_by_id 13 ++ (doc_id_bytes ++ 5 ∷ []);
  outgoing = [];
  closed = 0;
  notified = false;
}

serve_one-Replied_example :
    (w : Wire) × Replied wired one_url
      (λ v. v.incoming)
      (λ v. v.outgoing)
      30
      (5 ∷ [])
      (header_bytes reply_url_by_id 11 ++ url_bytes)
      query_sent
      w
serve_one-Replied_example =
    serve_one-Replied wired-IsPeer one_url 30 query_url_by_id reply_url_by_id
      (header_bytes query_url_by_id 13) doc_id_bytes (5 ∷ []) (header_bytes reply_url_by_id 11)
      url_bytes query_sent query-dump refl (omega arith) url-IsAnswered reply-dump

abbrev notify : Exec Wire (Unit {0})
notify w = (ok tt, record w { notified = true })

wired-IsClosing :
    IsClosing wired notify (λ w. w.outgoing) (λ w. w.notified ≡ true) (λ w. 0 < w.closed)
wired-IsClosing = record {
  notifies = λ w. (record w { notified = true }, refl, refl, refl);
  closes = λ w. (record w { closed = suc w.closed }, refl, refl, omega arith, λ h. h);
}

-- A query of an unknown type with two bytes, and a byte behind it.
abbrev unknown_sent : Wire
unknown_sent = record {
  incoming = header_bytes 99 2 ++ ((1 ∷ 2 ∷ []) ++ 5 ∷ []);
  outgoing = [];
  closed = 0;
  notified = false;
}

unknown-dump : PackageHeader.dump (header_of 99 2) ≡ ok (header_bytes 99 2)
unfolding PackageHeader.dump pack_unsigned le_bytes
unknown-dump = refl

unknown-IsRefused : IsRefused 99 (1 ∷ 2 ∷ [])
unfolding find
unknown-IsRefused = no_signature refl

refused_closes_example :
    (w : Wire) × (run wired one_url 20 notify true 2 unknown_sent ≡ (ok tt, w))
    × (w.outgoing ≡ [])
    × (w.notified ≡ true)
    × (0 < w.closed)
refused_closes_example =
    refused_closes wired-IsPeer one_url wired-IsClosing 20 1 99 (header_bytes 99 2) (1 ∷ 2 ∷ [])
      (5 ∷ []) unknown_sent unknown-dump refl (omega arith) unknown-IsRefused
