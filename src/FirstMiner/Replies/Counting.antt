-- ===== src/FirstMiner/Replies/Counting.antt =====
-- The counts of src/miner/modules/mining.py against the replies of src/miner/modules/build.py.
use pttarticle_recommander.Common.{
  ℕ, suc, ◌+◌, ◌≡◌, refl, sym, ap, ◌∙◌, List, [], ◌∷◌, Text, ◌==◌, none, some, Bool-cases, inl, inr,
  arith, if◌then◌else◌,
}
use pttarticle_recommander.Common.Int.{ℤ, eqb_ℤ}
use pttarticle_recommander.Protocol.Types.ReplyMode.{good, normal, woo}
use pttarticle_recommander.Protocol.Types.ReplyMessage.{ReplyMessage}
use pttarticle_recommander.FirstMiner.Replies.{
  like_char, arrow_char, dislike_char, lines_behind, mode_of, reply_of, replies, real_data_of,
  Counts, count_line, count_from, count_replies,
}

-- The number of replies of a mode.
unfoldable pub of_mode : ℤ → List ReplyMessage → ℕ
of_mode mode [] = 0
of_mode mode (r ∷ rs) = let rest = of_mode mode rs in if eqb_ℤ r.mode mode then suc rest else rest

-- What the modes of the replies add to the counts.
abbrev added : List ReplyMessage → Counts → Counts
added rs n = record {
  like = n.like + of_mode good rs;
  arrow = n.arrow + of_mode normal rs;
  dislike = n.dislike + of_mode woo rs;
}

same_counts : (a b : Counts) → a.like ≡ b.like → a.arrow ≡ b.arrow → a.dislike ≡ b.dislike → a ≡ b
same_counts a b p q r = cc (p, q, r)

replies_unmarked :
    (line : Text) (lines : List Text) → mode_of line ≡ none → replies (line ∷ lines) ≡ replies lines
unfolding replies
replies_unmarked line lines e = rw (e, replies)

replies_marked :
    (mode : ℤ) (line : Text) (lines : List Text)
    → mode_of line ≡ some mode
    → replies (line ∷ lines) ≡ reply_of mode line ∷ replies lines
unfolding replies
replies_marked mode line lines e = rw (e, replies)

mode_reply : (mode : ℤ) (line : Text) → (reply_of mode line).mode ≡ mode
unfolding reply_of
mode_reply mode line = refl

of_mode_first :
    (mode : ℤ) (r : ReplyMessage) (rs : List ReplyMessage)
    → of_mode mode (r ∷ rs) ≡ of_mode mode (r ∷ []) + of_mode mode rs
unfolding of_mode
of_mode_first mode r rs = elim (Bool-cases (eqb_ℤ r.mode mode)) [
  | inl e ↦ rw e (omega arith)
  | inr e ↦ rw e (omega arith)
]

-- What a line with a mode adds to what the later lines add.
add_reply :
    (mode : ℤ) (line : Text) (lines : List Text) (n m : Counts)
    → mode_of line ≡ some mode
    → added (reply_of mode line ∷ []) n ≡ m
    → added (replies (line ∷ lines)) n ≡ added (replies lines) m
add_reply mode line lines n m e p =
    let first = λ (k : ℤ). of_mode_first k (reply_of mode line) (replies lines) in
    ap (λ rs. added rs n) (replies_marked mode line lines e)
    ∙ same_counts _ _ (omega (arith, first good, ap (λ t. t.like) p))
        (omega (arith, first normal, ap (λ t. t.arrow) p))
        (omega (arith, first woo, ap (λ t. t.dislike) p))

add_line :
    (line : Text) (lines : List Text) (n : Counts)
    → added (replies (line ∷ lines)) n ≡ added (replies lines) (count_line line n)
unfolding count_line
add_line [] lines n = ap (λ rs. added rs n) (replies_unmarked [] lines (unfold mode_of in refl))
add_line (c ∷ line) lines n = elim (Bool-cases (c == like_char)) [
  | inl a ↦ rw a (
      add_reply good (c ∷ line) lines n _ (unfold mode_of in rw a refl)
        (unfold of_mode reply_of in same_counts _ _ refl (omega arith) (omega arith)))
  | inr a ↦ elim (Bool-cases (c == arrow_char)) [
    | inl b ↦
        rw (a, b)
          (add_reply normal (c ∷ line) lines n _ (unfold mode_of in rw (a, b) refl)
            (unfold of_mode reply_of in same_counts _ _ (omega arith) refl (omega arith)))
    | inr b ↦ elim (Bool-cases (c == dislike_char)) [
      | inl d ↦
          rw (a, b, d)
            (add_reply woo (c ∷ line) lines n _ (unfold mode_of in rw (a, b, d) refl)
              (unfold of_mode reply_of in same_counts _ _ (omega arith) (omega arith) refl))
      | inr d ↦
          rw (a, b, d)
            (ap (λ rs. added rs n)
              (replies_unmarked (c ∷ line) lines (unfold mode_of in rw (a, b, d) refl)))
    ]
  ]
]

count_from-added : (lines : List Text) (n : Counts) → count_from lines n ≡ added (replies lines) n
unfolding count_from
count_from-added [] n =
    unfold replies of_mode in same_counts _ _ (omega arith) (omega arith) (omega arith)
count_from-added (line ∷ lines) n =
    count_from-added lines (count_line line n) ∙ sym (add_line line lines n)

-- The number of replies of each mode, as the crawler writes them to the metadata.
pub record CountsReplies (n : Counts) (rs : List ReplyMessage) : Type 0 where
  pub likes : n.like ≡ of_mode good rs
  pub arrows : n.arrow ≡ of_mode normal rs
  pub dislikes : n.dislike ≡ of_mode woo rs

-- On every text, the counts that the crawler takes of a document are the numbers of replies of
-- each mode that the backend reads from the same text: likes of the mode GOOD, arrows of NORMAL
-- and dislikes of WOO.
pub count_replies-modes :
    (strr : Text) → CountsReplies (count_replies strr) ((real_data_of strr).reply_messages)
unfolding count_replies real_data_of
count_replies-modes strr =
    let start : Counts = record { like = 0; arrow = 0; dislike = 0 } in
    let e = count_from-added (lines_behind strr) start in
    record {
      likes = omega (arith, ap (λ t. t.like) e);
      arrows = omega (arith, ap (λ t. t.arrow) e);
      dislikes = omega (arith, ap (λ t. t.dislike) e);
    }
