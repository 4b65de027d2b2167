-- ===== src/FirstMiner/Replies.antt =====
-- The reading of a document's file in src/miner/modules/build.py, and the counting of its replies in
-- src/miner/modules/mining.py.
pub mod Counting
use pttarticle_recommander.Common.{
  ℕ, zero, suc, ◌+◌, List, [], ◌∷◌, length, Text, ◌==◌, Option, none, some, if◌then◌else◌,
}
use pttarticle_recommander.Common.Int.{ℤ, pos, ◌+ℤ◌, ◌-ℤ◌}
use pttarticle_recommander.Common.Texts.{find, between, from, split}
use pttarticle_recommander.Protocol.Types.ReplyMode.{good, normal, woo}
use pttarticle_recommander.Protocol.Types.ReplyMessage.{ReplyMessage}
use pttarticle_recommander.Protocol.Types.DocRealData.{DocRealData}

-- '發信站: 批踢踢實業坊(ptt.cc)'
abbrev pub station : Text
station =
    0x767c ∷ 0x4fe1 ∷ 0x7ad9 ∷ 58 ∷ 32 ∷ 0x6279 ∷ 0x8e22 ∷ 0x8e22 ∷ 0x5be6 ∷ 0x696d ∷ 0x574a ∷ 40
    ∷ 112 ∷ 116 ∷ 116 ∷ 46 ∷ 99 ∷ 99 ∷ 41 ∷ []

-- '推', '→', '噓' and the line end.
abbrev pub like_char : ℕ
like_char = 0x63a8

abbrev pub arrow_char : ℕ
arrow_char = 0x2192

abbrev pub dislike_char : ℕ
dislike_char = 0x5653

abbrev pub line_end : ℕ
line_end = 10

-- `strr[strr.find(s)+len(s):].split('\n')`
unfoldable pub lines_behind : Text → List Text
lines_behind strr = split line_end (from strr (find station strr +ℤ pos (length station)))

-- The mode that a line's first character stands for.
unfoldable pub mode_of : Text → Option ℤ
mode_of [] = none
mode_of (c ∷ line) =
    if c == like_char
    then some good
    else if c == arrow_char
    then some normal
    else if c == dislike_char
    then some woo
    else none

-- `ReplyMessage(..., line[2:line.find(':')], line[line.find(':')+1:])`
unfoldable pub reply_of : ℤ → Text → ReplyMessage
reply_of mode line =
    let colon = find (58 ∷ []) line in
    record { mode = mode; user = between line (pos 2) colon; message = from line (colon +ℤ pos 1) }

unfoldable pub replies : List Text → List ReplyMessage
replies [] = []
replies (line ∷ lines) =
    let rest = replies lines in
    elim (mode_of line) [ none ↦ rest | some mode ↦ reply_of mode line ∷ rest ]

-- `DocRealData(strr[strr[1:].find('\n')+2:strr.find(s)-5], Reply)`
unfoldable pub real_data_of : Text → DocRealData
real_data_of strr = record {
  content =
      between strr (find (line_end ∷ []) (from strr (pos 1)) +ℤ pos 2) (find station strr -ℤ pos 5);
  reply_messages = replies (lines_behind strr);
}

-- The counts of the crawler: likes, arrows and dislikes.
pub record Counts : Type 0 where
  pub like : ℕ
  pub arrow : ℕ
  pub dislike : ℕ

unfoldable pub count_line : Text → Counts → Counts
count_line [] n = n
count_line (c ∷ line) n =
    if c == like_char
    then record n { like = n.like + 1 }
    else if c == arrow_char
    then record n { arrow = n.arrow + 1 }
    else if c == dislike_char
    then record n { dislike = n.dislike + 1 }
    else n

unfoldable pub count_from : List Text → Counts → Counts
count_from [] n = n
count_from (line ∷ lines) n = count_from lines (count_line line n)

unfoldable pub count_replies : Text → Counts
count_replies strr = count_from (lines_behind strr) (record { like = 0; arrow = 0; dislike = 0 })
