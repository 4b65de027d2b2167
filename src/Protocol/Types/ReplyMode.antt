-- ===== src/Protocol/Types/ReplyMode.antt =====
-- `ReplyMode` of src/miner/modules/protocol/types.py.
use pttarticle_recommander.Common.{ℕ}
use pttarticle_recommander.Common.Int.{ℤ, pos}

abbrev pub good : ℤ
good = pos 0

abbrev pub normal : ℤ
normal = pos 1

abbrev pub woo : ℤ
woo = pos 2

abbrev pub num_reply_modes : ℕ
num_reply_modes = 3
