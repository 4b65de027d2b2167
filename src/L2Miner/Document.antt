-- ===== src/L2Miner/Document.antt =====
-- `ADocument` of src/miner/modules/l2_miner/common.py.
use pttarticle_recommander.Common.{Text}
use pttarticle_recommander.Protocol.Types.DocMetaData.{DocMetaData}
use pttarticle_recommander.Protocol.Types.DocRealData.{DocRealData}

pub record ADocument : Type 0 where
  pub url : Text
  pub meta_data : DocMetaData
  pub real_data : DocRealData
