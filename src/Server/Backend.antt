-- ===== src/Server/Backend.antt =====
-- `BackendInterface` of src/miner/modules/backend_interface.py: what the delegator calls. A backend
-- keeps a state `S`; each method may raise and may change the state.
use pttarticle_recommander.Common.{List, Text}
use pttarticle_recommander.Common.Int.{ℤ}
use pttarticle_recommander.Common.Exec.{Exec}
use pttarticle_recommander.Protocol.Types.DocMetaData.{DocMetaData}
use pttarticle_recommander.Protocol.Types.DocIdentity.{DocIdentity}
use pttarticle_recommander.Protocol.Types.DocRealData.{DocRealData}

-- What a method that promises an array may return in Python: a list, an iterator over one, or `None`.
pub data Sequence (A : Type 0) : Type 0 where
  list_value : List A → Sequence A
  iterator_value : List A → Sequence A
  none_value : Sequence A

pub record Backend (S : Type 0) : Type 0 where
  pub get_max_id : Text → Exec S ℤ
  pub get_doc_meta_data_after_id : Text → ℤ → Exec S (Sequence DocMetaData)
  pub get_doc_meta_data_after_time : Text → ℤ → Exec S (Sequence DocMetaData)
  pub get_doc_meta_data_of_author : Text → Text → Exec S (Sequence DocMetaData)
  pub get_doc_meta_data_series : Text → ℤ → Exec S (Sequence DocMetaData)
  pub get_doc_real_data : Text → ℤ → Exec S DocRealData
  pub get_id_by_url : Text → Exec S DocIdentity
  pub get_url_by_id : Text → ℤ → Exec S Text
