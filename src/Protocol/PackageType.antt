-- ===== src/Protocol/PackageType.antt =====
-- `PackageType` of src/miner/modules/protocol/net.py: the numbers that name a package's content.
use Prim.Native.Nat.{ℕ, bit_or}

abbrev pub async_bit : ℕ
async_bit = 0x100000

abbrev pub reply_query_bit : ℕ
reply_query_bit = 0x01

abbrev pub query_max_id : ℕ
query_max_id = 0x100

abbrev pub reply_max_id : ℕ
reply_max_id = bit_or query_max_id reply_query_bit

abbrev pub query_doc_meta_data_after_id : ℕ
query_doc_meta_data_after_id = 0x200

abbrev pub reply_doc_meta_data_after_id : ℕ
reply_doc_meta_data_after_id = bit_or query_doc_meta_data_after_id reply_query_bit

abbrev pub query_doc_meta_data_after_time : ℕ
query_doc_meta_data_after_time = 0x300

abbrev pub reply_doc_meta_data_after_time : ℕ
reply_doc_meta_data_after_time = bit_or query_doc_meta_data_after_time reply_query_bit

abbrev pub query_doc_meta_data_of_author : ℕ
query_doc_meta_data_of_author = 0x400

abbrev pub reply_doc_meta_data_of_author : ℕ
reply_doc_meta_data_of_author = bit_or query_doc_meta_data_of_author reply_query_bit

abbrev pub query_doc_meta_data_series : ℕ
query_doc_meta_data_series = 0x500

abbrev pub reply_doc_meta_data_series : ℕ
reply_doc_meta_data_series = bit_or query_doc_meta_data_series reply_query_bit

abbrev pub query_doc_real_data : ℕ
query_doc_real_data = 0x600

abbrev pub reply_doc_real_data : ℕ
reply_doc_real_data = bit_or query_doc_real_data reply_query_bit

abbrev pub register_new_doc_listener : ℕ
register_new_doc_listener = bit_or 0x700 async_bit

abbrev pub unregister_new_doc_listener : ℕ
unregister_new_doc_listener = bit_or 0x710 async_bit

abbrev pub notify_new_doc_listener : ℕ
notify_new_doc_listener = 0x720

abbrev pub register_doc_meta_data_changed_listener : ℕ
register_doc_meta_data_changed_listener = bit_or 0x800 async_bit

abbrev pub unregister_doc_meta_data_changed_listener : ℕ
unregister_doc_meta_data_changed_listener = bit_or 0x810 async_bit

abbrev pub notify_doc_meta_data_changed_listener : ℕ
notify_doc_meta_data_changed_listener = 0x820

abbrev pub query_url_by_id : ℕ
query_url_by_id = 0x900

abbrev pub reply_url_by_id : ℕ
reply_url_by_id = bit_or query_url_by_id reply_query_bit

abbrev pub query_id_by_url : ℕ
query_id_by_url = 0xa00

abbrev pub reply_id_by_url : ℕ
reply_id_by_url = bit_or query_id_by_url reply_query_bit

abbrev pub query_doc_rel_info : ℕ
query_doc_rel_info = 0xb00

abbrev pub reply_doc_rel_info : ℕ
reply_doc_rel_info = bit_or query_doc_rel_info reply_query_bit
