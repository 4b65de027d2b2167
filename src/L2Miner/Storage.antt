-- ===== src/L2Miner/Storage.antt =====
-- `Storage` of src/miner/modules/l2_miner/storage.py: a directory with a file per document, named by the
-- document's identity. What `pickle` writes is what it reads. The crewer and the reading of a number from
-- a url are parameters.
pub mod Stored
pub mod Searching
pub mod Finding
use pttarticle_recommander.Common.{
  ℕ, zero, suc, ◌+◌, List, [], ◌∷◌, Option, none, some, Text, Bool, true, false, if◌then◌else◌,
}
use pttarticle_recommander.Common.Int.{ℤ, pos, negsuc, pos_part, ◌+ℤ◌, ltb_ℤ, leb_ℤ, eqb_ℤ}
use pttarticle_recommander.Common.Results.{Result, ok, err, type_error, out_of_fuel}
use pttarticle_recommander.Common.Exec.{Exec, pure, raise, lift, gets, ◌>>=◌, ◌>>◌}
use pttarticle_recommander.L2Miner.Document.{ADocument}

abbrev pub Files : Type 0
Files = List (ℤ × ADocument)

-- `os.path.isfile` and loading the file.
unfoldable pub find : ℤ → Files → Option ADocument
find idid [] = none
find idid ((i, doc) ∷ files) = if eqb_ℤ i idid then some doc else find idid files

-- Writing a file, over an older one or not.
abbrev pub write_file : ℤ → ADocument → Files → Files
write_file idid doc files = (idid, doc) ∷ files

-- The object, the directory and what the crewer sees of the network.
pub record Storage (W : Type 0) : Type 0 where
  pub files : Files
  pub max_id : ℤ
  pub updated : Bool
  pub net : W

abbrev pub greater : ℤ → ℤ → ℤ
greater a b = if ltb_ℤ a b then b else a

-- `max([-1] + [int(f) for f in ...])`
unfoldable pub greatest : Files → ℤ
greatest [] = negsuc 0
greatest ((i, doc) ∷ files) = greater (greatest files) i

abbrev pub init : {W : Type 0} → Files → W → Storage W
init files net = record { files = files; max_id = greatest files; updated = false; net = net }

-- `for idid in range(self._max_id, -1, -1)`, as the number of the identities that are left.
abbrev pub identities : ℤ → ℕ
identities max_id = pos_part (max_id +ℤ pos 1)

-- The loop of `oldest_doc`, with the document of the file before.
unfoldable pub oldest_from : Files → ℕ → Option ADocument → Option ADocument
oldest_from files zero prev = none
oldest_from files (suc idid) prev = elim (find (pos idid) files) [
  | none ↦ prev
  | some doc ↦ oldest_from files idid (some doc)
]

unfoldable pub oldest_doc : {W : Type 0} → Storage W → Option ADocument
oldest_doc s = oldest_from s.files (identities s.max_id) none

abbrev pub identified : ℤ → ADocument → ADocument
identified idid doc = record doc {
  meta_data = record doc.meta_data { idid = some idid; prev_id = some idid };
}

module _ {W : Type 0} where
  -- What `_update_doc` writes for the document that the crewer returns.
  unfoldable pub store : ℤ → ADocument → Exec (Storage W) ADocument
  store idid doc s = (
    ok (identified idid doc),
    record s {
      files = write_file idid (identified idid doc) s.files;
      max_id = greater s.max_id idid;
    },
  )

  unfoldable pub mark_updated : Exec (Storage W) (Unit {0})
  mark_updated s = (ok tt, record s { updated = true })

module _ {W : Type 0} (crewer : Text → Exec W ADocument) where
  abbrev pub crew : Text → Exec (Storage W) ADocument
  crew url s = let r = crewer url s.net in (r.0, record s { net = r.1 })

  unfoldable pub update_doc : ℤ → Text → Exec (Storage W) ADocument
  update_doc idid url = do doc ← crew url; store idid doc

  unfoldable pub add_doc : ℤ → Text → Exec (Storage W) Bool
  add_doc idid url s = elim (find idid s.files) [
    | none ↦ (do update_doc idid url; mark_updated; pure true) s
    | some doc ↦ (ok false, s)
  ]

  -- `self._update_doc(doc.meta_data.idid, doc.url)`; a `None` cannot be formatted for the log.
  unfoldable pub refresh : ADocument → Exec (Storage W) (Unit {0})
  refresh doc = elim doc.meta_data.idid [
    | none ↦ raise type_error
    | some idid ↦ do update_doc idid doc.url; pure tt
  ]

  -- The loop of `update_after_time`, with the least identity so far.
  unfoldable pub update_from : ℤ → ℕ → ℤ → Exec (Storage W) ℤ
  update_from last_time zero min_id s = (ok min_id, s)
  update_from last_time (suc idid) min_id s = elim (find (pos idid) s.files) [
    | none ↦ update_from last_time idid min_id s
    | some doc ↦
        let rest = (do refresh doc; update_from last_time idid (pos idid)) s in
        if ltb_ℤ doc.meta_data.post_time last_time then (ok min_id, s) else rest
  ]

  unfoldable pub update_after_time : ℤ → Exec (Storage W) (ℤ × ℤ)
  update_after_time last_time = do
    max_id ← gets (λ s. s.max_id)
    min_id ← update_from last_time (identities max_id) max_id
    pure (min_id, max_id)

-- `self._lock.wait(1)` and the flag after it: other threads may add the file meanwhile.
module _ {W : Type 0} (wait : Exec (Storage W) Bool) where
  unfoldable pub get_doc_by_id : ℕ → ℤ → Exec (Storage W) (Option ADocument)
  get_doc_by_id zero idid s = (err out_of_fuel, s)
  get_doc_by_id (suc fuel) idid s = elim (find idid s.files) [
    | some doc ↦ (ok (some doc), s)
    | none ↦ (do stop ← wait; if stop then pure none else get_doc_by_id fuel idid) s
  ]

-- The numbers of urls, in halves.
module _ (url_num_getter : Text → Result ℤ) where
  -- The loop of `get_doc_by_url`: the files from new to old have falling numbers.
  unfoldable pub search_url : Files → ℕ → ℤ → Result (Option ADocument)
  search_url files zero url_num = ok none
  search_url files (suc idid) url_num = elim (find (pos idid) files) [
    | none ↦ search_url files idid url_num
    | some doc ↦ elim (url_num_getter doc.url) [
      | err e ↦ err e
      | ok url_num2 ↦
          let rest = search_url files idid url_num in
          if eqb_ℤ url_num url_num2
          then ok (some doc)
          else if ltb_ℤ url_num2 url_num
          then ok none
          else rest
    ]
  ]

  unfoldable pub get_doc_by_url : {W : Type 0} → Text → Storage W → Result (Option ADocument)
  get_doc_by_url url s = elim (url_num_getter url) [
    | err e ↦ err e
    | ok url_num ↦ search_url s.files (identities s.max_id) url_num
  ]
