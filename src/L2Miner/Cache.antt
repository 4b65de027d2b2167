-- ===== src/L2Miner/Cache.antt =====
-- `Cache` of src/miner/modules/l2_miner/cache.py: the documents whose identities lie between `min_id`
-- and `max_id`, by position. Each function on this state is a section under `_cache_lock`.
pub mod Slots
pub mod Shrink
pub mod Room
pub mod Written
pub mod Keep
pub mod Owned
use pttarticle_recommander.Common.{
  ℕ, zero, suc, ◌+◌, ◌-◌, List, [], ◌∷◌, ◌++◌, length, get_elem?, replicate, leb, ltb, Bool, ◌&&◌,
  Option, none, some, Text, if◌then◌else◌,
}
use pttarticle_recommander.Common.Int.{ℤ, pos, negsuc, pos_part, ◌+ℤ◌, ◌-ℤ◌, ltb_ℤ, leb_ℤ}
use pttarticle_recommander.Common.Dict
use pttarticle_recommander.Common.Dict.{Dict}
use pttarticle_recommander.Common.Results.{
  Result, ok, err, key_error, index_error, type_error, attribute_error, out_of_fuel,
}
use pttarticle_recommander.Common.Exec.{Exec, pure, raise, lift, gets, ◌>>=◌, ◌>>◌}
use pttarticle_recommander.L2Miner.Document.{ADocument}

pub record Cache : Type 0 where
  pub docs : List (Option ADocument)
  pub max_id : ℤ
  pub min_id : ℤ
  pub url_to_id : Dict ℤ

-- `__init__`
abbrev pub init : Cache
init = record { docs = []; max_id = negsuc 0; min_id = pos 0; url_to_id = [] }

module _ {A : Type 0} where
  -- `self._docs[i] = v`, where `i` is in range.
  unfoldable pub write : List A → ℕ → A → List A
  write [] i v = []
  write (x ∷ xs) zero v = v ∷ xs
  write (x ∷ xs) (suc i) v = x ∷ write xs i v

-- `self._docs[i]`
unfoldable pub entry : ℕ → Exec Cache (Option ADocument)
entry i c = elim (get_elem? c.docs i) [ none ↦ (err index_error, c) | some slot ↦ (ok slot, c) ]

-- `del self._url_to_id[url]`
unfoldable pub forget_url : Text → Exec Cache (Unit {0})
forget_url url c = elim (Dict.lookup url c.url_to_id) [
  | none ↦ (err key_error, c)
  | some idid ↦ (ok tt, record c { url_to_id = Dict.remove url c.url_to_id })
]

unfoldable pub set_entry : ℕ → Option ADocument → Exec Cache (Unit {0})
set_entry i slot c =
    if ltb i (length c.docs)
    then (ok tt, record c { docs = write c.docs i slot })
    else (err index_error, c)

unfoldable pub clean_slot : ℕ → Option ADocument → Exec Cache (Unit {0})
clean_slot i none = pure tt
clean_slot i (some doc) = do forget_url doc.url; set_entry i none

unfoldable pub clean_cache_entry : ℕ → Exec Cache (Unit {0})
unfolding clean_slot
clean_cache_entry i = do doc ← entry i; clean_slot i doc

rest_after_pop : List (Option ADocument) → Exec Cache (Unit {0})
rest_after_pop [] c = (err index_error, c)
rest_after_pop (slot ∷ docs) c = (ok tt, record c { docs = docs })

-- `self._docs.pop(0)`
unfoldable pub pop_first : Exec Cache (Unit {0})
unfolding rest_after_pop
pop_first c = rest_after_pop c.docs c

unfoldable pub advance_min : Exec Cache (Unit {0})
advance_min c = (ok tt, record c { min_id = c.min_id +ℤ pos 1 })

-- `while len(self._docs) > size`, on fuel.
unfoldable pub shrink_loop : ℕ → ℕ → Exec Cache (Unit {0})
shrink_loop zero size c = if ltb size (length c.docs) then (err out_of_fuel, c) else (ok tt, c)
shrink_loop (suc fuel) size c =
    let round = (do clean_cache_entry 0; pop_first; advance_min; shrink_loop fuel size) c in
    if ltb size (length c.docs) then round else (ok tt, c)

-- Each round pops an entry, so that as many rounds as there are entries are enough.
unfoldable pub shrink_cache_size : ℕ → Exec Cache (Unit {0})
shrink_cache_size size c = shrink_loop (length c.docs) size c

-- `[None] * n`, for an `n` that is not negative.
abbrev pub nones : ℤ → List (Option ADocument)
nones n = replicate (pos_part n) none

-- `self._url_to_id = {}; self._docs = [None]; self._min_id = self._max_id = idid`
unfoldable pub restart_at : ℤ → Exec Cache (Unit {0})
restart_at idid c =
    (ok tt, record { docs = none ∷ []; max_id = idid; min_id = idid; url_to_id = [] })

unfoldable pub extend_right : ℤ → ℤ → Exec Cache (Unit {0})
extend_right num_need_add idid c =
    (ok tt, record c { docs = c.docs ++ nones num_need_add; max_id = idid })

unfoldable pub extend_left : ℤ → Exec Cache (Unit {0})
extend_left idid c = (ok tt, record c { docs = nones (c.min_id -ℤ idid) ++ c.docs; min_id = idid })

unfoldable pub remember_url : Text → ℤ → Exec Cache (Unit {0})
remember_url url idid c = (ok tt, record c { url_to_id = Dict.insert url idid c.url_to_id })

-- The second branch: the document is kept if the window holds its identity.
unfoldable pub keep_doc : ℤ → ADocument → Exec Cache (Unit {0})
keep_doc idid doc c =
    if leb_ℤ c.min_id idid && leb_ℤ idid c.max_id
    then (do set_entry (pos_part (idid -ℤ c.min_id)) (some doc); remember_url doc.url idid) c
    else (ok tt, c)

module _ (cache_size : ℕ) where
  -- Always caches the newer, so it moves the cache forward.
  unfoldable pub move_forward : ℤ → Exec Cache (Unit {0})
  unfolding restart_at extend_right
  move_forward idid c =
      let num_need_add = idid -ℤ c.max_id in
      if leb_ℤ (pos cache_size) num_need_add
      then restart_at idid c
      else (do
        shrink_cache_size (pos_part (pos cache_size -ℤ num_need_add))
        extend_right num_need_add idid)
          c

  -- The first branch of `_cache_doc_if_ok`: the window is moved or widened for `idid`.
  unfoldable pub make_room : ℤ → Exec Cache (Unit {0})
  make_room idid c =
      if ltb_ℤ c.max_id idid
      then move_forward idid c
      else if ltb_ℤ idid c.min_id && leb_ℤ (c.max_id -ℤ idid +ℤ pos 1) (pos cache_size)
      then extend_left idid c
      else (ok tt, c)

  cache_identified : Option ℤ → ADocument → Exec Cache (Unit {0})
  cache_identified none doc = raise type_error
  cache_identified (some idid) doc = do make_room idid; keep_doc idid doc

  -- A document whose identity is `None` cannot be compared.
  unfoldable pub cache_doc_if_ok : ADocument → Exec Cache (Unit {0})
  unfolding cache_identified
  cache_doc_if_ok doc = cache_identified doc.meta_data.idid doc
