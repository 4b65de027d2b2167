-- ===== src/L2Miner/Lookup/Flush.antt =====
-- `_update_nearest_docs` of src/miner/modules/l2_miner/cache.py, on a valid cache.
use pttarticle_recommander.Common.{
  ℕ, zero, suc, ◌+◌, ◌≤◌, ◌<◌, ◌≡◌, refl, ap, subst, ◌∙◌, length, get_elem?, none, some, Text,
  arith, ◌&&◌, Bool-cases, inl, inr,
}
use pttarticle_recommander.Common.Int.{
  ℤ, pos, pos_part, neg_part, ◌+ℤ◌, ◌-ℤ◌, ◌≤ℤ◌, ◌<ℤ◌, leb_ℤ, difference, pos_part-zero, +ℤ_parts,
  -ℤ_parts,
}
use pttarticle_recommander.Common.Results.{ok}
use pttarticle_recommander.L2Miner.Cache.{Cache}
use pttarticle_recommander.L2Miner.Cache.Room.{IsValid}
use pttarticle_recommander.L2Miner.Lookup.Answers.{cached_doc_inside, cached_doc_outside}
use pttarticle_recommander.L2Miner.Lookup.{
  Storing, Mirror, cached_doc, clean_entries, max_ℤ, min_ℤ, flush_range, update_nearest_docs,
}
use pttarticle_recommander.L2Miner.Lookup.Sweep.{Swept, clean_entries-Swept}

max_ℤ-left : (a b : ℤ) → a ≤ℤ max_ℤ a b
max_ℤ-left a b = ground arith

max_ℤ-least : (a b x : ℤ) → a ≤ℤ x → b ≤ℤ x → max_ℤ a b ≤ℤ x
max_ℤ-least a b x h k = ground arith

min_ℤ-left : (a b : ℤ) → min_ℤ a b ≤ℤ a
min_ℤ-left a b = ground arith

min_ℤ-greatest : (a b x : ℤ) → x ≤ℤ a → x ≤ℤ b → x ≤ℤ min_ℤ a b
min_ℤ-greatest a b x h k = ground arith

module _ (owner : Text → ℤ) (cache_size : ℕ) where
  Swept-IsValid :
      (n i : ℕ) (c c' : Cache)
      → IsValid owner cache_size c
      → Swept owner n i c c'
      → IsValid owner cache_size c'
  Swept-IsValid n i c c' v s = record {
    held = s.held;
    within = omega (arith, s.count, v.within);
    width = omega (
      arith,
      s.count,
      v.width,
      ap pos_part s.same_min,
      ap neg_part s.same_min,
      ap pos_part s.same_max,
      ap neg_part s.same_max,
    );
  }

  -- The positions from the first identity to the last, where both lie in the window.
  positions-fit :
      (first last : ℤ) (c : Cache)
      → IsValid owner cache_size c
      → c.min_id ≤ℤ first
      → first ≤ℤ last
      → last ≤ℤ c.max_id
      → pos_part (first -ℤ c.min_id) + pos_part (last +ℤ pos 1 -ℤ first) ≤ length c.docs
  positions-fit first last c v h k l = omega (
    arith,
    v.width,
    +ℤ_parts last (pos 1),
    difference first c.min_id h,
    difference (last +ℤ pos 1) first (omega (arith, +ℤ_parts last (pos 1))),
  )

  positions-cover :
      (first last idid : ℤ) (c : Cache)
      → c.min_id ≤ℤ first
      → first ≤ℤ idid
      → idid ≤ℤ last
      → (pos_part (first -ℤ c.min_id) ≤ pos_part (idid -ℤ c.min_id))
        × (pos_part (idid -ℤ c.min_id)
            < pos_part (first -ℤ c.min_id) + pos_part (last +ℤ pos 1 -ℤ first))
  positions-cover first last idid c h k l =
      let a = +ℤ_parts last (pos 1) in
      let p = difference first c.min_id h in
      let q = difference (last +ℤ pos 1) first (omega (arith, a)) in
      let r = difference idid c.min_id (omega arith) in
      (omega (arith, a, p, q, r), omega (arith, a, p, q, r))

  -- What flushing leaves: a valid cache, without the documents from `first` to `last`.
  record Flushed (first last : ℤ) (c c' : Cache) : Type 0 where
    pub ran :
        clean_entries (pos_part (last +ℤ pos 1 -ℤ first)) (pos_part (first -ℤ c.min_id)) c
        ≡ (ok tt, c')
    pub valid : IsValid owner cache_size c'
    pub same_min : c'.min_id ≡ c.min_id
    pub same_max : c'.max_id ≡ c.max_id
    pub missing :
        (idid : ℤ)
        → first ≤ℤ idid
        → idid ≤ℤ last
        → get_elem? c'.docs (pos_part (idid -ℤ c.min_id)) ≡ some none

  nothing_cleaned : (n i : ℕ) (c : Cache) → n ≡ 0 → clean_entries n i c ≡ (ok tt, c)
  unfolding clean_entries
  nothing_cleaned zero i c h = refl
  nothing_cleaned (suc n) i c h = absurd (omega arith)

  flush-Flushed :
      (first last : ℤ) (c : Cache)
      → IsValid owner cache_size c
      → c.min_id ≤ℤ first
      → last ≤ℤ c.max_id
      → (c' : Cache) × Flushed first last c c'
  flush-Flushed first last c v h k =
      let n : ℕ = pos_part (last +ℤ pos 1 -ℤ first) in
      let i : ℕ = pos_part (first -ℤ c.min_id) in
      elim (Bool-cases (leb_ℤ first last)) [
        | inl some_ids ↦
            let (c', p, s) =
              clean_entries-Swept owner n i c (positions-fit first last c v h (ground arith) k)
                v.held in
            (
              c',
              record {
                ran = p;
                valid = Swept-IsValid n i c c' v s;
                same_min = s.same_min;
                same_max = s.same_max;
                missing = λ idid a b.
                    let (low, high) = positions-cover first last idid c h a b in
                    s.emptied (pos_part (idid -ℤ c.min_id)) low high;
              },
            )
        | inr no_ids ↦
            let less : last <ℤ first = ground arith in
            (
              c,
              record {
                ran = nothing_cleaned n i c (
                    pos_part-zero (last +ℤ pos 1 -ℤ first)
                      (omega (arith, +ℤ_parts last (pos 1), -ℤ_parts (last +ℤ pos 1) first)));
                valid = v;
                same_min = refl;
                same_max = refl;
                missing = λ idid a b. absurd (omega arith);
              },
            )
      ]

  Flushed-misses :
      (first last idid : ℤ) (c c' : Cache)
      → Flushed first last c c'
      → (c.min_id ≤ℤ idid → idid ≤ℤ c.max_id → (first ≤ℤ idid) × (idid ≤ℤ last))
      → cached_doc idid c' ≡ (ok none, c')
  Flushed-misses first last idid c c' f h =
      elim (Bool-cases (leb_ℤ c'.min_id idid && leb_ℤ idid c'.max_id)) [
        | inl inside ↦
            let a : c'.min_id ≤ℤ idid = ground arith in
            let b : idid ≤ℤ c'.max_id = ground arith in
            let (low, high) =
              h (subst (λ m. m ≤ℤ idid) f.same_min a) (subst (λ m. idid ≤ℤ m) f.same_max b) in
            cached_doc_inside owner cache_size idid c' none inside (
              ap (λ m. get_elem? c'.docs (pos_part (idid -ℤ m))) f.same_min
              ∙ f.missing idid low high)
        | inr outside ↦ cached_doc_outside owner cache_size idid c' outside
      ]

  -- Flushing raises nothing and keeps the cache valid, whatever the range.
  pub flush_range-IsValid :
      (min_id max_id : ℤ) (c : Cache)
      → IsValid owner cache_size c
      → (c' : Cache) × (flush_range min_id max_id c ≡ (ok tt, c')) × IsValid owner cache_size c'
  unfolding flush_range
  flush_range-IsValid min_id max_id c v =
      let (c', f) =
        flush-Flushed (max_ℤ c.min_id min_id) (min_ℤ c.max_id max_id) c v
          (max_ℤ-left c.min_id min_id) (min_ℤ-left c.max_id max_id) in
      (c', f.ran, f.valid)

  -- Flushing from `min_id` to `max_id` raises nothing and leaves no document with such an identity.
  pub flush_range_misses :
      (min_id max_id idid : ℤ) (c : Cache)
      → IsValid owner cache_size c
      → min_id ≤ℤ idid
      → idid ≤ℤ max_id
      → (c' : Cache) × (flush_range min_id max_id c ≡ (ok tt, c'))
        × IsValid owner cache_size c'
        × (cached_doc idid c' ≡ (ok none, c'))
  unfolding flush_range
  flush_range_misses min_id max_id idid c v h k =
      let first = max_ℤ c.min_id min_id in
      let last = min_ℤ c.max_id max_id in
      let (c', f) =
        flush-Flushed first last c v (max_ℤ-left c.min_id min_id) (min_ℤ-left c.max_id max_id) in
      (
        c',
        f.ran,
        f.valid,
        Flushed-misses first last idid c c' f (λ a b.
            (max_ℤ-least c.min_id min_id idid a h, min_ℤ-greatest c.max_id max_id idid b k)),
      )

module _ {S : Type 0} (storage : Storing S) (owner : Text → ℤ) (cache_size : ℕ) where
  update_steps :
      (t min_id max_id : ℤ) (m : Mirror S) (s : S) (c : Cache)
      → storage.update_after_time t m.stored ≡ (ok (min_id, max_id), s)
      → flush_range min_id max_id m.cache ≡ (ok tt, c)
      → update_nearest_docs storage cache_size t m ≡ (ok tt, record { cache = c; stored = s })
  unfolding update_nearest_docs
  update_steps t min_id max_id m s c p q = rw (p, q)

  -- On a valid cache, when the storage has fetched the identities from `min_id` to `max_id`
  -- again, `_update_nearest_docs` raises nothing, keeps the cache valid, and each of these
  -- identities is missing from the cache afterwards.
  pub update_misses :
      (t min_id max_id idid : ℤ) (m : Mirror S) (s : S)
      → storage.update_after_time t m.stored ≡ (ok (min_id, max_id), s)
      → IsValid owner cache_size m.cache
      → min_id ≤ℤ idid
      → idid ≤ℤ max_id
      → (m' : Mirror S) × (update_nearest_docs storage cache_size t m ≡ (ok tt, m'))
        × IsValid owner cache_size m'.cache
        × (cached_doc idid m'.cache ≡ (ok none, m'.cache))
  update_misses t min_id max_id idid m s p v h k =
      let (c, q, valid, missed) =
        flush_range_misses owner cache_size min_id max_id idid m.cache v h k in
      (record { cache = c; stored = s }, update_steps t min_id max_id m s c p q, valid, missed)
