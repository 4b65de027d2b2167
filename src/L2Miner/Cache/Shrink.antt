-- ===== src/L2Miner/Cache/Shrink.antt =====
-- `_shrink_cache_size` of src/miner/modules/l2_miner/cache.py.
use native.Mathlib.Decide.{dec_lt}
use pttarticle_recommander.Common.{
  ℕ, zero, suc, ◌+◌, ◌≤◌, ◌<◌, ◌≡◌, refl, sym, ap, subst, ◌∙◌, List, [], ◌∷◌, length, get_elem?,
  Option, none, Text, arith, lt→ltb, min,
}
use pttarticle_recommander.Common.Int.{ℤ, pos, pos_part, neg_part, ◌+ℤ◌, int_laws}
use pttarticle_recommander.Common.Results.{ok}
use pttarticle_recommander.L2Miner.Document.{ADocument}
use pttarticle_recommander.L2Miner.Cache.{
  Cache, write, clean_cache_entry, rest_after_pop, pop_first, advance_min, shrink_loop,
  shrink_cache_size,
}
use pttarticle_recommander.L2Miner.Cache.Slots.{Held, IsHeld, clean-Cleaned, add_suc}

-- The cache without its first entry.
abbrev without_first : Cache → List (Option ADocument) → Cache
without_first c docs = record c { docs = docs; min_id = c.min_id +ℤ pos 1 }

pop_first_lem :
    (c : Cache) (slot : Option ADocument) (docs : List (Option ADocument))
    → c.docs ≡ slot ∷ docs
    → pop_first c ≡ (ok tt, record c { docs = docs })
unfolding pop_first rest_after_pop
pop_first_lem c slot docs e = ap (λ l. rest_after_pop l c) e

shrink_step :
    (fuel size : ℕ) (c c₁ : Cache) (docs : List (Option ADocument))
    → size < length c.docs
    → clean_cache_entry 0 c ≡ (ok tt, c₁)
    → c₁.docs ≡ none ∷ docs
    → shrink_loop (suc fuel) size c ≡ shrink_loop fuel size (without_first c₁ docs)
unfolding shrink_loop
shrink_step fuel size c c₁ docs h p e =
    rw (lt→ltb size (length c.docs) h, p, pop_first_lem c₁ none docs e) (unfold advance_min in refl)

shrink_done :
    (fuel size : ℕ) (c : Cache) → length c.docs ≤ size → shrink_loop fuel size c ≡ (ok tt, c)
unfolding shrink_loop
shrink_done zero size c h = ground arith
shrink_done (suc fuel) size c h = ground arith

write_first :
    (c c₁ : Cache)
    → 0 < length c.docs
    → c₁.docs ≡ write c.docs 0 none
    → (docs : List (Option ADocument)) × (c₁.docs ≡ none ∷ docs)
      × (length c.docs ≡ suc (length docs))
unfolding write
write_first c c₁ h e = go c.docs h e
  where
    go :
        (l : List (Option ADocument))
        → 0 < length l
        → c₁.docs ≡ write l 0 none
        → (docs : List (Option ADocument)) × (c₁.docs ≡ none ∷ docs)
          × (length l ≡ suc (length docs))
    go [] h e = absurd (omega arith)
    go (x ∷ l) h e = (l, e, refl)

module _ (owner : Text → ℤ) where
  without_first-IsHeld :
      (c : Cache) (slot : Option ADocument) (docs : List (Option ADocument))
      → c.docs ≡ slot ∷ docs
      → IsHeld owner c
      → IsHeld owner (without_first c docs)
  without_first-IsHeld c slot docs e h = record {
    at = λ i d p.
        subst (λ k. Held owner c.url_to_id k d) (sym (add_suc c.min_id i))
          (h.at (suc i) d (ap (λ l. get_elem? l (suc i)) e ∙ p));
  }

  -- What the loop leaves: the newest entries, as many as asked for, up to the same newest identity.
  pub record Shrunk (size : ℕ) (c c' : Cache) : Type 0 where
    pub held : IsHeld owner c'
    pub count : length c'.docs ≡ min size (length c.docs)
    pub same_max : c'.max_id ≡ c.max_id
    pub same_end :
        pos_part c'.min_id + length c'.docs + neg_part c.min_id
        ≡ pos_part c.min_id + length c.docs + neg_part c'.min_id

  shrink_loop-Shrunk :
      (fuel size : ℕ) (c : Cache)
      → length c.docs ≤ fuel + size
      → IsHeld owner c
      → (c' : Cache) × (shrink_loop fuel size c ≡ (ok tt, c')) × Shrunk size c c'
  shrink_loop-Shrunk zero size c h k = (
    c,
    shrink_done zero size c (omega arith),
    record { held = k; count = omega arith; same_max = refl; same_end = refl },
  )
  shrink_loop-Shrunk (suc fuel) size c h k = elim (dec_lt size (length c.docs)) [
    | no fits ↦ (
      c,
      shrink_done (suc fuel) size c (omega arith),
      record { held = k; count = omega arith; same_max = refl; same_end = refl },
    )
    | yes more ↦
        let (c₁, clean) = clean-Cleaned owner 0 c (omega arith) k in
        let (docs, e, n) = write_first c c₁ (omega arith) clean.emptied in
        let c₂ : Cache = without_first c₁ docs in
        let (c', r, s) =
          shrink_loop-Shrunk fuel size c₂ (omega arith)
            (without_first-IsHeld c₁ none docs e clean.held) in
        (
          c',
          shrink_step fuel size c c₁ docs more clean.ran e ∙ r,
          record {
            held = s.held;
            count = omega (arith, s.count);
            same_max = s.same_max ∙ clean.same_max;
            same_end = omega (
              int_laws,
              s.same_end,
              s.count,
              ap pos_part clean.same_min,
              ap neg_part clean.same_min,
              n,
            );
          },
        )
  ]

  -- On a cache whose entries are held under their identities, the loop of `_shrink_cache_size`
  -- ends without an exception, no url missing from the dictionary, and the newest entries stay.
  pub shrink_cache_size-Shrunk :
      (size : ℕ) (c : Cache)
      → IsHeld owner c
      → (c' : Cache) × (shrink_cache_size size c ≡ (ok tt, c')) × Shrunk size c c'
  unfolding shrink_cache_size
  shrink_cache_size-Shrunk size c k = shrink_loop-Shrunk (length c.docs) size c (omega arith) k
