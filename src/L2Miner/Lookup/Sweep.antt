-- ===== src/L2Miner/Lookup/Sweep.antt =====
-- The loop of `_update_nearest_docs` in src/miner/modules/l2_miner/cache.py that cleans entries.
use native.Mathlib.Decide.{ℕ_discrete}
use pttarticle_recommander.Common.{
  ℕ, zero, suc, ◌+◌, ◌≤◌, ◌<◌, ◌≡◌, refl, ap, subst, ◌∙◌, length, get_elem?, none, some, Text,
  arith,
}
use pttarticle_recommander.Common.Int.{ℤ}
use pttarticle_recommander.Common.Results.{ok}
use pttarticle_recommander.L2Miner.Cache.{Cache, clean_cache_entry}
use pttarticle_recommander.L2Miner.Cache.Slots.{
  IsHeld, clean-Cleaned, length-write, get_elem?-write_self, get_elem?-write_ne,
}
use pttarticle_recommander.L2Miner.Lookup.{clean_entries}

module _ (owner : Text → ℤ) where
  -- The entries at `n` positions from `i` on are emptied; the others, and the window, are as before.
  pub record Swept (n i : ℕ) (c c' : Cache) : Type 0 where
    pub held : IsHeld owner c'
    pub same_min : c'.min_id ≡ c.min_id
    pub same_max : c'.max_id ≡ c.max_id
    pub count : length c'.docs ≡ length c.docs
    pub emptied : (j : ℕ) → i ≤ j → j < i + n → get_elem? c'.docs j ≡ some none
    pub before : (j : ℕ) → j < i → get_elem? c'.docs j ≡ get_elem? c.docs j

  clean_entries_step :
      (n i : ℕ) (c c₁ c₂ : Cache)
      → clean_cache_entry i c ≡ (ok tt, c₁)
      → clean_entries n (suc i) c₁ ≡ (ok tt, c₂)
      → clean_entries (suc n) i c ≡ (ok tt, c₂)
  unfolding clean_entries
  clean_entries_step n i c c₁ c₂ p q = rw p q

  pub clean_entries-Swept :
      (n i : ℕ) (c : Cache)
      → i + n ≤ length c.docs
      → IsHeld owner c
      → (c' : Cache) × (clean_entries n i c ≡ (ok tt, c')) × Swept n i c c'
  clean_entries-Swept zero i c h k = (
    c,
    unfold clean_entries in refl,
    record {
      held = k;
      same_min = refl;
      same_max = refl;
      count = refl;
      emptied = λ j a b. absurd (omega arith);
      before = λ j a. refl;
    },
  )
  clean_entries-Swept (suc n) i c h k =
      let (c₁, s) = clean-Cleaned owner i c (omega arith) k in
      let count : length c₁.docs ≡ length c.docs =
        ap length s.emptied ∙ length-write c.docs i none in
      let (c₂, q, t) = clean_entries-Swept n (suc i) c₁ (omega (arith, count)) s.held in
      (
        c₂,
        clean_entries_step n i c c₁ c₂ s.ran q,
        record {
          held = t.held;
          same_min = t.same_min ∙ s.same_min;
          same_max = t.same_max ∙ s.same_max;
          count = t.count ∙ count;
          emptied = λ j a b. elim (ℕ_discrete i j) [
            | yes same ↦
                subst (λ j. get_elem? c₂.docs j ≡ some none) same
                  (t.before i (omega arith)
                    ∙ ap (λ l. get_elem? l i) s.emptied
                    ∙ get_elem?-write_self c.docs i none (omega arith))
            | no other ↦ t.emptied j (omega arith) (omega arith)
          ];
          before = λ j a.
              t.before j (omega arith)
              ∙ ap (λ l. get_elem? l j) s.emptied
              ∙ get_elem?-write_ne c.docs i j none (λ e. absurd (omega arith));
        },
      )
