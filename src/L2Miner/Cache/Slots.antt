-- ===== src/L2Miner/Cache/Slots.antt =====
-- What the entries of the cache hold, and that the operations on single entries keep it.
use native.Mathlib.Decide.{ℕ_discrete}
use pttarticle_recommander.Common.{
  ℕ, zero, suc, ◌<◌, ◌≡◌, ◌≢◌, refl, sym, ap, ◌∙◌, List, [], ◌∷◌, length, get_elem?, Option, none,
  some, Text, arith, lt→ltb,
}
use pttarticle_recommander.Common.Int.{ℤ, pos, pos_part, neg_part, ◌+ℤ◌, int_laws, eq_of_parts}
use pttarticle_recommander.Common.Dict
use pttarticle_recommander.Common.Dict.{Dict, lookup-remove_ne}
use pttarticle_recommander.Common.Results.{ok}
use pttarticle_recommander.L2Miner.Document.{ADocument}
use pttarticle_recommander.L2Miner.Cache.{
  Cache, write, entry, forget_url, set_entry, clean_slot, clean_cache_entry,
}

module _ {A : Type 0} where
  pub length-write : (xs : List A) (i : ℕ) (v : A) → length (write xs i v) ≡ length xs
  unfolding write
  length-write [] i v = refl
  length-write (x ∷ xs) zero v = refl
  length-write (x ∷ xs) (suc i) v = ap suc (length-write xs i v)

  pub get_elem?-write_self :
      (xs : List A) (i : ℕ) (v : A) → i < length xs → get_elem? (write xs i v) i ≡ some v
  unfolding write
  get_elem?-write_self [] i v h = absurd (omega arith)
  get_elem?-write_self (x ∷ xs) zero v h = refl
  get_elem?-write_self (x ∷ xs) (suc i) v h = get_elem?-write_self xs i v (omega arith)

  pub get_elem?-write_ne :
      (xs : List A) (i j : ℕ) (v : A) → i ≢ j → get_elem? (write xs i v) j ≡ get_elem? xs j
  unfolding write
  get_elem?-write_ne [] i j v h = refl
  get_elem?-write_ne (x ∷ xs) zero zero v h = absurd (h refl)
  get_elem?-write_ne (x ∷ xs) zero (suc j) v h = refl
  get_elem?-write_ne (x ∷ xs) (suc i) zero v h = refl
  get_elem?-write_ne (x ∷ xs) (suc i) (suc j) v h = get_elem?-write_ne xs i j v (λ e. h (ap suc e))

  pub get_elem?-lt : (xs : List A) (i : ℕ) (x : A) → get_elem? xs i ≡ some x → i < length xs
  get_elem?-lt [] i x h = cc
  get_elem?-lt (y ∷ xs) zero x h = omega arith
  get_elem?-lt (y ∷ xs) (suc i) x h = omega (arith, get_elem?-lt xs i x h)

  pub get_elem?_total : (xs : List A) (i : ℕ) → i < length xs → (x : A) × (get_elem? xs i ≡ some x)
  get_elem?_total [] i h = absurd (omega arith)
  get_elem?_total (x ∷ xs) zero h = (x, refl)
  get_elem?_total (x ∷ xs) (suc i) h = get_elem?_total xs i (omega arith)

  pub write_same : (xs : List A) (i : ℕ) (v : A) → get_elem? xs i ≡ some v → write xs i v ≡ xs
  unfolding write
  write_same [] i v h = refl
  write_same (x ∷ xs) zero v h = let e : x ≡ v = cc in ap (λ y. y ∷ xs) (sym e)
  write_same (x ∷ xs) (suc i) v h = ap (λ ys. x ∷ ys) (write_same xs i v h)

-- The identity that the position `i` stands for.
abbrev pub id_at : Cache → ℕ → ℤ
id_at c i = c.min_id +ℤ pos i

pub id_at-injective : (a : ℤ) (i j : ℕ) → a +ℤ pos i ≡ a +ℤ pos j → i ≡ j
id_at-injective a i j e = omega (int_laws, ap pos_part e, ap neg_part e)

pub add_suc : (a : ℤ) (i : ℕ) → a +ℤ pos 1 +ℤ pos i ≡ a +ℤ pos (suc i)
add_suc a i = eq_of_parts _ _ (omega int_laws)

-- `owner` is the identity that the board gives to a url. An entry holds a document with the identity
-- of its position, which the document's url has too, and which the dictionary keeps for that url.
module _ (owner : Text → ℤ) where
  pub record Held (m : Dict ℤ) (k : ℤ) (d : ADocument) : Type 0 where
    pub known : d.meta_data.idid ≡ some k
    pub owned : owner d.url ≡ k
    pub mapped : Dict.lookup d.url m ≡ some k

  pub record IsHeld (c : Cache) : Type 0 where
    pub at :
        (i : ℕ) (d : ADocument)
        → get_elem? c.docs i ≡ some (some d)
        → Held c.url_to_id (id_at c i) d

  -- What is held by a smaller dictionary, where the forgotten url is of another identity.
  Held-remove :
      (m : Dict ℤ) (u : Text) (k : ℤ) (d : ADocument)
      → owner u ≢ k
      → Held m k d
      → Held (Dict.remove u m) k d
  Held-remove m u k d ne h = record {
    known = h.known;
    owned = h.owned;
    mapped = lookup-remove_ne u d.url m (λ e. ne (ap owner e ∙ h.owned)) ∙ h.mapped;
  }

  clean_empty :
      (i : ℕ) (c : Cache) → get_elem? c.docs i ≡ some none → clean_cache_entry i c ≡ (ok tt, c)
  unfolding clean_cache_entry entry clean_slot
  clean_empty i c e = rw (e, entry)

  clean_full :
      (i : ℕ) (c : Cache) (d : ADocument) (k : ℤ)
      → i < length c.docs
      → get_elem? c.docs i ≡ some (some d)
      → Dict.lookup d.url c.url_to_id ≡ some k
      → clean_cache_entry i c ≡ (
        ok tt,
        record c { docs = write c.docs i none; url_to_id = Dict.remove d.url c.url_to_id },
      )
  unfolding clean_cache_entry entry clean_slot forget_url set_entry
  clean_full i c d k h e f = rw (e, entry) (rw (f, forget_url) (rw (lt→ltb i (length c.docs) h)))

  -- Cleaning an entry of the list raises nothing, empties that entry alone, and the others stay held.
  pub record Cleaned (i : ℕ) (c c' : Cache) : Type 0 where
    pub ran : clean_cache_entry i c ≡ (ok tt, c')
    pub held : IsHeld c'
    pub same_min : c'.min_id ≡ c.min_id
    pub same_max : c'.max_id ≡ c.max_id
    pub emptied : c'.docs ≡ write c.docs i none

  clean_held :
      (i : ℕ) (c : Cache) (slot : Option ADocument)
      → i < length c.docs
      → IsHeld c
      → get_elem? c.docs i ≡ some slot
      → (c' : Cache) × Cleaned i c c'
  clean_held i c none h k e = (
    c,
    record {
      ran = clean_empty i c e;
      held = k;
      same_min = refl;
      same_max = refl;
      emptied = sym (write_same c.docs i none e);
    },
  )
  clean_held i c (some d) h k e = (
    record c { docs = write c.docs i none; url_to_id = Dict.remove d.url c.url_to_id },
    record {
      ran = clean_full i c d (id_at c i) h e ((k.at i d e).mapped);
      held = record {
        at = λ j d' e'. elim (ℕ_discrete i j) [
          | yes same ↦ cc (get_elem?-write_self c.docs i none h)
          | no other ↦
              let e'' : get_elem? c.docs j ≡ some (some d') =
                sym (get_elem?-write_ne c.docs i j none other) ∙ e' in
              Held-remove c.url_to_id d.url (id_at c j) d'
                (λ p. other (id_at-injective c.min_id i j (sym ((k.at i d e).owned) ∙ p)))
                (k.at j d' e'')
        ];
      };
      same_min = refl;
      same_max = refl;
      emptied = refl;
    },
  )

  pub clean-Cleaned :
      (i : ℕ) (c : Cache) → i < length c.docs → IsHeld c → (c' : Cache) × Cleaned i c c'
  clean-Cleaned i c h k = let (slot, e) = get_elem?_total c.docs i h in clean_held i c slot h k e
