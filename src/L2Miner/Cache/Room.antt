-- ===== src/L2Miner/Cache/Room.antt =====
-- `make_room`, the first branch of `_cache_doc_if_ok` in src/miner/modules/l2_miner/cache.py, which moves
-- or widens the window.
use pttarticle_recommander.Common.{
  ℕ, zero, suc, ◌+◌, ◌≤◌, ◌<◌, ◌≡◌, refl, ap, subst, ◌∙◌, List, [], ◌∷◌, ◌++◌, length, get_elem?,
  replicate, length-append, Option, none, some, Text, arith, ◌&&◌, Bool-cases, inl, inr, true,
  false,
}
use pttarticle_recommander.Common.Int.{
  ℤ, pos, pos_part, neg_part, ◌+ℤ◌, ◌-ℤ◌, ◌≤ℤ◌, ◌<ℤ◌, ltb_ℤ, leb_ℤ, eq_of_parts, difference,
  neg_part-zero, +ℤ_parts, -ℤ_parts,
}
use pttarticle_recommander.Common.Results.{ok}
use pttarticle_recommander.L2Miner.Document.{ADocument}
use pttarticle_recommander.L2Miner.Cache.{
  Cache, nones, restart_at, extend_right, extend_left, move_forward, make_room, shrink_cache_size,
}
use pttarticle_recommander.L2Miner.Cache.Slots.{Held, IsHeld, id_at}
use pttarticle_recommander.L2Miner.Cache.Shrink.{Shrunk, shrink_cache_size-Shrunk}

length-nones : (n : ℕ) → length (replicate {A = Option ADocument} n none) ≡ n
length-nones zero = refl
length-nones (suc n) = ap suc (length-nones n)

-- A document that stands in a list padded by `None`s stands in the list.
behind_nones :
    (n : ℕ) (l : List (Option ADocument)) (i : ℕ) (d : ADocument)
    → get_elem? (replicate n none ++ l) i ≡ some (some d)
    → (j : ℕ) × (i ≡ n + j) × (get_elem? l j ≡ some (some d))
behind_nones zero l i d h = (i, omega arith, h)
behind_nones (suc n) l zero d h = cc
behind_nones (suc n) l (suc i) d h = let (j, e, p) = behind_nones n l i d h in (j, omega arith, p)

not_in_nones : (n i : ℕ) (d : ADocument) → ¬ (get_elem? (replicate n none) i ≡ some (some d))
not_in_nones zero i d h = cc
not_in_nones (suc n) zero d h = cc
not_in_nones (suc n) (suc i) d h = not_in_nones n i d h

before_nones :
    (l : List (Option ADocument)) (n i : ℕ) (d : ADocument)
    → get_elem? (l ++ replicate n none) i ≡ some (some d)
    → get_elem? l i ≡ some (some d)
before_nones [] n i d h = absurd (not_in_nones n i d h)
before_nones (x ∷ l) n zero d h = h
before_nones (x ∷ l) n (suc i) d h = before_nones l n i d h

module _ (owner : Text → ℤ) (cache_size : ℕ) where
  -- The entries are held, they fit the size of the cache, and they are as many as the identities from
  -- `min_id` to `max_id`.
  pub record IsValid (c : Cache) : Type 0 where
    pub held : IsHeld owner c
    pub within : length c.docs ≤ cache_size
    pub width :
        pos_part c.min_id + length c.docs + neg_part c.max_id
        ≡ pos_part c.max_id + 1 + neg_part c.min_id

  restart-IsValid : (idid : ℤ) (c : Cache) → 0 < cache_size → IsValid (restart_at idid c).1
  unfolding restart_at
  restart-IsValid idid c h = record {
    held = record { at = λ i d p. absurd (not_in_nones 1 i d p) };
    within = omega arith;
    width = omega arith;
  }

  extend_right-IsValid :
      (num idid : ℤ) (c c₁ : Cache)
      → c.max_id <ℤ idid
      → num ≡ idid -ℤ c.max_id
      → num <ℤ pos cache_size
      → IsValid c
      → Shrunk owner (pos_part (pos cache_size -ℤ num)) c c₁
      → IsValid (extend_right num idid c₁).1
  unfolding extend_right
  extend_right-IsValid num idid c c₁ h e k v s =
      let grown = length-append c₁.docs (nones num) in
      let added : pos_part num + neg_part idid + pos_part c.max_id
          ≡ pos_part idid + neg_part c.max_id =
        ap (λ z. pos_part z + neg_part idid + pos_part c.max_id) e
        ∙ difference idid c.max_id (omega arith) in
      let plain : neg_part num ≡ 0 =
        ap neg_part e ∙ neg_part-zero (idid -ℤ c.max_id) (omega (arith, -ℤ_parts idid c.max_id)) in
      let kept = difference (pos cache_size) num (omega arith) in
      record {
        held = record { at = λ i d p. s.held.at i d (before_nones c₁.docs (pos_part num) i d p) };
        within = omega (arith, grown, s.count, added, plain, kept, length-nones (pos_part num));
        width = omega (arith, grown, added, s.same_end, v.width, length-nones (pos_part num));
      }

  extend_left-IsValid :
      (idid : ℤ) (c : Cache)
      → idid <ℤ c.min_id
      → c.max_id -ℤ idid +ℤ pos 1 ≤ℤ pos cache_size
      → IsValid c
      → IsValid (extend_left idid c).1
  unfolding extend_left
  extend_left-IsValid idid c h k v =
      let added = difference c.min_id idid (omega arith) in
      let grown =
        length-append (nones (c.min_id -ℤ idid)) c.docs
        ∙ ap (λ n. n + length c.docs) (length-nones (pos_part (c.min_id -ℤ idid))) in
      record {
        held = record {
          at = λ i d p.
              let (j, e, q) = behind_nones (pos_part (c.min_id -ℤ idid)) c.docs i d p in
              let same : id_at c j ≡ idid +ℤ pos i =
                eq_of_parts (id_at c j) (idid +ℤ pos i)
                  (omega (arith, +ℤ_parts c.min_id (pos j), +ℤ_parts idid (pos i), added, e)) in
              subst (λ m. Held owner c.url_to_id m d) same (v.held.at j d q);
        };
        within = omega (
          arith,
          grown,
          added,
          k,
          v.width,
          +ℤ_parts (c.max_id -ℤ idid) (pos 1),
          -ℤ_parts c.max_id idid,
        );
        width = omega (arith, grown, added, v.width);
      }

  -- What `make_room` leaves: a valid window, which ends at the new identity if that is the newest.
  pub record Roomy (idid : ℤ) (c c' : Cache) : Type 0 where
    pub valid : IsValid c'
    pub newest : c.max_id <ℤ idid → (c'.max_id ≡ idid) × (c'.min_id ≤ℤ idid)
    pub older : idid ≤ℤ c.max_id → c'.max_id ≡ c.max_id

  move_forward_restart :
      (idid : ℤ) (c : Cache)
      → leb_ℤ (pos cache_size) (idid -ℤ c.max_id) ≡ true
      → move_forward cache_size idid c ≡ restart_at idid c
  unfolding move_forward
  move_forward_restart idid c h = rw h

  move_forward_shrink :
      (idid : ℤ) (c c₁ : Cache)
      → leb_ℤ (pos cache_size) (idid -ℤ c.max_id) ≡ false
      → shrink_cache_size (pos_part (pos cache_size -ℤ (idid -ℤ c.max_id))) c ≡ (ok tt, c₁)
      → move_forward cache_size idid c ≡ extend_right (idid -ℤ c.max_id) idid c₁
  unfolding move_forward
  move_forward_shrink idid c c₁ h p = rw (h, p)

  move_forward-Roomy :
      (idid : ℤ) (c : Cache)
      → 0 < cache_size
      → c.max_id <ℤ idid
      → IsValid c
      → (c' : Cache) × (move_forward cache_size idid c ≡ (ok tt, c')) × Roomy idid c c'
  move_forward-Roomy idid c h k v = elim (Bool-cases (leb_ℤ (pos cache_size) (idid -ℤ c.max_id))) [
    | inl far ↦ (
      (restart_at idid c).1,
      move_forward_restart idid c far ∙ unfold restart_at in refl,
      record {
        valid = restart-IsValid idid c h;
        newest = λ _. unfold restart_at in (refl, omega arith);
        older = λ o. absurd (omega arith);
      },
    )
    | inr near ↦
        let num = idid -ℤ c.max_id in
        let (c₁, p, s) =
          shrink_cache_size-Shrunk owner (pos_part (pos cache_size -ℤ num)) c v.held in
        let valid = extend_right-IsValid num idid c c₁ k refl (ground arith) v s in
        (
          (extend_right num idid c₁).1,
          move_forward_shrink idid c c₁ near p ∙ unfold extend_right in refl,
          record {
            valid = valid;
            newest = λ _. unfold extend_right in (refl, omega (arith, s.same_end, v.width));
            older = λ o. absurd (omega arith);
          },
        )
  ]

  pub make_room-Roomy :
      (idid : ℤ) (c : Cache)
      → 0 < cache_size
      → IsValid c
      → (c' : Cache) × (make_room cache_size idid c ≡ (ok tt, c')) × Roomy idid c c'
  unfolding make_room
  make_room-Roomy idid c h v = elim (Bool-cases (ltb_ℤ c.max_id idid)) [
    | inl newer ↦ rw newer (move_forward-Roomy idid c h (ground arith) v)
    | inr older ↦
        let not_newer : idid ≤ℤ c.max_id = ground arith in
        elim (Bool-cases
          (ltb_ℤ idid c.min_id && leb_ℤ (c.max_id -ℤ idid +ℤ pos 1) (pos cache_size))) [
            | inl near ↦
                rw (older, near)
                  (
                    (extend_left idid c).1,
                    unfold extend_left in refl,
                    record {
                      valid = extend_left-IsValid idid c (ground arith) (ground arith) v;
                      newest = λ k. absurd (omega arith);
                      older = λ k. unfold extend_left in refl;
                    },
                  )
            | inr far ↦
                rw (older, far)
                  (
                    c,
                    refl,
                    record { valid = v; newest = λ k. absurd (omega arith); older = λ k. refl },
                  )
          ]
  ]
