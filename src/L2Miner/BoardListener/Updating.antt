-- ===== src/L2Miner/BoardListener/Updating.antt =====
-- `_UpdateThread.run` of src/miner/modules/l2_miner/board_listener.py.
use pttarticle_recommander.Common.{
  ℕ, zero, suc, ◌<◌, ◌≡◌, ◌≢◌, refl, List, [], ◌∷◌, Text, Bool, true, Option-cases, Bool-cases, inl,
  inr, ◌∙◌, ap, not, ◌||◌, arith,
}
use pttarticle_recommander.Common.Int.{ℤ, pos, ◌-ℤ◌, ltb_ℤ, leb_ℤ, -ℤ_parts, eq_of_parts}
use pttarticle_recommander.Common.Results.{Result, err, out_of_fuel, Result-cases}
use pttarticle_recommander.Common.Exec.{Exec, >>=-ends, if-ends, error_of}
use pttarticle_recommander.L2Miner.BoardListener.{
  UrlGenerator, pop, turn_pages, next_of_page, next, update,
}

-- The calls of the update thread end: a page is fetched, a number is read, the cache answers, and the
-- flag is read.
pub record AllEnd {W : Type 0} (urls_getter : ℕ → Exec W (List Text))
    (url_num_getter : Text → Result ℤ) (add_doc : ℤ → Text → Exec W Bool) (stop_flag : Exec W Bool)
    : Type 0 where
  pub page_ends : (i : ℕ) (w : W) → (urls_getter i w).0 ≢ err out_of_fuel
  pub number_ends : (u : Text) → url_num_getter u ≢ err out_of_fuel
  pub add_ends : (i : ℤ) (u : Text) (w : W) → (add_doc i u w).0 ≢ err out_of_fuel
  pub flag_ends : (w : W) → (stop_flag w).0 ≢ err out_of_fuel

module _ {W : Type 0} (urls_getter : ℕ → Exec W (List Text)) (url_num_getter : Text → Result ℤ)
    (min_url_num : ℤ) (add_doc : ℤ → Text → Exec W Bool) (stop_flag : Exec W Bool) where
  turn_pages_ends :
      (i : ℕ) (urls : List Text) (w : W)
      → AllEnd urls_getter url_num_getter add_doc stop_flag
      → (turn_pages urls_getter url_num_getter min_url_num i urls w).0 ≢ err out_of_fuel
  unfolding turn_pages
  turn_pages_ends zero urls w calls = λ e. cc
  turn_pages_ends (suc zero) urls w calls = λ e. cc
  turn_pages_ends (suc (suc i)) (url ∷ urls) w calls = λ e. cc
  turn_pages_ends (suc (suc i)) [] w calls =
      >>=-ends (urls_getter (suc i)) _ w (calls.page_ends (suc i) w)
        λ urls. turn_pages_ends (suc i) urls _ calls

  next_of_page_ends :
      (prev_url : Text) (page : ℕ × List Text)
      → AllEnd urls_getter url_num_getter add_doc stop_flag
      → next_of_page urls_getter url_num_getter min_url_num prev_url page ≢ err out_of_fuel
  unfolding next_of_page
  next_of_page_ends prev_url (idx, urls) calls = elim (Option-cases (pop urls)) [
    | inl empty ↦ rw (empty, next_of_page) (λ e. cc)
    | inr ((curr, front), popped) ↦ elim (Result-cases (url_num_getter curr)) [
      | inl (num, p) ↦ elim (Bool-cases (leb_ℤ num min_url_num)) [
        | inl low ↦ rw (popped, next_of_page) (rw (p, next_of_page) (rw low (λ e. cc)))
        | inr high ↦ rw (popped, next_of_page) (rw (p, next_of_page) (rw high (λ e. cc)))
      ]
      | inr (x, p) ↦
          rw (popped, next_of_page)
            (rw (p, next_of_page)
              (λ e. calls.number_ends curr (p ∙ ap err (error_of x out_of_fuel e))))
    ]
  ]

  next_ends :
      (g : UrlGenerator) (w : W)
      → AllEnd urls_getter url_num_getter add_doc stop_flag
      → (next urls_getter url_num_getter min_url_num g w).0 ≢ err out_of_fuel
  unfolding next
  next_ends g w calls =
      >>=-ends (turn_pages urls_getter url_num_getter min_url_num g.curr_page_idx g.curr_page_urls)
        _ w (turn_pages_ends g.curr_page_idx g.curr_page_urls w calls)
        λ page. next_of_page_ends g.prev_url page calls

  last_id : ltb_ℤ (pos 0 -ℤ pos 1) (pos 0) ≡ true
  unfolding ◌-ℤ◌
  last_id = refl

  previous_id : (n : ℕ) → pos (suc n) -ℤ pos 1 ≡ pos n
  previous_id n =
      eq_of_parts (pos (suc n) -ℤ pos 1) (pos n) (omega (arith, -ℤ_parts (pos (suc n)) (pos 1)))

  -- If the calls that it makes end, the loop of the update thread ends: from the identity `n`
  -- on it has at most one round for each identity down to zero.
  pub update_ends :
      (fuel n : ℕ) (g : UrlGenerator) (w : W)
      → AllEnd urls_getter url_num_getter add_doc stop_flag
      → n < fuel
      → (update urls_getter url_num_getter min_url_num add_doc stop_flag fuel (pos n) g w).0
        ≢ err out_of_fuel
  unfolding update
  update_ends zero n g w calls h = absurd (omega arith)
  update_ends (suc fuel) zero g w calls h =
      >>=-ends (next urls_getter url_num_getter min_url_num g) _ w (next_ends g w calls)
        λ (url, g'). >>=-ends (add_doc (pos 0) url) _ _ (calls.add_ends (pos 0) url _) λ succ.
          if-ends (not succ || ltb_ℤ (pos 0 -ℤ pos 1) (pos 0)) _ _ _ (λ c e. cc)
            (λ c. absurd (ground (arith, last_id, c)))
  update_ends (suc fuel) (suc n) g w calls h =
      >>=-ends (next urls_getter url_num_getter min_url_num g) _ w (next_ends g w calls)
        λ (url, g').
          >>=-ends (add_doc (pos (suc n)) url) _ _ (calls.add_ends (pos (suc n)) url _) λ succ.
            if-ends (not succ || ltb_ℤ (pos (suc n) -ℤ pos 1) (pos 0)) _ _ _ (λ c e. cc)
              λ c. >>=-ends stop_flag _ _ (calls.flag_ends _) λ stop.
                if-ends stop _ _ _ (λ c e. cc)
                  λ c. rw (previous_id n) (update_ends fuel n g' _ calls (omega arith))
