-- ===== src/FirstMiner/Crawl/Numbering.antt =====
-- The identities that `getContent` of src/miner/modules/mining.py gives to the documents.
use pttarticle_recommander.Common.{
  ℕ, zero, suc, ◌+◌, ◌≡◌, ◌==◌, ◌⊎◌, refl, sym, ap, ◌∙◌, List, [], ◌∷◌, ◌++◌, length, get_elem?,
  length-append, some, Text, inl, inr, arith,
}
use pttarticle_recommander.Common.Int.{pos, eqb_ℤ, negsuc}
use pttarticle_recommander.Common.Texts.{find, from}
use pttarticle_recommander.Common.Results.{Result, ok, Result-cases, >>=-eq-ok}
use pttarticle_recommander.Common.Exec.{Exec, lift, Keeps, >>=-Keeps, if-Keeps}
use pttarticle_recommander.FirstMiner.Replies.{Counts}
use pttarticle_recommander.FirstMiner.Build.{Entry}
use pttarticle_recommander.FirstMiner.Variables.{
  Meta, Crawl, bound_var, attempt, on_net, set_meta, begin_meta, entry_in, push_entry, read_span,
  read_spans, reply_mark,
}

-- The documents are numbered from one on, without a gap.
pub record IsNumbered (entries : List Entry) : Type 0 where
  pub numbered : (i : ℕ) (e : Entry) → get_elem? entries i ≡ some e → e.id ≡ pos (suc i)

-- What the crawl keeps at every step, and what it keeps once a document's variables are assigned.
pub record Steady {W : Type 0} (s : Crawl W) : Type 0 where
  pub list : IsNumbered s.arr
  pub next : s.next_id ≡ suc (length s.arr)

pub record Assigned {W : Type 0} (s : Crawl W) : Type 0 where
  pub steady : Steady s
  pub current : s.meta.meta_id ≡ some (pos s.next_id)

last-get :
    (xs : List Entry) (x e : Entry) (i : ℕ)
    → get_elem? (xs ++ x ∷ []) i ≡ some e
    → ((i ≡ length xs) × (x ≡ e)) ⊎ (get_elem? xs i ≡ some e)
last-get [] x e zero h = inl (refl, cc)
last-get [] x e (suc i) h = cc
last-get (y ∷ xs) x e zero h = inr h
last-get (y ∷ xs) x e (suc i) h = elim (last-get xs x e i h) [
  | inl (p, q) ↦ inl (ap suc p, q)
  | inr p ↦ inr p
]

IsNumbered-snoc :
    (xs : List Entry) (x : Entry)
    → IsNumbered xs
    → x.id ≡ pos (suc (length xs))
    → IsNumbered (xs ++ x ∷ [])
IsNumbered-snoc xs x h p = record {
  numbered = λ i e q. elim (last-get xs x e i q) [
    | inl (same, is) ↦ ap (λ t. t.id) (sym is) ∙ p ∙ ap (λ n. pos (suc n)) (sym same)
    | inr old ↦ h.numbered i e old
  ];
}

module _ {W : Type 0} where
  -- What an attempt keeps is what the code keeps, whether it raises or returns.
  pub attempt-Keeps :
      {A : Type 0} (P : Crawl W → Type 0) (m : Exec (Crawl W) A) → Keeps P m → Keeps P (attempt m)
  unfolding attempt
  attempt-Keeps P m k s h = elim (Result-cases (m s).0) [
    | inl (a, p) ↦ rw p (k s h)
    | inr (e, p) ↦ rw p (k s h)
  ]

  pub on_net-Steady : {A : Type 0} (m : Exec W A) → Keeps (λ s. Steady {W = W} s) (on_net m)
  on_net-Steady m s h = record { list = h.list; next = h.next }

  pub begin_meta-Assigned :
      (post_id : Text) (n : Counts) (s : Crawl W) → Steady s → Assigned (begin_meta post_id n s).1
  unfolding begin_meta
  begin_meta-Assigned post_id n s h = record {
    steady = record { list = h.list; next = h.next };
    current = refl;
  }

  -- Assigning the later variables leaves the identity alone.
  set_meta-Assigned :
      (f : Meta → Meta)
      → ((m : Meta) → (f m).meta_id ≡ m.meta_id)
      → Keeps (λ s. Assigned {W = W} s) (set_meta f)
  set_meta-Assigned f k s h = record {
    steady = record { list = h.steady.list; next = h.steady.next };
    current = k s.meta ∙ h.current;
  }

  read_span-Assigned :
      (parse_time : Text → Result Text) (count : ℕ) (span : Text)
      → Keeps (λ s. Assigned {W = W} s) (read_span parse_time count span)
  unfolding read_span
  read_span-Assigned parse_time count span =
      if-Keeps Assigned (count == 1) _ _ (set_meta-Assigned _ (λ m. refl)) (
        if-Keeps Assigned (count == 2) _ _ (set_meta-Assigned _ (λ m. refl)) (
          if-Keeps Assigned (count == 3) _ _
            (if-Keeps Assigned (eqb_ℤ (find reply_mark span) (negsuc 0)) _ _
              (set_meta-Assigned _ (λ m. refl)) (set_meta-Assigned _ (λ m. refl)))
            (if-Keeps Assigned (count == 4) _ _
              (>>=-Keeps Assigned (lift (parse_time (from span (pos 4)))) _ (λ s h. h)
                (λ time. set_meta-Assigned _ (λ m. refl)))
              (λ s h. h))))

  pub read_spans-Assigned :
      (parse_time : Text → Result Text) (count : ℕ) (spans : List Text)
      → Keeps (λ s. Assigned {W = W} s) (read_spans parse_time count spans)
  unfolding read_spans
  read_spans-Assigned parse_time count [] = λ s h. h
  read_spans-Assigned parse_time count (span ∷ spans) =
      >>=-Keeps Assigned (read_span parse_time count span) _
        (read_span-Assigned parse_time count span)
        (λ _. read_spans-Assigned parse_time (count + 1) spans)

pub bound_id :
    (m : Meta) (n : ℕ) (e : Entry) → m.meta_id ≡ some (pos n) → entry_in m ≡ ok e → e.id ≡ pos n
unfolding entry_in
bound_id m n e h p =
    let (id, q, r) = >>=-eq-ok (bound_var m.meta_id) _ p in
    let (_, _, r) = >>=-eq-ok (bound_var m.meta_name) _ r in
    let (_, _, r) = >>=-eq-ok (bound_var m.meta_push) _ r in
    let (_, _, r) = >>=-eq-ok (bound_var m.meta_author) _ r in
    let (_, _, r) = >>=-eq-ok (bound_var m.meta_board) _ r in
    let (_, _, r) = >>=-eq-ok (bound_var m.meta_title) _ r in
    let (_, _, r) = >>=-eq-ok (bound_var m.meta_time) _ r in
    let known : bound_var m.meta_id ≡ ok (pos n) = ap (λ o. bound_var o) h in
    let same : pos n ≡ id = cc in cc

module _ {W : Type 0} where
  pub push_entry-Steady :
      (e : Entry) (s : Crawl W) → Steady s → e.id ≡ pos s.next_id → Steady (push_entry e s).1
  unfolding push_entry
  push_entry-Steady e s h p = record {
    list = IsNumbered-snoc s.arr e h.list (p ∙ ap pos h.next);
    next = omega (arith, h.next, length-append s.arr (e ∷ []));
  }

  -- What parsing a document comes to.
  pub record Outcome (r : Result (Unit {0})) (s : Crawl W) : Type 0 where
    pub steady : Steady s
    pub assigned : r ≡ ok tt → Assigned s
