-- ===== src/L2Miner/Storage/Stored.antt =====
-- What the storage of src/miner/modules/l2_miner/storage.py holds.
use native.Mathlib.Decide.{dec_lt}
use pttarticle_recommander.Common.{
  ℕ, zero, suc, ◌<◌, ◌≡◌, ◌≢◌, ◌⊎◌, refl, sym, ap, subst, ◌∙◌, Option, none, some, Option-cases,
  Text, Bool, true, false, Bool-cases, inl, inr, arith,
}
use pttarticle_recommander.Common.Int.{ℤ, pos, ◌≤ℤ◌, eqb_ℤ, eqb_ℤ→eq, eqb_ℤ_refl}
use pttarticle_recommander.Common.Results.{ok}
use pttarticle_recommander.Common.Exec.{Exec}
use pttarticle_recommander.L2Miner.Document.{ADocument}
use pttarticle_recommander.L2Miner.Storage.{
  Files, find, write_file, Storage, greater, identities, oldest_from, oldest_doc, identified, store,
  mark_updated, update_doc, add_doc,
}

-- Each file holds the document of the identity that it is named by, and none is behind `max_id`.
pub record IsStored {W : Type 0} (s : Storage W) : Type 0 where
  pub named :
      (idid : ℤ) (doc : ADocument) → find idid s.files ≡ some doc → doc.meta_data.idid ≡ some idid
  pub bounded : (idid : ℤ) (doc : ADocument) → find idid s.files ≡ some doc → idid ≤ℤ s.max_id

find-write_self :
    (idid : ℤ) (doc : ADocument) (files : Files) → find idid (write_file idid doc files) ≡ some doc
unfolding find
find-write_self idid doc files = rw (eqb_ℤ_refl idid) refl

find-write_cases :
    (idid j : ℤ) (doc d : ADocument) (files : Files)
    → find j (write_file idid doc files) ≡ some d
    → ((idid ≡ j) × (doc ≡ d)) ⊎ (find j files ≡ some d)
unfolding find
find-write_cases idid j doc d files h = elim (Bool-cases (eqb_ℤ idid j)) [
  | inl same ↦ inl (eqb_ℤ→eq idid j same, ground (arith, same))
  | inr other ↦ inr (ground (arith, other))
]

greater-left : (a b : ℤ) → a ≤ℤ greater a b
greater-left a b = ground arith

greater-right : (a b : ℤ) → b ≤ℤ greater a b
greater-right a b = ground arith

module _ {W : Type 0} (crewer : Text → Exec W ADocument) where
  add_doc_old :
      (idid : ℤ) (url : Text) (doc : ADocument) (s : Storage W)
      → find idid s.files ≡ some doc
      → add_doc crewer idid url s ≡ (ok false, s)
  unfolding add_doc
  add_doc_old idid url doc s e = rw (e, add_doc)

  -- The storage with the document that the crewer has fetched.
  abbrev with_file : ℤ → ADocument → W → Storage W → Storage W
  with_file idid doc net s = record {
    files = write_file idid (identified idid doc) s.files;
    max_id = greater s.max_id idid;
    updated = true;
    net = net;
  }

  add_doc_new :
      (idid : ℤ) (url : Text) (doc : ADocument) (net : W) (s : Storage W)
      → find idid s.files ≡ none
      → crewer url s.net ≡ (ok doc, net)
      → add_doc crewer idid url s ≡ (ok true, with_file idid doc net s)
  unfolding add_doc update_doc store mark_updated
  add_doc_new idid url doc net s e p = rw (e, add_doc) (rw p refl)

  with_file-IsStored :
      (idid : ℤ) (doc : ADocument) (net : W) (s : Storage W)
      → IsStored s
      → IsStored (with_file idid doc net s)
  with_file-IsStored idid doc net s h = record {
    named = λ j d p. elim (find-write_cases idid j (identified idid doc) d s.files p) [
      | inl (same, is) ↦ sym (ap (λ t. t.meta_data.idid) is) ∙ ap some same
      | inr old ↦ h.named j d old
    ];
    bounded = λ j d p. elim (find-write_cases idid j (identified idid doc) d s.files p) [
      | inl (same, is) ↦ subst (λ t. t ≤ℤ greater s.max_id idid) same (greater-right s.max_id idid)
      | inr old ↦
          let a = h.bounded j d old in let b = greater-left s.max_id idid in omega (arith, a, b)
    ];
  }

  -- If the crewer returns, `add_doc` returns and keeps the storage as it should be (each file
  -- holds the document of its name, none is behind `max_id`), and there is a file for the
  -- identity afterwards.
  pub add_doc-IsStored :
      (idid : ℤ) (url : Text) (doc : ADocument) (net : W) (s : Storage W)
      → crewer url s.net ≡ (ok doc, net)
      → IsStored s
      → (added : Bool) × (s' : Storage W) × (d : ADocument) × (add_doc crewer idid url s
          ≡ (ok added, s'))
        × IsStored s'
        × (find idid s'.files ≡ some d)
  add_doc-IsStored idid url doc net s p h = elim (Option-cases (find idid s.files)) [
    | inl missing ↦ (
      true,
      with_file idid doc net s,
      identified idid doc,
      add_doc_new idid url doc net s missing p,
      with_file-IsStored idid doc net s h,
      find-write_self idid (identified idid doc) s.files,
    )
    | inr (d, found) ↦ (false, s, d, add_doc_old idid url d s found, h, found)
  ]

-- `doc` is the oldest document of those that go without a gap down from the identity `n`.
pub record IsOldest (files : Files) (n : ℕ) (doc : ADocument) : Type 0 where
  pub gap : ℕ
  pub missing : find (pos gap) files ≡ none
  pub found : find (pos (suc gap)) files ≡ some doc
  pub dense : (j : ℕ) → gap < j → j < n → find (pos j) files ≢ none

module _ (files : Files) where
  oldest_from-none :
      (i : ℕ) (prev : Option ADocument)
      → find (pos i) files ≡ none
      → oldest_from files (suc i) prev ≡ prev
  unfolding oldest_from
  oldest_from-none i prev e = rw (e, oldest_from)

  oldest_from-some :
      (i : ℕ) (prev : Option ADocument) (d : ADocument)
      → find (pos i) files ≡ some d
      → oldest_from files (suc i) prev ≡ oldest_from files i (some d)
  unfolding oldest_from
  oldest_from-some i prev d e = rw (e, oldest_from)

  oldest_from-IsOldest :
      (i : ℕ) (prev : Option ADocument) (doc : ADocument)
      → (prev ≡ none) ⊎ (find (pos i) files ≡ prev)
      → oldest_from files i prev ≡ some doc
      → IsOldest files i doc
  oldest_from-IsOldest zero prev doc h p = unfold oldest_from in cc
  oldest_from-IsOldest (suc i) prev doc h p = elim (Option-cases (find (pos i) files)) [
    | inl none_here ↦
        let e : prev ≡ some doc = sym (oldest_from-none i prev none_here) ∙ p in
        elim h [
          | inl nothing ↦ cc
          | inr before ↦ record {
            gap = i;
            missing = none_here;
            found = before ∙ e;
            dense = λ j a b. absurd (omega arith);
          }
        ]
    | inr (d, here) ↦
        let o =
          oldest_from-IsOldest i (some d) doc (inr here)
            (sym (oldest_from-some i prev d here) ∙ p) in
        record {
          gap = o.gap;
          missing = o.missing;
          found = o.found;
          dense = λ j a b. elim (dec_lt j i) [
            | yes less ↦ o.dense j a less
            | no last ↦ λ q.
                let same : i ≡ j = omega arith in cc (here, ap (λ t. find (pos t) files) same, q)
          ];
        }
  ]

-- The document that `oldest_doc` returns is the one above the first gap below `max_id`.
pub oldest_doc-IsOldest :
    {W : Type 0} (s : Storage W) (doc : ADocument)
    → oldest_doc s ≡ some doc
    → IsOldest s.files (identities s.max_id) doc
unfolding oldest_doc
oldest_doc-IsOldest s doc p =
    oldest_from-IsOldest s.files (identities s.max_id) none doc (inl refl) p
