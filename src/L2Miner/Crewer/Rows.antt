-- ===== src/L2Miner/Crewer/Rows.antt =====
-- The replies that `Crewer` of src/miner/modules/l2_miner/crewer.py reads, and their counts.
use pttarticle_recommander.Common.{
  ℕ, suc, Bool, false, not, ◌&&◌, if◌then◌else◌, ◌+◌, ◌≡◌, refl, sym, ap, subst, ◌∙◌, List, [], ◌∷◌,
  length, Option, none, some, Text, All, Bool-cases, inl, inr, ◌⊎◌, arith,
}
use pttarticle_recommander.Common.Int.{ℤ, pos, eqb_ℤ}
use pttarticle_recommander.Common.Results.{Result, ok, ◌>>=◌, >>=-eq-ok}
use pttarticle_recommander.Common.Texts.{starts_with}
use pttarticle_recommander.Protocol.Types.ReplyMode.{good, normal, woo}
use pttarticle_recommander.Protocol.Types.ReplyMessage.{ReplyMessage}
use pttarticle_recommander.Protocol.Types.DocMetaData.{DocMetaData, make}
use pttarticle_recommander.Protocol.Types.DocRealData.{DocRealData}
use pttarticle_recommander.L2Miner.Crewer.{
  Push, Page, like_tag, dislike_tag, case_of, add_row, rows_of, count_mode, counts, parse,
}

-- Every row has one of the three modes.
abbrev HasMode : ReplyMessage → Type 0
HasMode r = (r.mode ≡ good) ⊎ ((r.mode ≡ normal) ⊎ (r.mode ≡ woo))

case_of-mode : (tag : Text) → (case_of tag ≡ good) ⊎ ((case_of tag ≡ normal) ⊎ (case_of tag ≡ woo))
case_of-mode tag = elim (Bool-cases (starts_with tag like_tag)) [
  | inl e ↦ rw e (inl refl)
  | inr e ↦ elim (Bool-cases (starts_with tag dislike_tag)) [
    | inl f ↦ rw (e, f) (inr (inr refl))
    | inr f ↦ rw (e, f) (inr (inl refl))
  ]
]

add_row-HasMode :
    (tag user : Text) (cc : Option Text) (rows : List ReplyMessage)
    → All HasMode rows
    → All HasMode (add_row (case_of tag) user cc rows)
add_row-HasMode tag user none rows h = h
add_row-HasMode tag user (some cc) rows h = (case_of-mode tag, h)

rows_of-HasMode :
    (pushes : List Push) (rows : List ReplyMessage) → rows_of pushes ≡ ok rows → All HasMode rows
unfolding rows_of
rows_of-HasMode [] rows p = let e : [] ≡ rows = cc in subst (λ l. All HasMode l) e tt
rows_of-HasMode (a ∷ pushes) rows p =
    let (tag, _, p₁) = >>=-eq-ok (a.tag) _ p in
    let (user, _, p₂) = >>=-eq-ok (a.userid) _ p₁ in
    let (cc', _, p₃) = >>=-eq-ok (a.content) _ p₂ in
    let (rest, q, p₄) = >>=-eq-ok (rows_of pushes) _ p₃ in
    let e : add_row (case_of tag) user cc' rest ≡ rows = cc in
    subst (λ l. All HasMode l) e (add_row-HasMode tag user cc' rest (rows_of-HasMode pushes rest q))

count_mode-sum :
    (rows : List ReplyMessage)
    → All HasMode rows
    → count_mode good rows + count_mode normal rows + count_mode woo rows ≡ length rows
unfolding count_mode
count_mode-sum [] h = omega arith
count_mode-sum (r ∷ rows) h =
    let rest = count_mode-sum rows h.1 in
    elim (h.0) [
      | inl e ↦ rw e (omega (arith, rest))
      | inr (inl e) ↦ rw e (omega (arith, rest))
      | inr (inr e) ↦ rw e (omega (arith, rest))
    ]

-- The tag of a like begins with '推', that of a dislike with '噓', and that of an arrow with neither.
abbrev pub is_like : Text → Bool
is_like tag = starts_with tag (0x63a8 ∷ [])

abbrev pub is_dislike : Text → Bool
is_dislike tag = not (is_like tag) && starts_with tag (0x5653 ∷ [])

abbrev pub is_arrow : Text → Bool
is_arrow tag = not (is_like tag) && not (starts_with tag (0x5653 ∷ []))

-- Whether a push on the page has a content, and a tag of the kind.
abbrev pub is_kept : (Text → Bool) → Result Text → Result (Option Text) → Bool
is_kept P (ok tag) (ok (some cc)) = P tag
is_kept P tag content = false

-- How many pushes are of the kind.
unfoldable pub number_of : (Text → Bool) → List Push → ℕ
number_of P [] = 0
number_of P (a ∷ pushes) =
    let rest = number_of P pushes in if is_kept P a.tag a.content then suc rest else rest

case_of-like : (tag : Text) → eqb_ℤ (case_of tag) good ≡ is_like tag
case_of-like tag = elim (Bool-cases (starts_with tag like_tag)) [
  | inl e ↦ rw e refl
  | inr e ↦ elim (Bool-cases (starts_with tag dislike_tag)) [
    | inl f ↦ rw (e, f) refl
    | inr f ↦ rw (e, f) refl
  ]
]

case_of-arrow : (tag : Text) → eqb_ℤ (case_of tag) normal ≡ is_arrow tag
case_of-arrow tag = elim (Bool-cases (starts_with tag like_tag)) [
  | inl e ↦ rw e refl
  | inr e ↦ elim (Bool-cases (starts_with tag dislike_tag)) [
    | inl f ↦ rw (e, f) refl
    | inr f ↦ rw (e, f) refl
  ]
]

case_of-dislike : (tag : Text) → eqb_ℤ (case_of tag) woo ≡ is_dislike tag
case_of-dislike tag = elim (Bool-cases (starts_with tag like_tag)) [
  | inl e ↦ rw e refl
  | inr e ↦ elim (Bool-cases (starts_with tag dislike_tag)) [
    | inl f ↦ rw (e, f) refl
    | inr f ↦ rw (e, f) refl
  ]
]

module _ (mode : ℤ) (P : Text → Bool)
    (matches : (tag : Text) → eqb_ℤ (case_of tag) mode ≡ P tag) where
  count_row :
      (tag user : Text) (cc : Option Text) (rows : List ReplyMessage) (a : Push)
      (pushes : List Push)
      → a.tag ≡ ok tag
      → a.content ≡ ok cc
      → count_mode mode rows ≡ number_of P pushes
      → count_mode mode (add_row (case_of tag) user cc rows) ≡ number_of P (a ∷ pushes)
  unfolding count_mode number_of
  count_row tag user none rows a pushes p q h = rw (p, q) h
  count_row tag user (some cc) rows a pushes p q h = rw (p, q, matches tag, h) refl

  count_rows :
      (pushes : List Push) (rows : List ReplyMessage)
      → rows_of pushes ≡ ok rows
      → count_mode mode rows ≡ number_of P pushes
  unfolding rows_of
  count_rows [] rows p =
      let e : [] ≡ rows = cc in
      subst (λ l. count_mode mode l ≡ number_of P []) e (unfold count_mode number_of in refl)
  count_rows (a ∷ pushes) rows p =
      let (tag, t, p₁) = >>=-eq-ok (a.tag) _ p in
      let (user, _, p₂) = >>=-eq-ok (a.userid) _ p₁ in
      let (cc', c, p₃) = >>=-eq-ok (a.content) _ p₂ in
      let (rest, q, p₄) = >>=-eq-ok (rows_of pushes) _ p₃ in
      let e : add_row (case_of tag) user cc' rest ≡ rows = cc in
      subst (λ l. count_mode mode l ≡ number_of P (a ∷ pushes)) e
        (count_row tag user cc' rest a pushes t c (count_rows pushes rest q))

-- The metadata and the text of a document that was parsed from a page with these pushes.
pub record IsCounted (pushes : List Push) (meta : DocMetaData) (real : DocRealData) : Type 0 where
  pub rows :
      meta.num_reply_rows
      ≡ pos (number_of is_like pushes)
        ∷ pos (number_of is_arrow pushes)
        ∷ pos (number_of is_dislike pushes)
        ∷ []
  pub all :
      count_mode good real.reply_messages
        + count_mode normal real.reply_messages
        + count_mode woo real.reply_messages
      ≡ length real.reply_messages
  pub unnamed : meta.idid ≡ none

parsed-IsCounted :
    (title author content : Text) (post_time : ℤ) (rows : List ReplyMessage) (meta : DocMetaData)
    → (real : DocRealData)
    → ◌>>=◌ {B = DocMetaData × DocRealData}
        (make none none title author (some post_time) none (counts rows))
        (λ m. ok (m, record { content = content; reply_messages = rows }))
      ≡ ok (meta, real)
    → (pushes : List Push) → rows_of pushes ≡ ok rows
    → IsCounted pushes meta real
unfolding make
parsed-IsCounted title author content post_time rows meta real p pushes q =
    let h = rows_of-HasMode pushes rows q in
    let likes = count_rows good is_like case_of-like pushes rows q in
    let arrows = count_rows normal is_arrow case_of-arrow pushes rows q in
    let dislikes = count_rows woo is_dislike case_of-dislike pushes rows q in
    let counted : counts rows
        ≡ pos (number_of is_like pushes)
          ∷ pos (number_of is_arrow pushes)
          ∷ pos (number_of is_dislike pushes)
          ∷ [] =
      rw (likes, arrows, dislikes) refl in
    let is_real : record { content = content; reply_messages = rows } ≡ real = cc in
    let is_meta : record {
      idid = none;
      prev_id = none;
      title = title;
      author = author;
      post_time = post_time;
      board = none;
      num_reply_rows = counts rows;
    }
        ≡ meta =
      cc in
    let same : real.reply_messages ≡ rows = ap (λ t. t.reply_messages) (sym is_real) in
    record {
      rows = ap (λ t. t.num_reply_rows) (sym is_meta) ∙ counted;
      all =
          subst (λ l. count_mode good l + count_mode normal l + count_mode woo l ≡ length l)
            (sym same) (count_mode-sum rows h);
      unnamed = ap (λ t. t.idid) (sym is_meta);
    }

-- When a page is parsed, the three reply counts in the metadata are, in this order, the numbers
-- of the pushes with a content on the page whose tag begins with '推', with neither, and with
-- '噓'; every reply that is kept is of one of the three modes, and the document has no identity
-- yet.
pub parse-IsCounted :
    (page : Page) (meta : DocMetaData) (real : DocRealData)
    → parse page ≡ ok (meta, real)
    → (pushes : List Push) × (page.pushes ≡ ok pushes) × IsCounted pushes meta real
unfolding parse
parse-IsCounted page meta real p =
    let (title, _, p₁) = >>=-eq-ok (page.title) _ p in
    let (author, _, p₂) = >>=-eq-ok (page.author) _ p₁ in
    let (post_time, _, p₃) = >>=-eq-ok (page.post_time) _ p₂ in
    let (pushes, found, p₄) = >>=-eq-ok (page.pushes) _ p₃ in
    let (rows, q, p₅) = >>=-eq-ok (rows_of pushes) _ p₄ in
    let (content, _, p₆) = >>=-eq-ok (page.cleaned) _ p₅ in
    (pushes, found, parsed-IsCounted title author content post_time rows meta real p₆ pushes q)
