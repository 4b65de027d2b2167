-- ===== src/L2Miner/Crewer/Attempts.antt =====
-- The attempts of `get_doc_by_url` in src/miner/modules/l2_miner/crewer.py.
use pttarticle_recommander.Common.{
  ℕ, zero, suc, ◌+◌, ◌-◌, ◌<◌, ◌≡◌, ◌==◌, refl, ap, ◌∙◌, Option, none, Text, false, arith, ◌≢◌,
}
use pttarticle_recommander.Common.Results.{Error, ok, err}
use pttarticle_recommander.Common.Exec.{Exec}
use pttarticle_recommander.Protocol.Types.DocMetaData.{DocMetaData}
use pttarticle_recommander.Protocol.Types.DocRealData.{DocRealData}
use pttarticle_recommander.L2Miner.Crewer.{
  Page, parse, parsed, document, after_fetch, attempts, get_doc_by_url,
}

module _ {W : Type 0} (fetch : Text → Exec W (ℕ × Page)) (sleep : Exec W (Unit {0}))
    (url : Text) where
  -- `n` answers in a row have a status that is not 200.
  pub data Refused : ℕ → W → W → Type 0 where
    never : (w : W) → Refused 0 w w
    again :
        (n status : ℕ) (page : Page) (w v u : W)
        → fetch url w ≡ (ok (status, page), v)
        → status ≢ 200
        → Refused n (sleep v).1 u
        → Refused (suc n) w u

  refused_step :
      (n status : ℕ) (page : Page) (w v : W)
      → fetch url w ≡ (ok (status, page), v)
      → status ≢ 200
      → attempts fetch sleep (suc n) url w ≡ attempts fetch sleep n url (sleep v).1
  unfolding attempts after_fetch
  refused_step n status page w v p h =
      let e : (status == 200) ≡ false = ground arith in rw (p, e) refl

  refused_steps :
      (k n : ℕ) (w u : W)
      → Refused k w u
      → attempts fetch sleep (k + n) url w ≡ attempts fetch sleep n url u
  refused_steps zero n w u (never _) = ap (λ m. attempts fetch sleep m url w) (omega arith)
  refused_steps (suc k) n w u (again _ status page _ v _ p h r) =
      let count : suc k + n ≡ suc (k + n) = omega arith in
      ap (λ m. attempts fetch sleep m url w) count
      ∙ refused_step (k + n) status page w v p h
      ∙ refused_steps k n (sleep v).1 u r

  -- What an answer that is no refusal comes to.
  pub data Decided (w v : W) : Option (DocMetaData × DocRealData) → Type 0 where
    raised : (e : Error) → fetch url w ≡ (err e, v) → Decided w v none
    answered : (page : Page) → fetch url w ≡ (ok (200, page), v) → Decided w v (parsed (parse page))

  answer_step :
      (n : ℕ) (w v : W) (o : Option (DocMetaData × DocRealData))
      → Decided w v o
      → attempts fetch sleep (suc n) url w ≡ (o, v)
  unfolding attempts after_fetch
  answer_step n w v o (raised e p) = rw p refl
  answer_step n w v o (answered page p) = rw p refl

  -- After fewer than 30 answers with another status than 200, the next answer decides: a page
  -- is parsed, and if fetching or parsing raises, the document is a blank one with that url; it
  -- is not tried again.
  pub first_answer_decides :
      (n : ℕ) (w u v : W) (o : Option (DocMetaData × DocRealData))
      → n < 30
      → Refused n w u
      → Decided u v o
      → get_doc_by_url fetch sleep url w ≡ (ok (document url o), v)
  unfolding get_doc_by_url
  first_answer_decides n w u v o h r d =
      let left : 30 ≡ n + suc (29 - n) = omega arith in
      let e : attempts fetch sleep 30 url w ≡ (o, v) =
        ap (λ m. attempts fetch sleep m url w) left
        ∙ refused_steps n (suc (29 - n)) w u r
        ∙ answer_step (29 - n) u v o d in
      ap (λ t. (ok (document url t.0), t.1)) e
