-- ===== src/Common/Texts.antt =====
-- Python's methods on texts and its slices.
use pttarticle_recommander.Common.Tests.{Text, ◌==◌, if◌then◌else◌}
use pttarticle_recommander.Common.Lists.{length, take, drop}
use pttarticle_recommander.Common.Int.{ℤ, pos, negsuc}
use Prim.Native.Nat.{ℕ, suc, ◌-◌, min}
use mathlib.Core.Bool.{Bool, true, false, ◌||◌}
use mathlib.Core.Option.{Option, none, some}
use mathlib.Core.List.{List, [], ◌∷◌}

-- `s.startswith(t)`, and `t in s` for texts.
unfoldable pub starts_with : Text → Text → Bool
starts_with s [] = true
starts_with [] (d ∷ t) = false
starts_with (c ∷ s) (d ∷ t) = let rest = starts_with s t in if c == d then rest else false

unfoldable pub is_in : Text → Text → Bool
is_in t [] = starts_with [] t
is_in t (c ∷ s) = starts_with (c ∷ s) t || is_in t s

-- `s.find(t)`, with `none` for -1.
unfoldable pub index_of : Text → Text → Option ℕ
index_of t [] = if starts_with [] t then some 0 else none
index_of t (c ∷ s) =
    let rest = index_of t s in
    if starts_with (c ∷ s) t then some 0 else elim rest [ none ↦ none | some i ↦ some (suc i) ]

-- `s.find(t)`, with -1 where there is none.
abbrev pub find : Text → Text → ℤ
find t s = elim (index_of t s) [ none ↦ negsuc 0 | some i ↦ pos i ]

-- `s.rfind(t)`
unfoldable pub rfind : Text → Text → ℤ
rfind t [] = if starts_with [] t then pos 0 else negsuc 0
rfind t (c ∷ s) =
    let here = starts_with (c ∷ s) t in
    elim (rfind t s) [ pos i ↦ pos (suc i) | negsuc n ↦ if here then pos 0 else negsuc 0 ]

-- An index of a slice of a list of length `n`, where a negative one counts from the end.
abbrev pub bound : ℕ → ℤ → ℕ
bound n (pos i) = min i n
bound n (negsuc i) = n - suc i

module _ {A : Type 0} where
  -- `xs[i:j]`
  unfoldable pub between : List A → ℤ → ℤ → List A
  between xs i j = take (bound (length xs) j - bound (length xs) i) (drop (bound (length xs) i) xs)

  -- `xs[i:]`
  unfoldable pub from : List A → ℤ → List A
  from xs i = drop (bound (length xs) i) xs

abbrev add_char : ℕ → List Text → List Text
add_char c [] = (c ∷ []) ∷ []
add_char c (line ∷ lines) = (c ∷ line) ∷ lines

-- `s.split(d)`, for one character `d`.
unfoldable pub split : ℕ → Text → List Text
split d [] = [] ∷ []
split d (c ∷ s) = let rest = split d s in if c == d then [] ∷ rest else add_char c rest
