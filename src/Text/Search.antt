-- ===== src/Text/Search.antt =====
-- The searches of src/round/util/string_func.c for one of some characters, `round_strchr` and
-- `round_strrchr`. -1 is the index of nothing found.
use mathlib.Core.List.{append_assoc}
use round.Common.{
  ℕ, zero, suc, ◌+◌, ◌≤◌, ◌<◌, ◌≡◌, refl, ap, ◌∙◌, ◌⊎◌, inl, inr, Bool, true, false, Option, none,
  some, List, [], ◌∷◌, ◌++◌, arith, ◌==◌, if◌then◌else◌, Bool-cases, All, All-append, length,
  get_or, take, length-take,
}
use round.Common.Int.{ℤ, pos, negsuc}
use round.Text.{CString}

-- The inner loops, `str[i] == chars[j]` for some `j`.
unfoldable pub is_one_of : List ℕ → ℕ → Bool
is_one_of [] c = false
is_one_of (x ∷ chars) c = if c == x then true else is_one_of chars c

-- The outer loop of `round_strchr`
unfoldable pub strchr_from : ℕ → List ℕ → List ℕ → ℤ
unfolding is_one_of
strchr_from i [] chars = negsuc 0
strchr_from i (c ∷ str) chars = if is_one_of chars c then pos i else strchr_from (i + 1) str chars

-- `none` is NULL.
unfoldable pub strchr : CString → Option (List ℕ) → ℤ
unfolding strchr_from
strchr none chars = negsuc 0
strchr (some str) none = negsuc 0
strchr (some str) (some chars) = strchr_from 0 str chars

-- The outer loop of `round_strrchr`, down from the index before the given one.
unfoldable pub strrchr_from : ℕ → List ℕ → List ℕ → ℤ
unfolding is_one_of
strrchr_from zero str chars = negsuc 0
strrchr_from (suc i) str chars =
    if is_one_of chars (get_or str i 0) then pos i else strrchr_from i str chars

unfoldable pub strrchr : CString → Option (List ℕ) → ℤ
unfolding strrchr_from
strrchr none chars = negsuc 0
strrchr (some str) none = negsuc 0
strrchr (some str) (some chars) = strrchr_from (length str) str chars

abbrev pub Free : List ℕ → List ℕ → Type 0
Free chars = All (λ c. is_one_of chars c ≡ false)

-- The first place where one of the characters stands, with its index, or none at all.
abbrev pub IsFirst : List ℕ → List ℕ → ℤ → Type 0
IsFirst str chars i =
    (Free chars str × (i ≡ negsuc 0))
    ⊎ ((before : List ℕ) × (c : ℕ) × (after : List ℕ) × (str ≡ before ++ c ∷ after)
        × Free chars before
        × (is_one_of chars c ≡ true)
        × (i ≡ pos (length before)))

abbrev pub IsLast : List ℕ → List ℕ → ℤ → Type 0
IsLast str chars i =
    (Free chars str × (i ≡ negsuc 0))
    ⊎ ((before : List ℕ) × (c : ℕ) × (after : List ℕ) × (str ≡ before ++ c ∷ after)
        × Free chars after
        × (is_one_of chars c ≡ true)
        × (i ≡ pos (length before)))

strchr_from-IsFirst :
    (n : ℕ) (str chars : List ℕ)
    → (Free chars str × (strchr_from n str chars ≡ negsuc 0))
      ⊎ ((before : List ℕ) × (c : ℕ) × (after : List ℕ) × (str ≡ before ++ c ∷ after)
          × Free chars before
          × (is_one_of chars c ≡ true)
          × (strchr_from n str chars ≡ pos (n + length before)))
unfolding strchr_from
strchr_from-IsFirst n [] chars = inl (tt, refl)
strchr_from-IsFirst n (x ∷ str) chars = elim (Bool-cases (is_one_of chars x)) [
  | inl e ↦ inr ([], x, str, refl, tt, e, ground arith)
  | inr e ↦ elim (strchr_from-IsFirst (n + 1) str chars) [
    | inl (f, i) ↦ inl ((e, f), ground arith)
    | inr (before, c, after, q, f, k, i) ↦
        inr (x ∷ before, c, after, ap (λ s. x ∷ s) q, (e, f), k, rw e (i ∙ ap pos (omega arith)))
  ]
]

-- strchr of a string and some characters gives the index of the first character that is one of
-- them, and -1 where there is none.
pub strchr-IsFirst : (str chars : List ℕ) → IsFirst str chars (strchr (some str) (some chars))
unfolding strchr
strchr-IsFirst str chars = elim (strchr_from-IsFirst 0 str chars) [
  | inl k ↦ inl k
  | inr (before, c, after, q, f, k, i) ↦ inr (before, c, after, q, f, k, i ∙ ap pos (omega arith))
]

pub take-suc :
    (i : ℕ) (xs : List ℕ) → i < length xs → take (suc i) xs ≡ take i xs ++ get_or xs i 0 ∷ []
take-suc i [] h = absurd (omega arith)
take-suc zero (x ∷ xs) h = refl
take-suc (suc i) (x ∷ xs) h = ap (λ s. x ∷ s) (take-suc i xs (omega arith))

pub take_all : (xs : List ℕ) → take (length xs) xs ≡ xs
take_all [] = refl
take_all (x ∷ xs) = ap (λ s. x ∷ s) (take_all xs)

strrchr_from-IsLast :
    (i : ℕ) (str chars : List ℕ)
    → i ≤ length str
    → IsLast (take i str) chars (strrchr_from i str chars)
unfolding strrchr_from
strrchr_from-IsLast zero str chars h = inl (tt, refl)
strrchr_from-IsLast (suc i) str chars h = elim (Bool-cases (is_one_of chars (get_or str i 0))) [
  | inl e ↦ inr (
    take i str,
    get_or str i 0,
    [],
    take-suc i str h,
    tt,
    e,
    rw e (ap pos (omega (arith, length-take i str))),
  )
  | inr e ↦ elim (strrchr_from-IsLast i str chars (omega arith)) [
    | inl (f, k) ↦ inl (
      rw (take-suc i str h) (
          All-append (λ c. is_one_of chars c ≡ false) (take i str) (get_or str i 0 ∷ []) f (e, tt)),
      rw e k,
    )
    | inr (before, c, after, q, f, k, j) ↦ inr (
      before,
      c,
      after ++ get_or str i 0 ∷ [],
      take-suc i str h
          ∙ ap (λ s. s ++ get_or str i 0 ∷ []) q
          ∙ append_assoc before (c ∷ after) (get_or str i 0 ∷ []),
      All-append (λ c. is_one_of chars c ≡ false) after (get_or str i 0 ∷ []) f (e, tt),
      k,
      rw e j,
    )
  ]
]

-- strrchr of a string and some characters gives the index of the last character that is one of
-- them, and -1 where there is none.
pub strrchr-IsLast : (str chars : List ℕ) → IsLast str chars (strrchr (some str) (some chars))
unfolding strrchr
strrchr-IsLast str chars =
    rw (take_all str) at (strrchr_from-IsLast (length str) str chars (omega arith))
