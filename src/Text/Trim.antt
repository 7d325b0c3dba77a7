-- ===== src/Text/Trim.antt =====
-- The trims of src/round/util/string_func.c, on the bytes before the first 0. `round_strrtrim`
-- writes zeros into the string; `round_strltrim` returns a pointer into it. `none` is NULL.
use mathlib.Core.List.{append_assoc, append-nil}
use round.Common.{
  ℕ, zero, suc, ◌+◌, ◌-◌, ◌≡◌, refl, sym, ap, ◌∙◌, ◌⊎◌, inl, inr, true, false, Option, none, some,
  List, [], ◌∷◌, ◌++◌, arith, if◌then◌else◌, Bool-cases, All, All-append, length, get_or, take,
  drop, length-take, ◌==◌,
}
use round.Text.{CString}
use round.Text.Search.{is_one_of, Free, take-suc, take_all}

unfoldable pub strltrim : CString → List ℕ → CString
unfolding is_one_of
strltrim none delim = none
strltrim (some []) delim = some []
strltrim (some (c ∷ str)) delim =
    if is_one_of delim c then strltrim (some str) delim else some (c ∷ str)

-- The loop of `round_strrtrim`, down from the index before the given one; the zero that it writes
-- ends the string there.
unfoldable pub strrtrim_from : ℕ → List ℕ → List ℕ → List ℕ
unfolding is_one_of
strrtrim_from zero str delim = str
strrtrim_from (suc i) str delim =
    if is_one_of delim (get_or str i 0) then strrtrim_from i (take i str) delim else str

unfoldable pub strrtrim : CString → List ℕ → CString
unfolding strrtrim_from
strrtrim none delim = none
strrtrim (some str) delim = some (strrtrim_from (length str) str delim)

unfoldable pub strtrim : CString → Option (List ℕ) → CString
unfolding strltrim strrtrim
strtrim none delim = none
strtrim (some str) none = none
strtrim (some str) (some delim) = strltrim (strrtrim (some str) delim) delim

-- `isspace` of the C library, in the C locale.
abbrev pub white : List ℕ
white = 32 ∷ 9 ∷ 10 ∷ 11 ∷ 12 ∷ 13 ∷ []

-- The first loop of `round_strtrimwhite`: what it leaves of the length.
unfoldable pub less_white : List ℕ → ℕ
unfolding is_one_of
less_white [] = 0
less_white (c ∷ str) = if is_one_of white c then less_white str else suc (less_white str)

-- The second loop: the index of the first character below the length that is not white.
unfoldable pub first_black : ℕ → List ℕ → ℕ
unfolding is_one_of
first_black zero str = 0
first_black (suc n) [] = 0
first_black (suc n) (c ∷ str) = if is_one_of white c then suc (first_black n str) else 0

-- `memmove(str, str + i, n)` for `i + n` bytes within the string
unfoldable pub memmove : List ℕ → ℕ → ℕ → List ℕ
memmove str i n = take n (drop i str) ++ drop n str

unfoldable pub strtrimwhite : CString → CString
unfolding less_white first_black memmove
strtrimwhite none = none
strtrimwhite (some str) =
    if length str == 0
    then some str
    else let str_len : ℕ = less_white str in
      let i : ℕ = first_black str_len str in
      some (take str_len (if i == 0 then str else memmove str i (str_len - i)))

abbrev pub Only : List ℕ → List ℕ → Type 0
Only delim = All (λ c. is_one_of delim c ≡ true)

-- The string with delimiters taken off its front only; it then starts with none.
abbrev pub IsFrontTrimmed : List ℕ → List ℕ → List ℕ → Type 0
IsFrontTrimmed delim str [] = Only delim str
IsFrontTrimmed delim str (c ∷ rest) =
    (front : List ℕ) × (str ≡ front ++ c ∷ rest) × Only delim front × (is_one_of delim c ≡ false)

-- The string with delimiters taken off its back only; it then ends with none.
abbrev pub IsBackTrimmed : List ℕ → List ℕ → List ℕ → Type 0
IsBackTrimmed delim str trimmed =
    (back : List ℕ) × (str ≡ trimmed ++ back)
    × Only delim back
    × ((trimmed ≡ [])
        ⊎ ((rest : List ℕ) × (c : ℕ) × (trimmed ≡ rest ++ c ∷ []) × (is_one_of delim c ≡ false)))

IsFrontTrimmed-cons :
    (c : ℕ) (str delim t : List ℕ)
    → is_one_of delim c ≡ true
    → IsFrontTrimmed delim str t
    → IsFrontTrimmed delim (c ∷ str) t
IsFrontTrimmed-cons c str delim [] e k = (e, k)
IsFrontTrimmed-cons c str delim (d ∷ rest) e (front, s, f, k) =
    (c ∷ front, ap (λ x. c ∷ x) s, (e, f), k)

strltrim-IsFrontTrimmed :
    (str delim : List ℕ)
    → (t : List ℕ) × (strltrim (some str) delim ≡ some t) × IsFrontTrimmed delim str t
unfolding strltrim
strltrim-IsFrontTrimmed [] delim = ([], refl, tt)
strltrim-IsFrontTrimmed (c ∷ str) delim = elim (Bool-cases (is_one_of delim c)) [
  | inl e ↦
      let (t, q, k) = strltrim-IsFrontTrimmed str delim in
      (t, rw e q, IsFrontTrimmed-cons c str delim t e k)
  | inr e ↦ (c ∷ str, rw e refl, ([], refl, tt, e))
]

strrtrim_from-IsBackTrimmed :
    (i : ℕ) (str delim : List ℕ)
    → length str ≡ i
    → IsBackTrimmed delim str (strrtrim_from i str delim)
unfolding strrtrim_from
strrtrim_from-IsBackTrimmed zero [] delim h = ([], refl, tt, inl refl)
strrtrim_from-IsBackTrimmed zero (c ∷ str) delim h = absurd (omega arith)
strrtrim_from-IsBackTrimmed (suc i) str delim h =
    elim (Bool-cases (is_one_of delim (get_or str i 0))) [
      | inl e ↦
          let (back, q, f, k) =
            strrtrim_from-IsBackTrimmed i (take i str) delim (omega (arith, length-take i str)) in
          rw e (
            back ++ get_or str i 0 ∷ [],
            split
                ∙ ap (λ s. s ++ get_or str i 0 ∷ []) q
                ∙ append_assoc (strrtrim_from i (take i str) delim) back (get_or str i 0 ∷ []),
            All-append (λ c. is_one_of delim c ≡ true) back (get_or str i 0 ∷ []) f (e, tt),
            k,
          )
      | inr e ↦ rw e ([], sym (append-nil str), tt, inr (take i str, get_or str i 0, split, e))
    ]
  where
    split : str ≡ take i str ++ get_or str i 0 ∷ []
    split = sym (take_all str) ∙ ap (λ n. take n str) h ∙ take-suc i str (omega arith)

-- strtrim of a string takes delimiters off its back, so that the rest ends with none, and then off
-- the front of that, so that the result starts with none.
pub strtrim-IsTrimmed :
    (str delim : List ℕ)
    → (u : List ℕ) × (t : List ℕ) × (strtrim (some str) (some delim) ≡ some t)
      × IsBackTrimmed delim str u
      × IsFrontTrimmed delim u t
unfolding strtrim strrtrim
strtrim-IsTrimmed str delim =
    let u : List ℕ = strrtrim_from (length str) str delim in
    let (t, q, k) = strltrim-IsFrontTrimmed u delim in
    (u, t, q, strrtrim_from-IsBackTrimmed (length str) str delim refl, k)

less_white-Free : (str : List ℕ) → Free white str → less_white str ≡ length str
unfolding less_white
less_white-Free [] f = refl
less_white-Free (c ∷ str) f = rw f.0 (ap suc (less_white-Free str f.1))

less_white-Only : (str : List ℕ) → Only white str → less_white str ≡ 0
unfolding less_white
less_white-Only [] f = refl
less_white-Only (c ∷ str) f = rw f.0 (less_white-Only str f.1)

less_white-append : (a b : List ℕ) → less_white (a ++ b) ≡ less_white a + less_white b
unfolding less_white
less_white-append [] b = omega arith
less_white-append (c ∷ a) b = ground (arith, less_white-append a b)

take-append : (a b : List ℕ) → take (length a) (a ++ b) ≡ a
take-append [] b = refl
take-append (c ∷ a) b = ap (λ s. c ∷ s) (take-append a b)

-- Where white space stands only at the end of a string, strtrimwhite gives the string without it.
pub strtrimwhite-append :
    (str back : List ℕ)
    → Free white str
    → Only white back
    → strtrimwhite (some (str ++ back)) ≡ some str
unfolding strtrimwhite
strtrimwhite-append [] [] f o = refl
strtrimwhite-append [] (c ∷ back) f o = ground (arith, less_white-Only (c ∷ back) o)
strtrimwhite-append (c ∷ str) back f o =
    let e : less_white (c ∷ str ++ back) ≡ suc (length str) =
      less_white-append (c ∷ str) back
      ∙ omega (arith, less_white-Free (c ∷ str) f, less_white-Only back o) in
    rw (e, f.0) (ground (arith, take-append str back))
