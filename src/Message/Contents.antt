-- ===== src/Message/Contents.antt =====
-- What a message holds after `round_message_setstring` of src/round/message.c.
use round.Common.{
  ℕ, ◌+◌, ◌≡◌, ◌≢◌, refl, ap, ◌∙◌, false, some, List, [], ◌∷◌, ◌++◌, ◌==◌, arith, All, All-append,
  length, drop, length-append,
}
use mathlib.Core.List.{append_assoc}
use round.Message.{RoundMessage, up_to, memccpy, c_string, getstring, setdata, setstring}

up_to_all : (stop : ℕ) (xs : List ℕ) → All (λ x. x ≢ stop) xs → up_to stop xs ≡ xs
unfolding up_to
up_to_all stop [] h = refl
up_to_all stop (x ∷ xs) h = ground (arith, h.0, up_to_all stop xs h.1)

up_to_first :
    (stop : ℕ) (xs ys : List ℕ)
    → All (λ x. x ≢ stop) xs
    → up_to stop (xs ++ stop ∷ ys) ≡ xs ++ stop ∷ []
unfolding up_to
up_to_first stop [] ys h = ground arith
up_to_first stop (x ∷ xs) ys h = ground (arith, h.0, up_to_first stop xs ys h.1)

c_string-append : (xs ys : List ℕ) → All (λ x. x ≢ 0) xs → c_string (xs ++ 0 ∷ ys) ≡ xs
unfolding c_string
c_string-append [] ys h = refl
c_string-append (x ∷ xs) ys h = ground (arith, h.0, c_string-append xs ys h.1)

snoc-length : (xs : List ℕ) (x : ℕ) → (length (xs ++ x ∷ []) == 0) ≡ false
snoc-length xs x = ground (arith, length-append xs (x ∷ []))

cut_length : (before : List ℕ) → length (before ++ 1 ∷ []) ≡ length before + 1
cut_length before = omega (arith, length-append before (1 ∷ []))

full_length :
    (before behind : List ℕ)
    → length (before ++ 1 ∷ (behind ++ 0 ∷ [])) ≡ length before + length behind + 2
full_length before behind =
    omega (arith, length-append before (1 ∷ (behind ++ 0 ∷ [])), length-append behind (0 ∷ []))

module _ (garbage : ℕ → List ℕ) (msg : RoundMessage) where
  setstring-contents :
      (str : List ℕ)
      → (setstring garbage msg (some str)).0.contents
        ≡ some (memccpy (garbage (length (str ++ 0 ∷ []))) (str ++ 0 ∷ []) 1)
  unfolding setstring setdata
  setstring-contents str = rw (snoc-length str 0) refl

  -- A message that is given a string without the bytes 0 and 1 holds that string.
  pub getstring-setstring :
      (str : List ℕ)
      → All (λ x. x ≢ 0) str
      → All (λ x. x ≢ 1) str
      → getstring (setstring garbage msg (some str)).0 ≡ some str
  unfolding getstring memccpy
  getstring-setstring str h k =
      rw (setstring-contents str, getstring)
        (rw (up_to_all 1 (str ++ 0 ∷ []) (All-append (λ x. x ≢ 1) str (0 ∷ []) k (omega arith, tt)))
          (ap some (ap c_string (append_assoc str (0 ∷ []) _) ∙ c_string-append str _ h)))

  -- A string with a byte 1 is cut behind the first one; what new memory holds stands behind it.
  pub setstring_cut :
      (before behind : List ℕ)
      → All (λ x. x ≢ 1) before
      → (setstring garbage msg (some (before ++ 1 ∷ behind))).0.contents
        ≡ some
            (before ++ 1 ∷ drop (length before + 1) (garbage (length before + length behind + 2)))
  unfolding memccpy
  setstring_cut before behind h =
      setstring-contents (before ++ 1 ∷ behind)
      ∙ ap some (
          ap (λ b. memccpy (garbage (length b)) b 1) (append_assoc before (1 ∷ behind) (0 ∷ []))
          ∙ rw
              (
                up_to_first 1 before (behind ++ 0 ∷ []) h,
                cut_length before,
                full_length before behind,
              )
              (append_assoc before (1 ∷ []) _))
