-- ===== src/Text/Replace/Rewriting.antt =====
-- What `round_string_replace` of src/round/util/string.c makes of a text.
use mathlib.Core.List.{Memᴰ, append_assoc, append-nil}
use mathlib.Core.List.Memᴰ.{head, tail}
use round.Common.{
  ℕ, zero, suc, ◌<◌, ◌≡◌, ◌≢◌, refl, sym, ap, ◌∙◌, subst, Bool, true, false, none, some, List, [],
  ◌∷◌, ◌++◌, ◌==◌, ==_iff, if◌then◌else◌, length, drop, arith, All, All-map, Bool-cases, inl, inr,
  ◌⊎◌,
}
use round.Text.Replace.{Tokens, starts_with, match_from, replace_from, string_replace}

-- A text and what it is rewritten to: tokens are replaced, and a character is kept where no token
-- stands.
pub data Rewrites (tokens : Tokens) : List ℕ → List ℕ → Type 0 where
  done : Rewrites tokens [] []
  replaced :
      {token by rest out : List ℕ}
      → Memᴰ (token, by) tokens
      → Rewrites tokens rest out
      → Rewrites tokens (token ++ rest) (by ++ out)
  kept :
      {c : ℕ} {rest out : List ℕ}
      → All (λ p. starts_with p.0 (c ∷ rest) ≡ false) tokens
      → Rewrites tokens rest out
      → Rewrites tokens (c ∷ rest) (c ∷ out)

starts_with-drop :
    (token text : List ℕ) → starts_with token text ≡ true → token ++ drop (length token) text ≡ text
unfolding starts_with
starts_with-drop [] text h = refl
starts_with-drop (t ∷ token) [] h = cc
starts_with-drop (t ∷ token) (c ∷ text) h = elim (Bool-cases (t == c)) [
  | inl e ↦
      let tc : t ≡ c = (==_iff t c).0 e in
      ap (λ l. l) (rw tc (ap (λ l. c ∷ l) (starts_with-drop token text (rw e at h))))
  | inr e ↦ absurd (ground (arith, e, h))
]

drop_shorter :
    (token text : List ℕ) → token ≢ [] → text ≢ [] → length (drop (length token) text) < length text
drop_shorter [] text h k = absurd (h refl)
drop_shorter (t ∷ token) [] h k = absurd (k refl)
drop_shorter (t ∷ token) (c ∷ text) h k = drop_le (length token) text
  where
    drop_le : (n : ℕ) (xs : List ℕ) → length (drop n xs) < suc (length xs)
    drop_le zero xs = omega arith
    drop_le (suc n) [] = omega arith
    drop_le (suc n) (x ∷ xs) = omega (arith, drop_le n xs)

module _ (tokens : Tokens) where
  -- What the inner loop is to give for some of the tokens: what it adds is what it replaces, and it
  -- goes on behind, or it replaces nothing and stays.
  record IsMatched (some_tokens : Tokens) (rest rep : List ℕ) (is_replaced : Bool)
      (m : List ℕ × List ℕ × Bool) : Type 0 where
    added : List ℕ
    built : m.1 ≡ rep ++ added
    rewritten : (out : List ℕ) → Rewrites tokens m.0 out → Rewrites tokens rest (added ++ out)
    moved :
        (((m.2 ≡ is_replaced) × (m.0 ≡ rest)) × All (λ p. starts_with p.0 rest ≡ false) some_tokens)
        ⊎ ((m.2 ≡ true) × (length m.0 < length rest))

  no_start : (token rest : List ℕ) → token ≢ [] → starts_with token rest ≡ true → rest ≢ []
  unfolding starts_with
  no_start [] rest h s e = absurd (h refl)
  no_start (t ∷ token) [] h s e = cc
  no_start (t ∷ token) (c ∷ rest) h s e = cc

  match_from-IsMatched :
      (some_tokens : Tokens)
      → All (λ p. Memᴰ p tokens) some_tokens
      → All (λ p. p.0 ≢ []) some_tokens
      → (rest rep : List ℕ) (is_replaced : Bool)
      → IsMatched some_tokens rest rep is_replaced (match_from some_tokens rest rep is_replaced)
  unfolding match_from
  match_from-IsMatched [] mem ne rest rep b = record {
    added = [];
    built = sym (append-nil rep);
    rewritten = λ out r. r;
    moved = inl ((refl, refl), tt);
  }
  match_from-IsMatched ((token, by) ∷ others) mem ne rest rep b =
      elim (Bool-cases (starts_with token rest)) [
        | inl h ↦ rw h (
            let behind : List ℕ = drop (length token) rest in
            let m = match_from-IsMatched others mem.1 ne.1 behind (rep ++ by) true in
            let shorter : length behind < length rest =
              drop_shorter token rest ne.0 (no_start token rest ne.0 h) in
            record {
              added = by ++ m.added;
              built = m.built ∙ append_assoc rep by m.added;
              rewritten = λ out r.
                  subst (λ t. Rewrites tokens t ((by ++ m.added) ++ out))
                    (starts_with-drop token rest h)
                    (subst (λ o. Rewrites tokens (token ++ behind) o)
                      (sym (append_assoc by m.added out)) (replaced mem.0 (m.rewritten out r)));
              moved = inr (elim m.moved [
                | inl ((q, e), _) ↦ (q, subst (λ l. length l < length rest) (sym e) shorter)
                | inr (q, l) ↦ (q, omega (arith, l, shorter))
              ]);
            })
        | inr h ↦ rw h (
            let m = match_from-IsMatched others mem.1 ne.1 rest rep b in
            record {
              added = m.added;
              built = m.built;
              rewritten = m.rewritten;
              moved = elim m.moved [
                | inl (same, none_there) ↦ inl (same, (h, none_there))
                | inr x ↦ inr x
              ];
            })
      ]

  all_in : (l : Tokens) → All (λ p. Memᴰ p l) l
  all_in [] = tt
  all_in (p ∷ l) = (head refl, All-map l (λ q m. tail m) (all_in l))

  module _ (ne : All (λ p. p.0 ≢ []) tokens) where
    replace_from-Rewrites :
        (fuel : ℕ) (rest rep : List ℕ)
        → length rest < fuel
        → (out : List ℕ) × Rewrites tokens rest out
          × (replace_from fuel tokens rest rep ≡ some (rep ++ out))
    unfolding replace_from
    replace_from-Rewrites zero rest rep h = absurd (omega (arith, h))
    replace_from-Rewrites (suc fuel) [] rep h = ([], done, ap some (sym (append-nil rep)))
    replace_from-Rewrites (suc fuel) (c ∷ rest) rep h =
        let matched = match_from tokens (c ∷ rest) rep false in
        let m = match_from-IsMatched tokens (all_in tokens) ne (c ∷ rest) rep false in
        elim m.moved [
          | inl ((q, e), none_there) ↦
              let (out, r, f) =
                replace_from-Rewrites fuel rest (rep ++ c ∷ []) (omega (arith, h)) in
              (c ∷ out, kept none_there r, rw q (f ∙ ap some (append_assoc rep (c ∷ []) out)))
          | inr (q, l) ↦
              let (out, r, f) =
                replace_from-Rewrites fuel matched.0 matched.1 (omega (arith, h, l)) in
              (
                m.added ++ out,
                m.rewritten out r,
                rw q (f ∙ ap some (ap (λ x. x ++ out) m.built ∙ append_assoc rep m.added out)),
              )
        ]

    -- Where no token is empty, replace of some tokens in a text, with more fuel than the length of
    -- the text, ends; the text can be split into tokens, which are replaced, and into characters
    -- at which no token stands, which are kept, so that the string then holds what this gives, or
    -- its old text where this is empty.
    pub string_replace-Rewrites :
        (fuel : ℕ) (text : List ℕ)
        → length text < fuel
        → (out : List ℕ) × Rewrites tokens text out
          × (string_replace fuel (some text) tokens
              ≡ some (some (if length out == 0 then text else out)))
    unfolding string_replace
    string_replace-Rewrites fuel text h =
        let (out, r, f) = replace_from-Rewrites fuel text [] h in
        (out, r, rw (f, string_replace) (shown out))
      where
        shown :
            (out : List ℕ)
            → (elim (some out) [
              | none ↦ none
              | some [] ↦ some (some text)
              | some (c ∷ rep) ↦ some (some (c ∷ rep))
            ])
              ≡ some (some (if length out == 0 then text else out))
        shown [] = refl
        shown (c ∷ out) = ground arith

-- With an empty token alone, the outer loop never ends on a text that is not empty.
pub string_replace_empty :
    (fuel c : ℕ) (text by : List ℕ) → string_replace fuel (some (c ∷ text)) (([], by) ∷ []) ≡ none
unfolding string_replace replace_from match_from starts_with
string_replace_empty fuel c text by = rw (stays fuel [], string_replace) refl
  where
    stays : (n : ℕ) (rep : List ℕ) → replace_from n (([], by) ∷ []) (c ∷ text) rep ≡ none
    stays zero rep = refl
    stays (suc n) rep = stays n (rep ++ by)
