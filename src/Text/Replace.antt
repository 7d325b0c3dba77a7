-- ===== src/Text/Replace.antt =====
-- `round_string_replace` of src/round/util/string.c, on the text of the string: the adding to the
-- string that is built is a concatenation, by `round.Text.Buffer.Contents`. The tokens and the
-- texts they are replaced by are not NULL; the outer loop takes fuel.
pub mod Rewriting
use round.Common.{
  ℕ, zero, suc, ◌&&◌, Bool, true, false, Option, none, some, List, [], ◌∷◌, ◌++◌, ◌==◌,
  if◌then◌else◌, length, drop,
}
use round.Text.{CString}

-- `strncmp(token, text, strlen(token)) == 0`
unfoldable pub starts_with : List ℕ → List ℕ → Bool
starts_with [] text = true
starts_with (t ∷ token) [] = false
starts_with (t ∷ token) (c ∷ text) = (t == c) && starts_with token text

-- The tokens, each with the text that it is replaced by.
abbrev pub Tokens : Type 0
Tokens = List (List ℕ × List ℕ)

-- The inner loop, which goes on with the next token behind a token that it replaces: the rest of
-- the text, the string that is built, and whether a token was replaced.
unfoldable pub match_from : Tokens → List ℕ → List ℕ → Bool → List ℕ × List ℕ × Bool
unfolding starts_with
match_from [] rest rep is_replaced = (rest, rep, is_replaced)
match_from ((token, by) ∷ tokens) rest rep is_replaced =
    let hit : Bool = starts_with token rest in
    match_from tokens (if hit then drop (length token) rest else rest)
      (if hit then rep ++ by else rep) (if hit then true else is_replaced)

-- The outer loop
unfoldable pub replace_from : ℕ → Tokens → List ℕ → List ℕ → Option (List ℕ)
unfolding match_from
replace_from zero tokens rest rep = none
replace_from (suc fuel) tokens [] rep = some rep
replace_from (suc fuel) tokens (c ∷ rest) rep =
    let matched : List ℕ × List ℕ × Bool = match_from tokens (c ∷ rest) rep false in
    replace_from fuel tokens (if matched.2 then matched.0 else rest)
      (if matched.2 then matched.1 else rep ++ c ∷ [])

-- `round_string_replace`: where nothing is added to the string that is built, its value is NULL,
-- and `round_string_setvalue` then leaves the string as it is. The inner `none` is NULL.
unfoldable pub string_replace : ℕ → CString → Tokens → Option CString
unfolding replace_from
string_replace fuel none tokens = some none
string_replace fuel (some text) tokens = elim (replace_from fuel tokens text []) [
  | none ↦ none
  | some [] ↦ some (some text)
  | some (c ∷ rep) ↦ some (some (c ∷ rep))
]
