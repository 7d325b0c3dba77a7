-- ===== src/Tests/Text.antt =====
-- Tests of the string functions (util/string_func.c).
use round.Common.{ℕ, ◌≡◌, refl, some, List, [], ◌∷◌, ◌++◌, arith, ◌==◌, length, if◌then◌else◌}
use round.Common.Int.{pos, negsuc}
use round.Text.Replace.{Tokens, string_replace, replace_from, match_from, starts_with}
use round.Text.Replace.Rewriting.{Rewrites, string_replace-Rewrites}
use round.Text.Search.{is_one_of, strchr, strrchr, IsFirst, IsLast, strchr-IsFirst, strrchr-IsLast}
use round.Text.Trim.{
  strtrim, strtrimwhite, IsBackTrimmed, IsFrontTrimmed, strtrim-IsTrimmed, strtrimwhite-append,
}

-- `/a/b`
abbrev path : List ℕ
path = 47 ∷ 97 ∷ 47 ∷ 98 ∷ []

strchr-IsFirst_test : IsFirst path (47 ∷ []) (strchr (some path) (some (47 ∷ [])))
strchr-IsFirst_test = strchr-IsFirst path (47 ∷ [])

strrchr-IsLast_test : IsLast path (47 ∷ []) (strrchr (some path) (some (47 ∷ [])))
strrchr-IsLast_test = strrchr-IsLast path (47 ∷ [])

searched :
    (strchr (some path) (some (47 ∷ [])) ≡ pos 0)
    × (strrchr (some path) (some (47 ∷ [])) ≡ pos 2)
    × (strchr (some path) (some (99 ∷ [])) ≡ negsuc 0)
unfolding strchr strrchr
searched = (refl, refl, refl)

strtrim-IsTrimmed_test :
    (u : List ℕ) × (t : List ℕ) × (strtrim (some (47 ∷ path)) (some (47 ∷ [])) ≡ some t)
    × IsBackTrimmed (47 ∷ []) (47 ∷ path) u
    × IsFrontTrimmed (47 ∷ []) u t
strtrim-IsTrimmed_test = strtrim-IsTrimmed (47 ∷ path) (47 ∷ [])

trimmed : strtrim (some (47 ∷ path)) (some (47 ∷ [])) ≡ some (97 ∷ 47 ∷ 98 ∷ [])
unfolding strtrim
trimmed = refl

strtrimwhite-append_test : strtrimwhite (some (path ++ 32 ∷ 9 ∷ [])) ≡ some path
unfolding is_one_of
strtrimwhite-append_test =
    strtrimwhite-append path (32 ∷ 9 ∷ []) (refl, (refl, (refl, (refl, tt)))) (refl, (refl, tt))

-- A blank in front stays, and the text behind it is cut off.
strtrimwhite_cuts : strtrimwhite (some (32 ∷ 32 ∷ 97 ∷ 98 ∷ [])) ≡ some (32 ∷ 32 ∷ [])
unfolding strtrimwhite
strtrimwhite_cuts = refl

-- "ab" is replaced by "x", also where it stands twice in a row.
abbrev ab_by_x : Tokens
ab_by_x = ((b'a' ∷ b'b' ∷ []), (b'x' ∷ [])) ∷ []

abbrev abab : List ℕ
abab = b'a' ∷ b'b' ∷ b'a' ∷ b'b' ∷ b'c' ∷ []

string_replace_twice : string_replace 6 (some abab) ab_by_x ≡ some (some (b'x' ∷ b'x' ∷ b'c' ∷ []))
unfolding string_replace replace_from match_from starts_with
string_replace_twice = refl

-- Where all is replaced by nothing, the string stays.
string_replace_gone :
    string_replace 3 (some (b'a' ∷ [])) (((b'a' ∷ []), []) ∷ []) ≡ some (some (b'a' ∷ []))
unfolding string_replace replace_from match_from starts_with
string_replace_gone = refl

string_replace-Rewrites_example :
    (out : List ℕ) × Rewrites ab_by_x abab out
    × (string_replace 6 (some abab) ab_by_x ≡ some (some (if length out == 0 then abab else out)))
string_replace-Rewrites_example =
    string_replace-Rewrites ab_by_x ((λ e. cc), tt) 6 abab (omega arith)
