-- ===== src/Text.antt =====
-- The string functions of src/round/util/string_func.c. A C string is the list of its bytes before
-- the terminating 0, and `none` is NULL. A pointer to characters with their number is a list.
pub mod Order
pub mod Search
pub mod Trim
pub mod Buffer
pub mod Replace
use Prim.Native.Nat.{compare, Ordering, lt, eq, gt}
use round.Common.{
  ℕ, zero, suc, ◌+◌, ◌-◌, ◌≡◌, refl, Bool, true, false, not, ◌&&◌, ◌||◌, Option, none, some, List,
  [], ◌∷◌, ◌++◌, ltb, leb, ◌==◌, if◌then◌else◌, length, get_or, take, drop,
}
use round.Common.Int.{ℤ, pos, negsuc}

abbrev pub CString : Type 0
CString = Option (List ℕ)

-- `strcmp`, by the sign of its result.
unfoldable pub strcmp_bytes : List ℕ → List ℕ → Ordering
strcmp_bytes [] [] = eq
strcmp_bytes [] (y ∷ ys) = lt
strcmp_bytes (x ∷ xs) [] = gt
strcmp_bytes (x ∷ xs) (y ∷ ys) = elim (compare x y) [ lt ↦ lt | eq ↦ strcmp_bytes xs ys | gt ↦ gt ]

unfoldable pub strlen : CString → ℕ
strlen none = 0
strlen (some str) = length str

unfoldable pub strcmp : CString → CString → Ordering
strcmp none str2 = lt
strcmp (some str1) none = gt
strcmp (some str1) (some str2) = strcmp_bytes str1 str2

abbrev pub is_zero : Ordering → Bool
is_zero eq = true
is_zero _ = false

unfoldable pub streq : CString → CString → Bool
unfolding strcmp
streq none str2 = false
streq (some str1) none = false
streq (some str1) (some str2) = is_zero (strcmp (some str1) (some str2))
