-- ===== src/Text/Order.antt =====
-- `round_strcmp` as an order and `round_streq` as an equality, of src/round/util/string_func.c.
use Prim.Native.Nat.{Ordering, lt, eq, gt}
use round.Common.{ℕ, ◌≡◌, refl, ◌↔◌, true, none, some, List, [], ◌∷◌, arith}
use round.Text.{CString, strcmp_bytes, strcmp, streq}

abbrev flip : Ordering → Ordering
flip lt = gt
flip eq = eq
flip gt = lt

strcmp_bytes_refl : (a : List ℕ) → strcmp_bytes a a ≡ eq
unfolding strcmp_bytes
strcmp_bytes_refl [] = refl
strcmp_bytes_refl (x ∷ a) = ground (arith, strcmp_bytes_refl a)

strcmp_bytes-eq : (a b : List ℕ) → strcmp_bytes a b ≡ eq → a ≡ b
unfolding strcmp_bytes
strcmp_bytes-eq [] [] h = refl
strcmp_bytes-eq [] (y ∷ b) h = cc
strcmp_bytes-eq (x ∷ a) [] h = cc
strcmp_bytes-eq (x ∷ a) (y ∷ b) h = ground (arith, strcmp_bytes-eq a b)

strcmp_bytes-flip : (a b : List ℕ) → strcmp_bytes b a ≡ flip (strcmp_bytes a b)
unfolding strcmp_bytes
strcmp_bytes-flip [] [] = refl
strcmp_bytes-flip [] (y ∷ b) = refl
strcmp_bytes-flip (x ∷ a) [] = refl
strcmp_bytes-flip (x ∷ a) (y ∷ b) = ground (arith, strcmp_bytes-flip a b)

strcmp_bytes_trans :
    (a b c : List ℕ) → strcmp_bytes a b ≡ lt → strcmp_bytes b c ≡ lt → strcmp_bytes a c ≡ lt
unfolding strcmp_bytes
strcmp_bytes_trans [] [] c h k = cc
strcmp_bytes_trans [] (y ∷ b) [] h k = cc
strcmp_bytes_trans [] (y ∷ b) (z ∷ c) h k = refl
strcmp_bytes_trans (x ∷ a) [] c h k = cc
strcmp_bytes_trans (x ∷ a) (y ∷ b) [] h k = cc
strcmp_bytes_trans (x ∷ a) (y ∷ b) (z ∷ c) h k = ground (arith, strcmp_bytes_trans a b c)

-- NULL comes before every string.
pub strcmp_trans : (a b c : CString) → strcmp a b ≡ lt → strcmp b c ≡ lt → strcmp a c ≡ lt
unfolding strcmp
strcmp_trans none b c h k = refl
strcmp_trans (some a) none c h k = cc
strcmp_trans (some a) (some b) none h k = cc
strcmp_trans (some a) (some b) (some c) h k = strcmp_bytes_trans a b c h k

pub strcmp-flip : (a b : List ℕ) → strcmp (some b) (some a) ≡ flip (strcmp (some a) (some b))
unfolding strcmp
strcmp-flip a b = strcmp_bytes-flip a b

pub strcmp-eq : (a b : List ℕ) → (strcmp (some a) (some b) ≡ eq) ↔ (a ≡ b)
unfolding strcmp
strcmp-eq a b = (strcmp_bytes-eq a b, λ e. rw e (strcmp_bytes_refl b))

pub streq_iff : (a b : List ℕ) → (streq (some a) (some b) ≡ true) ↔ (a ≡ b)
unfolding streq
streq_iff a b =
    (λ h. strcmp_bytes-eq a b (ground arith), λ e. rw e (ground (arith, strcmp_bytes_refl b)))
