-- ===== src/Text/Buffer/Contents.antt =====
-- The contents of a growing string (util/string.c) and the bounds of its memory.
use round.Common.{
  ℕ, zero, suc, ◌+◌, ◌-◌, ◌<◌, ◌≤◌, ◌≡◌, refl, sym, ap, ◌∙◌, inl, inr, true, Option, none, some,
  List, [], ◌∷◌, ◌++◌, ltb, arith, Bool-cases, Option-cases, length, get_or, set, take, drop,
  length-append, length-take, length-drop, length-set, get_or-set,
}
use mathlib.Core.List.{append_assoc, append-nil}
use round.Text.Buffer.{
  RoundString, memcpy, terminate, write_at, realloc, setnvalue, grow, naddvalue, naddrepvalue,
}

-- The text of a string: the bytes that count.
abbrev pub text : RoundString → List ℕ
text str = elim str.value [ none ↦ [] | some memory ↦ take str.value_size memory ]

-- The memory has the size that is kept, the text fits in it, and a 0 stands behind the text.
abbrev pub IsBounded : Option (List ℕ) → ℕ → ℕ → Type 0
IsBounded none mem_size value_size = (mem_size ≡ 0) × (value_size ≡ 0)
IsBounded (some memory) mem_size value_size =
    (length memory ≡ mem_size) × (value_size < mem_size) × (get_or memory value_size 1 ≡ 0)

abbrev pub IsString : RoundString → Type 0
IsString str = IsBounded str.value str.mem_size str.value_size

pub take-append_left : (n : ℕ) (a b : List ℕ) → n ≤ length a → take n (a ++ b) ≡ take n a
take-append_left zero a b h = refl
take-append_left (suc n) [] b h = absurd (omega arith)
take-append_left (suc n) (x ∷ a) b h = ap (λ s. x ∷ s) (take-append_left n a b (omega arith))

take-append_all : (n : ℕ) (a b : List ℕ) → n ≡ length a → take n (a ++ b) ≡ a
take-append_all zero [] b h = refl
take-append_all zero (x ∷ a) b h = absurd (omega arith)
take-append_all (suc n) [] b h = absurd (omega arith)
take-append_all (suc n) (x ∷ a) b h = ap (λ s. x ∷ s) (take-append_all n a b (omega arith))

take-set : (n at v : ℕ) (xs : List ℕ) → n ≤ at → take n (set xs at v) ≡ take n xs
take-set zero at v xs h = refl
take-set (suc n) at v [] h = refl
take-set (suc n) zero v (x ∷ xs) h = absurd (omega arith)
take-set (suc n) (suc at) v (x ∷ xs) h = ap (λ s. x ∷ s) (take-set n at v xs (omega arith))

-- A write that leaves room for the 0 succeeds; it keeps the text in front and puts the bytes
-- behind.
write_at_ends :
    (memory : List ℕ) (at : ℕ) (bytes : List ℕ)
    → at + length bytes < length memory
    → (w : List ℕ) × (write_at memory at bytes ≡ some w)
      × (length w ≡ length memory)
      × (take (at + length bytes) w ≡ take at memory ++ bytes)
      × (get_or w (at + length bytes) 1 ≡ 0)
unfolding write_at memcpy terminate
write_at_ends memory at bytes h =
    let copied : List ℕ = take at memory ++ bytes ++ drop (at + length bytes) memory in
    let size : length copied ≡ length memory = omega (
      arith,
      length-append (take at memory ++ bytes) (drop (at + length bytes) memory),
      length-append (take at memory) bytes,
      length-take at memory,
      length-drop (at + length bytes) memory,
    ) in
    (
      set copied (at + length bytes) 0,
      ground (arith, h, size),
      length-set copied (at + length bytes) 0 ∙ size,
      take-set (at + length bytes) (at + length bytes) 0 copied (omega arith)
          ∙ take-append_all (at + length bytes) (take at memory ++ bytes)
              (drop (at + length bytes) memory)
              (omega (arith, length-append (take at memory) bytes, length-take at memory)),
      get_or-set copied (at + length bytes) (at + length bytes) 0 1 (omega (arith, size))
          ∙ ground arith,
    )

module _ (garbage : ℕ → List ℕ) (size : (n : ℕ) → length (garbage n) ≡ n) where
  -- The memory of a string that has room for so many more bytes
  abbrev Room : RoundString → ℕ → RoundString → Type 0
  Room str n grown =
      (memory : List ℕ) × (grown.value ≡ some memory)
      × (length memory ≡ grown.mem_size)
      × (str.value_size + n < length memory)
      × (take str.value_size memory ≡ text str)

  grow-Room : (str : RoundString) (n : ℕ) → IsString str → Room str n (grow garbage str n)
  unfolding grow realloc
  grow-Room str n h = elim (Option-cases str.value) [
    | inl e ↦
        let z = rw e at h in
        let new_size : ℕ = str.value_size + n + 1 + 16 in
        (
          garbage new_size,
          ground (arith, e),
          size new_size ∙ ground (arith, e),
          omega (arith, size new_size),
          rw (e, z.1) refl,
        )
    | inr (memory, e) ↦ elim (Bool-cases (ltb str.mem_size (str.value_size + n + 1))) [
      | inl b ↦
          let k = rw e at h in
          let new_size : ℕ = str.value_size + n + 1 + 16 in
          let more : List ℕ = garbage (new_size - length memory) in
          let total =
            length-append memory more
            ∙ ap (λ x. length memory + x) (size (new_size - length memory)) in
          let lt : str.mem_size < str.value_size + n + 1 = ground (arith, b) in
          let grown : (grow garbage str n).mem_size ≡ new_size = ground (arith, b) in
          (
            memory ++ more,
            ground (arith, e, b),
            total ∙ omega (arith, k.0, lt) ∙ sym grown,
            omega (arith, total),
            take-append_left str.value_size memory more (omega (arith, k.0, k.1)) ∙ rw e refl,
          )
      | inr b ↦
          let k = rw e at h in
          (
            memory,
            ground (arith, e, b),
            k.0 ∙ ground (arith, e, b),
            ground (arith, b, k.0),
            rw e refl,
          )
    ]
  ]

  -- Where realloc gives as many new bytes as it is asked for, naddvalue of some bytes to a string
  -- whose text and terminating 0 lie in its memory writes within the memory, leaves a string of
  -- that form, and its text is the old one with the bytes behind it.
  pub naddvalue-IsString :
      (str : RoundString) (bytes : List ℕ)
      → IsString str
      → (t : RoundString) × (naddvalue garbage str (some bytes) ≡ some t)
        × IsString t
        × (text t ≡ text str ++ bytes)
  unfolding naddvalue
  naddvalue-IsString str [] h = (str, refl, h, sym (append-nil (text str)))
  naddvalue-IsString str (c ∷ bytes) h =
      let grown : RoundString = grow garbage str (length (c ∷ bytes)) in
      let (memory, e, l, room, t) = grow-Room str (length (c ∷ bytes)) h in
      let (w, run, lw, tw, zw) = write_at_ends memory str.value_size (c ∷ bytes) room in
      (
        record grown { value = some w; value_size = str.value_size + length (c ∷ bytes) },
        ground (arith, e, run),
        (lw ∙ l, omega (arith, l, room), zw),
        tw ∙ ap (λ x. x ++ c ∷ bytes) t,
      )

  abbrev pub repeated : ℕ → List ℕ → List ℕ
  repeated zero bytes = []
  repeated (suc n) bytes = bytes ++ repeated n bytes

  -- naddrepvalue
  pub naddrepvalue-IsString :
      (n : ℕ) (str : RoundString) (bytes : List ℕ)
      → IsString str
      → (t : RoundString) × (naddrepvalue garbage n str (some bytes) ≡ some t)
        × IsString t
        × (text t ≡ text str ++ repeated n bytes)
  unfolding naddrepvalue
  naddrepvalue-IsString zero str bytes h = (str, refl, h, sym (append-nil (text str)))
  naddrepvalue-IsString (suc n) str bytes h =
      let (s, e, hs, ts) = naddvalue-IsString str bytes h in
      let (t, f, ht, tt') = naddrepvalue-IsString n s bytes hs in
      (
        t,
        ground (arith, e, f),
        ht,
        tt' ∙ ap (λ x. x ++ repeated n bytes) ts ∙ append_assoc (text str) bytes (repeated n bytes),
      )

  setnvalue-IsString :
      (str : RoundString) (bytes : List ℕ)
      → (t : RoundString) × (setnvalue garbage str (some bytes) ≡ some (t, true))
        × IsString t
        × (text t ≡ bytes)
  unfolding setnvalue realloc
  setnvalue-IsString str bytes =
      let (w, run, lw, tw, zw) =
        write_at_ends (garbage (length bytes + 1)) 0 bytes
          (omega (arith, size (length bytes + 1))) in
      (
        record { value = some w; mem_size = length bytes + 1; value_size = length bytes },
        ground (arith, run),
        (lw ∙ size (length bytes + 1), omega arith, ap (λ x. get_or w x 1) (omega arith) ∙ zw),
        ap (λ x. take x w) (omega arith) ∙ tw,
      )
