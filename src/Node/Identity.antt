-- ===== src/Node/Identity.antt =====
-- The identifiers of nodes: `round_node_updateid` of src/round/node.c, which cuts the text of the
-- address and the port to 31 bytes and takes its digest.
use round.Common.{
  ℕ, zero, suc, ◌+◌, ◌-◌, ◌*◌, ◌/◌, ◌%◌, ◌^◌, ◌<◌, ◌≤◌, ◌≡◌, ◌≢◌, refl, sym, ap, subst, ◌∙◌, ◌⊎◌,
  inl, inr, none, some, List, [], ◌∷◌, ◌++◌, ltb, arith, Bool-cases, length, take, All, All-append,
  All-map, if◌then◌else◌, ◌==◌,
}
use mathlib.Core.List.{append_assoc, append-nil}
use round.Common.Int.{ℤ, pos, negsuc}
use round.Text.Buffer.Contents.{take-append_left}
use round.RpcError.{IsInt}
use round.Node.{
  RoundNode, NodeCall, address, clustername, requesttimeout, node_init, node_call, node_calls,
  setaddress, setport, setclustername, setrequesttimeout, updateid, gethashcode, digits_from,
  print_int, full_seed, seed,
}
use round.Node

abbrev IsDigit : ℕ → Type 0
IsDigit c = (48 ≤ c) × (c < 58)

-- The number that decimal digits stand for, behind a number that is read already.
value : ℕ → List ℕ → ℕ
value acc [] = acc
value acc (d ∷ ds) = value (acc * 10 + (d - 48)) ds

value-append : (acc d : ℕ) (ds : List ℕ) → value acc (ds ++ d ∷ []) ≡ value acc ds * 10 + (d - 48)
unfolding value
value-append acc d [] = refl
value-append acc d (x ∷ ds) = value-append (acc * 10 + (x - 48)) d ds

-- So many digits hold the number.
abbrev Fits : ℕ → ℕ → Type 0
Fits zero n = n < 1
Fits (suc f) n = Fits f (n / 10)

digits_from_lem :
    (f n : ℕ) (text : List ℕ)
    → Fits (suc f) n
    → (ds : List ℕ) × (digits_from (suc f) n text ≡ ds ++ text) × All IsDigit ds × (value 0 ds ≡ n)
unfolding digits_from value
digits_from_lem zero n text h = elim (Bool-cases (ltb n 10)) [
  | inl e ↦ ((48 + n) ∷ [], rw e refl, ((omega arith, ground (arith, e)), tt), omega arith)
  | inr e ↦ absurd (ground (arith, e, h))
]
digits_from_lem (suc f) n text h = elim (Bool-cases (ltb n 10)) [
  | inl e ↦ ((48 + n) ∷ [], rw e refl, ((omega arith, ground (arith, e)), tt), omega arith)
  | inr e ↦
      let d : ℕ = 48 + n % 10 in
      let (ds, eq, digits, v) = digits_from_lem f (n / 10) (d ∷ text) h in
      (
        ds ++ d ∷ [],
        rw e (eq ∙ sym (append_assoc ds (d ∷ []) text)),
        All-append IsDigit ds (d ∷ []) digits ((omega arith, omega arith), tt),
        omega (arith, v, value-append 0 d ds),
      )
]

digits_of :
    (n : ℕ)
    → n < 2 ^ 32
    → (ds : List ℕ) × (digits_from 10 n [] ≡ ds) × All IsDigit ds × (value 0 ds ≡ n)
digits_of n h =
    let (ds, eq, digits, v) = digits_from_lem 9 n [] (omega arith) in
    (ds, eq ∙ append-nil ds, digits, v)

-- The number that the text of an int stands for.
read_int : List ℕ → ℤ
read_int [] = pos 0
read_int (c ∷ ds) = if c == b'-' then negsuc (value 0 ds - 1) else pos (value 0 (c ∷ ds))

read_int-digits : (ds : List ℕ) → All IsDigit ds → read_int ds ≡ pos (value 0 ds)
unfolding read_int value
read_int-digits [] h = refl
read_int-digits (c ∷ ds) h = ground (arith, h.0)

negative : (ds : List ℕ) (n : ℕ) → value 0 ds ≡ suc n → read_int (b'-' ∷ ds) ≡ negsuc n
unfolding read_int
negative ds n v = ap negsuc (omega (arith, v))

read_int-print_int : (i : ℤ) → IsInt i → read_int (print_int i) ≡ i
unfolding print_int
read_int-print_int (pos n) h =
    let (ds, eq, digits, v) = digits_of n (omega arith) in
    rw eq (read_int-digits ds digits ∙ ap pos v)
read_int-print_int (negsuc n) h =
    let (ds, eq, digits, v) = digits_of (suc n) (omega arith) in rw eq (negative ds n v)

print_int_inj : (i j : ℤ) → IsInt i → IsInt j → print_int i ≡ print_int j → i ≡ j
print_int_inj i j hi hj e = sym (read_int-print_int i hi) ∙ ap read_int e ∙ read_int-print_int j hj

-- No colon stands in the text of an int.
print_int-colon : (i : ℤ) → IsInt i → All (λ c. c ≢ b':') (print_int i)
unfolding print_int
print_int-colon (pos n) h =
    let (ds, eq, digits, v) = digits_of n (omega arith) in
    rw eq (All-map ds (λ c d. omega arith) digits)
print_int-colon (negsuc n) h =
    let (ds, eq, digits, v) = digits_of (suc n) (omega arith) in
    rw eq (omega arith, All-map ds (λ c d. omega arith) digits)

All-middle {ℓ} : (P : ℕ → Type ℓ) (xs ys : List ℕ) (c : ℕ) → All P (xs ++ c ∷ ys) → P c
All-middle P [] ys c h = h.0
All-middle P (x ∷ xs) ys c h = All-middle P xs ys c h.1

-- A text is cut at its last separator in one way only.
cut_inj :
    (c : ℕ) (xs ys xs' ys' : List ℕ)
    → All (λ d. d ≢ c) ys
    → All (λ d. d ≢ c) ys'
    → xs ++ c ∷ ys ≡ xs' ++ c ∷ ys'
    → (xs ≡ xs') × (ys ≡ ys')
cut_inj c [] ys [] ys' h h' e = (refl, cc)
cut_inj c [] ys (x ∷ xs') ys' h h' e =
    let t : ys ≡ xs' ++ c ∷ ys' = cc in
    absurd (All-middle (λ d. d ≢ c) xs' ys' c (subst (All (λ d. d ≢ c)) t h) refl)
cut_inj c (x ∷ xs) ys [] ys' h h' e =
    let t : ys' ≡ xs ++ c ∷ ys = cc in
    absurd (All-middle (λ d. d ≢ c) xs ys c (subst (All (λ d. d ≢ c)) t h') refl)
cut_inj c (x ∷ xs) ys (x' ∷ xs') ys' h h' e =
    let t : xs ++ c ∷ ys ≡ xs' ++ c ∷ ys' = cc in
    let u : x ≡ x' = cc in
    let (p, q) = cut_inj c xs ys xs' ys' h h' t in (ap (λ l. x ∷ l) p ∙ ap (λ y. y ∷ xs') u, q)

take-all : (n : ℕ) (xs : List ℕ) → length xs ≤ n → take n xs ≡ xs
take-all zero [] h = refl
take-all zero (x ∷ xs) h = absurd (omega arith)
take-all (suc n) [] h = refl
take-all (suc n) (x ∷ xs) h = ap (λ l. x ∷ l) (take-all n xs (omega arith))

module _ (digest_func : List ℕ → List ℕ) (null_text : List ℕ) where
  -- Where the digests of the texts of two nodes differ unless the texts are equal, and the
  -- addresses with their 32-bit ports are printed in 31 bytes at most, two nodes that updateid
  -- gives the same identifier have the same address and the same port.
  pub updateid_inj :
      (node1 node2 : RoundNode) (a1 a2 : List ℕ)
      → node1.addr ≡ some a1
      → node2.addr ≡ some a2
      → IsInt node1.port
      → IsInt node2.port
      → length (full_seed null_text node1.addr node1.port) ≤ 31
      → length (full_seed null_text node2.addr node2.port) ≤ 31
      → (digest_func (seed null_text node1.addr node1.port)
            ≡ digest_func (seed null_text node2.addr node2.port)
          → seed null_text node1.addr node1.port ≡ seed null_text node2.addr node2.port)
      → gethashcode (updateid digest_func null_text node1).0
        ≡ gethashcode (updateid digest_func null_text node2).0
      → (a1 ≡ a2) × (node1.port ≡ node2.port)
  unfolding gethashcode updateid
  updateid_inj node1 node2 a1 a2 e1 e2 i1 i2 l1 l2 collide h =
      let s : seed null_text node1.addr node1.port ≡ seed null_text node2.addr node2.port =
        collide (cc) in
      let t : full_seed null_text node1.addr node1.port
          ≡ full_seed null_text node2.addr node2.port =
        sym (take-all 31 _ l1) ∙ (unfold seed in s) ∙ take-all 31 _ l2 in
      let u : a1 ++ b':' ∷ print_int node1.port ≡ a2 ++ b':' ∷ print_int node2.port =
        unfold full_seed in rw (e1, e2) at t in
      let (p, q) =
        cut_inj b':' a1 (print_int node1.port) a2 (print_int node2.port)
          (print_int-colon node1.port i1) (print_int-colon node2.port i2) u in
      (p, print_int_inj node1.port node2.port i1 i2 q)

  -- Two nodes whose texts agree in the first 31 bytes have the same identifier.
  pub updateid_cut :
      (node1 node2 : RoundNode) (a1 a2 : List ℕ)
      → node1.addr ≡ some a1
      → node2.addr ≡ some a2
      → 31 ≤ length a1
      → 31 ≤ length a2
      → take 31 a1 ≡ take 31 a2
      → gethashcode (updateid digest_func null_text node1).0
        ≡ gethashcode (updateid digest_func null_text node2).0
  unfolding gethashcode updateid seed full_seed
  updateid_cut node1 node2 a1 a2 e1 e2 l1 l2 e =
      rw (e1, e2)
        (ap (λ s. some (digest_func s))
          (take-append_left 31 a1 (b':' ∷ print_int node1.port) l1
            ∙ e
            ∙ sym (take-append_left 31 a2 (b':' ∷ print_int node2.port) l2)))

  -- A node with no identifier yet, or with that of its address and its port.
  abbrev pub HasId : RoundNode → Type 0
  HasId node =
      ((node.digest ≡ none) × (node.addr ≡ none) × (node.port ≡ pos 0))
      ⊎ (node.digest ≡ some (digest_func (seed null_text node.addr node.port)))

  node_call-HasId :
      (node : RoundNode) (c : NodeCall)
      → HasId node
      → HasId (node_call digest_func null_text node c)
  unfolding node_call updateid
  node_call-HasId node (address none) h = h
  node_call-HasId node (address (some addr)) h = inr refl
  node_call-HasId node (Node.port value) h = inr refl
  node_call-HasId node (clustername none) h = h
  node_call-HasId node (clustername (some name)) h = h
  node_call-HasId node (requesttimeout value) h = h

  -- Every sequence of the setters of a node leaves it with the identifier of its address and its
  -- port, or new with neither of them, where it was so before.
  pub node_calls-HasId :
      (node : RoundNode) (calls : List NodeCall)
      → HasId node
      → HasId (node_calls digest_func null_text node calls)
  unfolding node_calls
  node_calls-HasId node [] h = h
  node_calls-HasId node (c ∷ calls) h =
      node_calls-HasId (node_call digest_func null_text node c) calls (node_call-HasId node c h)
