-- ===== src/Aggregation/Blob/Payload.antt =====
-- The payload of a blob, and the hashes that are read from it.
use mathlib.Core.Path.{fun_ext}
use mathlib.Core.List.{append_assoc}
use native.Mathlib.Nat.{zero-add}
use aligned_layer.Prelude.{
  ℕ, suc, ◌+◌, ◌%◌, ◌≤◌, ◌<◌, ◌≡◌, refl, ap, subst, ◌∙◌, inl, inr, arith, true, false, List, [],
  ◌∷◌, ◌++◌, ◌==◌, if◌then◌else◌, length, length-append, concat, Bool-cases, eq→eqb, ne→eqb,
}
use aligned_layer.Aggregation.Blob.{zeros, is_zero_hash, after_pad, decode_loop}

-- The bytes that are no padding.
abbrev pub payload : ℕ → List ℕ → List ℕ
payload count [] = []
payload count (b ∷ bs) =
    if count % 32 == 0 then payload (suc count) bs else b ∷ payload (suc count) bs

-- The hashes in a payload.
abbrev pub hashes : List ℕ → List ℕ → List (List ℕ)
hashes current_hash [] = []
hashes current_hash (b ∷ bs) = after_pad (λ hash. hashes hash bs) current_hash b false

-- A leaf: 32 bytes that are not all 0.
pub record IsLeaf (leaf : List ℕ) : Type 0 where
  pub size : length leaf ≡ 32
  pub nonzero : is_zero_hash leaf ≡ false

abbrev pub AllLeaves : List (List ℕ) → Type 0
AllLeaves [] = Unit
AllLeaves (x ∷ xs) = IsLeaf x × AllLeaves xs

pub decode_loop-hashes :
    (count : ℕ) (current_hash bs : List ℕ)
    → decode_loop count current_hash bs ≡ hashes current_hash (payload count bs)
unfolding decode_loop
decode_loop-hashes count current_hash [] = refl
decode_loop-hashes count current_hash (b ∷ bs) = elim (Bool-cases (count % 32 == 0)) [
  | inl pad ↦ rw pad (decode_loop-hashes (suc count) current_hash bs)
  | inr byte ↦ rw byte (
      ap (λ continue. after_pad continue current_hash b false)
        (fun_ext (λ hash. decode_loop-hashes (suc count) hash bs)))
]

pub payload-append :
    (count : ℕ) (xs ys : List ℕ)
    → payload count (xs ++ ys) ≡ payload count xs ++ payload (count + length xs) ys
payload-append count [] ys = ap (λ c. payload c ys) (omega arith)
payload-append count (x ∷ xs) ys =
    let shift : payload (suc count + length xs) ys ≡ payload (count + suc (length xs)) ys =
      ap (λ c. payload c ys) (omega arith) in
    elim (Bool-cases (count % 32 == 0)) [
      | inl pad ↦
          rw pad (payload-append (suc count) xs ys ∙ ap (λ z. payload (suc count) xs ++ z) shift)
      | inr byte ↦ rw byte (
          ap (λ z. x ∷ z)
            (payload-append (suc count) xs ys ∙ ap (λ z. payload (suc count) xs ++ z) shift))
    ]

-- A chunk after its padding.
payload_inside :
    (count : ℕ) (bs : List ℕ) → 0 < count % 32 → count % 32 + length bs ≤ 32 → payload count bs ≡ bs
payload_inside count [] low high = refl
payload_inside count (b ∷ []) low high =
    let byte : (count % 32 == 0) ≡ false = ground arith in rw byte refl
payload_inside count (b ∷ c ∷ bs) low high =
    let byte : (count % 32 == 0) ≡ false = ground arith in
    rw byte (ap (λ z. b ∷ z) (payload_inside (suc count) (c ∷ bs) (omega arith) (omega arith)))

pub payload-zeros : (count n : ℕ) → (k : ℕ) × (payload count (zeros n) ≡ zeros k)
payload-zeros count ℕ.zero = (0, refl)
payload-zeros count (suc n) =
    let (k, e) = payload-zeros (suc count) n in
    elim (Bool-cases (count % 32 == 0)) [
      | inl pad ↦ (k, rw pad e)
      | inr byte ↦ (suc k, rw byte (ap (λ z. 0 ∷ z) e))
    ]

pub length-zeros : (n : ℕ) → length (zeros n) ≡ n
length-zeros ℕ.zero = refl
length-zeros (suc n) = ap suc (length-zeros n)

zeros-snoc : (n : ℕ) → zeros n ++ 0 ∷ [] ≡ zeros (suc n)
zeros-snoc ℕ.zero = refl
zeros-snoc (suc n) = ap (λ z. 0 ∷ z) (zeros-snoc n)

is_zero_hash-zeros : (n : ℕ) → is_zero_hash (zeros n) ≡ true
is_zero_hash-zeros ℕ.zero = refl
is_zero_hash-zeros (suc n) = is_zero_hash-zeros n

-- A leaf at the front of the payload.
hashes-append :
    (current_hash bs rest : List ℕ)
    → 0 < length bs
    → length current_hash + length bs ≡ 32
    → is_zero_hash (current_hash ++ bs) ≡ false
    → hashes current_hash (bs ++ rest) ≡ (current_hash ++ bs) ∷ hashes [] rest
hashes-append current_hash [] rest some full nonzero = absurd (omega arith)
hashes-append current_hash (b ∷ []) rest some full nonzero =
    rw (eq→eqb (length current_hash + 1) 32 full) (rw nonzero refl)
hashes-append current_hash (b ∷ c ∷ bs) rest some full nonzero =
    let together : (current_hash ++ b ∷ []) ++ c ∷ bs ≡ current_hash ++ b ∷ c ∷ bs =
      append_assoc current_hash (b ∷ []) (c ∷ bs) in
    rw (ne→eqb (length current_hash + 1) 32 (λ e. omega arith)) (
      subst (λ hash. hashes (current_hash ++ b ∷ []) (c ∷ bs ++ rest) ≡ hash ∷ hashes [] rest)
        together
        (hashes-append (current_hash ++ b ∷ []) (c ∷ bs) rest (omega arith)
          (omega (arith, length-append current_hash (b ∷ [])))
          (ap is_zero_hash together ∙ nonzero)))

-- The end of the payload.
hashes-zeros : (j k : ℕ) → j < 32 → hashes (zeros j) (zeros k) ≡ []
hashes-zeros j ℕ.zero h = refl
hashes-zeros j (suc k) h =
    let grown : zeros j ++ 0 ∷ [] ≡ zeros (suc j) = zeros-snoc j in
    let zero : is_zero_hash (zeros j ++ 0 ∷ []) ≡ true =
      ap is_zero_hash grown ∙ is_zero_hash-zeros (suc j) in
    elim (Bool-cases (length (zeros j) + 1 == 32)) [
      | inl full ↦ rw full (rw zero refl)
      | inr short ↦ rw short (
          rw grown (
            hashes-zeros (suc j) k
              (let same : length (zeros j) ≡ j = length-zeros j in ground arith)))
    ]

pub hashes-leaves :
    (leaves : List (List ℕ)) (k : ℕ)
    → AllLeaves leaves
    → hashes [] (concat leaves ++ zeros k) ≡ leaves
hashes-leaves [] k h = hashes-zeros 0 k (omega arith)
hashes-leaves (x ∷ xs) k (leaf, rest) =
    ap (hashes []) (append_assoc x (concat xs) (zeros k))
    ∙ hashes-append [] x (concat xs ++ zeros k) (omega (arith, leaf.size))
        (omega (arith, leaf.size)) leaf.nonzero
    ∙ ap (λ ys. x ∷ ys) (hashes-leaves xs k rest)

-- The payload of what was written before, of a chunk after its padding, and of the rest.
pub payload-chunk :
    (pre chunk rest : List ℕ)
    → length pre % 32 ≡ 0
    → length chunk ≤ 31
    → payload 0 (pre ++ 0 ∷ (chunk ++ rest))
      ≡ payload 0 pre ++ (chunk ++ payload (suc (length pre) + length chunk) rest)
payload-chunk pre chunk rest aligned short =
    let pad : (length pre % 32 == 0) ≡ true = eq→eqb (length pre % 32) 0 aligned in
    payload-append 0 pre (0 ∷ (chunk ++ rest))
    ∙ ap (λ c. payload 0 pre ++ payload c (0 ∷ (chunk ++ rest))) (zero-add (length pre))
    ∙ ap (λ z. payload 0 pre ++ z)
        (rw pad (
          payload-append (suc (length pre)) chunk rest
          ∙ ap (λ z. z ++ payload (suc (length pre) + length chunk) rest)
              (payload_inside (suc (length pre)) chunk (omega arith) (omega arith))))
