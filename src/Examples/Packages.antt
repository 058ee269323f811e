-- ===== src/Examples/Packages.antt =====
-- The packages of the examples: a loop of attempts, and a tree that is the list of its leaves.
use aligned_layer.Prelude.{
  ℕ, suc, ◌+◌, ◌≤◌, ◌<◌, ◌≡◌, refl, sym, ap, subst, ◌∙◌, inl, inr, Bool, true, false, ◌&&◌, Option,
  none, some, List, [], ◌∷◌, ◌++◌, map, arith, ltb, ◌==◌, if◌then◌else◌, Result, ok, err, length,
  get_elem?, Bool-cases, eq_self, lt→ltb, eqb→eq, eqb→ne,
}
use aligned_layer.Sdk.Merkle.{BatchTree, MerkleTree, hash_data, hash_new_parent}
use aligned_layer.Batcher.Retry.{Backon, IsLast}

module _ {A E : Type 0} (function : ℕ → Result A E) (when : E → Bool) where
  -- The result of the attempt `i`, with `left` retries.
  abbrev attempt : Result A E → ℕ → ℕ → Result A E
  attempt (ok a) left i = ok a
  attempt (err e) ℕ.zero i = err e
  attempt (err e) (suc left) i = if when e then attempt (function (suc i)) left (suc i) else err e

  abbrev Before : ℕ → Type 0
  Before n = (i : ℕ) → i < n → (e : E) × (function i ≡ err e) × (when e ≡ true)

  abbrev Settles : ℕ → Result A E → Type 0
  Settles max_times r =
      (n : ℕ) × (n ≤ max_times) × (r ≡ function n) × IsLast when max_times n (function n) × Before n

  pub attempt_lem :
      (max_times : ℕ) (r : Result A E) (left i : ℕ)
      → function i ≡ r
      → i + left ≡ max_times
      → Before i
      → Settles max_times (attempt r left i)
  attempt_lem max_times (ok a) left i e n before =
      (i, omega arith, sym e, subst (IsLast when max_times i) (sym e) tt, before)
  attempt_lem max_times (err x) ℕ.zero i e n before =
      (i, omega arith, sym e, subst (IsLast when max_times i) (sym e) (inr (omega arith)), before)
  attempt_lem max_times (err x) (suc left) i e n before = elim (Bool-cases (when x)) [
    | inr permanent ↦
        rw permanent
          (i, omega arith, sym e, subst (IsLast when max_times i) (sym e) (inl permanent), before)
    | inl again ↦ rw again (
        attempt_lem max_times (function (suc i)) left (suc i) refl (omega arith) (λ j below.
          elim (Bool-cases (j == i)) [
            | inl here ↦ (x, ap function (eqb→eq j i here) ∙ e, again)
            | inr earlier ↦ before j (let other = eqb→ne j i earlier in omega arith)
          ]))
  ]

abbrev pub backon_loop : Backon
backon_loop = record {
  retry = λ function max_times when. attempt function when (function 0) max_times 0;
  retry_lem = λ function max_times when.
      attempt_lem function when max_times (function 0) max_times 0 refl (omega arith)
        (λ i below. absurd (omega arith));
}

-- Equality of lists of numbers, and of lists of them.
abbrev same_list : List ℕ → List ℕ → Bool
same_list [] [] = true
same_list (x ∷ xs) (y ∷ ys) = x == y && same_list xs ys
same_list _ _ = false

same_list_self : (xs : List ℕ) → same_list xs xs ≡ true
same_list_self [] = refl
same_list_self (x ∷ xs) = rw (eq_self x) (same_list_self xs)

abbrev concatenated : List (List ℕ) → List ℕ
concatenated [] = []
concatenated (xs ∷ xss) = xs ++ concatenated xss

module _ {Data : Type 0} (hash : Data → List ℕ) (parent : List ℕ → List ℕ → List ℕ) where
  -- The leaf at the place is the one that is asked for.
  abbrev is_at : Data → Option (List ℕ) → Bool
  is_at x none = false
  is_at x (some leaf) = same_list (hash x) leaf

  abbrev build : List Data → Option (List Data)
  build [] = none
  build (x ∷ xs) = some (x ∷ xs)

  get_elem?-map :
      (xs : List Data) (i : ℕ) (x : Data)
      → get_elem? xs i ≡ some x
      → get_elem? (map hash xs) i ≡ some (hash x)
  get_elem?-map [] i x e = cc
  get_elem?-map (y ∷ xs) ℕ.zero x e = ap (λ o. elim o [ none ↦ none | some z ↦ some (hash z) ]) e
  get_elem?-map (y ∷ xs) (suc i) x e = get_elem?-map xs i x e

  build-eq : (xs t : List Data) → build xs ≡ some t → xs ≡ t
  build-eq [] t e = cc
  build-eq (x ∷ xs) t e = cc

  abbrev proof_at : List Data → ℕ → Option (List (List ℕ))
  proof_at t i = if ltb i (length t) then some (map hash t) else none

  abbrev is_proof : List (List ℕ) → List ℕ → ℕ → Data → Bool
  is_proof p r i x = same_list (concatenated p) r && is_at x (get_elem? p i)

  pub proof_at-some :
      (xs t : List Data) (i : ℕ)
      → build xs ≡ some t
      → i < length xs
      → (p : List (List ℕ)) × (proof_at t i ≡ some p)
  proof_at-some xs t i built inside =
      let here : i < length t = subst (λ ys. i < length ys) (build-eq xs t built) inside in
      (map hash t, rw (lt→ltb i (length t) here) refl)

  taken_proof : (b : Bool) (q p : List (List ℕ)) → (if b then some q else none) ≡ some p → q ≡ p
  taken_proof true q p e = cc
  taken_proof false q p e = cc

  pub is_proof-proof_at :
      (xs t : List Data) (i : ℕ) (x : Data) (p : List (List ℕ))
      → build xs ≡ some t
      → get_elem? xs i ≡ some x
      → proof_at t i ≡ some p
      → is_proof p (concatenated (map hash t)) i x ≡ true
  is_proof-proof_at xs t i x p built at found =
      let here : get_elem? t i ≡ some x =
        subst (λ ys. get_elem? ys i ≡ some x) (build-eq xs t built) at in
      subst (λ q. is_proof q (concatenated (map hash t)) i x ≡ true)
        (taken_proof (ltb i (length t)) (map hash t) p found)
        (rw (same_list_self (concatenated (map hash t)))
          (ap (is_at x) (get_elem?-map t i x here) ∙ same_list_self (hash x)))

  -- The root is made of all leaves, and so is each proof.
  abbrev pub leaves_tree : MerkleTree hash parent
  leaves_tree = record {
    Tree = List Data;
    build = build;
    root = λ t. concatenated (map hash t);
    get_proof_by_pos = proof_at;
    verify = is_proof;
    build_none = refl;
    build_some = λ x xs. (x ∷ xs, refl);
    proof_some = proof_at-some;
    verify_proof = is_proof-proof_at;
  }

abbrev pub batch_tree : BatchTree (λ bytes. bytes)
batch_tree = leaves_tree (hash_data (λ bytes. bytes)) (hash_new_parent (λ bytes. bytes))
