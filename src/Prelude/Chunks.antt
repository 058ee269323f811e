-- ===== src/Prelude/Chunks.antt =====
-- `slice::chunks`, and what its chunks are.
use Prim.Native.Nat.{ℕ, suc, ◌≤◌, ◌<◌}
use mathlib.Core.Path.{◌≡◌, refl, ap, subst}
use mathlib.Core.List.{List, [], ◌∷◌, ◌++◌, append-nil}
use mathlib.Core.Logic.{inl, inr}
use native.Mathlib.Omega.{arith}
use aligned_layer.Prelude.Tests.{leb, Bool-cases}
use aligned_layer.Prelude.Lists.{length, length-append}

module _ {ℓ} {A : Type ℓ} where
  abbrev pub take : ℕ → List A → List A
  take n [] = []
  take ℕ.zero (x ∷ xs) = []
  take (suc n) (x ∷ xs) = x ∷ take n xs

  abbrev pub drop : ℕ → List A → List A
  drop n [] = []
  drop ℕ.zero (x ∷ xs) = x ∷ xs
  drop (suc n) (x ∷ xs) = drop n xs

  abbrev pub concat : List (List A) → List A
  concat [] = []
  concat (xs ∷ xss) = xs ++ concat xss

  -- The first number bounds how many chunks there are.
  abbrev pub chunks_on : ℕ → ℕ → List A → List (List A)
  chunks_on fuel size [] = []
  chunks_on ℕ.zero size (x ∷ xs) = []
  chunks_on (suc fuel) size (x ∷ xs) = take size (x ∷ xs) ∷ chunks_on fuel size (drop size (x ∷ xs))

  -- `slice::chunks` of a size that is not 0.
  abbrev pub chunks : ℕ → List A → List (List A)
  chunks size xs = chunks_on (length xs) size xs

  -- All chunks have the size, but for the last, which is not longer and not empty.
  pub data Chunked (size : ℕ) : List A → List (List A) → Type ℓ where
    no_chunk : Chunked size [] []
    last_chunk :
        (x : A) (xs : List A) → suc (length xs) ≤ size → Chunked size (x ∷ xs) ((x ∷ xs) ∷ [])
    full_chunk :
        (xs rest : List A) (xss : List (List A))
        → length xs ≡ size
        → Chunked size rest xss
        → Chunked size (xs ++ rest) (xs ∷ xss)

  pub take-drop : (n : ℕ) (xs : List A) → take n xs ++ drop n xs ≡ xs
  take-drop n [] = refl
  take-drop ℕ.zero (x ∷ xs) = refl
  take-drop (suc n) (x ∷ xs) = ap (λ ys. x ∷ ys) (take-drop n xs)

  pub take_all : (n : ℕ) (xs : List A) → length xs ≤ n → take n xs ≡ xs
  take_all n [] h = refl
  take_all ℕ.zero (x ∷ xs) h = absurd (omega arith)
  take_all (suc n) (x ∷ xs) h = ap (λ ys. x ∷ ys) (take_all n xs (omega arith))

  drop_all : (n : ℕ) (xs : List A) → length xs ≤ n → drop n xs ≡ []
  drop_all n [] h = refl
  drop_all ℕ.zero (x ∷ xs) h = absurd (omega arith)
  drop_all (suc n) (x ∷ xs) h = drop_all n xs (omega arith)

  length-take : (n : ℕ) (xs : List A) → n ≤ length xs → length (take n xs) ≡ n
  length-take n [] h = omega arith
  length-take ℕ.zero (x ∷ xs) h = refl
  length-take (suc n) (x ∷ xs) h = ap suc (length-take n xs (omega arith))

  pub chunks_on-Chunked :
      (fuel size : ℕ) (xs : List A)
      → 0 < size
      → length xs ≤ fuel
      → Chunked size xs (chunks_on fuel size xs)
  chunks_on-Chunked fuel size [] s h = no_chunk
  chunks_on-Chunked ℕ.zero size (x ∷ xs) s h = absurd (omega arith)
  chunks_on-Chunked (suc fuel) size (x ∷ xs) s h = elim (Bool-cases (leb (suc (length xs)) size)) [
    | inl short ↦
        rw (take_all size (x ∷ xs) (ground arith))
          (rw (drop_all size (x ∷ xs) (ground arith)) (last_chunk x xs (ground arith)))
    | inr long ↦
        let full : length (take size (x ∷ xs)) ≡ size = length-take size (x ∷ xs) (ground arith) in
        let parted : take size (x ∷ xs) ++ drop size (x ∷ xs) ≡ x ∷ xs = take-drop size (x ∷ xs) in
        subst
          (λ ys. Chunked size ys (take size (x ∷ xs) ∷ chunks_on fuel size (drop size (x ∷ xs))))
          parted
          (full_chunk _ _ _ full (
            chunks_on-Chunked fuel size (drop size (x ∷ xs)) s (
              omega (
                arith,
                ap length parted,
                length-append (take size (x ∷ xs)) (drop size (x ∷ xs)),
              ))))
  ]

  pub concat-Chunked :
      {size : ℕ} {xs : List A} {xss : List (List A)} → Chunked size xs xss → concat xss ≡ xs
  concat-Chunked no_chunk = refl
  concat-Chunked (last_chunk x xs _) = append-nil (x ∷ xs)
  concat-Chunked (full_chunk xs rest xss _ c) = ap (λ ys. xs ++ ys) (concat-Chunked c)
