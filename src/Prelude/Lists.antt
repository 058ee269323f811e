-- ===== src/Prelude/Lists.antt =====
-- Lists measured by native numbers. `total` adds up a measure over a list and `all` tests every
-- item; neither depends on the order of the list.
use Prim.Native.Nat.{ℕ, suc, ◌+◌}
use mathlib.Core.Path.{◌≡◌, refl, ap, ◌∙◌, fun_ext}
use mathlib.Core.Logic.{∥∥₁_elim}
use mathlib.Core.Logic.Or
use mathlib.Core.Logic.{inl, inr}
use mathlib.Core.List.Perm
use mathlib.Core.Bool.{Bool, true, ◌&&◌, Bool-set}
use mathlib.Core.List.{List, [], ◌∷◌, ◌++◌, map, Perm, Permᴰ, Mem, mem-cons, not-mem-nil}
use mathlib.Core.Option.{Option, none, some}
use native.Mathlib.Nat.{ℕ_set}
use native.Mathlib.Omega.{arith}
use aligned_layer.Prelude.Tests.{if◌then◌else◌, and_both, Bool-cases}

module _ {ℓ} {A : Type ℓ} where
  abbrev pub length : List A → ℕ
  length [] = 0
  length (x ∷ xs) = suc (length xs)

  abbrev pub total : (A → ℕ) → List A → ℕ
  total f [] = 0
  total f (x ∷ xs) = f x + total f xs

  abbrev pub all : (A → Bool) → List A → Bool
  all p [] = true
  all p (x ∷ xs) = p x && all p xs

  abbrev pub get_elem? : List A → ℕ → Option A
  get_elem? [] i = none
  get_elem? (x ∷ xs) ℕ.zero = some x
  get_elem? (x ∷ xs) (suc i) = get_elem? xs i

  -- The first item that passes the test.
  abbrev pub find : (A → Bool) → List A → Option A
  find p [] = none
  find p (x ∷ xs) = if p x then some x else find p xs

  -- The list without the first item that passes the test.
  abbrev pub erase_first : (A → Bool) → List A → List A
  erase_first p [] = []
  erase_first p (x ∷ xs) = if p x then xs else x ∷ erase_first p xs

  -- The list with the first item that passes the test changed.
  abbrev pub update_first : (A → Bool) → (A → A) → List A → List A
  update_first p g [] = []
  update_first p g (x ∷ xs) = if p x then g x ∷ xs else x ∷ update_first p g xs

  -- The items that pass the test.
  abbrev pub keep : (A → Bool) → List A → List A
  keep p [] = []
  keep p (x ∷ xs) = if p x then x ∷ keep p xs else keep p xs

  pub total-append : (f : A → ℕ) (xs ys : List A) → total f (xs ++ ys) ≡ total f xs + total f ys
  total-append f [] ys = omega arith
  total-append f (x ∷ xs) ys = omega (arith, total-append f xs ys)

  pub length-append : (xs ys : List A) → length (xs ++ ys) ≡ length xs + length ys
  length-append [] ys = omega arith
  length-append (x ∷ xs) ys = omega (arith, length-append xs ys)

  pub all_right : (p : A → Bool) (xs ys : List A) → all p (xs ++ ys) ≡ true → all p ys ≡ true
  all_right p [] ys h = h
  all_right p (x ∷ xs) ys h = all_right p xs ys (and_both (p x) _ h).1

  total-permᴰ : (f : A → ℕ) {xs ys : List A} → Permᴰ xs ys → total f xs ≡ total f ys
  total-permᴰ f Permᴰ.nil = refl
  total-permᴰ f (Permᴰ.cons e p) = omega (arith, ap f e, total-permᴰ f p)
  total-permᴰ f (Permᴰ.swap e d) = omega (arith, ap f e, ap f d)
  total-permᴰ f (Permᴰ.trans p q) = total-permᴰ f p ∙ total-permᴰ f q

  pub total-perm : (f : A → ℕ) {xs ys : List A} → Perm xs ys → total f xs ≡ total f ys
  total-perm f p = ∥∥₁_elim p (ℕ_set _ _) (total-permᴰ f)

  length-total : (xs : List A) → length xs ≡ total (λ _. 1) xs
  length-total [] = refl
  length-total (x ∷ xs) = omega (arith, length-total xs)

  pub length-perm : {xs ys : List A} → Perm xs ys → length xs ≡ length ys
  length-perm {xs} {ys} p = omega (arith, length-total xs, length-total ys, total-perm (λ _. 1) p)

  all-permᴰ : (f : A → Bool) {xs ys : List A} → Permᴰ xs ys → all f xs ≡ all f ys
  all-permᴰ f Permᴰ.nil = refl
  all-permᴰ f (Permᴰ.cons e p) = ground (arith, ap f e, all-permᴰ f p)
  all-permᴰ f (Permᴰ.swap e d) = ground (arith, ap f e, ap f d)
  all-permᴰ f (Permᴰ.trans p q) = all-permᴰ f p ∙ all-permᴰ f q

  pub all-perm : (f : A → Bool) {xs ys : List A} → Perm xs ys → all f xs ≡ all f ys
  all-perm f p = ∥∥₁_elim p (Bool-set _ _) (all-permᴰ f)

  -- What `find` finds is what `erase_first` takes away.
  pub total-erase_first :
      (f : A → ℕ) (p : A → Bool) (x : A) (xs : List A)
      → find p xs ≡ some x
      → total f xs ≡ f x + total f (erase_first p xs)
  total-erase_first f p x [] e = cc
  total-erase_first f p x (y ∷ ys) e = ground (arith, total-erase_first f p x ys)

  pub find_holds : (p : A → Bool) (x : A) (xs : List A) → find p xs ≡ some x → p x ≡ true
  find_holds p x [] e = cc
  find_holds p x (y ∷ ys) e = ground (arith, find_holds p x ys)

  -- Nothing is found exactly if no item passes the test.
  pub find-total_zero :
      (p : A → Bool) (xs : List A) → total (λ x. if p x then 1 else 0) xs ≡ 0 → find p xs ≡ none
  find-total_zero p [] e = refl
  find-total_zero p (y ∷ ys) e = ground (arith, find-total_zero p ys)

  pub total_zero-find :
      (p : A → Bool) (xs : List A) → find p xs ≡ none → total (λ x. if p x then 1 else 0) xs ≡ 0
  total_zero-find p [] e = refl
  total_zero-find p (y ∷ ys) e = ground (arith, total_zero-find p ys)

module _ {ℓ κ} {A : Type ℓ} {B : Type κ} (g : A → B) where
  pub length-map : (xs : List A) → length (map g xs) ≡ length xs
  length-map [] = refl
  length-map (x ∷ xs) = ap suc (length-map xs)

  pub total-map : (f : B → ℕ) (xs : List A) → total f (map g xs) ≡ total (λ x. f (g x)) xs
  total-map f [] = refl
  total-map f (x ∷ xs) = omega (arith, total-map f xs)

  pub all-map : (f : B → Bool) (xs : List A) → all f (map g xs) ≡ all (λ x. f (g x)) xs
  all-map f [] = refl
  all-map f (x ∷ xs) = ap (λ b. f (g x) && b) (all-map f xs)

-- What holds of all items holds of each.
pub all_at {ℓ} :
    {A : Type ℓ} (p : A → Bool) (x : A) (xs : List A) → all p xs ≡ true → Mem x xs → p x ≡ true
all_at p x [] h m = absurd (not-mem-nil m)
all_at p x (y ∷ ys) h m =
    Or.elim (Bool-set _ _) (mem-cons.0 m) (λ e. rw e (and_both _ _ h).0)
      (all_at p x ys (and_both _ _ h).1)

module _ {ℓ} {A : Type ℓ} where
  -- The found item can be moved to the front.
  pub erase_first-perm :
      (p : A → Bool) (x : A) (xs : List A) → find p xs ≡ some x → Perm xs (x ∷ erase_first p xs)
  erase_first-perm p x [] e = cc
  erase_first-perm p x (y ∷ ys) e = elim (Bool-cases (p y)) [
    | inl hit ↦ rw hit (Perm.cons' (let f : some y ≡ some x = rw hit at e in cc) Perm.rfl)
    | inr miss ↦ rw miss (
        Perm.trans (Perm.cons y (erase_first-perm p x ys (rw miss at e)))
          (Perm.swap x y (erase_first p ys)))
  ]

  -- Tests that agree find the same.
  pub find-same : (p q : A → Bool) (xs : List A) → ((x : A) → p x ≡ q x) → find p xs ≡ find q xs
  find-same p q xs h = ap (λ t. find t xs) (fun_ext h)
