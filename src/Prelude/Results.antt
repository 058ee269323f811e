-- ===== src/Prelude/Results.antt =====
-- What holds of the result of a run, by the forms that runs are made of.
use mathlib.Core.Path.{◌≡◌, refl, subst}
use aligned_layer.Prelude.Outcome.{Run, done, ◌>>=◌, done-injective}
use aligned_layer.Prelude.Tests.{if◌then◌else◌}
use mathlib.Core.Option.{Option, none, some}
use mathlib.Core.Bool.{Bool, true, false}

-- `Q` of what a run returns, if it returns.
module _ {A : Type 0} (Q : A → Type 0) where
  pub record Returns (m : Run A) : Type 0 where
    pub holds : (a : A) → m ≡ done a → Q a

  pub done-Returns : (a : A) → Q a → Returns (done a)
  done-Returns a h = record { holds = λ b e. subst Q (done-injective e) h }

  pub if-Returns :
      (v : Bool) (x y : Run A)
      → (v ≡ true → Returns x)
      → (v ≡ false → Returns y)
      → Returns (if v then x else y)
  if-Returns true x y h k = h refl
  if-Returns false x y h k = k refl

  pub option-Returns :
      {B : Type 0} (o : Option B) (x : Run A) (f : B → Run A)
      → (o ≡ none → Returns x)
      → ((a : B) → o ≡ some a → Returns (f a))
      → Returns (elim o [ none ↦ x | some a ↦ f a ])
  option-Returns none x f h k = h refl
  option-Returns (some a) x f h k = k a refl

  pub >>=-Returns :
      {B : Type 0} (m : Run B) (f : B → Run A)
      → ((a : B) → m ≡ done a → Returns (f a))
      → Returns (m >>= f)
  >>=-Returns (done a) f h = h a refl
  >>=-Returns Run.panic f h = record { holds = λ a e. cc }
  >>=-Returns Run.deadlock f h = record { holds = λ a e. cc }
