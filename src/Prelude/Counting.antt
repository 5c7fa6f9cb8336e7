-- ===== src/Prelude/Counting.antt =====
-- How many elements of a list pass a test.
use Prim.Native.Nat.{ℕ, zero, suc, ◌+◌, ◌≤◌}
use mathlib.Core.Path.{◌≡◌, refl, ap}
use mathlib.Core.Bool.{Bool, true, false}
use mathlib.Core.List.{List, [], ◌∷◌, ◌++◌, map}
use native.Mathlib.Omega.{arith}
use backupeer.Prelude.Lists.{length, take, filter, any}

module _ {ℓ} {A : Type ℓ} where
  abbrev pub number : (A → Bool) → List A → ℕ
  number p xs = length (filter p xs)

  pub number-filter : (p q : A → Bool) (xs : List A) → number p (filter q xs) ≤ number p xs
  number-filter p q [] = omega arith
  number-filter p q (x ∷ xs) = let ih = number-filter p q xs in ground (arith, ih)

  pub number-append :
      (p : A → Bool) (xs ys : List A) → number p (xs ++ ys) ≡ number p xs + number p ys
  number-append p [] ys = omega arith
  number-append p (x ∷ xs) ys = let ih = number-append p xs ys in ground (arith, ih)

  pub any_none : (p : A → Bool) (xs : List A) → number p xs ≡ 0 → any p xs ≡ false
  any_none p [] h = refl
  any_none p (x ∷ xs) h = let ih = any_none p xs in ground (arith, ih)

  pub number-map :
      (p : A → Bool) (f : A → A) (same : (x : A) → p (f x) ≡ p x) (xs : List A)
      → number p (map f xs) ≡ number p xs
  number-map p f same [] = refl
  number-map p f same (x ∷ xs) =
      let ih = number-map p f same xs in let e = same x in ground (arith, ih, e)

  pub any-map :
      (p : A → Bool) (f : A → A) (same : (x : A) → p (f x) ≡ p x) (xs : List A)
      → any p (map f xs) ≡ any p xs
  any-map p f same [] = refl
  any-map p f same (x ∷ xs) =
      let ih = any-map p f same xs in let e = same x in ground (arith, ih, e)

  pub number_all : (xs : List A) → number (λ _. true) xs ≡ length xs
  number_all [] = refl
  number_all (x ∷ xs) = ap suc (number_all xs)

  pub length-map : (f : A → A) (xs : List A) → length (map f xs) ≡ length xs
  length-map f [] = refl
  length-map f (x ∷ xs) = ap suc (length-map f xs)

  pub take_all : (n : ℕ) (xs : List A) → length xs ≤ n → take n xs ≡ xs
  take_all zero [] h = refl
  take_all zero (x ∷ xs) h = ground arith
  take_all (suc n) [] h = refl
  take_all (suc n) (x ∷ xs) h = ap (λ r. x ∷ r) (take_all n xs (omega arith))

  pub take-map {κ} :
      {B : Type κ} (f : A → B) (n : ℕ) (xs : List A) → take n (map f xs) ≡ map f (take n xs)
  take-map f zero xs = refl
  take-map f (suc n) [] = refl
  take-map f (suc n) (x ∷ xs) = ap (λ r. f x ∷ r) (take-map f n xs)
