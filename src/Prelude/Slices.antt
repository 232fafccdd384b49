-- ===== src/Prelude/Slices.antt =====
-- Laws of `++`, `take` and `drop` on lists that native numbers measure.
use adn_bridge.Prelude.Lists.{length, take, drop}
use Prim.Native.Nat.{ℕ, zero, suc, ◌+◌, ◌≤◌, min}
use mathlib.Core.Path.{◌≡◌, refl, sym, ap, ◌∙◌}
use mathlib.Core.List.{List, [], ◌∷◌, ◌++◌}
use native.Mathlib.Omega.{arith}

module _ {ℓ} {A : Type ℓ} where
  pub append-nil : (xs : List A) → xs ++ [] ≡ xs
  append-nil [] = refl
  append-nil (x ∷ xs) = ap (◌∷◌ x) (append-nil xs)

  pub append_assoc : (xs ys zs : List A) → (xs ++ ys) ++ zs ≡ xs ++ (ys ++ zs)
  append_assoc [] ys zs = refl
  append_assoc (x ∷ xs) ys zs = ap (◌∷◌ x) (append_assoc xs ys zs)

  pub take-nil : (n : ℕ) → take {A = A} n [] ≡ []
  take-nil zero = refl
  take-nil (suc n) = refl

  pub drop-nil : (n : ℕ) → drop {A = A} n [] ≡ []
  drop-nil zero = refl
  drop-nil (suc n) = refl

  pub take-drop : (n : ℕ) (xs : List A) → take n xs ++ drop n xs ≡ xs
  take-drop zero xs = refl
  take-drop (suc n) [] = refl
  take-drop (suc n) (x ∷ xs) = ap (◌∷◌ x) (take-drop n xs)

  pub take-all : (n : ℕ) (xs : List A) → length xs ≤ n → take n xs ≡ xs
  take-all n [] h = take-nil n
  take-all zero (x ∷ xs) h = absurd (omega arith)
  take-all (suc n) (x ∷ xs) h = ap (◌∷◌ x) (take-all n xs (omega arith))

  pub take-append_drop : (n k : ℕ) (xs : List A) → take n xs ++ take k (drop n xs) ≡ take (n + k) xs
  take-append_drop zero k xs = let same : 0 + k ≡ k = omega arith in rw same refl
  take-append_drop (suc n) k [] = take-nil k ∙ sym (take-nil (suc n + k))
  take-append_drop (suc n) k (x ∷ xs) =
      let up : suc n + k ≡ suc (n + k) = omega arith in rw up (ap (◌∷◌ x) (take-append_drop n k xs))

  pub drop-drop : (n k : ℕ) (xs : List A) → drop k (drop n xs) ≡ drop (n + k) xs
  drop-drop zero k xs = let same : 0 + k ≡ k = omega arith in rw same refl
  drop-drop (suc n) k [] = drop-nil k ∙ sym (drop-nil (suc n + k))
  drop-drop (suc n) k (x ∷ xs) =
      let up : suc n + k ≡ suc (n + k) = omega arith in rw up (drop-drop n k xs)

  pub take-min : (n : ℕ) (xs : List A) → take (min n (length xs)) xs ≡ take n xs
  take-min zero xs = let least : min 0 (length xs) ≡ 0 = omega arith in rw least refl
  take-min (suc n) [] = take-nil (min (suc n) 0)
  take-min (suc n) (x ∷ xs) =
      let up : min (suc n) (suc (length xs)) ≡ suc (min n (length xs)) = omega arith in
      rw up (ap (◌∷◌ x) (take-min n xs))

  pub drop-min : (n : ℕ) (xs : List A) → drop (min n (length xs)) xs ≡ drop n xs
  drop-min zero xs = let least : min 0 (length xs) ≡ 0 = omega arith in rw least refl
  drop-min (suc n) [] = drop-nil (min (suc n) 0)
  drop-min (suc n) (x ∷ xs) =
      let up : min (suc n) (suc (length xs)) ≡ suc (min n (length xs)) = omega arith in
      rw up (drop-min n xs)
