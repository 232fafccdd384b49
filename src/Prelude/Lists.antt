-- ===== src/Prelude/Lists.antt =====
-- C arrays as lists, measured and indexed by native numbers, under the library's names.
use Prim.Native.Nat.{ℕ, zero, suc, ◌+◌, ◌-◌, ◌≤◌, ◌<◌, min}
use mathlib.Core.Path.{◌≡◌, refl, ap, ◌∙◌}
use mathlib.Core.Logic.{◌≢◌}
use mathlib.Core.List.{List, [], ◌∷◌, ◌++◌}
use native.Mathlib.Omega.{arith}

module _ {ℓ} {A : Type ℓ} where
  abbrev pub length : List A → ℕ
  length [] = 0
  length (x ∷ xs) = suc (length xs)

  abbrev pub get_or : List A → ℕ → A → A
  get_or [] i d = d
  get_or (x ∷ xs) zero d = x
  get_or (x ∷ xs) (suc i) d = get_or xs i d

  -- A write out of bounds changes nothing.
  abbrev pub set : List A → ℕ → A → List A
  set [] i v = []
  set (x ∷ xs) zero v = v ∷ xs
  set (x ∷ xs) (suc i) v = x ∷ set xs i v

  abbrev pub take : ℕ → List A → List A
  take zero xs = []
  take (suc n) [] = []
  take (suc n) (x ∷ xs) = x ∷ take n xs

  abbrev pub drop : ℕ → List A → List A
  drop zero xs = xs
  drop (suc n) [] = []
  drop (suc n) (x ∷ xs) = drop n xs

  abbrev pub replicate : ℕ → A → List A
  replicate zero a = []
  replicate (suc n) a = a ∷ replicate n a

  pub length-append : (xs ys : List A) → length (xs ++ ys) ≡ length xs + length ys
  length-append [] ys = omega arith
  length-append (x ∷ xs) ys = omega (arith, length-append xs ys)

  pub length-set : (xs : List A) (i : ℕ) (v : A) → length (set xs i v) ≡ length xs
  length-set [] i v = refl
  length-set (x ∷ xs) zero v = refl
  length-set (x ∷ xs) (suc i) v = ap suc (length-set xs i v)

  pub get_or-set_self :
      (xs : List A) (i : ℕ) (v d : A) → i < length xs → get_or (set xs i v) i d ≡ v
  get_or-set_self [] i v d h = absurd (omega arith)
  get_or-set_self (x ∷ xs) zero v d h = refl
  get_or-set_self (x ∷ xs) (suc i) v d h = get_or-set_self xs i v d (omega arith)

  pub get_or-set_ne :
      (xs : List A) (i j : ℕ) (v d : A) → i ≢ j → get_or (set xs i v) j d ≡ get_or xs j d
  get_or-set_ne [] i j v d h = refl
  get_or-set_ne (x ∷ xs) zero zero v d h = absurd (h refl)
  get_or-set_ne (x ∷ xs) zero (suc j) v d h = refl
  get_or-set_ne (x ∷ xs) (suc i) zero v d h = refl
  get_or-set_ne (x ∷ xs) (suc i) (suc j) v d h = get_or-set_ne xs i j v d (λ e. h (ap suc e))

  pub length-take : (n : ℕ) (xs : List A) → length (take n xs) ≡ min n (length xs)
  length-take zero xs = omega arith
  length-take (suc n) [] = omega arith
  length-take (suc n) (x ∷ xs) = omega (arith, length-take n xs)

  pub length-drop : (n : ℕ) (xs : List A) → length (drop n xs) ≡ length xs - n
  length-drop zero xs = omega arith
  length-drop (suc n) [] = omega arith
  length-drop (suc n) (x ∷ xs) = omega (arith, length-drop n xs)

  pub length-replicate : (n : ℕ) (a : A) → length (replicate n a) ≡ n
  length-replicate zero a = refl
  length-replicate (suc n) a = ap suc (length-replicate n a)

  pub take-drop-append :
      (n k : ℕ) (xs ys : List A)
      → k + n ≤ length xs
      → take n (drop k (xs ++ ys)) ≡ take n (drop k xs)
  take-drop-append zero zero xs ys h = refl
  take-drop-append (suc n) zero [] ys h = absurd (omega arith)
  take-drop-append (suc n) zero (x ∷ xs) ys h =
      ap (◌∷◌ x) (take-drop-append n zero xs ys (omega arith))
  take-drop-append zero (suc k) xs ys h = refl
  take-drop-append (suc n) (suc k) [] ys h = absurd (omega arith)
  take-drop-append (suc n) (suc k) (x ∷ xs) ys h = take-drop-append (suc n) k xs ys (omega arith)

  -- memcpy(xs + off, ys, length ys)
  abbrev pub splice : ℕ → List A → List A → List A
  splice off ys xs = take off xs ++ (ys ++ drop (off + length ys) xs)

  pub drop-append : (n : ℕ) (xs ys : List A) → n ≡ length xs → drop n (xs ++ ys) ≡ ys
  drop-append zero [] ys h = refl
  drop-append zero (x ∷ xs) ys h = absurd (omega arith)
  drop-append (suc n) [] ys h = absurd (omega arith)
  drop-append (suc n) (x ∷ xs) ys h = drop-append n xs ys (omega arith)

  take-append : (n : ℕ) (xs ys : List A) → n ≡ length xs → take n (xs ++ ys) ≡ xs
  take-append zero [] ys h = refl
  take-append zero (x ∷ xs) ys h = absurd (omega arith)
  take-append (suc n) [] ys h = absurd (omega arith)
  take-append (suc n) (x ∷ xs) ys h = ap (◌∷◌ x) (take-append n xs ys (omega arith))

  -- What was copied in is there.
  pub take-drop-splice :
      (n off : ℕ) (ys xs : List A)
      → n ≡ length ys
      → off ≤ length xs
      → take n (drop off (splice off ys xs)) ≡ ys
  take-drop-splice n off ys xs e h =
      rw
        (drop-append off (take off xs) (ys ++ drop (off + length ys) xs)
          (omega (arith, length-take off xs)))
        (take-append n ys (drop (off + length ys) xs) e)

  pub length-splice :
      (off : ℕ) (ys xs : List A)
      → off + length ys ≤ length xs
      → length (splice off ys xs) ≡ length xs
  length-splice off ys xs h = omega (
    arith,
    length-append (take off xs) (ys ++ drop (off + length ys) xs),
    length-append ys (drop (off + length ys) xs),
    length-take off xs,
    length-drop (off + length ys) xs,
  )

  -- What lies before or behind it is as it was.
  get_or-append_left :
      (xs ys : List A) (k : ℕ) (d : A) → k < length xs → get_or (xs ++ ys) k d ≡ get_or xs k d
  get_or-append_left [] ys k d h = absurd (omega arith)
  get_or-append_left (x ∷ xs) ys zero d h = refl
  get_or-append_left (x ∷ xs) ys (suc k) d h = get_or-append_left xs ys k d (omega arith)

  get_or-append_right :
      (xs ys : List A) (k : ℕ) (d : A) → get_or (xs ++ ys) (length xs + k) d ≡ get_or ys k d
  get_or-append_right [] ys k d = let same : 0 + k ≡ k = omega arith in rw same refl
  get_or-append_right (x ∷ xs) ys k d =
      let up : suc (length xs) + k ≡ suc (length xs + k) = omega arith in
      rw up (get_or-append_right xs ys k d)

  get_or-take :
      (n : ℕ) (xs : List A) (k : ℕ) (d : A) → k < n → get_or (take n xs) k d ≡ get_or xs k d
  get_or-take zero xs k d h = absurd (omega arith)
  get_or-take (suc n) [] k d h = refl
  get_or-take (suc n) (x ∷ xs) zero d h = refl
  get_or-take (suc n) (x ∷ xs) (suc k) d h = get_or-take n xs k d (omega arith)

  get_or-drop : (n : ℕ) (xs : List A) (k : ℕ) (d : A) → get_or (drop n xs) k d ≡ get_or xs (n + k) d
  get_or-drop zero xs k d = let same : 0 + k ≡ k = omega arith in rw same refl
  get_or-drop (suc n) [] k d = refl
  get_or-drop (suc n) (x ∷ xs) k d =
      let up : suc n + k ≡ suc (n + k) = omega arith in rw up (get_or-drop n xs k d)

  pub get_or-splice_before :
      (off : ℕ) (ys xs : List A) (k : ℕ) (d : A)
      → k < off
      → off ≤ length xs
      → get_or (splice off ys xs) k d ≡ get_or xs k d
  get_or-splice_before off ys xs k d h l =
      get_or-append_left (take off xs) (ys ++ drop (off + length ys) xs) k d
        (omega (arith, length-take off xs))
      ∙ get_or-take off xs k d h

  pub get_or-splice_behind :
      (off : ℕ) (ys xs : List A) (j : ℕ) (d : A)
      → off ≤ length xs
      → get_or (splice off ys xs) (off + length ys + j) d ≡ get_or xs (off + length ys + j) d
  get_or-splice_behind off ys xs j d l =
      let first : off + length ys + j ≡ length (take off xs) + (length ys + j) =
        omega (arith, length-take off xs) in
      ap (λ (k : ℕ). get_or (splice off ys xs) k d) first
      ∙ get_or-append_right (take off xs) (ys ++ drop (off + length ys) xs) (length ys + j) d
      ∙ get_or-append_right ys (drop (off + length ys) xs) j d
      ∙ get_or-drop (off + length ys) xs j d
