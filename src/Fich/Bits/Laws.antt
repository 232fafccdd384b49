-- ===== src/Fich/Bits/Laws.antt =====
-- Reading back what was written, bit by bit.
use adn_bridge.Fich.Bits.{
  read_bit, ℕ, Bool, List, write_bit, bit_or, not, bit_and, get_or, set, ◌∷◌, suc, write_bits,
  read_bits,
}
use adn_bridge.Prelude.{
  if◌then◌else◌, all_below, ℕ, Bool, List, ltb, ◌≡◌, ◌&&◌, ◌<◌, IsBytes, length, bit_or, not, true,
  ltb→lt, length-set, ◌*◌, ◌^◌, bit_and, ◌==◌, get_or, set, ◌>>>◌, false, arith, sym,
  all_below_sound, Bool-cases, ◌-◌, ◌∷◌, ◌%◌, refl, inl, inr, [], zero, ==_iff, get_or-set_self,
  ◌∙◌, subst, ap₂, ◌≢◌, get_or-set_ne,
}

-- One byte: `b` put at place `i`, and what place `j` holds then.
abbrev put : ℕ → ℕ → Bool → ℕ
put x i b = if b then bit_or x (2 ^ (7 - i)) else bit_and x (255 - 2 ^ (7 - i))

abbrev pub got : ℕ → ℕ → Bool
got x j = not (bit_and x (2 ^ (7 - j)) == 0)

abbrev same : Bool → Bool → Bool
same true b = b
same false b = not b

-- All the cases of one byte.
put_checks : ℕ → ℕ → Bool
put_checks x i =
    ltb (put x i true) 256
    && ltb (put x i false) 256
    && all_below 8 (λ j. same (got (put x i true) j) (if i == j then true else got x j))
    && all_below 8 (λ j. same (got (put x i false) j) (if i == j then false else got x j))

byte_checks : all_below 256 (λ x. all_below 8 (λ i. put_checks x i)) ≡ true
unfolding put_checks
byte_checks = refl

and4 :
    (a b c d : Bool) → (a && b && c && d) ≡ true → (a ≡ true) × (b ≡ true) × (c ≡ true) × (d ≡ true)
and4 a b c d h = ground arith

same_eq : (a b : Bool) → same a b ≡ true → a ≡ b
same_eq true b h = sym h
same_eq false true h = cc
same_eq false false h = refl

byte_law : (x i : ℕ) → x < 256 → i < 8 → put_checks x i ≡ true
byte_law x i hx hi =
    all_below_sound 8 (put_checks x) i
      (all_below_sound 256 (λ x. all_below 8 (λ i. put_checks x i)) x byte_checks hx) hi

byte_facts :
    (x i : ℕ)
    → x < 256
    → i < 8
    → (ltb (put x i true) 256 ≡ true)
      × (ltb (put x i false) 256 ≡ true)
      × (all_below 8 (λ j. same (got (put x i true) j) (if i == j then true else got x j)) ≡ true)
      × (all_below 8 (λ j. same (got (put x i false) j) (if i == j then false else got x j)) ≡ true)
unfolding put_checks
byte_facts x i hx hi =
    and4 (ltb (put x i true) 256) (ltb (put x i false) 256)
      (all_below 8 (λ j. same (got (put x i true) j) (if i == j then true else got x j)))
      (all_below 8 (λ j. same (got (put x i false) j) (if i == j then false else got x j)))
      (byte_law x i hx hi)

put_small : (x i : ℕ) (b : Bool) → x < 256 → i < 8 → put x i b < 256
put_small x i true hx hi = ltb→lt (put x i true) 256 (byte_facts x i hx hi).0
put_small x i false hx hi = ltb→lt (put x i false) 256 (byte_facts x i hx hi).1

got-put :
    (x i j : ℕ) (b : Bool)
    → x < 256
    → i < 8
    → j < 8
    → got (put x i b) j ≡ (if i == j then b else got x j)
got-put x i j true hx hi hj = same_eq _ _ (
    all_below_sound 8 (λ j. same (got (put x i true) j) (if i == j then true else got x j)) j
      (byte_facts x i hx hi).2 hj)
got-put x i j false hx hi hj = same_eq _ _ (
    all_below_sound 8 (λ j. same (got (put x i false) j) (if i == j then false else got x j)) j
      (byte_facts x i hx hi).3 hj)

pub get_or-IsBytes : (p : List ℕ) (k : ℕ) → IsBytes p → get_or p k 0 < 256
get_or-IsBytes [] k h = omega arith
get_or-IsBytes (x ∷ xs) zero h = h.0
get_or-IsBytes (x ∷ xs) (suc k) h = get_or-IsBytes xs k h.1

pub set-IsBytes : (p : List ℕ) (k v : ℕ) → IsBytes p → v < 256 → IsBytes (set p k v)
set-IsBytes [] k v h hv = tt
set-IsBytes (x ∷ xs) zero v h hv = (hv, h.1)
set-IsBytes (x ∷ xs) (suc k) v h hv = (h.0, set-IsBytes xs k v h.1 hv)

pub write_bit-IsBytes : (p : List ℕ) (i : ℕ) (b : Bool) → IsBytes p → IsBytes (write_bit p i b)
unfolding write_bit
write_bit-IsBytes p i b h =
    set-IsBytes p (i >>> 3) _ h
      (put_small (get_or p (i >>> 3) 0) (i % 8) b (get_or-IsBytes p (i >>> 3) h) (omega arith))

pub length-write_bit : (p : List ℕ) (i : ℕ) (b : Bool) → length (write_bit p i b) ≡ length p
unfolding write_bit
length-write_bit p i b = length-set p (i >>> 3) _

-- What place `j` holds after a write at place `i`.
pub read_bit-write_bit :
    (p : List ℕ) (i j : ℕ) (b : Bool)
    → IsBytes p
    → i < 8 * length p
    → read_bit (write_bit p i b) j ≡ (if i == j then b else read_bit p j)
unfolding read_bit write_bit
read_bit-write_bit p i j b h hi =
    let x = get_or p (i >>> 3) 0 in
    elim (Bool-cases (i >>> 3 == j >>> 3)) [
      | inl e ↦
          let byte : i >>> 3 ≡ j >>> 3 = (==_iff (i >>> 3) (j >>> 3)).0 e in
          let place : (i % 8 == j % 8) ≡ (i == j) = ground arith in
          let here : get_or (set p (i >>> 3) (put x (i % 8) b)) (i >>> 3) 0 ≡ put x (i % 8) b =
            get_or-set_self p (i >>> 3) (put x (i % 8) b) 0 (omega arith) in
          let law =
            got-put x (i % 8) (j % 8) b (get_or-IsBytes p (i >>> 3) h) (omega arith)
              (omega arith) in
          subst
            (λ (k : ℕ).
              got (get_or (set p (i >>> 3) (put x (i % 8) b)) k 0) (j % 8)
              ≡ (if i == j then b else got (get_or p k 0) (j % 8)))
            byte
            (rw here (
              subst (λ (c : Bool). got (put x (i % 8) b) (j % 8) ≡ (if c then b else got x (j % 8)))
                place law))
      | inr ne ↦
          let apart : i >>> 3 ≢ j >>> 3 = ground arith in
          let other : (i == j) ≡ false = ground arith in
          rw (get_or-set_ne p (i >>> 3) (j >>> 3) (put x (i % 8) b) 0 apart, other) refl
    ]

abbrev pub AllBelow : ℕ → List ℕ → Type 0
AllBelow n [] = Unit
AllBelow n (i ∷ is) = (i < n) × AllBelow n is

-- `i` is none of the places.
abbrev pub absent : ℕ → List ℕ → Bool
absent i [] = true
absent i (j ∷ js) = not (j == i) && absent i js

-- No place occurs twice.
abbrev pub distinct : List ℕ → Bool
distinct [] = true
distinct (i ∷ is) = absent i is && distinct is

pub write_bits-IsBytes :
    (is : List ℕ) (bs : List Bool) (p : List ℕ) → IsBytes p → IsBytes (write_bits is bs p)
unfolding write_bits
write_bits-IsBytes [] bs p h = h
write_bits-IsBytes (i ∷ is) [] p h = h
write_bits-IsBytes (i ∷ is) (b ∷ bs) p h =
    write_bits-IsBytes is bs (write_bit p i b) (write_bit-IsBytes p i b h)

pub length-write_bits :
    (is : List ℕ) (bs : List Bool) (p : List ℕ) → length (write_bits is bs p) ≡ length p
unfolding write_bits
length-write_bits [] bs p = refl
length-write_bits (i ∷ is) [] p = refl
length-write_bits (i ∷ is) (b ∷ bs) p =
    length-write_bits is bs (write_bit p i b) ∙ length-write_bit p i b

-- A place that is not written keeps its bit.
pub read_bit-write_bits :
    (is : List ℕ) (bs : List Bool) (p : List ℕ) (j n : ℕ)
    → IsBytes p
    → n ≡ 8 * length p
    → AllBelow n is
    → absent j is ≡ true
    → read_bit (write_bits is bs p) j ≡ read_bit p j
unfolding write_bits
read_bit-write_bits [] bs p j n h e below out = refl
read_bit-write_bits (i ∷ is) [] p j n h e below out = refl
read_bit-write_bits (i ∷ is) (b ∷ bs) p j n h e below out =
    let other : (i == j) ≡ false = ground arith in
    let rest : absent j is ≡ true = ground arith in
    read_bit-write_bits is bs (write_bit p i b) j n (write_bit-IsBytes p i b h)
      (omega (arith, length-write_bit p i b)) below.1 rest
    ∙ read_bit-write_bit p i j b h (omega arith)
    ∙ rw other

-- Bits written at places of their own are read back.
pub read_bits-write_bits :
    (is : List ℕ) (bs : List Bool) (p : List ℕ) (n : ℕ)
    → IsBytes p
    → n ≡ 8 * length p
    → AllBelow n is
    → distinct is ≡ true
    → length is ≡ length bs
    → read_bits is (write_bits is bs p) ≡ bs
unfolding write_bits read_bits
read_bits-write_bits [] [] p n h e below apart same = refl
read_bits-write_bits [] (b ∷ bs) p n h e below apart same = absurd (omega arith)
read_bits-write_bits (i ∷ is) [] p n h e below apart same = absurd (omega arith)
read_bits-write_bits (i ∷ is) (b ∷ bs) p n h e below apart same =
    let q = write_bit p i b in
    let hq = write_bit-IsBytes p i b h in
    let eq : n ≡ 8 * length q = omega (arith, length-write_bit p i b) in
    let out : absent i is ≡ true = ground arith in
    let rest : distinct is ≡ true = ground arith in
    let self : (i == i) ≡ true = (==_iff i i).1 refl in
    let head : read_bit (write_bits is bs q) i ≡ b =
      read_bit-write_bits is bs q i n hq eq below.1 out
      ∙ read_bit-write_bit p i i b h (omega arith)
      ∙ rw self in
    ap₂ (λ (x : Bool) (xs : List Bool). x ∷ xs) head
      (read_bits-write_bits is bs q n hq eq below.1 rest (omega arith))
