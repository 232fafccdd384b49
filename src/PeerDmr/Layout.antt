-- ===== src/PeerDmr/Layout.antt =====
-- The layout of RPTC: fixed offsets, whatever the strings of the configuration are.
use adn_bridge.Hbp.Sha256.{sha256_generate, word_bytes}
use adn_bridge.PeerDmr.State.{PeerDmr}
use adn_bridge.PeerDmr.Login.{rptc_body, send_rptc, process_connect}
use mathlib.Core.List.{append_assoc}
use adn_bridge.Prelude.{
  ℕ, List, length, ◌≡◌, arith, take, length-append, refl, replicate, drop, ◌++◌, ◌-◌, ◌∷◌, min,
  length-take, length-replicate, ap, ◌+◌, sym, [], ◌∙◌,
}
use adn_bridge.PeerDmr.Wire.{pad_copy, id_bytes, codes, or_default}
use Prim.Native.Nat.{ℕ, min, suc}
use adn_bridge.Prelude.{zero, suc}

length-pad_copy : (n : ℕ) (src : List ℕ) → length (pad_copy n src) ≡ n
unfolding pad_copy
length-pad_copy n src = omega (
  arith,
  length-append (take n src) (replicate (n - min (length src) n) 32),
  length-take n src,
  length-replicate {A = ℕ} (n - min (length src) n) 32,
)

length-id_bytes : (id : ℕ) → length (id_bytes id) ≡ 4
unfolding id_bytes
length-id_bytes id = refl

-- A slice that begins `m` bytes into the second part.
skip :
    (j m n : ℕ) (xs ys : List ℕ)
    → j ≡ length xs + m
    → take n (drop j (xs ++ ys)) ≡ take n (drop m ys)
skip j m n [] ys e = let e' : j ≡ m = omega arith in rw e'
skip zero m n (x ∷ xs) ys e = absurd (omega arith)
skip (suc j) m n (x ∷ xs) ys e = skip j m n xs ys (omega arith)

-- A slice that is the first part.
take-exact : (n : ℕ) (xs ys : List ℕ) → n ≡ length xs → take n (xs ++ ys) ≡ xs
take-exact zero [] ys e = refl
take-exact zero (x ∷ xs) ys e = absurd (omega arith)
take-exact (suc n) [] ys e = absurd (omega arith)
take-exact (suc n) (x ∷ xs) ys e = ap (◌∷◌ x) (take-exact n xs ys (omega arith))

-- A field behind another of `k` bytes.
skip_field :
    (j k m n : ℕ) (src ys : List ℕ)
    → j ≡ k + m
    → take n (drop j (pad_copy k src ++ ys)) ≡ take n (drop m ys)
skip_field j k m n src ys e = skip j m n (pad_copy k src) ys (omega (arith, length-pad_copy k src))

-- The body has 294 bytes.
length-rptc_body : (p : PeerDmr) → length (rptc_body p) ≡ 294
unfolding rptc_body
length-rptc_body p = simp (length-append, length-pad_copy)

-- RPTC always has 302 bytes. Bytes 8 to 15 are the callsign and bytes 58 to 77 the location (the
-- description, where no location is given), each cut or filled with spaces to its field.
send_rptc_layout :
    (p : PeerDmr)
    → let packet = codes "RPTC" ++ id_bytes p.dmrid ++ rptc_body p in
      ((send_rptc p).sent ≡ packet ∷ p.sent)
      × (length packet ≡ 302)
      × (take 8 (drop 8 packet) ≡ pad_copy 8 p.callsign)
      × (take 20 (drop 58 packet) ≡ pad_copy 20 (or_default p.location p.description))
unfolding send_rptc
send_rptc_layout p = (
  refl,
  omega (arith, length-rptc_body p),
  simp append_assoc (take-exact 8 _ _ (sym (length-pad_copy 8 p.callsign))),
  simp append_assoc (
      skip_field 50 8 42 20 _ _ refl
      ∙ skip_field 42 9 33 20 _ _ refl
      ∙ skip_field 33 9 24 20 _ _ refl
      ∙ skip_field 24 2 22 20 _ _ refl
      ∙ skip_field 22 2 20 20 _ _ refl
      ∙ skip_field 20 8 12 20 _ _ refl
      ∙ skip_field 12 9 3 20 _ _ refl
      ∙ skip_field 3 3 0 20 _ _ refl
      ∙ take-exact 20 _ _ (sym (length-pad_copy 20 (or_default p.location p.description)))),
)

-- RPTK carries the whole SHA-256 digest of the seed in the receive buffer and the password, and has
-- 40 bytes.
rptk_layout :
    (p : PeerDmr)
    → let packet =
        codes "RPTK" ++ id_bytes p.dmrid ++ sha256_generate (take 4 (drop 6 p.buf) ++ p.password) in
      ((process_connect sha256_generate p).sent ≡ packet ∷ p.sent) × (length packet ≡ 40)
unfolding process_connect sha256_generate word_bytes
rptk_layout p = (refl, refl)
