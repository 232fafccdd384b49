-- ===== src/Hbp/Sha256.antt =====
-- hbp/dmr_hbp.c: SHA-256, as sha256_generate computes it of a message in one piece. A block is
-- taken from the message, or from sha256_buffer for the last one or two, which stand behind the
-- message in a list here. `load` of a word and SWAP together read it big-endian.
pub mod Schedule
use adn_bridge.Prelude.{
  List, ℕ, ◌∷◌, [], u32, u8, length, bit_or, bit_xor, ◌<<<◌, ◌>>>◌, get_or, if◌then◌else◌, drop,
  ◌≡◌, bit_and, ◌+◌, ◌/◌, ltb, ◌-◌, zero, ◌*◌, refl, set, ◌++◌, ◌%◌, take, replicate,
}
use Prim.Native.Nat.{ℕ, bit_or, bit_xor, suc, bit_and}

unfoldable pub round_constants : List ℕ
round_constants =
    0x428a2f98 ∷ 0x71374491 ∷ 0xb5c0fbcf ∷ 0xe9b5dba5 ∷ 0x3956c25b ∷ 0x59f111f1 ∷ 0x923f82a4
    ∷ 0xab1c5ed5 ∷ 0xd807aa98 ∷ 0x12835b01 ∷ 0x243185be ∷ 0x550c7dc3 ∷ 0x72be5d74 ∷ 0x80deb1fe
    ∷ 0x9bdc06a7 ∷ 0xc19bf174 ∷ 0xe49b69c1 ∷ 0xefbe4786 ∷ 0x0fc19dc6 ∷ 0x240ca1cc ∷ 0x2de92c6f
    ∷ 0x4a7484aa ∷ 0x5cb0a9dc ∷ 0x76f988da ∷ 0x983e5152 ∷ 0xa831c66d ∷ 0xb00327c8 ∷ 0xbf597fc7
    ∷ 0xc6e00bf3 ∷ 0xd5a79147 ∷ 0x06ca6351 ∷ 0x14292967 ∷ 0x27b70a85 ∷ 0x2e1b2138 ∷ 0x4d2c6dfc
    ∷ 0x53380d13 ∷ 0x650a7354 ∷ 0x766a0abb ∷ 0x81c2c92e ∷ 0x92722c85 ∷ 0xa2bfe8a1 ∷ 0xa81a664b
    ∷ 0xc24b8b70 ∷ 0xc76c51a3 ∷ 0xd192e819 ∷ 0xd6990624 ∷ 0xf40e3585 ∷ 0x106aa070 ∷ 0x19a4c116
    ∷ 0x1e376c08 ∷ 0x2748774c ∷ 0x34b0bcb5 ∷ 0x391c0cb3 ∷ 0x4ed8aa4a ∷ 0x5b9cca4f ∷ 0x682e6ff3
    ∷ 0x748f82ee ∷ 0x78a5636f ∷ 0x84c87814 ∷ 0x8cc70208 ∷ 0x90befffa ∷ 0xa4506ceb ∷ 0xbef9a3f7
    ∷ 0xc67178f2 ∷ []

-- `rol(x, n)` of a word: `((x) << (n)) | ((x) >> (32 - (n)))`
unfoldable pub rol : ℕ → ℕ → ℕ
rol x n = bit_or (u32 (x <<< n)) (x >>> (32 - n))

unfoldable pub s0 : ℕ → ℕ
unfolding rol
s0 x = bit_xor (bit_xor (rol x 25) (rol x 14)) (x >>> 3)

unfoldable pub s1 : ℕ → ℕ
unfolding rol
s1 x = bit_xor (bit_xor (rol x 15) (rol x 13)) (x >>> 10)

unfoldable pub ss0 : ℕ → ℕ
unfolding rol
ss0 x = bit_xor (bit_xor (rol x 30) (rol x 19)) (rol x 10)

unfoldable pub ss1 : ℕ → ℕ
unfolding rol
ss1 x = bit_xor (bit_xor (rol x 26) (rol x 21)) (rol x 7)

-- F1 and F2
unfoldable pub f1 : ℕ → ℕ → ℕ → ℕ
f1 e f g = bit_xor g (bit_and e (bit_xor f g))

unfoldable pub f2 : ℕ → ℕ → ℕ → ℕ
f2 a b c = bit_or (bit_and a b) (bit_and c (bit_or a b))

-- The registers, as the next round names them.
pub record Registers : Type 0 where
  pub a : ℕ
  pub b : ℕ
  pub c : ℕ
  pub d : ℕ
  pub e : ℕ
  pub f : ℕ
  pub g : ℕ
  pub h : ℕ

-- `R(A, .., H, K, M)`; the round after it has H in the place of A, A in that of B, and so on.
unfoldable pub sha_round : Registers → ℕ → ℕ → Registers
unfolding ss0 ss1 f1 f2
sha_round r k m =
    let t0 = u32 (ss0 r.a + f2 r.a r.b r.c) in
    let t1 = u32 (r.h + ss1 r.e + f1 r.e r.f r.g + k + m) in
    record {
      a = u32 (t0 + t1);
      b = r.a;
      c = r.b;
      d = r.c;
      e = u32 (r.d + t1);
      f = r.e;
      g = r.f;
      h = r.g;
    }

-- `M(I)`: the new x[I & 0x0f]
unfoldable pub schedule : List ℕ → ℕ → ℕ
unfolding s0 s1
schedule x i = u32 (
    s1 (get_or x ((i - 2) % 16) 0)
    + get_or x ((i - 7) % 16) 0
    + s0 (get_or x ((i - 15) % 16) 0)
    + get_or x (i % 16) 0)

-- `n` rounds from round `i` on.
unfoldable pub sha_rounds : ℕ → ℕ → List ℕ → Registers → Registers
unfolding sha_round schedule round_constants
sha_rounds zero i x r = r
sha_rounds (suc n) i x r =
    let tm = if ltb i 16 then get_or x i 0 else schedule x i in
    sha_rounds n (i + 1) (set x (i % 16) tm) (sha_round r (get_or round_constants i 0) tm)

-- sha256_state after a block of sixteen words.
unfoldable pub sha_block : Registers → List ℕ → Registers
unfolding sha_rounds
sha_block st words =
    let r = sha_rounds 64 0 words st in
    record {
      a = u32 (st.a + r.a);
      b = u32 (st.b + r.b);
      c = u32 (st.c + r.c);
      d = u32 (st.d + r.d);
      e = u32 (st.e + r.e);
      f = u32 (st.f + r.f);
      g = u32 (st.g + r.g);
      h = u32 (st.h + r.h);
    }

-- `n` words of a byte string, big-endian.
unfoldable pub load_words : ℕ → List ℕ → List ℕ
load_words zero bytes = []
load_words (suc n) bytes =
    bit_or
      (bit_or (bit_or (get_or bytes 0 0 <<< 24) (get_or bytes 1 0 <<< 16)) (get_or bytes 2 0 <<< 8))
      (get_or bytes 3 0)
    ∷ load_words n (drop 4 bytes)

-- sha256_process_block, of `n` blocks.
unfoldable pub sha256_process_block : ℕ → List ℕ → Registers → Registers
unfolding sha_block load_words
sha256_process_block zero bytes st = st
sha256_process_block (suc n) bytes st =
    sha256_process_block n (drop 64 bytes) (sha_block st (load_words 16 bytes))

-- `SWAP` of a word, as stored.
unfoldable pub word_bytes : ℕ → List ℕ
word_bytes w = u8 (w >>> 24) ∷ u8 (w >>> 16) ∷ u8 (w >>> 8) ∷ u8 w ∷ []

abbrev pub initial_state : Registers
initial_state = record {
  a = 0x6a09e667;
  b = 0xbb67ae85;
  c = 0x3c6ef372;
  d = 0xa54ff53a;
  e = 0x510e527f;
  f = 0x9b05688c;
  g = 0x1f83d9ab;
  h = 0x5be0cd19;
}

-- The last one or two blocks: the rest of the message, fillbuf and the length in bits.
unfoldable pub last_blocks : ℕ → List ℕ → List ℕ
unfolding word_bytes
last_blocks total rest =
    let bytes = length rest in
    let size = if ltb bytes 56 then 64 else 128 in
    rest
    ++ take (size - 8 - bytes) (0x80 ∷ replicate 63 0)
    ++ word_bytes (u32 (total >>> 29))
    ++ word_bytes (u32 (total <<< 3))

-- sha256_generate, of a message shorter than 2 ^ 32
unfoldable pub sha256_generate : List ℕ → List ℕ
unfolding sha256_process_block last_blocks word_bytes
sha256_generate m =
    let total = length m in
    let st = sha256_process_block (total / 64) m initial_state in
    let rest = drop (total / 64 * 64) m in
    let tail = last_blocks total rest in
    let r = sha256_process_block (length tail / 64) tail st in
    word_bytes r.a
    ++ word_bytes r.b
    ++ word_bytes r.c
    ++ word_bytes r.d
    ++ word_bytes r.e
    ++ word_bytes r.f
    ++ word_bytes r.g
    ++ word_bytes r.h

-- A digest has 32 bytes.
pub length-sha256_generate : (m : List ℕ) → length (sha256_generate m) ≡ 32
unfolding sha256_generate word_bytes
length-sha256_generate m = refl
