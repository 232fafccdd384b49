-- ===== src/Hbp/Sha256/Schedule.antt =====
-- The sixteen words that the rounds of SHA-256 overwrite in turn, and the message schedule of the
-- standard, in which every word is kept.
use adn_bridge.Prelude.{
  if◌then◌else◌, List, ℕ, [], length, ◌≡◌, suc, ◌<◌, get_or, set, ◌+◌, Bool-cases, arith, zero, ◌-◌,
  ◌%◌, ◌≤◌, length-set, ltb, inl, ◌∙◌, refl, ltb→lt, inr, subst, get_or-set_self, get_or-set_ne,
  sym, u32, ◌∷◌,
}
use adn_bridge.Hbp.Sha256.{
  s0, sha_round, schedule, sha_rounds, s1, round_constants, ℕ, [], Registers, length, suc, get_or,
  set, ltb, u32,
}

-- The first `t` words of the schedule of a block, newest first.
unfoldable pub schedule_words : List ℕ → ℕ → List ℕ
unfolding s0 s1
schedule_words block zero = []
schedule_words block (suc t) =
    let ws = schedule_words block t in
    let w =
      if ltb t 16
      then get_or block t 0
      else u32 (s1 (get_or ws 1 0) + get_or ws 6 0 + s0 (get_or ws 14 0) + get_or ws 15 0) in
    w ∷ ws

-- The registers after `t` rounds by the standard: round t takes word t.
unfoldable pub standard_rounds : List ℕ → Registers → ℕ → Registers
unfolding schedule_words sha_round round_constants
standard_rounds block r zero = r
standard_rounds block r (suc t) =
    sha_round (standard_rounds block r t) (get_or round_constants t 0)
      (get_or (schedule_words block (suc t)) 0 0)

-- The ring `x` after `t` rounds: it holds the last sixteen words, and the block's own where no
-- round has been.
record IsRing (block : List ℕ) (t : ℕ) (x : List ℕ) : Type 0 where
  sixteen : length x ≡ 16
  recent :
      (j : ℕ) → j < 16 → j < t → get_or x ((t - 1 - j) % 16) 0 ≡ get_or (schedule_words block t) j 0
  ahead : (i : ℕ) → t ≤ i → i < 16 → get_or x i 0 ≡ get_or block i 0

abbrev ring_word : ℕ → List ℕ → ℕ
ring_word t x = if ltb t 16 then get_or x t 0 else schedule x t

-- The word of the next round is the standard's.
ring_word-schedule_words :
    (block : List ℕ) (t : ℕ) (x : List ℕ)
    → IsRing block t x
    → ring_word t x ≡ get_or (schedule_words block (suc t)) 0 0
unfolding schedule_words schedule
ring_word-schedule_words block t x h = elim (Bool-cases (ltb t 16)) [
  | inl early ↦ rw early (h.ahead t (omega arith) (ltb→lt t 16 early))
  | inr late ↦
      let le : 16 ≤ t = ground arith in
      let at : (k : ℕ) (j : ℕ)
          → j < 16
          → (t - 1 - j) % 16 ≡ k
          → get_or x k 0 ≡ get_or (schedule_words block t) j 0 =
        λ k j hj e.
          subst (λ (m : ℕ). get_or x m 0 ≡ get_or (schedule_words block t) j 0) e
            (h.recent j hj (omega arith)) in
      rw
        (
          late,
          at ((t - 2) % 16) 1 (omega arith) (omega arith),
          at ((t - 7) % 16) 6 (omega arith) (omega arith),
          at ((t - 15) % 16) 14 (omega arith) (omega arith),
          at (t % 16) 15 (omega arith) (omega arith),
        )
        refl
]

IsRing-recent :
    (block : List ℕ) (t : ℕ) (x : List ℕ) (w j : ℕ)
    → IsRing block t x
    → w ≡ get_or (schedule_words block (suc t)) 0 0
    → j < 16
    → j < suc t
    → get_or (set x (t % 16) w) ((suc t - 1 - j) % 16) 0 ≡ get_or (schedule_words block (suc t)) j 0
unfolding schedule_words
IsRing-recent block t x w zero h e hj lt =
    let same : (suc t - 1 - 0) % 16 ≡ t % 16 = omega arith in
    rw same (get_or-set_self x (t % 16) w 0 (omega (arith, h.sixteen)) ∙ e)
IsRing-recent block t x w (suc j) h e hj lt =
    let same : (suc t - 1 - suc j) % 16 ≡ (t - 1 - j) % 16 = omega arith in
    rw same (
      get_or-set_ne x (t % 16) ((t - 1 - j) % 16) w 0 (λ e. omega arith)
      ∙ h.recent j (omega arith) (omega arith))

IsRing-set :
    (block : List ℕ) (t : ℕ) (x : List ℕ) (w : ℕ)
    → IsRing block t x
    → w ≡ get_or (schedule_words block (suc t)) 0 0
    → IsRing block (suc t) (set x (t % 16) w)
IsRing-set block t x w h e = record {
  sixteen = length-set x (t % 16) w ∙ h.sixteen;
  recent = λ j hj lt. IsRing-recent block t x w j h e hj lt;
  ahead = λ i le lt. get_or-set_ne x (t % 16) i w 0 (λ e. omega arith) ∙ h.ahead i (omega arith) lt;
}

rounds_agree :
    (n t : ℕ) (block x : List ℕ) (r : Registers)
    → IsRing block t x
    → sha_rounds n t x (standard_rounds block r t) ≡ standard_rounds block r (t + n)
unfolding sha_rounds standard_rounds
rounds_agree zero t block x r h = let e : t + 0 ≡ t = omega arith in rw e refl
rounds_agree (suc n) t block x r h =
    let w = ring_word t x in
    let new = ring_word-schedule_words block t x h in
    let e : t + suc n ≡ suc t + n = omega arith in
    let one : t + 1 ≡ suc t = omega arith in
    let ih = rounds_agree n (suc t) block (set x (t % 16) w) r (IsRing-set block t x w h new) in
    rw (e, one)
      (subst
        (λ (v : ℕ).
          sha_rounds n (suc t) (set x (t % 16) w)
            (sha_round (standard_rounds block r t) (get_or round_constants t 0) v)
          ≡ standard_rounds block r (suc t + n))
        (sym new) ih)

-- The 64 rounds of a block of sixteen words are those of the standard.
pub sha_rounds-standard :
    (block : List ℕ) (r : Registers)
    → length block ≡ 16
    → sha_rounds 64 0 block r ≡ standard_rounds block r 64
unfolding standard_rounds
sha_rounds-standard block r h =
    rounds_agree 64 0 block block r
      (record { sixteen = h; recent = λ j hj lt. absurd (omega arith); ahead = λ i le lt. refl })
