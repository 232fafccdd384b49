-- ===== src/Bridge/Ysf/Rooms.antt =====
-- Frames of the rooms of the reflector: what a bridge makes of a frame that another one sends.
use adn_bridge.Fich.Fields.{
  ysf_fich_rewrite_dgid, offset_net, ysf_sync_word, ysf_fich_guess_rx_offset,
  ysf_fich_decode_fields, ysf_fich_decode_at, offset_rx, same_bytes, Fields,
}
use adn_bridge.Bridge.Ysf.Receive.{is_ysfd, bridge_on_ysfd, other_room, on_ysf_frame}
use adn_bridge.Bridge.Time.{Timespec}
use adn_bridge.Bridge.State.{Env, Bridge}
use adn_bridge.Prelude.{
  true, if◌then◌else◌, ◌∷◌, [], inl, ℕ, List, length, IsBytes, ◌≡◌, ◌<◌, ◌≤◌, get_or, ◌+◌, arith,
  take, suc, drop, ==_iff, ap₂, zero, refl, ◌∙◌, ap, ◌≢◌, ◌⊎◌, Bool-cases, inr,
}
use adn_bridge.Fich.Fields.Wire.{
  IsScratch, decode_at-rewrite_dgid, ysf_fich_decode_fields_lem, get_or-rewrite_dgid,
}

-- Runs of bytes that are the same byte by byte.
same_take :
    (n : ℕ) (xs ys : List ℕ)
    → length xs ≡ length ys
    → ((i : ℕ) → i < n → get_or xs i 0 ≡ get_or ys i 0)
    → take n xs ≡ take n ys
same_take zero xs ys l h = refl
same_take (suc n) [] [] l h = refl
same_take (suc n) [] (y ∷ ys) l h = absurd (omega arith)
same_take (suc n) (x ∷ xs) [] l h = absurd (omega arith)
same_take (suc n) (x ∷ xs) (y ∷ ys) l h =
    ap₂ ◌∷◌ (h 0 (omega arith))
      (same_take n xs ys (omega arith) (λ i lt. h (suc i) (omega (arith, lt))))

pub same_run :
    (k n : ℕ) (xs ys : List ℕ)
    → length xs ≡ length ys
    → ((i : ℕ) → i < k + n → get_or xs i 0 ≡ get_or ys i 0)
    → take n (drop k xs) ≡ take n (drop k ys)
same_run zero n xs ys l h = same_take n xs ys l (λ i lt. h i (omega (arith, lt)))
same_run (suc k) n [] [] l h = refl
same_run (suc k) n [] (y ∷ ys) l h = absurd (omega arith)
same_run (suc k) n (x ∷ xs) [] l h = absurd (omega arith)
same_run (suc k) n (x ∷ xs) (y ∷ ys) l h =
    same_run k n xs ys (omega arith) (λ i lt. h (suc i) (omega (arith, lt)))

-- A room of its own is set and is not `d`; or none is set, or it is `d`.
abbrev pub IsOther : ℕ → ℕ → Type 0
IsOther room d = (1 ≤ room) × (room ≢ d)

abbrev pub IsSame : ℕ → ℕ → Type 0
IsSame room d = (room ≡ 0) ⊎ (room ≡ d)

rooms :
    (room d : ℕ) (f : List ℕ) (x y : Bridge)
    → 1 ≤ d
    → let both : List ℕ × Bridge = if other_room room d then (f, x) else (f, y) in
      IsOther room d × (both.1 ≡ x) ⊎ IsSame room d × (both.1 ≡ y)
unfolding other_room
rooms room d f x y pos = elim (Bool-cases (other_room room d)) [
  | inl other ↦ inl ((ground arith, ground arith), ground arith)
  | inr same ↦ inr (ground arith, ground arith)
]

module _ (env : Env) (now : Timespec) (output convolved fich0 fich frame : List ℕ) (d : ℕ)
    (sc : IsScratch output convolved) (hf : IsBytes frame) (tagged : is_ysfd frame ≡ true)
    (pos : 1 ≤ d) (lt : d < 256) where
  -- What the other bridge sends.
  abbrev pub stamped : List ℕ
  stamped = (ysf_fich_rewrite_dgid output convolved fich0 frame d).1

  size : length frame ≡ 155
  unfolding is_ysfd
  size = ground (arith, ==_iff (length frame) 155)

  front : (k n : ℕ) → k + n ≤ 40 → take n (drop k stamped) ≡ take n (drop k frame)
  front k n le =
      let whole =
        get_or-rewrite_dgid output convolved fich0 frame d 0 sc hf size (inl (omega arith)) in
      same_run k n stamped frame whole.1 (λ i less.
        (get_or-rewrite_dgid output convolved fich0 frame d i sc hf size
          (inl (omega (arith, le, less)))).0)

  pub stamped-is_ysfd : is_ysfd stamped ≡ true
  unfolding is_ysfd
  stamped-is_ysfd =
      let whole =
        get_or-rewrite_dgid output convolved fich0 frame d 0 sc hf size (inl (omega arith)) in
      rw (whole.1, front 0 4 (omega arith)) tagged

  module _ (synced : take 5 (drop offset_net frame) ≡ ysf_sync_word) where
    pub read_back :
        ysf_fich_decode_fields output stamped ≡ ysf_fich_decode_at output stamped offset_rx
    unfolding ysf_fich_guess_rx_offset
    read_back =
        let sync : take 5 (drop 35 stamped) ≡ ysf_sync_word = front 35 5 (omega arith) ∙ synced in
        let place : ysf_fich_guess_rx_offset stamped ≡ offset_rx =
          ap (λ (xs : List ℕ). if same_bytes xs ysf_sync_word then offset_rx else offset_net)
            sync in
        ysf_fich_decode_fields_lem output stamped ∙ ap (ysf_fich_decode_at output stamped) place

    -- A frame with the sync word that another bridge sends with its DGID, 1 to 255, is taken for
    -- what it was before it was stamped, its kind and its payload, by a bridge whose room is that
    -- DGID or which has none, and leaves a bridge of any other room as it was.
    pub rooms_apart :
        (b : Bridge)
        → let after = (bridge_on_ysfd env now output fich b stamped).1 in
          IsOther b.ysf.dgid d × (after ≡ b)
          ⊎ IsSame b.ysf.dgid d
            × (after
                ≡ on_ysf_frame env now (ysf_fich_decode_at output frame offset_rx).1.fi b stamped)
    unfolding bridge_on_ysfd
    rooms_apart b =
        let found = decode_at-rewrite_dgid output convolved fich0 frame d sc hf size pos lt in
        let rx = ysf_fich_decode_at output stamped offset_rx in
        let kept = ap (λ (f : Fields). on_ysf_frame env now f.fi b stamped) found.1 in
        let cases = rooms b.ysf.dgid d rx.0 b (on_ysf_frame env now rx.1.fi b stamped) pos in
        rw (stamped-is_ysfd, read_back, found.0)
          (elim cases [ inl other ↦ inl other | inr same ↦ inr (same.0, same.1 ∙ kept) ])
