-- ===== src/ElProxy/Directory.antt =====
-- The directory buffer is a queue: what is read from it is what came in, in order.
use adn_bridge.ElProxy.State.{ElProxy, mark_disconnected}
use adn_bridge.ElProxy.Receive.{compact_dir_rx, dir_rx_append}
use adn_bridge.ElProxy.Channel.{take_dir_rx}
use adn_bridge.Prelude.{
  ◌∷◌, [], true, false, List, ◌≤◌, ℕ, ◌≡◌, drop, length, ◌++◌, [], Bool-cases, ◌⊎◌, ltb, inl, inr,
  sym, arith, ◌==◌, ap, ◌-◌, refl, append-nil, length-take, length-drop, ◌∙◌, leb, append_assoc,
  ◌+◌, take, take-all, drop-drop, take-drop,
}

-- What came in and is not yet read.
abbrev pub pending : ElProxy → List ℕ
pending px = drop px.dir_rx_r px.dir_rx

-- The reading place is inside the buffer.
abbrev pub IsInside : ElProxy → Type 0
IsInside px = px.dir_rx_r ≤ length px.dir_rx

pub data Use : Type 0 where
  incoming : List ℕ → Use
  outgoing : ℕ → Use

-- A run of uses: what was read, and the connection.
unfoldable pub use_dir_rx : ℕ → List Use → ElProxy → List ℕ × ElProxy
use_dir_rx now [] px = ([], px)
use_dir_rx now (incoming bytes ∷ us) px = use_dir_rx now us (dir_rx_append px bytes now)
use_dir_rx now (outgoing n ∷ us) px =
    let (got, p1) = take_dir_rx n px in let (more, p2) = use_dir_rx now us p1 in (got ++ more, p2)

abbrev pub all_incoming : List Use → List ℕ
all_incoming [] = []
all_incoming (incoming bytes ∷ us) = bytes ++ all_incoming us
all_incoming (outgoing n ∷ us) = all_incoming us

compact_facts :
    (px : ElProxy)
    → ((compact_dir_rx px).dir_rx ≡ pending px)
      × ((compact_dir_rx px).dir_rx_r ≡ 0)
      × ((compact_dir_rx px).ready ≡ px.ready)
unfolding compact_dir_rx
compact_facts px = elim (Bool-cases (ltb 0 px.dir_rx_r)) [
  | inl moved ↦ rw moved (refl, refl, refl)
  | inr still ↦
      let start : px.dir_rx_r ≡ 0 = ground arith in
      rw still (ap (λ (r : ℕ). drop r px.dir_rx) (sym start), start, refl)
]

-- What arrives goes to the end, or the connection is given up.
append_queue :
    (px : ElProxy) (bytes : List ℕ) (now : ℕ)
    → IsInside px
    → (pending (dir_rx_append px bytes now) ≡ pending px ++ bytes)
        × IsInside (dir_rx_append px bytes now)
      ⊎ ((dir_rx_append px bytes now).ready ≡ false)
unfolding dir_rx_append mark_disconnected
append_queue px [] now h = inl (sym (append-nil (pending px)), h)
append_queue px (x ∷ xs) now h =
    let c = compact_facts px in
    elim (Bool-cases (px.dir_rx_cap == 0)) [
      | inl none ↦ inr (rw none refl)
      | inr cap ↦
          elim (Bool-cases (
            ltb ((compact_dir_rx px).dir_rx_cap - length (compact_dir_rx px).dir_rx)
              (length (x ∷ xs)))) [
                | inl full ↦ inr (rw (cap, full) refl)
                | inr fits ↦ inl (rw (cap, fits, c.1) (rw c.0 refl, omega arith))
              ]
    ]

-- What is read comes off the front.
take_queue :
    (n : ℕ) (px : ElProxy)
    → IsInside px
    → ((take_dir_rx n px).0 ++ pending (take_dir_rx n px).1 ≡ pending px)
      × IsInside (take_dir_rx n px).1
      × ((take_dir_rx n px).1.ready ≡ px.ready)
unfolding take_dir_rx
take_queue n px h =
    let size = length-take n (pending px) in
    let whole = length-drop px.dir_rx_r px.dir_rx in
    elim (Bool-cases (leb (length px.dir_rx) (px.dir_rx_r + length (take n (pending px))))) [
      | inl empty ↦
          let enough : length (pending px) ≤ n = ground (arith, size, whole) in
          rw empty
            (append-nil (take n (pending px)) ∙ take-all n (pending px) enough, omega arith, refl)
      | inr more ↦
          let exact : length (take n (pending px)) ≡ n = ground (arith, size, whole) in
          let inside : px.dir_rx_r + n ≤ length px.dir_rx = ground (arith, size, whole) in
          rw (more, exact)
            (
              ap (λ (t : List ℕ). take n (pending px) ++ t)
                    (sym (drop-drop px.dir_rx_r n px.dir_rx))
                  ∙ take-drop n (pending px),
              inside,
              refl,
            )
    ]

stays_down :
    (now : ℕ) (us : List Use) (px : ElProxy)
    → px.ready ≡ false
    → (use_dir_rx now us px).1.ready ≡ false
unfolding use_dir_rx dir_rx_append mark_disconnected compact_dir_rx take_dir_rx
stays_down now [] px h = h
stays_down now (incoming [] ∷ us) px h = stays_down now us px h
stays_down now (incoming (x ∷ xs) ∷ us) px h = stays_down now us _ (ground arith)
stays_down now (outgoing n ∷ us) px h = stays_down now us _ (ground arith)

-- Whatever comes in from the directory and however it is read, what was read followed by what is
-- not yet read is what was there followed by what came in, where the connection is still up at the
-- end and the reading place was inside the buffer.
pub directory_fifo :
    (now : ℕ) (us : List Use) (px : ElProxy)
    → IsInside px
    → (use_dir_rx now us px).1.ready ≡ true
    → (use_dir_rx now us px).0 ++ pending (use_dir_rx now us px).1 ≡ pending px ++ all_incoming us
unfolding use_dir_rx
directory_fifo now [] px h up = sym (append-nil (pending px))
directory_fifo now (incoming bytes ∷ us) px h up = elim (append_queue px bytes now h) [
  | inl (queued, inside) ↦
      directory_fifo now us (dir_rx_append px bytes now) inside up
      ∙ ap (λ (t : List ℕ). t ++ all_incoming us) queued
      ∙ append_assoc (pending px) bytes (all_incoming us)
  | inr down ↦ absurd (ground (arith, stays_down now us (dir_rx_append px bytes now) down))
]
directory_fifo now (outgoing n ∷ us) px h up =
    let t = take_queue n px h in
    let rest = directory_fifo now us (take_dir_rx n px).1 t.1 up in
    append_assoc (take_dir_rx n px).0 (use_dir_rx now us (take_dir_rx n px).1).0 _
    ∙ ap (λ (x : List ℕ). (take_dir_rx n px).0 ++ x) rest
    ∙ sym (append_assoc (take_dir_rx n px).0 (pending (take_dir_rx n px).1) (all_incoming us))
    ∙ ap (λ (x : List ℕ). x ++ all_incoming us) t.0
