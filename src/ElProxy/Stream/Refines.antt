-- ===== src/ElProxy/Stream/Refines.antt =====
-- However the stream is cut into reads, the connection ends up as if its messages had been handled
-- one by one.
pub mod Drain
use adn_bridge.ElProxy.State.{ElProxy, mark_disconnected, acc_size, msg_hdr}
use adn_bridge.ElProxy.Receive.{handle_msg, parse_loop, kind_of}
use adn_bridge.ElProxy.Send.{msg_header}
use adn_bridge.ElProxy.Frames.{
  Message, wire, wires, IsSendable, AllSendable, handle_all, with_acc, kept_acc, handle-acc,
}
use adn_bridge.ElProxy.Stream.{
  Going, Ended, parse-short, cut_here, cut_on, drop-append_past, partial_stops, whole_taken, alone,
  length-wire, full, Bool, ℕ, List, take, length, suc, arith, inl, Bool-cases, inr, [], drop, ltb,
  ap,
}
use adn_bridge.Prelude.{
  if◌then◌else◌, true, false, Bool, ℕ, List, take, ◌⊎◌, ◌≡◌, ◌≤◌, length, ◌<◌, suc, ◌∷◌, ◌++◌,
  arith, inl, Bool-cases, length-take, subst, length-append, sym, refl, [], drop, ◌-◌, ltb, ltb→lt,
  ap, ◌∙◌, zero,
}

-- The state behind a parse of the first `n` bytes.
abbrev pub parsed : Bool → ℕ → ℕ → List Message → ℕ → ElProxy → ElProxy
parsed cb now fuel ms n px = parse_loop fuel cb now (with_acc px (take n (wires ms)))

abbrev pub Result : Bool → ℕ → ℕ → List Message → ℕ → ElProxy → Type 0
Result cb now fuel ms n px =
    Going cb now ms n px (parsed cb now fuel ms n px)
    ⊎ Ended cb now ms px (parsed cb now fuel ms n px)

abbrev nine_of : ℕ → ℕ
nine_of j = suc (suc (suc (suc (suc (suc (suc (suc (suc j))))))))

-- The first message, of which the header is there; `ih` is what a parse of the others does.
module _ (cb : Bool) (now fuel : ℕ) (px : ElProxy) (m : Message) (ms : List Message)
    (s : IsSendable m) (all : AllSendable ms) (up : px.ready ≡ true)
    (ih : (n : ℕ) (q : ElProxy)
      → q.ready ≡ true
      → n ≤ length (wires ms)
      → n < fuel
      → Result cb now fuel ms n q) where
  length-tail :
      (j : ℕ) → nine_of j ≤ length (wires (m ∷ ms)) → length (take j (m.body ++ wires ms)) ≡ j
  length-tail j le = omega (
    arith,
    length-take j (m.body ++ wires ms),
    length-append m.body (wires ms),
    length-append (wire m) (wires ms),
    length-wire m,
  )

  part_lands :
      (j : ℕ)
      → j < length m.body
      → nine_of j ≤ length (wires (m ∷ ms))
      → Result cb now (suc fuel) (m ∷ ms) (nine_of j) px
  unfolding msg_header
  part_lands j lt le =
      let fits = s.fits in
      let stop = partial_stops cb now fuel px m s up j (m.body ++ wires ms) lt (length-tail j le) in
      inl (
        subst (λ (q : ElProxy). Going cb now (m ∷ ms) (nine_of j) px q) (sym stop)
          (cut_here cb now (m ∷ ms) (nine_of j) px up (s, all) le (omega arith)
            (omega (arith, length-wire m))))

  -- The message handled on an empty buffer leaves it empty.
  abbrev first : ElProxy
  first = handle_msg cb now (with_acc px []) m.type m.remote m.body

  first_empty : first.ready ≡ true → first ≡ with_acc first []
  unfolding handle_msg
  first_empty on =
      handle-acc cb now (with_acc px []) [] (kind_of m.type) m.remote m.body up ∙ rw on refl

  first_then :
      first.ready ≡ true
      → handle_all cb now (m ∷ ms) (with_acc px []) ≡ handle_all cb now ms (with_acc first [])
  unfolding handle_all
  first_then on =
      ap (λ (c : Bool). if c then handle_all cb now ms first else first) on
      ∙ ap (handle_all cb now ms) (first_empty on)

  first_last : first.ready ≡ false → handle_all cb now (m ∷ ms) (with_acc px []) ≡ first
  unfolding handle_all
  first_last off = ap (λ (c : Bool). if c then handle_all cb now ms first else first) off

  -- With the message handled: the connection is over, or the parse goes on with the others.
  module _ (j : ℕ) (le : length m.body ≤ j) (within : nine_of j ≤ length (wires (m ∷ ms)))
      (lt : nine_of j < suc fuel) where
    step :
        parsed cb now (suc fuel) (m ∷ ms) (nine_of j) px
        ≡ (if first.ready then parsed cb now fuel ms (j - length m.body) first else first)
    unfolding msg_header
    step =
        whole_taken cb now fuel px m s up j (m.body ++ wires ms) (wires ms) refl le
          (length-tail j within)

    input : drop (nine_of j) (wires (m ∷ ms)) ≡ drop (j - length m.body) (wires ms)
    unfolding msg_header
    input = drop-append_past m.body (wires ms) j le

    rest_within : j - length m.body ≤ length (wires ms)
    rest_within =
        omega
          (arith, length-append m.body (wires ms), length-append (wire m) (wires ms), length-wire m)

    whole_lands : Result cb now (suc fuel) (m ∷ ms) (nine_of j) px
    whole_lands = elim (Bool-cases first.ready) [
      | inl on ↦
          let there : parsed cb now (suc fuel) (m ∷ ms) (nine_of j) px
              ≡ parsed cb now fuel ms (j - length m.body) first =
            step ∙ rw on refl in
          subst
            (λ (q : ElProxy). Going cb now (m ∷ ms) (nine_of j) px q ⊎ Ended cb now (m ∷ ms) px q)
            (sym there)
            (cut_on cb now (m ∷ ms) ms (nine_of j) (j - length m.body) px first _ input
              (first_then on) (ih (j - length m.body) first on rest_within (omega arith)))
      | inr off ↦
          let there : parsed cb now (suc fuel) (m ∷ ms) (nine_of j) px ≡ first =
            step ∙ rw off refl in
          inr (ap (λ (q : ElProxy). q.ready) there ∙ off, first_last off ∙ sym there)
    ]

pub parse_lands :
    (cb : Bool) (now : ℕ) (ms : List Message) (fuel n : ℕ) (px : ElProxy)
    → AllSendable ms
    → px.ready ≡ true
    → n ≤ length (wires ms)
    → n < fuel
    → Result cb now fuel ms n px
parse_lands cb now ms zero n px all up le lt = absurd (omega arith)
parse_lands cb now [] (suc fuel) n px all up le lt =
    let none_left : n ≡ 0 = omega arith in
    subst (λ (k : ℕ). Result cb now (suc fuel) [] k px) (sym none_left)
      (inl (
        subst (λ (q : ElProxy). Going cb now [] 0 px q)
          (sym (parse-short cb now fuel (with_acc px []) refl))
          (cut_here cb now [] 0 px up tt (omega arith) (omega arith) tt)))
parse_lands cb now (m ∷ ms) (suc fuel) n px all up le lt = elim (Bool-cases (ltb n 9)) [
  | inl short ↦
      let few : ltb (length (take n (wires (m ∷ ms)))) msg_hdr ≡ true =
        ground (arith, length-take n (wires (m ∷ ms))) in
      let small : n < 9 = ltb→lt n 9 short in
      inl (
        subst (λ (q : ElProxy). Going cb now (m ∷ ms) n px q)
          (sym (parse-short cb now fuel (with_acc px (take n (wires (m ∷ ms)))) few))
          (cut_here cb now (m ∷ ms) n px up all le (omega arith) (omega (arith, length-wire m))))
  | inr long ↦
      let ih =
        λ (k : ℕ) (q : ElProxy) (on : q.ready ≡ true) (w : k ≤ length (wires ms)) (f : k < fuel).
          parse_lands cb now ms fuel k q all.1 on w f in
      let shape : n ≡ nine_of (n - 9) = ground arith in
      subst (λ (k : ℕ). Result cb now (suc fuel) (m ∷ ms) k px) (sym shape)
        (elim (Bool-cases (ltb (n - 9) (length m.body))) [
          | inl part ↦
              part_lands cb now fuel px m ms all.0 all.1 up ih (n - 9) (ltb→lt _ _ part)
                (omega arith)
          | inr whole ↦
              whole_lands cb now fuel px m ms all.0 all.1 up ih (n - 9) (ground arith) (omega arith)
                (omega arith)
        ])
]
