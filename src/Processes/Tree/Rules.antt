-- ===== src/Processes/Tree/Rules.antt =====
-- Invariants of the walk: a step for each child that was not seen is all there is to prove.
use win_os_layer.Common.{
  ℕ, zero, suc, ◌≡◌, refl, sym, ap, ◌⊎◌, inl, inr, true, false, some, List, [], ◌∷◌, arith,
  if_split, get_or, contains_nat,
}
use win_os_layer.Processes.Tree.{Walk, meet, visit, round, loop}

pub Stack-cases :
    (s : List (ℕ × ℕ))
    → (s ≡ []) ⊎ ((p : ℕ) × (d : ℕ) × (rest : List (ℕ × ℕ)) × (s ≡ (p, d) ∷ rest))
Stack-cases [] = inl refl
Stack-cases ((p, d) ∷ rest) = inr (p, d, rest, refl)

module _ {ℓ} (children : ℕ → List ℕ) (P : Walk → Type ℓ) where
  pub visit_rule :
      (depth : ℕ) (cs : List ℕ) (w : Walk)
      → ((c : ℕ) (v : Walk)
          → contains_nat c cs ≡ true
          → contains_nat c v.seen ≡ false
          → v.full ≡ false
          → P v
          → P (meet depth v c))
      → w.full ≡ false
      → P w
      → P (visit children depth w cs)
  unfolding visit
  visit_rule depth [] w keep f p = p
  visit_rule depth (c ∷ cs) w keep f p =
      let later =
        λ (d : ℕ) (v : Walk) (i : contains_nat d cs ≡ true) (n : contains_nat d v.seen ≡ false)
            (g : v.full ≡ false) (q : P v).
          keep d v (ground arith) n g q in
      let met = meet depth w c in
      if_split P (contains_nat c w.seen) _ _ (λ s. visit_rule depth cs w later f p)
        (λ s.
          let kept = keep c w (ground arith) s f p in
          if_split P met.full _ _ (λ g. kept) (λ g. visit_rule depth cs met later g kept))

  abbrev pub Ended : List ℕ → Type ℓ
  Ended out = (v : Walk) × P v × (out ≡ v.ordered) × ((v.full ≡ true) ⊎ (v.stack ≡ []))

  -- A walk that returns has kept the invariant, and was full or had nothing left.
  pub loop_rule :
      ((w : Walk) (p d : ℕ) (rest : List (ℕ × ℕ))
        → w.stack ≡ (p, d) ∷ rest
        → w.full ≡ false
        → P w
        → P (round children w p d rest))
      → (fuel : ℕ) (w : Walk) (out : List ℕ) → w.full ≡ false
      → P w
      → loop children fuel w ≡ some out
      → Ended out
  unfolding loop
  loop_rule keep zero w out f p h = absurd cc
  loop_rule keep (suc fuel) w out f p h = elim (Stack-cases w.stack) [
    | inl e ↦ (w, p, sym (ap (get_or out) (rw (e, loop) at h)), inr e)
    | inr (q, d, rest, e) ↦
        let w' = round children w q d rest in
        let p' = keep w q d rest e f p in
        let h' = rw (e, loop) at h in
        if_split (λ o. o ≡ some out → Ended out) w'.full (some w'.ordered) (loop children fuel w')
          (λ g k. (w', p', sym (ap (get_or out) k), inl g))
          (λ g k. loop_rule keep fuel w' out g p' k) h'
  ]
