-- ===== src/Processes/Tree/Ends.antt =====
-- The walk ends: a round takes one process off the stack, and puts there only what it lists anew.
use win_os_layer.Common.{
  ℕ, zero, suc, ◌+◌, ◌-◌, ◌≤◌, ◌<◌, ◌≡◌, refl, ap, ◌∙◌, inl, inr, false, Option, some, List, [],
  ◌∷◌, arith, leb, if◌then◌else◌, if_rule, if_split, length, length-append,
}
use win_os_layer.Processes.Tree.{
  max_tree_depth, max_tree_nodes, Walk, meet, round, loop, start, descendant_pids,
}
use win_os_layer.Processes.Tree.Rules.{Stack-cases, visit_rule}

-- What is on the stack and what may still be listed.
abbrev work : Walk → ℕ
work w = length w.stack + (max_tree_nodes - length w.ordered)

record IsBounded (n : ℕ) (w : Walk) : Type 0 where
  room : w.full ≡ false → length w.ordered < max_tree_nodes
  left : work w ≤ n

meet-IsBounded :
    (n depth c : ℕ) (w : Walk) → w.full ≡ false → IsBounded n w → IsBounded n (meet depth w c)
unfolding meet
meet-IsBounded n depth c w f b = record {
  room = λ g. ground (arith, length-append w.ordered (c ∷ []), b.room f);
  left = omega (arith, length-append w.ordered (c ∷ []), b.room f, b.left);
}

abbrev pub Returns : Option (List ℕ) → Type 0
Returns o = (out : List ℕ) × (o ≡ some out)

module _ (children : ℕ → List ℕ) where
  round-IsBounded :
      (w : Walk) (p d : ℕ) (rest : List (ℕ × ℕ)) (n : ℕ)
      → w.stack ≡ (p, d) ∷ rest
      → w.full ≡ false
      → IsBounded (suc n) w
      → IsBounded n (round children w p d rest)
  unfolding round
  round-IsBounded w p d rest n e f b =
      let popped : Walk = record w { stack = rest } in
      let bounded : IsBounded n popped = record {
        room = b.room;
        left = omega (arith, ap length e, b.left);
      } in
      if_rule (IsBounded n) (leb max_tree_depth d) _ _ bounded (
        visit_rule children (IsBounded n) d (children p) popped
          (λ c v i s g q. meet-IsBounded n d c v g q) f bounded)

  loop_ends :
      (fuel : ℕ) (w : Walk)
      → w.full ≡ false
      → IsBounded fuel w
      → Returns (loop children (suc fuel) w)
  unfolding loop round
  loop_ends zero w f b = elim (Stack-cases w.stack) [
    | inl e ↦ (w.ordered, rw (e, loop) refl)
    | inr (p, d, rest, e) ↦ absurd (omega (arith, ap length e, b.left))
  ]
  loop_ends (suc fuel) w f b = elim (Stack-cases w.stack) [
    | inl e ↦ (w.ordered, rw (e, loop) refl)
    | inr (p, d, rest, e) ↦
        let w' = round children w p d rest in
        let after : Returns (if w'.full then some w'.ordered else loop children (suc fuel) w') =
          if_split Returns w'.full (some w'.ordered) (loop children (suc fuel) w')
            (λ g. (w'.ordered, refl))
            (λ g. loop_ends fuel w' g (round-IsBounded w p d rest fuel e f b)) in
        let opened : loop children (suc (suc fuel)) w
            ≡ (if w'.full then some w'.ordered else loop children (suc fuel) w') =
          rw (e, loop) refl in
        (after.0, opened ∙ after.1)
  ]

  -- Whatever the backend says of the children, the walk below a process ends.
  pub descendant_pids_returns :
      (pid : ℕ) → (out : List ℕ) × (descendant_pids children pid ≡ some out)
  unfolding descendant_pids
  descendant_pids_returns pid =
      loop_ends (max_tree_nodes + 1) (start children pid) refl
        (record { room = λ g. omega arith; left = omega arith })
