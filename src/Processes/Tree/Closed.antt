-- ===== src/Processes/Tree/Closed.antt =====
-- The walk misses nothing, as long as it meets none of its limits.
use win_os_layer.Common.{
  ℕ, ◌+◌, ◌≤◌, ◌<◌, ◌≡◌, refl, ap, ◌∙◌, subst, inl, inr, Bool, true, false, ◌||◌, some, List, [],
  ◌∷◌, ◌++◌, arith, leb, nat_eq, if_split, Bool-cases, length, contains_nat, contains_nat-append,
  length-append, All,
}
use win_os_layer.Processes.Tree.{
  max_tree_depth, max_tree_nodes, Walk, meet, visit, round, start, descendant_pids,
}
use win_os_layer.Processes.Tree.Rules.{visit_rule, loop_rule}

-- A stack holds a process.
abbrev pending : ℕ → List (ℕ × ℕ) → Bool
pending p [] = false
pending p ((q, d) ∷ rest) = nat_eq q p || pending p rest

module _ (children : ℕ → List ℕ) (root : ℕ) where
  -- The children of what was seen were seen too, but for what waits on the stack and for what the
  -- walk is at. Where 32 processes are listed, nothing is claimed.
  record IsClosedBut (busy : ℕ → Bool) (w : Walk) : Type 0 where
    closed :
        length w.ordered < max_tree_depth
        → (x c : ℕ) → contains_nat x w.seen ≡ true
        → contains_nat c (children x) ≡ true
        → (contains_nat c w.seen || (pending x w.stack || busy x)) ≡ true
    depths : All (λ (entry : ℕ × ℕ). entry.1 ≤ length w.ordered) w.stack
    known : (c : ℕ) → contains_nat c w.seen ≡ (nat_eq root c || contains_nat c w.ordered)
    counted : w.full ≡ true → max_tree_nodes ≤ length w.ordered

  deepen :
      (n m : ℕ) (s : List (ℕ × ℕ))
      → n ≤ m
      → All (λ (entry : ℕ × ℕ). entry.1 ≤ n) s
      → All (λ (entry : ℕ × ℕ). entry.1 ≤ m) s
  deepen n m [] h a = tt
  deepen n m ((p, d) ∷ s) h a = (omega (arith, a.0), deepen n m s h a.1)

  meet-IsClosedBut :
      (busy : ℕ → Bool) (depth c : ℕ) (w : Walk)
      → depth ≤ length w.ordered
      → IsClosedBut busy w
      → IsClosedBut busy (meet depth w c)
  unfolding meet
  meet-IsClosedBut busy depth c w h b = record {
    closed = λ k x d i j. ground (
      arith,
      length-append w.ordered (c ∷ []),
      b.closed (omega (arith, k, length-append w.ordered (c ∷ []))) x d,
    );
    depths = (
      omega (arith, length-append w.ordered (c ∷ []), h),
      deepen (length w.ordered) (length (w.ordered ++ c ∷ [])) w.stack
          (omega (arith, length-append w.ordered (c ∷ []))) b.depths,
    );
    known = λ d. ground (arith, contains_nat-append d w.ordered (c ∷ []), b.known d);
    counted = λ g. ground arith;
  }

  seen_stays :
      (depth c : ℕ) (cs : List ℕ) (w : Walk)
      → w.full ≡ false
      → contains_nat c w.seen ≡ true
      → contains_nat c (visit children depth w cs).seen ≡ true
  seen_stays depth c cs w f h =
      visit_rule children (λ v. contains_nat c v.seen ≡ true) depth cs w
        (λ d v i s g q. unfold meet in ground arith) f h

  -- A visit that goes through has seen every child.
  visit_marks :
      (depth c : ℕ) (cs : List ℕ) (w : Walk)
      → w.full ≡ false
      → contains_nat c cs ≡ true
      → (visit children depth w cs).full ≡ false
      → contains_nat c (visit children depth w cs).seen ≡ true
  unfolding visit
  visit_marks depth c [] w f i g = absurd cc
  visit_marks depth c (d ∷ cs) w f i g =
      let met = meet depth w d in
      let Marks : Walk → Type 0 = λ v. v.full ≡ false → contains_nat c v.seen ≡ true in
      if_split Marks (contains_nat d w.seen) _ _
        (λ s k. elim (Bool-cases (nat_eq d c)) [
          | inl e ↦ seen_stays depth c cs w f (let e' : d ≡ c = ground arith in rw (← e') s)
          | inr e ↦ visit_marks depth c cs w f (ground arith) k
        ])
        (λ s.
          if_split Marks met.full _ _ (λ e k. absurd (ground arith))
            (λ e k. elim (Bool-cases (nat_eq d c)) [
              | inl e' ↦ seen_stays depth c cs met e (unfold meet in ground arith)
              | inr e' ↦ visit_marks depth c cs met e (ground arith) k
            ]))
        g

  -- The process that the walk is at.
  abbrev at_process : ℕ → ℕ → Bool
  at_process p x = nat_eq p x

  visit-IsClosedBut :
      (p depth : ℕ) (cs : List ℕ) (w : Walk)
      → w.full ≡ false
      → depth ≤ length w.ordered
      → IsClosedBut (at_process p) w
      → IsClosedBut (at_process p) (visit children depth w cs)
  visit-IsClosedBut p depth cs w f h b =
      (visit_rule children (λ v. (depth ≤ length v.ordered) × IsClosedBut (at_process p) v) depth cs
        w
        (λ c v i s g q. (
          unfold meet in omega (arith, q.0, length-append v.ordered (c ∷ [])),
          meet-IsClosedBut (at_process p) depth c v q.0 q.1,
        ))
        f (h, b)).1

  abbrev nothing_busy : ℕ → Bool
  nothing_busy x = false

  -- Where the walk has left a process, the process is closed too.
  leave-IsClosedBut :
      (p : ℕ) (w : Walk)
      → (length w.ordered < max_tree_depth
          → (c : ℕ) → contains_nat c (children p) ≡ true
          → contains_nat c w.seen ≡ true)
      → IsClosedBut (at_process p) w
      → IsClosedBut nothing_busy w
  leave-IsClosedBut p w done b = record {
    closed = λ k x c i j. elim (Bool-cases (nat_eq p x)) [
      | inl e ↦
          let same : p ≡ x = ground arith in
          let seen = done k c (ap (λ q. contains_nat c (children q)) same ∙ j) in ground arith
      | inr e ↦ ground (arith, b.closed k x c i j)
    ];
    depths = b.depths;
    known = b.known;
    counted = b.counted;
  }

  round-IsClosedBut :
      (w : Walk) (p d : ℕ) (rest : List (ℕ × ℕ))
      → w.stack ≡ (p, d) ∷ rest
      → w.full ≡ false
      → IsClosedBut nothing_busy w
      → IsClosedBut nothing_busy (round children w p d rest)
  unfolding round
  round-IsClosedBut w p d rest e f b =
      let depths = subst (All (λ (entry : ℕ × ℕ). entry.1 ≤ length w.ordered)) e b.depths in
      let popped : Walk = record w { stack = rest } in
      let begun : IsClosedBut (at_process p) popped = record {
        closed = λ k x c i j. ground (arith, b.closed k x c i j, ap (pending x) e);
        depths = depths.1;
        known = b.known;
        counted = b.counted;
      } in
      if_split (IsClosedBut nothing_busy) (leb max_tree_depth d) _ _
        (λ g. leave-IsClosedBut p popped (λ k. absurd ground (arith, depths.0)) begun)
        (λ g.
          let after = visit-IsClosedBut p d (children p) popped f depths.0 begun in
          leave-IsClosedBut p (visit children d popped (children p))
            (λ k c i. visit_marks d c (children p) popped f i (ground (arith, after.counted)))
            after)

  start-IsClosedBut : IsClosedBut nothing_busy (start children root)
  start-IsClosedBut = record {
    closed = λ k x c i j. ground arith;
    depths = (omega arith, tt);
    known = λ c. refl;
    counted = λ g. absurd cc;
  }

  -- A walk that returns fewer than 32 processes returns every process below the root: it holds the
  -- children of the root, and the children of each process that it holds, but for the root itself.
  pub descendant_pids-closed :
      (out : List ℕ)
      → descendant_pids children root ≡ some out
      → length out < max_tree_depth
      → (x c : ℕ) → (nat_eq root x || contains_nat x out) ≡ true
      → contains_nat c (children x) ≡ true
      → (nat_eq root c || contains_nat c out) ≡ true
  unfolding descendant_pids
  descendant_pids-closed out h =
      let (v, b, e, last) =
        loop_rule children (IsClosedBut nothing_busy) round-IsClosedBut (max_tree_nodes + 2)
          (start children root) out refl start-IsClosedBut h in
      rw e (λ k x c i j.
        let found = b.closed k x c (b.known x ∙ i) j in
        let idle : pending x v.stack ≡ false = elim last [
          | inl g ↦ absurd (omega (arith, b.counted g, k))
          | inr g ↦ ap (pending x) g
        ] in
        ground (arith, b.known c))
