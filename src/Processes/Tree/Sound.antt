-- ===== src/Processes/Tree/Sound.antt =====
-- What the walk returns lies below the process.
use win_os_layer.Common.{
  ℕ, ◌+◌, ◌≤◌, ◌<◌, ◌≡◌, refl, sym, ap, ◌∙◌, subst, ◌⊎◌, inl, inr, true, false, ◌||◌, some, List,
  [], ◌∷◌, ◌++◌, arith, leb, nat_eq, if_rule, length, contains_nat, contains_nat-append,
  length-append, All, All-append,
}
use win_os_layer.Processes.Tree.{
  max_tree_depth, max_tree_nodes, Walk, meet, round, start, descendant_pids,
}
use win_os_layer.Processes.Tree.Rules.{visit_rule, loop_rule}

-- A process lies below another: a child of it, or of one that lies below.
pub data Below (children : ℕ → List ℕ) (root : ℕ) : ℕ → Type 0 where
  child : {c : ℕ} → contains_nat c (children root) ≡ true → Below children root c
  deeper :
      {p c : ℕ} → Below children root p → contains_nat c (children p) ≡ true → Below children root c

-- No pid stands twice.
abbrev pub HasDistinctPids : List ℕ → Type 0
HasDistinctPids [] = Unit
HasDistinctPids (p ∷ ps) = (contains_nat p ps ≡ false) × HasDistinctPids ps

append-HasDistinctPids :
    (ps : List ℕ) (c : ℕ)
    → contains_nat c ps ≡ false
    → HasDistinctPids ps
    → HasDistinctPids (ps ++ c ∷ [])
append-HasDistinctPids [] c f h = (refl, tt)
append-HasDistinctPids (p ∷ ps) c f h = (
  ground (arith, contains_nat-append p ps (c ∷ []), h.0),
  append-HasDistinctPids ps c (ground arith) h.1,
)

module _ (children : ℕ → List ℕ) (root : ℕ) where
  -- The root, or below it.
  abbrev Within : ℕ → Type 0
  Within p = (p ≡ root) ⊎ Below children root p

  record IsSound (w : Walk) : Type 0 where
    below : All (Below children root) w.ordered
    pending : All (λ (entry : ℕ × ℕ). Within entry.0) w.stack
    distinct : HasDistinctPids w.ordered
    known : (c : ℕ) → contains_nat c w.seen ≡ (nat_eq root c || contains_nat c w.ordered)
    rootless : contains_nat root w.ordered ≡ false
    room : length w.ordered ≤ max_tree_nodes
    open_room : w.full ≡ false → length w.ordered < max_tree_nodes

  Within-Below : (p c : ℕ) → Within p → contains_nat c (children p) ≡ true → Below children root c
  Within-Below p c (inl e) h = child (ap (λ q. contains_nat c (children q)) (sym e) ∙ h)
  Within-Below p c (inr b) h = deeper b h

  meet-IsSound :
      (p depth c : ℕ) (w : Walk)
      → Within p
      → contains_nat c (children p) ≡ true
      → contains_nat c w.seen ≡ false
      → w.full ≡ false
      → IsSound w
      → IsSound (meet depth w c)
  unfolding meet
  meet-IsSound p depth c w at i s f b =
      let lower = Within-Below p c at i in
      record {
        below = All-append (Below children root) w.ordered (c ∷ []) b.below (lower, tt);
        pending = (inr lower, b.pending);
        distinct = append-HasDistinctPids w.ordered c (ground (arith, b.known c)) b.distinct;
        known = λ d. ground (arith, contains_nat-append d w.ordered (c ∷ []), b.known d);
        rootless =
            ground (arith, contains_nat-append root w.ordered (c ∷ []), b.rootless, b.known c);
        room = omega (arith, length-append w.ordered (c ∷ []), b.open_room f);
        open_room = λ g. ground (arith, length-append w.ordered (c ∷ []), b.open_room f);
      }

  round-IsSound :
      (w : Walk) (p d : ℕ) (rest : List (ℕ × ℕ))
      → w.stack ≡ (p, d) ∷ rest
      → w.full ≡ false
      → IsSound w
      → IsSound (round children w p d rest)
  unfolding round
  round-IsSound w p d rest e f b =
      let stacked = subst (All (λ (entry : ℕ × ℕ). Within entry.0)) e b.pending in
      let popped : Walk = record w { stack = rest } in
      let sound : IsSound popped = record {
        below = b.below;
        pending = stacked.1;
        distinct = b.distinct;
        known = b.known;
        rootless = b.rootless;
        room = b.room;
        open_room = b.open_room;
      } in
      if_rule IsSound (leb max_tree_depth d) _ _ sound (
        visit_rule children IsSound d (children p) popped
          (λ c v i s g q. meet-IsSound p d c v stacked.0 i s g q) f sound)

  start-IsSound : IsSound (start children root)
  start-IsSound = record {
    below = tt;
    pending = (inl refl, tt);
    distinct = tt;
    known = λ c. refl;
    rootless = refl;
    room = omega arith;
    open_room = λ g. omega arith;
  }

  -- What the walk returns: processes below the root, none twice, the root not among them, and no
  -- more than the maximum.
  pub descendant_pids-All :
      (out : List ℕ)
      → descendant_pids children root ≡ some out
      → All (Below children root) out
        × HasDistinctPids out
        × (contains_nat root out ≡ false)
        × (length out ≤ max_tree_nodes)
  unfolding descendant_pids
  descendant_pids-All out h =
      let (v, b, e, last) =
        loop_rule children IsSound round-IsSound (max_tree_nodes + 2) (start children root) out refl
          start-IsSound h in
      rw e (b.below, b.distinct, b.rootless, b.room)
