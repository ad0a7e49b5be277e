-- ===== src/Processes/Tree/Tests.antt =====
-- Runs of the walk.
use win_os_layer.Common.{
  ℕ, ◌≤◌, ◌≡◌, refl, true, false, ◌||◌, none, some, List, [], ◌∷◌, arith, nat_eq, length,
  contains_nat, All,
}
use win_os_layer.Processes.Tree.{
  Backend, max_tree_nodes, usable_pids, listed_children, child_pids, meet, visit, round, loop,
  descendant_pids,
}
use win_os_layer.Processes.Tree.Ends.{descendant_pids_returns}
use win_os_layer.Processes.Tree.Sound.{Below, HasDistinctPids, descendant_pids-All}
use win_os_layer.Processes.Tree.Closed.{descendant_pids-closed}

-- Two children, one of which has a child and names its parent as a child too.
abbrev listing : Backend
listing = record {
  inspect_process = none;
  listing =
      (some 10, some 11)
      ∷ (some 10, some 12)
      ∷ (some 12, some 13)
      ∷ (some 12, some 10)
      ∷ (some 1, some 10)
      ∷ (some 10, none)
      ∷ (some 10, some 1)
      ∷ [];
}

abbrev below_10 : List ℕ
below_10 = 11 ∷ 12 ∷ 13 ∷ []

below_10_found : descendant_pids (child_pids listing) 10 ≡ some below_10
unfolding descendant_pids loop round visit meet child_pids usable_pids listed_children
below_10_found = refl

descendant_pids_returns_example :
    (out : List ℕ) × (descendant_pids (child_pids listing) 10 ≡ some out)
descendant_pids_returns_example = descendant_pids_returns (child_pids listing) 10

descendant_pids-All_example :
    All (Below (child_pids listing) 10) below_10
    × HasDistinctPids below_10
    × (contains_nat 10 below_10 ≡ false)
    × (length below_10 ≤ max_tree_nodes)
descendant_pids-All_example = descendant_pids-All (child_pids listing) 10 below_10 below_10_found

back_edge : contains_nat 10 (child_pids listing 12) ≡ true
unfolding child_pids usable_pids listed_children
back_edge = refl

descendant_pids-closed_example : (nat_eq 10 10 || contains_nat 10 below_10) ≡ true
descendant_pids-closed_example =
    descendant_pids-closed (child_pids listing) 10 below_10 below_10_found (omega arith) 12 10 refl
      back_edge
