-- ===== src/Processes/Tree.antt =====
-- windows_os_api/os/processes/tree.py: the processes below a process. A pid is a natural number, and
-- `none` is what `_safe_int` refuses or what is negative.
pub mod Rules
pub mod Ends
pub mod Sound
pub mod Closed
mod Tests
use win_os_layer.Common.{
  ℕ, zero, suc, ◌+◌, Bool, false, Option, none, some, List, [], ◌∷◌, ◌++◌, ltb, leb, nat_eq,
  if◌then◌else◌, get_or, length, contains_nat,
}

-- What a backend tells of the children: `inspect_process`, if it has one, gives the children of a
-- process or no dictionary; the listing has the parent and the pid of each process.
pub record Backend : Type 0 where
  pub inspect_process : Option (ℕ → Option (List (Option ℕ)))
  pub listing : List (Option ℕ × Option ℕ)

abbrev pub max_tree_depth : ℕ
max_tree_depth = 32

abbrev pub max_tree_nodes : ℕ
max_tree_nodes = 256

-- The pids above 1.
unfoldable pub usable_pids : List (Option ℕ) → List ℕ
usable_pids [] = []
usable_pids (none ∷ cs) = usable_pids cs
usable_pids (some c ∷ cs) = let rest = usable_pids cs in if ltb 1 c then c ∷ rest else rest

-- The pids of the processes whose parent is the given one.
unfoldable pub listed_children : ℕ → List (Option ℕ × Option ℕ) → List (Option ℕ)
listed_children pid [] = []
listed_children pid ((none, c) ∷ ps) = listed_children pid ps
listed_children pid ((some ppid, c) ∷ ps) =
    let rest = listed_children pid ps in if nat_eq ppid pid then c ∷ rest else rest

unfoldable pub child_pids : Backend → ℕ → List ℕ
child_pids b pid = elim b.inspect_process [
  | some inspect ↦ usable_pids (get_or [] (inspect pid))
  | none ↦ usable_pids (listed_children pid b.listing)
]

-- The loop of `descendant_pids`: the head of `stack` is its end in the code, and `full` says that the
-- loop returned from within.
pub record Walk : Type 0 where
  pub ordered : List ℕ
  pub stack : List (ℕ × ℕ)
  pub seen : List ℕ
  pub full : Bool

-- A child that was not seen.
unfoldable pub meet : ℕ → Walk → ℕ → Walk
meet depth w child = record {
  ordered = w.ordered ++ child ∷ [];
  stack = (child, depth + 1) ∷ w.stack;
  seen = child ∷ w.seen;
  full = leb max_tree_nodes (length (w.ordered ++ child ∷ []));
}

module _ (children : ℕ → List ℕ) where
  -- The loop over the children of one process.
  unfoldable pub visit : ℕ → Walk → List ℕ → Walk
  visit depth w [] = w
  visit depth w (child ∷ cs) =
      let skipped = visit depth w cs in
      let met = meet depth w child in
      let rest = visit depth met cs in
      if contains_nat child w.seen then skipped else if met.full then met else rest

  -- One round of the outer loop, for what was on top of the stack.
  unfoldable pub round : Walk → ℕ → ℕ → List (ℕ × ℕ) → Walk
  round w current depth rest =
      let popped : Walk = record w { stack = rest } in
      if leb max_tree_depth depth then popped else visit depth popped (children current)

  -- The outer loop; `none` stands for fuel that ran out.
  unfoldable pub loop : ℕ → Walk → Option (List ℕ)
  loop zero w = none
  loop (suc fuel) w = elim w.stack [
    | [] ↦ some w.ordered
    | (current, depth) ∷ rest ↦
        let w' = round w current depth rest in
        let later = loop fuel w' in if w'.full then some w'.ordered else later
  ]

  abbrev pub start : ℕ → Walk
  start pid = record { ordered = []; stack = (pid, 0) ∷ []; seen = pid ∷ []; full = false }

  -- `descendant_pids`, on the fuel that `Ends` shows to be enough.
  unfoldable pub descendant_pids : ℕ → Option (List ℕ)
  descendant_pids pid = loop (max_tree_nodes + 2) (start pid)
