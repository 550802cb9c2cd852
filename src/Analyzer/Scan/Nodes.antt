-- ===== src/Analyzer/Scan/Nodes.antt =====
-- The tree of folders that is shown, `buildNode`.
use volum.Base.{
  ltb, if◌then◌else◌, Bool-cases, or_else, is_some, length, All, All-imp, Text, text_eq, includes,
  text_eq_iff, ℕ, zero, suc, ◌+◌, ◌*◌, ◌≤◌, ◌<◌, ◌≡◌, refl, subst, inl, inr, Bool, true, false,
  ◌&&◌, List, [], ◌∷◌, arith,
}
use volum.Analyzer.Scan.{DiskUsageResult, TreeData, children_of}

-- `cut` stands where the fuel ran out. Percentages are a numerator and a denominator.
mutual
  pub data TreeNode : Type 0 where
    node : DiskUsageResult → Bool → Bool → ℕ × ℕ → TreeNodes → TreeNode
    cut : TreeNode

  pub data TreeNodes : Type 0 where
    nil : TreeNodes
    cons : TreeNode → TreeNodes → TreeNodes

abbrev pub percentage : ℕ → ℕ → ℕ × ℕ
percentage size_bytes total_bytes =
    if ltb 0 total_bytes then (size_bytes * 100, total_bytes) else (0, 1)

-- `children?.map((c) => buildNode(...))`
abbrev pub build_nodes : (DiskUsageResult → TreeNode) → List DiskUsageResult → TreeNodes
build_nodes build [] = TreeNodes.nil
build_nodes build (r ∷ rs) = TreeNodes.cons (build r) (build_nodes build rs)

-- `buildNode`
pub build_node : ℕ → TreeData → List Text → ℕ → DiskUsageResult → TreeNode
build_node zero tree_data expanded_paths total_bytes r = TreeNode.cut
build_node (suc fuel) tree_data expanded_paths total_bytes r =
    TreeNode.node r (includes expanded_paths r.path) (is_some (children_of tree_data r.path))
      (percentage r.size_bytes total_bytes)
      (build_nodes (build_node fuel tree_data expanded_paths total_bytes)
        (or_else (children_of tree_data r.path) []))

-- No part of the tree is cut.
mutual
  pub is_whole : TreeNode → Bool
  is_whole (TreeNode.node r expanded loaded percent children) = are_whole children
  is_whole TreeNode.cut = false

  pub are_whole : TreeNodes → Bool
  are_whole TreeNodes.nil = true
  are_whole (TreeNodes.cons n ns) = is_whole n && are_whole ns

-- What a scan answers: the contents of a folder have longer paths than the folder, and no path is
-- longer than the bound.
abbrev pub IsNested : ℕ → TreeData → Type 0
IsNested bound tree_data =
    All (λ p. All (λ r. (length p.0 < length r.path) × (length r.path ≤ bound)) p.1) tree_data

children_of-IsNested :
    (bound : ℕ) (tree_data : TreeData) (path : Text)
    → IsNested bound tree_data
    → All
        (λ r. (length path < length r.path) × (length r.path ≤ bound))
        (or_else (children_of tree_data path) [])
unfolding children_of
children_of-IsNested bound [] path h = tt
children_of-IsNested bound (p ∷ ps) path h = elim (Bool-cases (text_eq p.0 path)) [
  | inl e ↦ rw e (
      subst (λ t. All (λ r. (length t < length r.path) × (length r.path ≤ bound)) p.1)
        ((text_eq_iff p.0 path).0 e) h.0)
  | inr e ↦ rw e (children_of-IsNested bound ps path h.1)
]

are_whole-build_nodes :
    (build : DiskUsageResult → TreeNode) (rs : List DiskUsageResult)
    → All (λ r. is_whole (build r) ≡ true) rs
    → are_whole (build_nodes build rs) ≡ true
unfolding is_whole
are_whole-build_nodes build [] h = refl
are_whole-build_nodes build (r ∷ rs) h = ground (arith, h.0, are_whole-build_nodes build rs h.1)

is_whole-build_node_from :
    (fuel bound : ℕ) (tree_data : TreeData) (expanded : List Text) (total : ℕ) (r : DiskUsageResult)
    → IsNested bound tree_data
    → length r.path ≤ bound
    → bound < length r.path + fuel
    → is_whole (build_node fuel tree_data expanded total r) ≡ true
unfolding build_node is_whole
is_whole-build_node_from zero bound tree_data expanded total r h le lt =
    absurd (omega (arith, le, lt))
is_whole-build_node_from (suc fuel) bound tree_data expanded total r h le lt =
    are_whole-build_nodes (build_node fuel tree_data expanded total)
      (or_else (children_of tree_data r.path) [])
      (All-imp (λ c. (length r.path < length c.path) × (length c.path ≤ bound))
        (λ c. is_whole (build_node fuel tree_data expanded total c) ≡ true)
        (λ c k.
          is_whole-build_node_from fuel bound tree_data expanded total c h k.1
            (omega (arith, k.0, lt)))
        (or_else (children_of tree_data r.path) []) (children_of-IsNested bound tree_data r.path h))

-- Where each folder's contents have longer paths than the folder, building the tree ends: one step
-- more than the length of the longest path is enough.
pub is_whole-build_node :
    (bound : ℕ) (tree_data : TreeData) (expanded : List Text) (total : ℕ) (r : DiskUsageResult)
    → IsNested bound tree_data
    → length r.path ≤ bound
    → is_whole (build_node (suc bound) tree_data expanded total r) ≡ true
is_whole-build_node bound tree_data expanded total r h le =
    is_whole-build_node_from (suc bound) bound tree_data expanded total r h le (omega arith)
