-- ===== src/Chain/Tree.antt =====
-- The tree of blocks: the valid nodes with their depths, the leaf of the longest branch, and the walk
-- from a leaf back to the genesis block.
use pokoinpos.Prelude.{
  ℕ, zero, suc, ◌+◌, ◌-◌, true, false, Option, none, some, List, [], ◌∷◌, if◌then◌else◌, length,
  take, map, reverse, ltb, ◌==◌, ◌&&◌,
}
use pokoinpos.Prelude.Int.{ℤ, pos, leb_ℤ, ltb_ℤ, pos_part}
use pokoinpos.Prelude.Run.{Run, done, panic, ◌>>=◌}
use pokoinpos.Text.{Text, is_empty, text_ltb}
use pokoinpos.GoMap.{Map, lookup, insert}
use pokoinpos.Platform.{Platform}
use pokoinpos.Chain.Block.{Block, hash_text, block_authentic}

-- `!exists` and `exists` of a map that holds the depths.
abbrev pub Depths : Type 0
Depths = Map ℕ

abbrev pub Nodes : Type 0
Nodes = Map Block

-- One step of getLeafHash. `none` is the pair of -1 and "" that the loop starts from.
unfoldable pub better_leaf : Option (ℕ × Text) → Text → ℕ → Option (ℕ × Text)
better_leaf none hash depth = some (depth, hash)
better_leaf (some (max_depth, leaf)) hash depth =
    if ltb max_depth depth
    then some (depth, hash)
    else if (depth == max_depth) && text_ltb hash leaf
    then some (max_depth, hash)
    else some (max_depth, leaf)

unfoldable pub fold_leaves : Depths → Option (ℕ × Text) → Option (ℕ × Text)
fold_leaves [] best = best
fold_leaves ((hash, depth) ∷ rest) best = fold_leaves rest (better_leaf best hash depth)

unfoldable pub get_leaf_hash : Depths → Text
get_leaf_hash depths = elim (fold_leaves depths none) [ none ↦ [] | some (depth, leaf) ↦ leaf ]

-- The loop that walks from a hash back to the block without a parent. It stops early at a hash that is
-- no node, and takes the nodes from the leaf to the genesis block.
unfoldable pub walk : ℕ → Nodes → Text → Run (List Block)
walk zero nodes next = panic
walk (suc fuel) nodes next = if is_empty next then done [] else elim (lookup next nodes) [
  | none ↦ done []
  | some node ↦ do rest ← walk fuel nodes node.parent_hash; done (node ∷ rest)
]

-- getBlocksFromLongestBranch, and the first half of buildLedgerAtHash.
unfoldable pub get_blocks_from_longest_branch : Nodes → Text → Run (List Block)
get_blocks_from_longest_branch nodes leaf = do
  blocks ← walk (length nodes + 2) nodes leaf
  done (reverse blocks)

-- getMetaFromLongestBranch: the same walk, which takes the metadata.
unfoldable pub get_meta_from_longest_branch : Nodes → Text → Run (List Text)
get_meta_from_longest_branch nodes leaf = do
  blocks ← walk (length nodes + 2) nodes leaf
  done (reverse (map (λ b. b.meta_data) blocks))

-- The lines of CanonicalBlocks and LedgerFromBlockchain that drop the latest blocks.
unfoldable pub cut_rollback : ℤ → List Block → List Block
cut_rollback rollback blocks =
    if ltb_ℤ (pos 0) rollback && ltb_ℤ rollback (pos (length blocks))
    then take (length blocks - pos_part rollback) blocks
    else if leb_ℤ (pos (length blocks)) rollback
    then take 1 blocks
    else blocks

-- The loop of getGenesisHash.
unfoldable pub get_genesis_hash : Nodes → Text
get_genesis_hash [] = []
get_genesis_hash ((hash, b) ∷ rest) = if is_empty b.parent_hash then hash else get_genesis_hash rest

unfoldable pub max_depth_of : Depths → ℕ → ℕ
max_depth_of [] m = m
max_depth_of ((hash, depth) ∷ rest) m = max_depth_of rest (if ltb m depth then depth else m)

module _ (pf : Platform) where
  -- One turn of the loop of calculateDepths.
  unfoldable pub add_node : Depths × Nodes → Block → Run (Depths × Nodes)
  add_node (depths, nodes) b = do
    valid ← block_authentic pf b
    elim valid [
      | false ↦ done (depths, nodes)
      | true ↦ elim (lookup b.parent_hash depths) [
        | none ↦ done (depths, nodes)
        | some parent_depth ↦
            done
              (insert (hash_text pf b) (parent_depth + 1) depths, insert (hash_text pf b) b nodes)
      ]
    ]

  unfoldable pub add_nodes : Depths × Nodes → List Block → Run (Depths × Nodes)
  add_nodes tree [] = done tree
  add_nodes tree (b ∷ rest) = do next ← add_node tree b; add_nodes next rest

  -- A chain without blocks is indexed out of range.
  unfoldable pub calculate_depths : List Block → Run (Depths × Nodes)
  calculate_depths [] = panic
  calculate_depths (genesis ∷ rest) =
      add_nodes ((hash_text pf genesis, 0) ∷ [], (hash_text pf genesis, genesis) ∷ []) rest

  unfoldable pub canonical_blocks : List Block → ℤ → Run (List Block)
  canonical_blocks chain rollback = do
    (depths, nodes) ← calculate_depths chain
    blocks ← get_blocks_from_longest_branch nodes (get_leaf_hash depths)
    done (cut_rollback rollback blocks)

  unfoldable pub best_leaf_hash : List Block → Run Text
  best_leaf_hash chain = do (depths, nodes) ← calculate_depths chain; done (get_leaf_hash depths)

  unfoldable pub best_height : List Block → Run ℕ
  best_height chain = do (depths, nodes) ← calculate_depths chain; done (max_depth_of depths 0)

  unfoldable pub get_current_transactions : List Block → ℤ → Run (List Text)
  get_current_transactions chain rollback = do
    (depths, nodes) ← calculate_depths chain
    meta ← get_meta_from_longest_branch nodes (get_leaf_hash depths)
    done (
        if leb_ℤ rollback (pos 0)
        then meta
        else if leb_ℤ (pos (length meta)) rollback
        then []
        else take (length meta - pos_part rollback) meta)

-- ReplaceBlocks: no blocks replace nothing.
unfoldable pub replace_blocks : List Block → List Block → List Block
replace_blocks chain blocks = if length blocks == 0 then chain else blocks
