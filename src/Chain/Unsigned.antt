-- ===== src/Chain/Unsigned.antt =====
-- What marshalForSignature and GetBlockHash leave out of a block: its metadata, the transactions.
use pokoinpos.Prelude.{
  ◌+◌, ◌≡◌, refl, List, [], ◌∷◌, map, ap, sym, ◌∙◌, inl, inr, true, false, Option-cases, ◌⊎◌,
}
use pokoinpos.Prelude.Run.{Run, done, panic, ◌>>=◌, Run-cases, bind-done}
use pokoinpos.Text.{Text}
use pokoinpos.GoMap.{lookup, insert}
use pokoinpos.Platform.{Platform}
use pokoinpos.Chain.Block.{
  Block, hash_text, block_authentic, get_block_hash, marshal_block, marshal_for_signature,
}
use pokoinpos.Chain.Tree.{
  Depths, Nodes, add_node, add_nodes, calculate_depths, best_leaf_hash, get_leaf_hash,
}

-- The block with other metadata.
abbrev pub with_meta : (Block → Text) → Block → Block
with_meta change b = record b { meta_data = change b }

-- The depths of a run that returns.
depths_of : Run (Depths × Nodes) → Run Depths
depths_of r = r >>= (λ t. done t.0)

leaf-depths_of :
    (r : Run (Depths × Nodes))
    → (r >>= (λ t. done (get_leaf_hash t.0)))
      ≡ (depths_of r >>= (λ depths. done (get_leaf_hash depths)))
unfolding depths_of
leaf-depths_of (done t) = refl
leaf-depths_of panic = refl

module _ (pf : Platform) (change : Block → Text) where
  hash_text-with_meta : (b : Block) → hash_text pf (with_meta change b) ≡ hash_text pf b
  unfolding hash_text get_block_hash marshal_block marshal_for_signature
  hash_text-with_meta b = refl

  block_authentic-with_meta :
      (b : Block) → block_authentic pf (with_meta change b) ≡ block_authentic pf b
  unfolding block_authentic marshal_for_signature
  block_authentic-with_meta b = refl

  -- One turn of the loop, on trees that have the same depths, gives trees that have the same depths.
  add_node-with_meta :
      (b : Block) (depths : Depths) (nodes nodes' : Nodes)
      → ((add_node pf (depths, nodes) (with_meta change b) ≡ panic)
          × (add_node pf (depths, nodes') b ≡ panic))
        ⊎ ((next : Depths) × (left : Nodes) × (right : Nodes) × (add_node pf
                (depths, nodes)
                (with_meta change b)
              ≡ done (next, left))
            × (add_node pf (depths, nodes') b ≡ done (next, right)))
  unfolding add_node
  add_node-with_meta b depths nodes nodes' = elim (Run-cases (block_authentic pf b)) [
    | inl e ↦ inl (rw (block_authentic-with_meta b, e), rw e)
    | inr (false, e) ↦ inr (depths, nodes, nodes', rw (block_authentic-with_meta b, e), rw e)
    | inr (true, e) ↦ elim (Option-cases (lookup b.parent_hash depths)) [
      | inl n ↦ inr (
        depths,
        nodes,
        nodes',
        bind-done _ (block_authentic-with_meta b ∙ e) (rw n),
        bind-done _ e (rw n),
      )
      | inr (d, n) ↦
          let next = insert (hash_text pf b) (d + 1) depths in
          inr (
            next,
            insert (hash_text pf b) (with_meta change b) nodes,
            insert (hash_text pf b) b nodes',
            bind-done _ (block_authentic-with_meta b ∙ e) (rw (n, hash_text-with_meta b)),
            bind-done _ e (rw n),
          )
    ]
  ]

  add_nodes-with_meta :
      (blocks : List Block) (depths : Depths) (nodes nodes' : Nodes)
      → depths_of (add_nodes pf (depths, nodes) (map (with_meta change) blocks))
        ≡ depths_of (add_nodes pf (depths, nodes') blocks)
  unfolding add_nodes depths_of
  add_nodes-with_meta [] depths nodes nodes' = refl
  add_nodes-with_meta (b ∷ rest) depths nodes nodes' =
      elim (add_node-with_meta b depths nodes nodes') [
        | inl (e, f) ↦ rw (e, f)
        | inr (next, left, right, e, f) ↦ rw (e, f) (add_nodes-with_meta rest next left right)
      ]

  -- Whatever metadata the blocks are given, the leaf of the longest branch stays the same.
  pub best_leaf_hash-with_meta :
      (chain : List Block)
      → best_leaf_hash pf (map (with_meta change) chain) ≡ best_leaf_hash pf chain
  unfolding best_leaf_hash calculate_depths hash_text get_block_hash marshal_block
      marshal_for_signature
  best_leaf_hash-with_meta [] = refl
  best_leaf_hash-with_meta (b ∷ rest) =
      leaf-depths_of _
      ∙ ap (λ r. r >>= (λ depths. done (get_leaf_hash depths)))
          (add_nodes-with_meta rest ((hash_text pf b, 0) ∷ [])
            ((hash_text pf b, with_meta change b) ∷ []) ((hash_text pf b, b) ∷ []))
      ∙ sym (leaf-depths_of _)
