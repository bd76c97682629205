-- ===== src/Chain/Walk.antt =====
-- The loop of getBlocksFromLongestBranch on the trees of calculateDepths.
use pokoinpos.Prelude.{
  ◌≡◌, List, [], ◌∷◌, inl, inr, subst, All, ap, sym, ◌∙◌, true, false, arith, Bool-cases,
}
use pokoinpos.Prelude.Run.{done}
use pokoinpos.Text.{Text, is_empty, text_eq, text_eq_iff}
use pokoinpos.GoMap.{lookup}
use pokoinpos.Platform.{Platform}
use pokoinpos.Chain.Block.{Block, hash_text}
use pokoinpos.Chain.Tree.{Depths, Nodes, calculate_depths, get_blocks_from_longest_branch}
use pokoinpos.Chain.Acyclic.{some_inj, none-some, true-false, IsTree, walk_in_tree}
use pokoinpos.Chain.Grow.{add_nodes-IsTree}

-- What is assumed of the blocks: those that share a hash share the parent, and no hash is empty.
module _ (pf : Platform) (Known : Block → Type 0)
    (same_parent : (b c : Block)
      → Known b
      → Known c
      → hash_text pf b ≡ hash_text pf c
      → b.parent_hash ≡ c.parent_hash)
    (hash_not_empty : (b : Block) → Known b → is_empty (hash_text pf b) ≡ false) where
  -- The tree of a genesis block.
  genesis-IsTree :
      (g : Block)
      → Known g
      → is_empty g.parent_hash ≡ true
      → IsTree pf Known ((hash_text pf g, 0) ∷ []) ((hash_text pf g, g) ∷ [])
  unfolding lookup
  genesis-IsTree g k root = record {
    parent_above = λ j c found. (elim (Bool-cases (text_eq (hash_text pf g) j)) [
      | inl here ↦
          let is_g : g ≡ c = some_inj (sym (rw here) ∙ found) in
          (0, rw here, inl (subst (λ x. is_empty x.parent_hash ≡ true) is_g root))
      | inr else_ ↦ none-some (rw else_) found
    ]);
    bounded = λ j d found. ground arith;
    a_node = λ j d found. (elim (Bool-cases (text_eq (hash_text pf g) j)) [
      | inl here ↦ (g, rw here)
      | inr else_ ↦ none-some (rw else_) found
    ]);
    known = λ j c found. (elim (Bool-cases (text_eq (hash_text pf g) j)) [
      | inl here ↦
          let is_g : g ≡ c = some_inj (sym (rw here) ∙ found) in
          subst (λ x. Known x × (hash_text pf x ≡ j)) is_g
            (k, (text_eq_iff (hash_text pf g) j).0 here)
      | inr else_ ↦ none-some (rw else_) found
    ]);
    no_empty = λ j empty. (elim (Bool-cases (text_eq (hash_text pf g) j)) [
      | inl here ↦ true-false (
          sym empty
          ∙ (ap is_empty (sym ((text_eq_iff (hash_text pf g) j).0 here)) ∙ hash_not_empty g k))
      | inr else_ ↦ rw else_
    ]);
  }

  -- In a tree that calculateDepths has built from blocks of which none shares its hash with a block
  -- of another parent, where no hash is empty and the first block has no parent, the walk from any
  -- hash ends.
  pub walk_returns :
      (genesis : Block) (rest : List Block) (depths : Depths) (nodes : Nodes) (hash : Text)
      → All Known (genesis ∷ rest)
      → is_empty genesis.parent_hash ≡ true
      → calculate_depths pf (genesis ∷ rest) ≡ done (depths, nodes)
      → (blocks : List Block) × (get_blocks_from_longest_branch nodes hash ≡ done blocks)
  unfolding calculate_depths
  walk_returns genesis rest depths nodes hash k root e = walk_in_tree pf Known depths nodes hash (
      add_nodes-IsTree pf Known same_parent hash_not_empty rest ((hash_text pf genesis, 0) ∷ [])
        ((hash_text pf genesis, genesis) ∷ []) (depths, nodes) (genesis-IsTree genesis k.0 root) k.1
        e)
