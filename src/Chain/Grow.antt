-- ===== src/Chain/Grow.antt =====
-- A turn of the loop of calculateDepths on a tree without cycles.
use pokoinpos.Prelude.{
  ℕ, ◌+◌, ◌≤◌, ◌<◌, ◌≡◌, refl, none, some, List, [], ◌∷◌, inl, inr, length, subst, All, ap, sym,
  ◌∙◌, true, false, arith, Option-cases, Bool-cases,
}
use pokoinpos.Prelude.Run.{done, >>=-eq-done, Run-cases, bind-done}
use pokoinpos.Text.{Text, is_empty, text_eq, text_eq_iff}
use pokoinpos.GoMap.{lookup, insert}
use pokoinpos.Platform.{Platform}
use pokoinpos.Chain.Block.{Block, hash_text, block_authentic}
use pokoinpos.Chain.Tree.{Depths, Nodes, add_node, add_nodes}
use pokoinpos.Chain.Acyclic.{
  HasParent, some_inj, none-some, true-false, done_inj, done-panic, length-insert_new,
  length-insert_old, lookup-insert_here, lookup-insert_else, IsTree,
}

-- What is assumed of the blocks: those that share a hash share the parent, and no hash is empty.
module _ (pf : Platform) (Known : Block → Type 0)
    (same_parent : (b c : Block)
      → Known b
      → Known c
      → hash_text pf b ≡ hash_text pf c
      → b.parent_hash ≡ c.parent_hash)
    (hash_not_empty : (b : Block) → Known b → is_empty (hash_text pf b) ≡ false) where
  module _ (depths : Depths) (nodes : Nodes) (b : Block) (p : ℕ) (t : IsTree pf Known depths nodes)
      (k : Known b) (e : lookup b.parent_hash depths ≡ some p) where
    again :
        (c : Block)
        → lookup (hash_text pf b) nodes ≡ some c
        → lookup (hash_text pf b) depths ≡ some (p + 1)
    again c found =
        let (kc, hc) = t.known (hash_text pf b) c found in
        let parent : c.parent_hash ≡ b.parent_hash = same_parent c b kc k hc in
        let (d, ed, above) = t.parent_above (hash_text pf b) c found in
        elim above [
          | inl top ↦ none-some (t.no_empty b.parent_hash (ap is_empty (sym parent) ∙ top)) e
          | inr (q, eq, deeper) ↦
              let same : p ≡ q = some_inj (sym e ∙ (ap (λ h. lookup h depths) (sym parent) ∙ eq)) in
              ed ∙ ap some (deeper ∙ ap (λ n. n + 1) (sym same))
        ]

    abbrev h : Text
    h = hash_text pf b

    abbrev depths' : Depths
    depths' = insert h (p + 1) depths

    abbrev nodes' : Nodes
    nodes' = insert h b nodes

    -- A depth that is known stays.
    keeps : (j : Text) (d : ℕ) → lookup j depths ≡ some d → lookup j depths' ≡ some d
    keeps j d ej = elim (Bool-cases (text_eq h j)) [
      | inl here ↦
          let at_h : lookup h depths ≡ some d =
            ap (λ i. lookup i depths) ((text_eq_iff h j).0 here) ∙ ej in
          let (c, found) = t.a_node h d at_h in
          lookup-insert_here h j (p + 1) depths here ∙ (sym (again c found) ∙ at_h)
      | inr else_ ↦ lookup-insert_else h j (p + 1) depths else_ ∙ ej
    ]

    above_kept : (c : Block) (d : ℕ) → HasParent depths c d → HasParent depths' c d
    above_kept c d (inl top) = inl top
    above_kept c d (inr (q, eq, deeper)) = inr (q, keeps c.parent_hash q eq, deeper)

    length_grows : length nodes ≤ length nodes'
    length_grows = elim (Option-cases (lookup h nodes)) [
      | inl new ↦ omega (arith, length-insert_new h b nodes new)
      | inr (c, old) ↦ omega (arith, length-insert_old h b c nodes old)
    ]

    new_bounded : p + 1 < length nodes'
    new_bounded = elim (Option-cases (lookup h nodes)) [
      | inl new ↦ omega (arith, length-insert_new h b nodes new, t.bounded b.parent_hash p e)
      | inr (c, old) ↦ omega (arith, t.bounded h (p + 1) (again c old), length_grows)
    ]

    parent_above' :
        (j : Text) (c : Block)
        → lookup j nodes' ≡ some c
        → (d : ℕ) × (lookup j depths' ≡ some d) × HasParent depths' c d
    parent_above' j c found = elim (Bool-cases (text_eq h j)) [
      | inl here ↦
          let is_b : b ≡ c = some_inj (sym (lookup-insert_here h j b nodes here) ∙ found) in
          (
            p + 1,
            lookup-insert_here h j (p + 1) depths here,
            subst (λ x. HasParent depths' x (p + 1)) is_b (inr (p, keeps b.parent_hash p e, refl)),
          )
      | inr else_ ↦
          let (d, ed, above) =
            t.parent_above j c (sym (lookup-insert_else h j b nodes else_) ∙ found) in
          (d, keeps j d ed, above_kept c d above)
    ]

    bounded' : (j : Text) (d : ℕ) → lookup j depths' ≡ some d → d < length nodes'
    bounded' j d ej = elim (Bool-cases (text_eq h j)) [
      | inl here ↦
          let is_new : p + 1 ≡ d =
            some_inj (sym (lookup-insert_here h j (p + 1) depths here) ∙ ej) in
          omega (arith, is_new, new_bounded)
      | inr else_ ↦ omega (
        arith,
        t.bounded j d (sym (lookup-insert_else h j (p + 1) depths else_) ∙ ej),
        length_grows,
      )
    ]

    a_node' :
        (j : Text) (d : ℕ) → lookup j depths' ≡ some d → (c : Block) × (lookup j nodes' ≡ some c)
    a_node' j d ej = elim (Bool-cases (text_eq h j)) [
      | inl here ↦ (b, lookup-insert_here h j b nodes here)
      | inr else_ ↦
          let (c, found) = t.a_node j d (sym (lookup-insert_else h j (p + 1) depths else_) ∙ ej) in
          (c, lookup-insert_else h j b nodes else_ ∙ found)
    ]

    known' : (j : Text) (c : Block) → lookup j nodes' ≡ some c → Known c × (hash_text pf c ≡ j)
    known' j c found = elim (Bool-cases (text_eq h j)) [
      | inl here ↦
          let is_b : b ≡ c = some_inj (sym (lookup-insert_here h j b nodes here) ∙ found) in
          subst (λ x. Known x × (hash_text pf x ≡ j)) is_b (k, (text_eq_iff h j).0 here)
      | inr else_ ↦ t.known j c (sym (lookup-insert_else h j b nodes else_) ∙ found)
    ]

    no_empty' : (j : Text) → is_empty j ≡ true → lookup j depths' ≡ none
    no_empty' j empty = elim (Bool-cases (text_eq h j)) [
      | inl here ↦
          true-false
            (sym empty ∙ (ap is_empty (sym ((text_eq_iff h j).0 here)) ∙ hash_not_empty b k))
      | inr else_ ↦ lookup-insert_else h j (p + 1) depths else_ ∙ t.no_empty j empty
    ]

    insert-IsTree : IsTree pf Known depths' nodes'
    insert-IsTree = record {
      parent_above = parent_above';
      bounded = bounded';
      a_node = a_node';
      known = known';
      no_empty = no_empty';
    }

  add_node-IsTree :
      (depths : Depths) (nodes : Nodes) (b : Block) (next : Depths × Nodes)
      → IsTree pf Known depths nodes
      → Known b
      → add_node pf (depths, nodes) b ≡ done next
      → IsTree pf Known next.0 next.1
  unfolding add_node
  add_node-IsTree depths nodes b next t k e = elim (Run-cases (block_authentic pf b)) [
    | inl stops ↦ done-panic {m = add_node pf (depths, nodes) b} (rw stops) e
    | inr (false, valid) ↦
        let same : (depths, nodes) ≡ next = done_inj (sym (bind-done _ valid refl) ∙ e) in
        subst (λ x. IsTree pf Known x.0 x.1) same t
    | inr (true, valid) ↦ elim (Option-cases (lookup b.parent_hash depths)) [
      | inl orphan ↦
          let same : (depths, nodes) ≡ next = done_inj (sym (bind-done _ valid (rw orphan)) ∙ e) in
          subst (λ x. IsTree pf Known x.0 x.1) same t
      | inr (p, found) ↦
          let grown : (insert (hash_text pf b) (p + 1) depths, insert (hash_text pf b) b nodes)
              ≡ next =
            done_inj (sym (bind-done _ valid (rw found)) ∙ e) in
          subst (λ x. IsTree pf Known x.0 x.1) grown (insert-IsTree depths nodes b p t k found)
    ]
  ]

  pub add_nodes-IsTree :
      (blocks : List Block) (depths : Depths) (nodes : Nodes) (after : Depths × Nodes)
      → IsTree pf Known depths nodes
      → All Known blocks
      → add_nodes pf (depths, nodes) blocks ≡ done after
      → IsTree pf Known after.0 after.1
  unfolding add_nodes
  add_nodes-IsTree [] depths nodes after t k e = subst (λ x. IsTree pf Known x.0 x.1) (done_inj e) t
  add_nodes-IsTree (b ∷ rest) depths nodes after t k e =
      let (next, first, others) = >>=-eq-done (add_node pf (depths, nodes) b) _ e in
      add_nodes-IsTree rest next.0 next.1 after (add_node-IsTree depths nodes b next t k.0 first)
        k.1 others
