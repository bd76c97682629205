-- ===== src/Chain/Acyclic.antt =====
-- A tree of blocks without cycles, and the walk in it from a node back to the genesis block.
use pokoinpos.Prelude.{
  ℕ, zero, suc, ◌+◌, ◌≤◌, ◌<◌, ◌≡◌, refl, Option, none, some, List, [], ◌∷◌, inl, inr, ◌⊎◌, length,
  reverse, ap, sym, ◌∙◌, true, false, arith, Option-cases, Bool-cases, if◌then◌else◌,
}
use pokoinpos.Prelude.Run.{Run, done, panic}
use pokoinpos.Text.{Text, is_empty, text_eq}
use pokoinpos.GoMap.{Map, lookup, insert, lookup-insert}
use pokoinpos.Platform.{Platform}
use pokoinpos.Chain.Block.{Block, hash_text}
use pokoinpos.Chain.Tree.{Depths, Nodes, walk, get_blocks_from_longest_branch}

-- Unless it has no parent, a node is one deeper than its parent.
abbrev pub HasParent : Depths → Block → ℕ → Type 0
HasParent depths b d =
    (is_empty b.parent_hash ≡ true)
    ⊎ ((p : ℕ) × (lookup b.parent_hash depths ≡ some p) × (d ≡ p + 1))

pub some_inj : {A : Type 0} {a b : A} → some a ≡ some b → a ≡ b
some_inj e = cc

pub none-some : {A : Type 0} {B : Type 0} {o : Option A} {a : A} → o ≡ none → o ≡ some a → B
none-some e f = cc

pub true-false : {B : Type 0} → true ≡ false → B
true-false e = cc

pub done_inj : {A : Type 0} {a b : A} → done a ≡ done b → a ≡ b
done_inj e = cc

pub done-panic : {A B : Type 0} {m : Run A} {a : A} → m ≡ panic → m ≡ done a → B
done-panic e f = cc

pub length-insert_new :
    {V : Type 0} (k : Text) (v : V) (m : Map V)
    → lookup k m ≡ none
    → length (insert k v m) ≡ length m + 1
unfolding lookup insert
length-insert_new k v [] e = refl
length-insert_new k v ((j, w) ∷ m) e = ground (arith, length-insert_new k v m)

pub length-insert_old :
    {V : Type 0} (k : Text) (v w : V) (m : Map V)
    → lookup k m ≡ some w
    → length (insert k v m) ≡ length m
unfolding lookup insert
length-insert_old k v w [] e = none-some refl e
length-insert_old k v w ((j, u) ∷ m) e = ground (arith, length-insert_old k v w m)

pub walk_empty :
    (fuel : ℕ) (nodes : Nodes) (hash : Text)
    → is_empty hash ≡ true
    → 0 < fuel
    → walk fuel nodes hash ≡ done []
unfolding walk
walk_empty zero nodes hash e p = absurd (omega (arith, p))
walk_empty (suc fuel) nodes hash e p = rw e

pub walk_missing :
    (fuel : ℕ) (nodes : Nodes) (hash : Text)
    → lookup hash nodes ≡ none
    → 0 < fuel
    → walk fuel nodes hash ≡ done []
unfolding walk
walk_missing zero nodes hash e p = absurd (omega (arith, p))
walk_missing (suc fuel) nodes hash e p = elim (Bool-cases (is_empty hash)) [
  | inl empty ↦ rw empty
  | inr not_empty ↦ rw not_empty (rw e)
]

pub lookup-insert_here :
    {V : Type 0} (k j : Text) (v : V) (m : Map V)
    → text_eq k j ≡ true
    → lookup j (insert k v m) ≡ some v
lookup-insert_here k j v m e = lookup-insert k j v m ∙ ap (λ b. if b then some v else lookup j m) e

pub lookup-insert_else :
    {V : Type 0} (k j : Text) (v : V) (m : Map V)
    → text_eq k j ≡ false
    → lookup j (insert k v m) ≡ lookup j m
lookup-insert_else k j v m e = lookup-insert k j v m ∙ ap (λ b. if b then some v else lookup j m) e

module _ (pf : Platform) (Known : Block → Type 0) where
  pub record IsTree (depths : Depths) (nodes : Nodes) : Type 0 where
    pub parent_above :
        (hash : Text) (b : Block)
        → lookup hash nodes ≡ some b
        → (d : ℕ) × (lookup hash depths ≡ some d) × HasParent depths b d
    pub bounded : (hash : Text) (d : ℕ) → lookup hash depths ≡ some d → d < length nodes
    pub a_node :
        (hash : Text) (d : ℕ)
        → lookup hash depths ≡ some d
        → (b : Block) × (lookup hash nodes ≡ some b)
    pub known :
        (hash : Text) (b : Block) → lookup hash nodes ≡ some b → Known b × (hash_text pf b ≡ hash)
    pub no_empty : (hash : Text) → is_empty hash ≡ true → lookup hash depths ≡ none

  -- From a node at depth d the walk takes at most d + 2 steps.
  walk_from :
      (depths : Depths) (nodes : Nodes) (fuel : ℕ) (hash : Text) (d : ℕ)
      → IsTree depths nodes
      → lookup hash depths ≡ some d
      → d + 2 ≤ fuel
      → (blocks : List Block) × (walk fuel nodes hash ≡ done blocks)
  unfolding walk
  walk_from depths nodes zero hash d t e le = absurd (omega (arith, le))
  walk_from depths nodes (suc fuel) hash d t e le = elim (Bool-cases (is_empty hash)) [
    | inl empty ↦ ([], rw empty)
    | inr not_empty ↦ elim (Option-cases (lookup hash nodes)) [
      | inl missing ↦ ([], rw not_empty (rw missing))
      | inr (b, found) ↦
          let (d', e', above) = t.parent_above hash b found in
          let same : d ≡ d' = some_inj (sym e ∙ e') in
          elim above [
            | inl top ↦ (
              b ∷ [],
              rw not_empty
                  (rw found (rw (walk_empty fuel nodes b.parent_hash top (omega (arith, le))))),
            )
            | inr (p, ep, deeper) ↦
                let (rest, r) =
                  walk_from depths nodes fuel b.parent_hash p t ep
                    (omega (arith, le, same, deeper)) in
                (b ∷ rest, rw not_empty (rw found (rw r)))
          ]
    ]
  ]

  pub walk_in_tree :
      (depths : Depths) (nodes : Nodes) (hash : Text)
      → IsTree depths nodes
      → (blocks : List Block) × (get_blocks_from_longest_branch nodes hash ≡ done blocks)
  unfolding get_blocks_from_longest_branch
  walk_in_tree depths nodes hash t = elim (Option-cases (lookup hash depths)) [
    | inl missing ↦
        ((
          [],
          rw (
              walk_missing (length nodes + 2) nodes hash
                (elim (Option-cases (lookup hash nodes)) [
                  | inl no_node ↦ no_node
                  | inr (b, found) ↦ none-some missing (t.parent_above hash b found).1
                ])
                (omega arith)),
        ))
    | inr (d, e) ↦
        let (blocks, r) =
          walk_from depths nodes (length nodes + 2) hash d t e
            (omega (arith, t.bounded hash d e)) in
        (reverse blocks, rw r)
  ]
