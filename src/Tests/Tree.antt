-- ===== src/Tests/Tree.antt =====
-- A tree of a genesis block and one block on it, with hashes that differ.
use pokoinpos.Prelude.{◌≡◌, refl, sym, false, List, [], ◌∷◌, inl, inr, ◌⊎◌, ap, ◌∙◌}
use pokoinpos.Prelude.Int.{pos}
use pokoinpos.Prelude.Run.{done}
use pokoinpos.Text.{Text, txt, text_eq, is_empty}
use pokoinpos.Text.Decimal.{itoa, digits_from}
use pokoinpos.GoMap.{lookup, insert}
use pokoinpos.Base64
use pokoinpos.Crypto.{verify_signature}
use pokoinpos.Platform.{Platform}
use pokoinpos.Chain.Block.{
  Block, block_authentic, hash_text, get_block_hash, marshal_block, marshal_for_signature,
}
use pokoinpos.Chain.Tree.{
  Depths, Nodes, add_node, add_nodes, calculate_depths, get_blocks_from_longest_branch,
}
use pokoinpos.Chain.Walk.{walk_returns}
use pokoinpos.Tests.Data.{alice, toy}

abbrev third : List Text → Text
third (a ∷ b ∷ c ∷ rest) = c
third fields = []

-- A block is hashed by its slot.
abbrev pub by_slot : Platform
by_slot = record toy { sha256 = λ s. 1 ∷ s; marshal_strings = third }

abbrev pub first_block : Block
first_block = record {
  block_type = txt "block";
  verification_key = [];
  slot = pos 0;
  draw = pos 0;
  meta_data = txt "e30=";
  parent_hash = [];
  signature = [];
  lottery_proof = [];
}

abbrev pub child : Block
child = record first_block {
  verification_key = alice;
  slot = pos 1;
  parent_hash = txt "ATA=";
  signature = txt "ATE=";
}

abbrev child_depths : Depths
child_depths = (txt "ATA=", 0) ∷ (txt "ATEBMQ==", 1) ∷ []

abbrev child_nodes : Nodes
child_nodes = (txt "ATA=", first_block) ∷ (txt "ATEBMQ==", child) ∷ []

root_hash : hash_text by_slot first_block ≡ txt "ATA="
unfolding hash_text get_block_hash marshal_block marshal_for_signature Base64.encode Base64.decode
    itoa digits_from
root_hash = refl

child_hash : hash_text by_slot child ≡ txt "ATEBMQ=="
unfolding hash_text get_block_hash marshal_block marshal_for_signature Base64.encode Base64.decode
    itoa digits_from
child_hash = refl

tree_built : calculate_depths by_slot (first_block ∷ child ∷ []) ≡ done (child_depths, child_nodes)
unfolding calculate_depths add_nodes add_node block_authentic verify_signature hash_text
    get_block_hash marshal_block marshal_for_signature Base64.encode Base64.decode itoa digits_from
    text_eq lookup insert
tree_built = refl

abbrev Known : Block → Type 0
Known b = (b ≡ first_block) ⊎ (b ≡ child)

apart : {B : Type 0} → hash_text by_slot first_block ≡ hash_text by_slot child → B
apart e = let clash : txt "ATA=" ≡ txt "ATEBMQ==" = sym root_hash ∙ (e ∙ child_hash) in cc

same_parent :
    (b c : Block)
    → Known b
    → Known c
    → hash_text by_slot b ≡ hash_text by_slot c
    → b.parent_hash ≡ c.parent_hash
same_parent b c (inl p) (inl q) e = ap (λ x. x.parent_hash) (p ∙ sym q)
same_parent b c (inr p) (inr q) e = ap (λ x. x.parent_hash) (p ∙ sym q)
same_parent b c (inl p) (inr q) e =
    apart (sym (ap (hash_text by_slot) p) ∙ (e ∙ ap (hash_text by_slot) q))
same_parent b c (inr p) (inl q) e =
    apart (sym (ap (hash_text by_slot) q) ∙ (sym e ∙ ap (hash_text by_slot) p))

hash_not_empty : (b : Block) → Known b → is_empty (hash_text by_slot b) ≡ false
hash_not_empty b (inl p) = ap (λ x. is_empty (hash_text by_slot x)) p ∙ ap is_empty root_hash
hash_not_empty b (inr p) = ap (λ x. is_empty (hash_text by_slot x)) p ∙ ap is_empty child_hash

walk_returns_example :
    (blocks : List Block) × (get_blocks_from_longest_branch child_nodes (txt "ATEBMQ==")
      ≡ done blocks)
walk_returns_example =
    walk_returns by_slot Known same_parent hash_not_empty first_block (child ∷ []) child_depths
      child_nodes (txt "ATEBMQ==") (inl refl, (inr refl, tt)) refl tree_built
