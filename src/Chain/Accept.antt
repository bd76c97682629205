-- ===== src/Chain/Accept.antt =====
-- What AddBlock promises, apart from its code: the conditions on a block.
use pokoinpos.Prelude.{
  Bool, true, false, Option, none, some, List, [], ◌∷◌, ◌++◌, ◌≡◌, refl, ◌≤◌, length, ltb, ◌∙◌, ap,
  if◌then◌else◌, ◌↔◌, sym,
}
use pokoinpos.Prelude.Int.{ℤ, pos, ◌≤ℤ◌, leb_ℤ}
use pokoinpos.Prelude.Run.{Run, done, >>=-eq-done, bind-done}
use pokoinpos.GoMap.{lookup, has}
use pokoinpos.Tx.{SignedTransaction}
use pokoinpos.Ledger.{Ledger, lottery_tickets}
use pokoinpos.Genesis.{GenesisMetaData}
use pokoinpos.Platform.{Platform}
use pokoinpos.Transaction.Apply.{transaction}
use pokoinpos.Chain.Block.{
  Block, block_size, wins_lottery, block_authentic, decode_block_transactions,
  decode_genesis_from_meta,
}
use pokoinpos.Chain.Tree.{Depths, Nodes, calculate_depths, get_genesis_hash}
use pokoinpos.Chain.State.{build_ledger_at_hash}
use pokoinpos.Chain.AddBlock.{
  effective_hardness_for_block, expected_draw, entry_hardness, all_apply, transactions_valid,
  draw_matches, wins_and_applies, draws_and_wins, plays, plays_genesis, accepts, add_block,
}
use pokoinpos.Chain.Guards.{
  bool-guard, option-guard, option-present, no-guard, not-ltb-le, ap-guard, ap-no-guard, some-guard,
  some-present, pos-not-leb, le-not-ltb, eqb_ℤ-refl, not-leb-pos, eqb_ℤ-eq,
}

-- Transactions that succeed one after the other.
pub data AllApply (pf : Platform) : List SignedTransaction → Ledger → Type 0 where
  nothing_left : {l : Ledger} → AllApply pf [] l
  one_applied :
      {l next : Ledger} {t mutated : SignedTransaction} {ts : List SignedTransaction}
      → transaction pf t l ≡ done (true, mutated, next)
      → AllApply pf ts next
      → AllApply pf (t ∷ ts) l

-- A block that a chain can take: its parent is a node of the tree, its signature is right, its key has
-- tickets in the ledger of the parent, its draw is the one that seed, slot and key allow and wins the
-- lottery, and its transactions are at most sixteen and succeed one after the other on that ledger.
pub record IsValidBlock (pf : Platform) (chain : List Block) (b : Block) : Type 0 where
  pub depths : Depths
  pub nodes : Nodes
  pub tree : calculate_depths pf chain ≡ done (depths, nodes)
  pub parent_known : has b.parent_hash depths ≡ true
  pub authentic : block_authentic pf b ≡ done true
  pub root : Block
  pub root_known : lookup (get_genesis_hash nodes) nodes ≡ some root
  pub genesis : GenesisMetaData
  pub genesis_read : decode_genesis_from_meta pf root.meta_data ≡ some genesis
  pub parent_ledger : Ledger
  pub ledger_built : build_ledger_at_hash pf nodes b.parent_hash ≡ done parent_ledger
  pub tickets : ℤ
  pub tickets_drawn : lottery_tickets parent_ledger b.verification_key ≡ done tickets
  pub tickets_pos : pos 1 ≤ℤ tickets
  pub draw_expected : expected_draw pf genesis.seed b ≡ done (some b.draw)
  pub hardness : ℤ
  pub hardness_known : effective_hardness_for_block pf nodes genesis b ≡ done hardness
  pub draw_wins :
      wins_lottery tickets
        (entry_hardness pf parent_ledger genesis b.verification_key hardness)
        b.draw
      ≡ true
  pub txs : List SignedTransaction
  pub txs_read : decode_block_transactions pf b.meta_data ≡ some txs
  pub few_txs : length txs ≤ 16
  pub txs_apply : AllApply pf txs parent_ledger

-- The result that AddBlock returns fixes what it decided.
decided :
    (ok : Bool) (kept grown : List Block) {result : Bool} {after : List Block}
    → ◌≡◌ {A = Run (Bool × List Block)}
        (done (ok, if ok then grown else kept))
        (done (result, after))
    → (ok ≡ result) × (after ≡ (if ok then grown else kept))
decided true kept grown h = (cc, cc)
decided false kept grown h = (cc, cc)

module _ (pf : Platform) where
  all_apply-AllApply :
      (ts : List SignedTransaction) (l : Ledger) → all_apply pf ts l ≡ done true → AllApply pf ts l
  unfolding all_apply
  all_apply-AllApply [] l h = nothing_left
  all_apply-AllApply (t ∷ ts) l h =
      let ((ok, mutated, next), applied, rest) = >>=-eq-done (transaction pf t l) _ h in
      let (succeeded, rest') = bool-guard ok (all_apply pf ts next) rest in
      one_applied (applied ∙ ap (λ k. done (k, mutated, next)) succeeded)
        (all_apply-AllApply ts next rest')

  AllApply-all_apply :
      (ts : List SignedTransaction) (l : Ledger) → AllApply pf ts l → all_apply pf ts l ≡ done true
  unfolding all_apply
  AllApply-all_apply [] l a = refl
  AllApply-all_apply (t ∷ ts) l (one_applied applied a) = rw (applied, AllApply-all_apply ts _ a)

  transactions_valid_sound :
      (l : Ledger) (b : Block)
      → transactions_valid pf l b ≡ done true
      → (txs : List SignedTransaction) × (decode_block_transactions pf b.meta_data ≡ some txs)
        × (length txs ≤ 16)
        × AllApply pf txs l
  unfolding transactions_valid
  transactions_valid_sound l b h =
      let (txs, read, rest) = option-guard (decode_block_transactions pf b.meta_data) _ h in
      let (few, rest') = no-guard (ltb block_size (length txs)) (all_apply pf txs l) rest in
      (txs, read, not-ltb-le few, all_apply-AllApply txs l rest')

  draw_matches_sound :
      (b : Block) (draw : Option ℤ) → draw_matches pf b draw ≡ true → draw ≡ some b.draw
  unfolding draw_matches
  draw_matches_sound b none h = cc
  draw_matches_sound b (some d) h = ap some (sym (eqb_ℤ-eq b.draw d h))

  accepts-IsValidBlock :
      (chain : List Block) (b : Block) → accepts pf chain b ≡ done true → IsValidBlock pf chain b
  unfolding accepts plays_genesis plays draws_and_wins wins_and_applies
  accepts-IsValidBlock chain b h =
      let ((depths, nodes), tree, h1) = >>=-eq-done (calculate_depths pf chain) _ h in
      let (parent_known, h2) = bool-guard (has b.parent_hash depths) _ h1 in
      let (signed, authentic, h3) = >>=-eq-done (block_authentic pf b) _ h2 in
      let (signed_true, h4) = bool-guard signed _ h3 in
      let (root, root_known, h5) = option-present (lookup (get_genesis_hash nodes) nodes) _ h4 in
      let (genesis, genesis_read, h6) =
        option-guard (decode_genesis_from_meta pf root.meta_data) _ h5 in
      let (l, built, h7) = >>=-eq-done (build_ledger_at_hash pf nodes b.parent_hash) _ h6 in
      let (tickets, drawn, h8) = >>=-eq-done (lottery_tickets l b.verification_key) _ h7 in
      let (tickets_pos, h9) = no-guard (leb_ℤ tickets (pos 0)) _ h8 in
      let (draw, expected, h10) = >>=-eq-done (expected_draw pf genesis.seed b) _ h9 in
      let (matches, h11) = bool-guard (draw_matches pf b draw) _ h10 in
      let (hardness, known, h12) =
        >>=-eq-done (effective_hardness_for_block pf nodes genesis b) _ h11 in
      let (wins, h13) =
        bool-guard
          (wins_lottery tickets (entry_hardness pf l genesis b.verification_key hardness) b.draw) _
          h12 in
      let (txs, read, few, apply) = transactions_valid_sound l b h13 in
      record {
        depths = depths;
        nodes = nodes;
        tree = tree;
        parent_known = parent_known;
        authentic = authentic ∙ ap done signed_true;
        root = root;
        root_known = root_known;
        genesis = genesis;
        genesis_read = genesis_read;
        parent_ledger = l;
        ledger_built = built;
        tickets = tickets;
        tickets_drawn = drawn;
        tickets_pos = not-leb-pos tickets tickets_pos;
        draw_expected = expected ∙ ap done (draw_matches_sound b draw matches);
        hardness = hardness;
        hardness_known = known;
        draw_wins = wins;
        txs = txs;
        txs_read = read;
        few_txs = few;
        txs_apply = apply;
      }

  IsValidBlock-accepts :
      (chain : List Block) (b : Block) → IsValidBlock pf chain b → accepts pf chain b ≡ done true
  unfolding accepts plays_genesis plays draws_and_wins wins_and_applies draw_matches
      transactions_valid
  IsValidBlock-accepts chain b v = bind-done _ v.tree (
      ap-guard v.parent_known (
        bind-done _ v.authentic (
          some-present _ v.root_known (
            some-guard _ v.genesis_read (
              bind-done _ v.ledger_built (
                bind-done _ v.tickets_drawn (
                  ap-no-guard (pos-not-leb v.tickets v.tickets_pos) (
                    bind-done _ v.draw_expected (
                      ap-guard (eqb_ℤ-refl b.draw) (
                        bind-done _ v.hardness_known (
                          ap-guard v.draw_wins (
                            some-guard _ v.txs_read (
                              ap-no-guard (le-not-ltb (length v.txs) v.few_txs)
                                (AllApply-all_apply v.txs v.parent_ledger v.txs_apply))))))))))))))

  -- AddBlock accepts a block and appends it exactly if the block is valid.
  pub add_block_iff :
      (chain : List Block) (b : Block)
      → (add_block pf chain b ≡ done (true, chain ++ (b ∷ []))) ↔ IsValidBlock pf chain b
  unfolding add_block
  add_block_iff chain b = (
    λ h.
        (let (ok, accepted, result) = >>=-eq-done (accepts pf chain b) _ h in
          accepts-IsValidBlock chain b (accepted ∙ ap done (decided ok _ _ result).0)),
    λ v. bind-done _ (IsValidBlock-accepts chain b v) refl,
  )
