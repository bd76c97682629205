-- ===== src/Chain/Hardness.antt =====
-- The hardness of the lottery: fixed up to the fork height, then steered by the slots that the last
-- blocks took.
use pokoinpos.Prelude.{
  ℕ, ◌+◌, ◌-◌, ◌/◌, Bool, ◌||◌, List, [], ◌∷◌, if◌then◌else◌, length, drop, ltb, ◌==◌, ◌≡◌, refl,
  subst, sym, true, false, arith,
}
use pokoinpos.Prelude.Int.{
  ℤ, pos, pos_part, add_int, sub_int, mul_int, quotient, leb_ℤ, ltb_ℤ, ◌≤ℤ◌,
}
use pokoinpos.Genesis.{
  GenesisMetaData, apply_default_dynamic_hardness_config, dynamic_hardness_default_window,
}
use pokoinpos.Genesis.Defaults.{apply_default-IsUsable}
use pokoinpos.Chain.Block.{Block}

unfoldable pub clamp_hardness : ℤ → ℤ → ℤ → ℤ
clamp_hardness value low high =
    let min = if leb_ℤ low (pos 0) then pos 1 else low in
    let max = if ltb_ℤ high min then min else high in
    if ltb_ℤ value min then min else if ltb_ℤ max value then max else value

-- The loop of averageRecentSlotInterval: the sum of the intervals that are positive, and their number.
unfoldable pub intervals : List Block → ℤ × ℕ → ℤ × ℕ
intervals [] sums = sums
intervals (a ∷ []) sums = sums
intervals (a ∷ b ∷ rest) (total, count) =
    let delta = sub_int b.slot a.slot in
    intervals (b ∷ rest)
      (if leb_ℤ delta (pos 0) then (total, count) else (add_int total delta, count + 1))

unfoldable pub average_recent_slot_interval : List Block → ℤ → ℤ
unfolding intervals quotient
average_recent_slot_interval blocks window =
    if ltb (length blocks) 2
    then pos 0
    else let w = if ltb_ℤ window (pos 1) then pos 1 else window in
      let start = pos_part (sub_int (pos (length blocks - 1)) w) in
      let (total, count) = intervals (drop start blocks) (pos 0, 0) in
      if count == 0 then pos 0 else quotient (add_int total (pos (count / 2))) (pos count)

unfoldable pub effective_dynamic_hardness : List Block → GenesisMetaData → ℕ → ℤ
effective_dynamic_hardness blocks genesis candidate_tx_count =
    let goal =
      if ltb 0 candidate_tx_count
      then genesis.fast_block_target_slots
      else genesis.idle_block_target_slots in
    let target = if leb_ℤ goal (pos 0) then pos 1 else goal in
    let window =
      if leb_ℤ genesis.dynamic_hardness_window (pos 0)
      then dynamic_hardness_default_window
      else genesis.dynamic_hardness_window in
    let average = average_recent_slot_interval blocks window in
    if leb_ℤ average (pos 0)
    then clamp_hardness genesis.hardness genesis.dynamic_hardness_min genesis.dynamic_hardness_max
    else clamp_hardness (quotient (mul_int genesis.hardness average) target)
        genesis.dynamic_hardness_min genesis.dynamic_hardness_max

-- EffectiveHardnessForMining, for a genesis that is not nil. The defaults are written into the genesis
-- of the caller; they do not change it a second time.
unfoldable pub effective_hardness_for_mining : List Block → GenesisMetaData → ℕ → ℤ
effective_hardness_for_mining blocks given candidate_tx_count =
    let genesis = apply_default_dynamic_hardness_config given in
    if (length blocks == 0)
      || leb_ℤ genesis.dynamic_hardness_fork_height (pos 0)
      || ltb_ℤ (pos (length blocks)) genesis.dynamic_hardness_fork_height
    then clamp_hardness genesis.hardness genesis.dynamic_hardness_min genesis.dynamic_hardness_max
    else effective_dynamic_hardness blocks genesis candidate_tx_count

-- The clamp keeps its limits, where they are in order and positive.
clamp_hardness_bounds :
    (value low high : ℤ)
    → pos 1 ≤ℤ low
    → low ≤ℤ high
    → (low ≤ℤ clamp_hardness value low high) × (clamp_hardness value low high ≤ℤ high)
unfolding clamp_hardness
clamp_hardness_bounds value low high p le = (ground arith, ground arith)

-- A value that a clamp has produced.
abbrev IsClamped : ℤ → ℤ → ℤ → Type 0
IsClamped low high x = (v : ℤ) × (x ≡ clamp_hardness v low high)

if-IsClamped :
    (low high : ℤ) {x y : ℤ} (b : Bool)
    → IsClamped low high x
    → IsClamped low high y
    → IsClamped low high (if b then x else y)
if-IsClamped low high true p q = p
if-IsClamped low high false p q = q

effective_dynamic_hardness-IsClamped :
    (blocks : List Block) (g : GenesisMetaData) (n : ℕ)
    → IsClamped g.dynamic_hardness_min g.dynamic_hardness_max
        (effective_dynamic_hardness blocks g n)
unfolding effective_dynamic_hardness
effective_dynamic_hardness-IsClamped blocks g n = if-IsClamped _ _ _ (_, refl) (_, refl)

effective_hardness_for_mining-IsClamped :
    (blocks : List Block) (given : GenesisMetaData) (n : ℕ)
    → let g = apply_default_dynamic_hardness_config given in
      IsClamped g.dynamic_hardness_min g.dynamic_hardness_max
        (effective_hardness_for_mining blocks given n)
unfolding effective_hardness_for_mining
effective_hardness_for_mining-IsClamped blocks given n =
    if-IsClamped _ _ _ (_, refl) (effective_dynamic_hardness-IsClamped blocks _ n)

-- The hardness of the next block lies between the two limits of the genesis with its defaults, and is
-- positive, whatever the chain and the genesis.
pub effective_hardness_bounds :
    (blocks : List Block) (given : GenesisMetaData) (candidate_tx_count : ℕ)
    → let genesis = apply_default_dynamic_hardness_config given in
      let hardness = effective_hardness_for_mining blocks given candidate_tx_count in
      (genesis.dynamic_hardness_min ≤ℤ hardness)
      × (hardness ≤ℤ genesis.dynamic_hardness_max)
      × (pos 1 ≤ℤ hardness)
effective_hardness_bounds blocks given n =
    let g = apply_default_dynamic_hardness_config given in
    let (v, e) = effective_hardness_for_mining-IsClamped blocks given n in
    let usable = apply_default-IsUsable given in
    let (low, high) = clamp_hardness_bounds v _ _ usable.min_pos usable.min_le_max in
    let at_least = subst (λ x. g.dynamic_hardness_min ≤ℤ x) (sym e) low in
    let at_most = subst (λ x. x ≤ℤ g.dynamic_hardness_max) (sym e) high in
    (at_least, at_most, ground (arith, at_least))
