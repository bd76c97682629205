-- ===== src/Genesis/Defaults.antt =====
-- applyDefaultDynamicHardnessConfig: the settings that it fills in.
use pokoinpos.Prelude.{◌≡◌, arith}
use pokoinpos.Prelude.Int.{pos, ◌≤ℤ◌}
use pokoinpos.Genesis.{GenesisMetaData, apply_default_dynamic_hardness_config}

-- The settings that the hardness computation relies on.
pub record IsUsable (g : GenesisMetaData) : Type 0 where
  pub fork_pos : pos 1 ≤ℤ g.dynamic_hardness_fork_height
  pub min_pos : pos 1 ≤ℤ g.dynamic_hardness_min
  pub min_le_max : g.dynamic_hardness_min ≤ℤ g.dynamic_hardness_max
  pub window_pos : pos 1 ≤ℤ g.dynamic_hardness_window
  pub fast_pos : pos 1 ≤ℤ g.fast_block_target_slots
  pub idle_pos : pos 1 ≤ℤ g.idle_block_target_slots

-- After the defaults every setting is positive and the two limits are in order.
pub apply_default-IsUsable :
    (g : GenesisMetaData) → IsUsable (apply_default_dynamic_hardness_config g)
unfolding apply_default_dynamic_hardness_config
apply_default-IsUsable g = ground arith

-- Usable settings are left alone, so that applying the defaults again changes nothing.
pub apply_default_id :
    (g : GenesisMetaData) → IsUsable g → apply_default_dynamic_hardness_config g ≡ g
unfolding apply_default_dynamic_hardness_config
apply_default_id g h = ground arith
