-- ===== src/Genesis.antt =====
-- peer/account/Genesis.go: the settings that all peers share, and the balances they start from.
pub mod Defaults
use pokoinpos.Prelude.{Bool, true, List, [], ◌∷◌, if◌then◌else◌}
use pokoinpos.Prelude.Int.{ℤ, pos, leb_ℤ, ltb_ℤ}
use pokoinpos.Text.{Text}
use pokoinpos.GoMap.{Map, insert}
use pokoinpos.Ledger.{Ledger}

abbrev pub dynamic_hardness_protocol_fork_height : ℤ
dynamic_hardness_protocol_fork_height = pos 2000

abbrev pub dynamic_hardness_default_min : ℤ
dynamic_hardness_default_min = pos 100

abbrev pub dynamic_hardness_default_max : ℤ
dynamic_hardness_default_max = pos 10000000

abbrev pub dynamic_hardness_default_window : ℤ
dynamic_hardness_default_window = pos 32

abbrev pub dynamic_hardness_default_fast_target_slots : ℤ
dynamic_hardness_default_fast_target_slots = pos 2

abbrev pub dynamic_hardness_default_idle_target_slots : ℤ
dynamic_hardness_default_idle_target_slots = pos 20

pub record GenesisMetaData : Type 0 where
  pub hardness : ℤ
  pub seed : ℤ
  pub dynamic_hardness_fork_height : ℤ
  pub dynamic_hardness_min : ℤ
  pub dynamic_hardness_max : ℤ
  pub dynamic_hardness_window : ℤ
  pub fast_block_target_slots : ℤ
  pub idle_block_target_slots : ℤ
  pub initial_balances : Map ℤ

-- `if x <= 0 { x = fallback }`
abbrev pub default_to : ℤ → ℤ → ℤ
default_to fallback x = if leb_ℤ x (pos 0) then fallback else x

-- applyDefaultDynamicHardnessConfig on a genesis that is not nil.
unfoldable pub apply_default_dynamic_hardness_config : GenesisMetaData → GenesisMetaData
apply_default_dynamic_hardness_config g =
    let low = default_to dynamic_hardness_default_min g.dynamic_hardness_min in
    let high = default_to dynamic_hardness_default_max g.dynamic_hardness_max in
    record g {
      dynamic_hardness_fork_height =
          default_to dynamic_hardness_protocol_fork_height g.dynamic_hardness_fork_height;
      dynamic_hardness_min = low;
      dynamic_hardness_max = if ltb_ℤ high low then low else high;
      dynamic_hardness_window =
          default_to dynamic_hardness_default_window g.dynamic_hardness_window;
      fast_block_target_slots =
          default_to dynamic_hardness_default_fast_target_slots g.fast_block_target_slots;
      idle_block_target_slots =
          default_to dynamic_hardness_default_idle_target_slots g.idle_block_target_slots;
    }

-- The loop of InitializeFromGenesis, over the balances as they are listed.
unfoldable pub initialize_balances : Map ℤ → Ledger → Ledger
initialize_balances [] l = l
initialize_balances ((account, amount) ∷ rest) l = initialize_balances rest (record l {
  accounts = insert account amount l.accounts;
  validators = if ltb_ℤ (pos 0) amount then insert account true l.validators else l.validators;
})

unfoldable pub initialize_from_genesis : GenesisMetaData → Ledger → Ledger
initialize_from_genesis g l = initialize_balances g.initial_balances l
