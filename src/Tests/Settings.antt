-- ===== src/Tests/Settings.antt =====
-- The theorem on the settings of a node, for an environment without variables.
use pokoinpos.Prelude.{◌≡◌, refl, none}
use pokoinpos.Prelude.Int.{pos, ◌≤ℤ◌}
use pokoinpos.Config.{
  load_node_config_from_env, config_checks, config_from_env, default_join, default_manifest,
  default_network_id, env_int64_or_default, env_int_or_default, env_or_default, first_error,
  positive_or,
}
use pokoinpos.Config.Checked.{loaded_config-attempts}
use pokoinpos.Node.{mine_attempts_for_network}
use pokoinpos.Tests.Network.{bare}
use pokoinpos.Text.{has_prefix, to_lower, trim_space}

defaults_pass : (load_node_config_from_env bare).1 ≡ none
unfolding config_checks config_from_env default_join default_manifest default_network_id
    env_int64_or_default env_int_or_default env_or_default first_error load_node_config_from_env
    positive_or has_prefix to_lower trim_space
defaults_pass = refl

loaded_config-attempts_example :
    pos 1 ≤ℤ mine_attempts_for_network (pos 40) (pos 3) (load_node_config_from_env bare).0
loaded_config-attempts_example = loaded_config-attempts bare (pos 40) (pos 3) defaults_pass
