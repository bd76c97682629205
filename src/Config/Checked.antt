-- ===== src/Config/Checked.antt =====
-- What a configuration that LoadNodeConfigFromEnv accepts is good for.
use pokoinpos.Prelude.{◌≡◌, refl, Bool, true, false, none, List, [], ◌∷◌, if◌then◌else◌, arith, All}
use pokoinpos.Prelude.Int.{ℤ, pos, leb_ℤ, ltb_ℤ, ◌≤ℤ◌}
use pokoinpos.Text.{Text}
use pokoinpos.Config.{NodeConfig, Env, config_checks, first_error, load_node_config_from_env}
use pokoinpos.Node.{mine_attempts_for_network}

-- A test that does not hold.
abbrev Fails : Bool × Text → Type 0
Fails c = c.0 ≡ false

first_error-none : (checks : List (Bool × Text)) → first_error checks ≡ none → All Fails checks
unfolding first_error
first_error-none [] e = tt
first_error-none ((true, message) ∷ rest) e = absurd (ground (arith, e))
first_error-none ((false, message) ∷ rest) e = (refl, first_error-none rest e)

at_least_one :
    (attempts low high : ℤ)
    → leb_ℤ low (pos 0) ≡ false
    → leb_ℤ high (pos 0) ≡ false
    → pos 1 ≤ℤ (if ltb_ℤ high attempts then high else if ltb_ℤ attempts low then low else attempts)
at_least_one attempts low high l h = ground arith

attempts_checked :
    (cfg : NodeConfig)
    → All Fails (config_checks cfg)
    → (leb_ℤ cfg.base_mine_attempts_per_tick (pos 0) ≡ false)
      × (leb_ℤ cfg.max_mine_attempts_per_tick (pos 0) ≡ false)
unfolding config_checks
attempts_checked cfg h = (h.1.1.1.1.0, h.1.1.1.1.1.0)

-- With settings that LoadNodeConfigFromEnv accepts, a node makes at least one attempt in a tick in which
-- it mines, whatever the depth of the mempool and the number of nodes.
pub loaded_config-attempts :
    (env : Env) (mempool_depth available_nodes : ℤ)
    → (load_node_config_from_env env).1 ≡ none
    → pos 1
      ≤ℤ mine_attempts_for_network mempool_depth available_nodes (load_node_config_from_env env).0
unfolding load_node_config_from_env mine_attempts_for_network
loaded_config-attempts env depth nodes e =
    let cfg = (load_node_config_from_env env).0 in
    let (base, max) = attempts_checked cfg (first_error-none (config_checks cfg) e) in
    at_least_one _ cfg.base_mine_attempts_per_tick cfg.max_mine_attempts_per_tick base max
