-- ===== src/App/RouterRun.antt =====
-- cmd/gecit/app/router.go: the configuration that the flags make, and the three commands. The
-- values of the flags are given; strings.ToLower is a parameter. Starting and stopping the engine
-- are those of Router.Engine.
use gecit_unofficial.Base.{
  ℕ, ◌+◌, ◌*◌, ◌≡◌, refl, Bool, true, not, ◌&&◌, Option, none, some, List, [], ◌∷◌, ◌++◌, arith,
  if◌then◌else◌, u16, Result, returns, fails, Text, text_eq, trim_space, ap, false, ◌∙◌,
}
use gecit_unofficial.Base.Int.{ℤ}
use gecit_unofficial.Router.Config.{
  Config, queue_backend_nf_queue, queue_backend_dry_run, normalized, ConfigError, validate,
}
use gecit_unofficial.Router.Engine.{
  EngineCall, new_runner, apply_batch, runner_start, runner_stop, cancel_context, await_done, Err,
  StartAnswers, StopAnswers, StartError, is_nil, new_engine, start, stop, with_rules, launch,
  Engine,
}
use gecit_unofficial.Router.Nftables.{
  RuleSet, Quote, build_rule_set, setup_batch, teardown_batch, shell_script,
}
use gecit_unofficial.App.Flags.{int_slice_to_ports, split_targets}
use gecit_unofficial.Router.Lifecycle.{stop_once}

pub record RouterFlags : Type 0 where
  pub wan : Text
  pub lan : List Text
  pub table : Text
  pub backend_name : Text
  -- uint and uint32
  pub queue : ℕ
  pub packet_mark : ℕ
  pub tcp : List ℤ
  pub udp : List ℤ
  pub quic : Bool
  pub postnat : Bool
  pub ttl : ℤ
  pub flows_limit : ℤ
  pub targets : List Text

abbrev pub ToLower : Type 0
ToLower = Text → Text

-- routerConfigFromFlags, where every flag can be read
unfoldable pub router_config_from_flags : ToLower → RouterFlags → Config
router_config_from_flags to_lower flags = record {
  wan_interface = flags.wan;
  lan_interfaces = flags.lan;
  table_name = flags.table;
  backend = trim_space (to_lower flags.backend_name);
  queue_num = u16 flags.queue;
  packet_mark = flags.packet_mark;
  tcp_ports = int_slice_to_ports flags.tcp;
  udp_ports = int_slice_to_ports flags.udp;
  fake_ttl = flags.ttl;
  max_flows = flags.flows_limit;
  probe_targets = split_targets flags.targets;
  auto_hostlist_path = [];
  enable_quic = flags.quic;
  enable_post_nat = flags.postnat;
}

-- The platform, the check of privileges, and what the engine meets
pub record RunAnswers : Type 0 where
  pub is_linux : Bool
  pub privileged : Bool
  pub starting : StartAnswers
  pub stopping : StopAnswers

pub data RunError : Type 0 where
  router_unsupported not_privileged : RunError
  start_error : StartError → RunError
  stop_error : Text → RunError

abbrev pub stop_result : Err → Option RunError
stop_result none = none
stop_result (some err) = some (stop_error err)

-- The wait for the signal, and Stop
abbrev pub interrupted :
    RunAnswers → Option StartError × Engine × List EngineCall → Option RunError × List EngineCall
interrupted ans (some err, e, calls) = (some (start_error err), calls)
interrupted ans (none, e, calls) =
    (stop_result (stop e ans.stopping).0, calls ++ (stop e ans.stopping).2)

unfoldable pub run_engine : Quote → Config → RunAnswers → Option RunError × List EngineCall
run_engine quote cfg ans = interrupted ans (start quote (new_engine cfg) ans.starting)

unfoldable pub run_router_engine :
    ToLower → Quote → RouterFlags → RunAnswers → Option RunError × List EngineCall
run_router_engine to_lower quote flags ans =
    let cfg = normalized (router_config_from_flags to_lower flags) in
    if text_eq cfg.backend queue_backend_nf_queue && not ans.is_linux
    then (some router_unsupported, [])
    else if not (text_eq cfg.backend queue_backend_dry_run) && not ans.privileged
    then (some not_privileged, [])
    else run_engine quote cfg ans

-- runRouterPlan, for what it prints
unfoldable pub run_router_plan : ToLower → Quote → RouterFlags → Result ConfigError Text
run_router_plan to_lower quote flags =
    elim (build_rule_set quote (router_config_from_flags to_lower flags)) [
      | fails err ↦ fails err
      | returns rules ↦ returns (shell_script rules)
    ]

-- A queue number of 65536 or more is cut to its low 16 bits: such a flag and the number that it is
-- cut to make the same configuration, so that no check can tell them apart.
pub router_config_from_flags-queue :
    (to_lower : ToLower) (flags : RouterFlags) (k : ℕ)
    → router_config_from_flags to_lower (record flags { queue = flags.queue + k * 65536 })
      ≡ router_config_from_flags to_lower flags
unfolding router_config_from_flags
router_config_from_flags-queue to_lower flags k =
    let same : u16 (flags.queue + k * 65536) ≡ u16 flags.queue = omega arith in rw same refl

started_lem :
    (quote : Quote) (cfg : Config) (ans : StartAnswers) (rules : RuleSet)
    → validate (normalized cfg) ≡ none
    → build_rule_set quote (normalized cfg) ≡ returns rules
    → ans.runner ≡ none
    → ans.install ≡ none
    → ans.early ≡ none
    → start quote (new_engine cfg) ans ≡ (
      none,
      with_rules (new_engine cfg) rules,
      new_runner ∷ apply_batch (setup_batch rules) true ∷ runner_start ∷ [],
    )
unfolding start launch
started_lem quote cfg ans rules valid built made put runs =
    ground (arith, valid, built, made, put, runs)

engine_run :
    (quote : Quote) (cfg : Config) (ans : RunAnswers) (rules : RuleSet)
    → start quote (new_engine cfg) ans.starting ≡ (
      none,
      with_rules (new_engine cfg) rules,
      new_runner ∷ apply_batch (setup_batch rules) true ∷ runner_start ∷ [],
    )
    → (stop (with_rules (new_engine cfg) rules) ans.stopping).2
      ≡ cancel_context
        ∷ runner_stop
        ∷ await_done
        ∷ apply_batch (teardown_batch rules) (is_nil ans.stopping.remove)
        ∷ []
    → (run_engine quote cfg ans).1
      ≡ new_runner
        ∷ apply_batch (setup_batch rules) true
        ∷ runner_start
        ∷ cancel_context
        ∷ runner_stop
        ∷ await_done
        ∷ apply_batch (teardown_batch rules) (is_nil ans.stopping.remove)
        ∷ []
unfolding run_engine
engine_run quote cfg ans rules begun ends =
    ap (λ k. (interrupted ans k).1) begun
    ∙ ap (◌++◌ (new_runner ∷ apply_batch (setup_batch rules) true ∷ runner_start ∷ [])) ends

-- A run of the router mode with a valid configuration, on Linux with the privileges, whose runner
-- and setup succeed and that is then interrupted: the calls are those of Start and those of Stop,
-- and the last is the teardown batch of the rules that were installed.
pub run_router_engine-teardown :
    (to_lower : ToLower) (quote : Quote) (flags : RouterFlags) (ans : RunAnswers) (rules : RuleSet)
    → ans.is_linux ≡ true
    → ans.privileged ≡ true
    → validate (normalized (normalized (router_config_from_flags to_lower flags))) ≡ none
    → build_rule_set quote (normalized (normalized (router_config_from_flags to_lower flags)))
      ≡ returns rules
    → ans.starting.runner ≡ none
    → ans.starting.install ≡ none
    → ans.starting.early ≡ none
    → (run_router_engine to_lower quote flags ans).1
      ≡ new_runner
        ∷ apply_batch (setup_batch rules) true
        ∷ runner_start
        ∷ cancel_context
        ∷ runner_stop
        ∷ await_done
        ∷ apply_batch (teardown_batch rules) (is_nil ans.stopping.remove)
        ∷ []
unfolding run_router_engine
run_router_engine-teardown to_lower quote flags ans rules on_linux as_root valid built made put
      runs =
    let cfg = normalized (router_config_from_flags to_lower flags) in
    let begun = started_lem quote cfg ans.starting rules valid built made put runs in
    let ends =
      (stop_once (with_rules (new_engine cfg) rules) rules ans.stopping ans.stopping
        (refl, refl, refl) refl refl).0 in
    let supported : (text_eq cfg.backend queue_backend_nf_queue && not ans.is_linux) ≡ false =
      ground (arith, on_linux) in
    let allowed : (not (text_eq cfg.backend queue_backend_dry_run) && not ans.privileged) ≡ false =
      ground (arith, as_root) in
    rw (supported, allowed) (engine_run quote cfg ans rules begun ends)
