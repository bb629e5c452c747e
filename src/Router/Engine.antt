-- ===== src/Router/Engine.antt =====
-- pkg/router/engine.go: the lifecycle of the router mode. The runner and the application of a batch
-- are the engine's own parameters (runnerFactory, batchApplier): what they answer is given to Start
-- and Stop as values, and what the engine does to them is a list of calls, in order. The runner's
-- exit within the grace period is one of the answers.
use gecit_unofficial.Base.{
  Bool, true, false, Option, none, some, List, [], ◌∷◌, ◌++◌, if◌then◌else◌, returns, fails, Text,
}
use gecit_unofficial.Router.Config.{Config, normalized, ConfigError, validate}
use gecit_unofficial.Router.Nftables.{RuleSet, Quote, build_rule_set, setup_batch, teardown_batch}

pub record Engine : Type 0 where
  pub cfg : Config
  pub has_runner : Bool
  pub has_cancel : Bool
  pub has_done : Bool
  pub rules : Option RuleSet
  pub rules_installed : Bool

pub data EngineCall : Type 0 where
  new_runner : EngineCall
  apply_batch : Text → Bool → EngineCall
  runner_start runner_stop cancel_context await_done : EngineCall

-- An error is its message; `none` is nil.
abbrev pub Err : Type 0
Err = Option Text

pub record StartAnswers : Type 0 where
  pub runner : Err
  pub install : Err
  -- what the runner's Start returned within the grace period, if it did
  pub early : Option Err
  pub stop : Err
  pub remove : Err

pub record StopAnswers : Type 0 where
  pub stop : Err
  -- what the runner's Start returns; context.Canceled is nil here, since Stop treats it so
  pub finished : Err
  pub remove : Err

pub data StartError : Type 0 where
  invalid_config : ConfigError → StartError
  already_running : StartError
  no_runner install_failed start_failed rollback_failed : Text → StartError
  start_and_rollback_failed : Text → Text → StartError

abbrev pub is_nil : Err → Bool
is_nil none = true
is_nil (some t) = false

-- if err != nil && firstErr == nil { firstErr = err }
abbrev pub first_of : Err → Err → Err
first_of none later = later
first_of (some t) later = some t

abbrev pub new_engine : Config → Engine
new_engine cfg = record {
  cfg = normalized cfg;
  has_runner = false;
  has_cancel = false;
  has_done = false;
  rules = none;
  rules_installed = false;
}

abbrev pub stopped : Engine → Engine
stopped e = record e {
  has_runner = false;
  has_cancel = false;
  has_done = false;
  rules_installed = false;
}

unfoldable pub rollback_startup : Engine → RuleSet → StartAnswers → Err × Engine × List EngineCall
rollback_startup e rules ans = (
  first_of ans.stop ans.remove,
  stopped e,
  runner_stop ∷ apply_batch (teardown_batch rules) (is_nil ans.remove) ∷ [],
)

abbrev pub early_error : Err → Err → Option StartError
early_error none none = none
early_error (some err) none = some (start_failed err)
early_error none (some r) = some (rollback_failed r)
early_error (some err) (some r) = some (start_and_rollback_failed err r)

abbrev pub with_rules : Engine → RuleSet → Engine
with_rules e rules = record e {
  has_runner = true;
  has_cancel = true;
  has_done = true;
  rules = some rules;
  rules_installed = true;
}

-- From the new runner on.
unfoldable pub launch :
    Engine → RuleSet → StartAnswers → Option StartError × Engine × List EngineCall
launch e rules ans = elim ans.runner [
  | some err ↦ (some (no_runner err), e, new_runner ∷ [])
  | none ↦ elim ans.install [
    | some err ↦
        (some (install_failed err), e, new_runner ∷ apply_batch (setup_batch rules) false ∷ [])
    | none ↦ elim ans.early [
      | none ↦ (
        none,
        with_rules e rules,
        new_runner ∷ apply_batch (setup_batch rules) true ∷ runner_start ∷ [],
      )
      | some err ↦
          let back = rollback_startup (with_rules e rules) rules ans in
          (
            early_error err back.0,
            back.1,
            new_runner ∷ apply_batch (setup_batch rules) true ∷ runner_start ∷ back.2,
          )
    ]
  ]
]

unfoldable pub start : Quote → Engine → StartAnswers → Option StartError × Engine × List EngineCall
start quote e ans = elim (validate e.cfg) [
  | some err ↦ (some (invalid_config err), e, [])
  | none ↦ elim (build_rule_set quote e.cfg) [
    | fails err ↦ (some (invalid_config err), e, [])
    | returns rules ↦ if e.has_runner then (some already_running, e, []) else launch e rules ans
  ]
]

abbrev pub when : Bool → EngineCall → List EngineCall
when b c = if b then c ∷ [] else []

abbrev pub teardown_calls : Engine → StopAnswers → List EngineCall
teardown_calls e ans = elim e.rules [
  | none ↦ apply_batch [] (is_nil ans.remove) ∷ []
  | some rules ↦ apply_batch (teardown_batch rules) (is_nil ans.remove) ∷ []
]

unfoldable pub stop : Engine → StopAnswers → Err × Engine × List EngineCall
stop e ans = (
  first_of (if e.has_runner then ans.stop else none) (
      first_of (if e.has_done then ans.finished else none)
        (if e.rules_installed then ans.remove else none)),
  stopped e,
  when e.has_cancel cancel_context
      ++ when e.has_runner runner_stop
      ++ when e.has_done await_done
      ++ (if e.rules_installed then teardown_calls e ans else []),
)
