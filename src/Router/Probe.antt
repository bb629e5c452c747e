-- ===== src/Router/Probe.antt =====
-- pkg/router/probe: DefaultPlan, BuildDryRun and its text.
use gecit_unofficial.Base.{
  ℕ, Bool, true, false, ◌&&◌, List, [], ◌∷◌, ◌++◌, map, ◌==◌, if◌then◌else◌, length, join_with,
  Result, returns, fails, Text, codes, ◌<◌, ◌≡◌, refl, arith, subst,
}
use gecit_unofficial.Router.Config.{
  Config, or_default, normalized, ConfigError, default_config, trim_strings,
}
use gecit_unofficial.Router.Processor.{decimal}
use gecit_unofficial.Router.Nftables.{RuleSet, Quote, build_rule_set, script_lines}
use gecit_unofficial.Router.Engine.{new_engine}

pub record Candidate : Type 0 where
  pub name : Text
  pub tcp : Bool
  pub udp : Bool
  pub requires_post_nat : Bool
  pub notes : Text

pub record Plan : Type 0 where
  pub queue_num : ℕ
  pub targets : List Text
  pub candidates : List Candidate

pub record DryRun : Type 0 where
  pub queue_num : ℕ
  pub targets : List Text
  pub candidates : List Candidate
  pub setup_commands : List Text
  pub teardown_commands : List Text
  pub steps : List Text

abbrev pub default_plan : Plan
default_plan = record {
  queue_num = 200;
  targets = codes "discord.com" ∷ codes "youtube.com" ∷ [];
  candidates =
      record {
        name = codes "tcp-fake-clienthello-low-ttl";
        tcp = true;
        udp = false;
        requires_post_nat = true;
        notes = codes "Baseline TCP desync candidate for router mode.";
      }
      ∷ [];
}

unfoldable pub normalize_plan : Config → Plan → Plan
normalize_plan cfg plan = record {
  queue_num = if plan.queue_num == 0 then cfg.queue_num else plan.queue_num;
  targets = or_default plan.targets cfg.probe_targets;
  candidates = or_default plan.candidates default_plan.candidates;
}

unfoldable pub join_ports : List ℕ → Text
join_ports ports =
    if length ports == 0 then codes "(none)" else join_with (codes ", ") (map decimal ports)

abbrev pub quic_step : Config → Text
quic_step cfg =
    if cfg.enable_quic
    then codes "Queue outbound UDP packets on "
      ++ join_ports cfg.udp_ports
      ++ codes " for QUIC-specific candidate evaluation."
    else codes "Keep UDP passthrough until a QUIC strategy is explicitly enabled and validated."

unfoldable pub plan_steps : Quote → Config → RuleSet → Plan → List Text
plan_steps quote cfg rules plan =
    (codes "Install "
      ++ decimal (length rules.setup)
      ++ codes " nftables setup commands for table "
      ++ quote rules.table_name
      ++ codes ".")
    ∷ (codes "Queue the first outbound TCP packets on "
        ++ join_ports cfg.tcp_ports
        ++ codes " through NFQUEUE "
        ++ decimal cfg.queue_num
        ++ codes ".")
    ∷ (codes "Probe "
        ++ decimal (length plan.targets)
        ++ codes " target domains with "
        ++ decimal (length plan.candidates)
        ++ codes " candidate strategy profiles.")
    ∷ codes "Mark generated packets to avoid queue loops and conntrack corruption."
    ∷ quic_step cfg
    ∷ []

abbrev pub dry_run_of : Quote → Config → RuleSet → Plan → DryRun
dry_run_of quote cfg rules plan = record {
  queue_num = plan.queue_num;
  targets = plan.targets;
  candidates = plan.candidates;
  setup_commands = rules.setup;
  teardown_commands = rules.teardown;
  steps = plan_steps quote cfg rules plan;
}

unfoldable pub build_dry_run : Quote → Config → Plan → Result ConfigError DryRun
build_dry_run quote given plan =
    let cfg = normalized given in
    elim (build_rule_set quote cfg) [
      | fails err ↦ fails err
      | returns rules ↦ returns (dry_run_of quote cfg rules (normalize_plan cfg plan))
    ]

unfoldable pub mode_of : Candidate → Text
mode_of c = if c.udp && c.tcp then codes "tcp+udp" else if c.udp then codes "udp" else codes "tcp"

unfoldable pub candidate_lines : List Candidate → Text
candidate_lines [] = []
candidate_lines (c ∷ cs) =
    codes "- " ++ c.name ++ codes " [" ++ mode_of c ++ codes "]\n" ++ candidate_lines cs

unfoldable pub text_of : DryRun → Text
text_of d =
    codes "Router probe dry run\nQueue: "
    ++ decimal d.queue_num
    ++ codes "\nTargets: "
    ++ join_with (codes ", ") d.targets
    ++ codes "\n\nCandidates:\n"
    ++ candidate_lines d.candidates
    ++ codes "\nSetup commands:\n"
    ++ script_lines (codes "- ") d.setup_commands
    ++ codes "\nSteps:\n"
    ++ script_lines (codes "- ") d.steps
    ++ codes "\nTeardown commands:\n"
    ++ script_lines (codes "- ") d.teardown_commands

or_default-filled {ℓ} :
    {A : Type ℓ} (xs ys : List A) → 0 < length ys → 0 < length (or_default xs ys)
or_default-filled [] ys h = h
or_default-filled (x ∷ xs) ys h = omega arith

queue_num-positive :
    (cfg : Config) (plan : Plan) → 0 < (normalize_plan (normalized cfg) plan).queue_num
unfolding normalize_plan normalized
queue_num-positive cfg plan = ground arith

targets-filled :
    (cfg : Config) (plan : Plan) → 0 < length (normalize_plan (normalized cfg) plan).targets
unfolding normalize_plan normalized
targets-filled cfg plan =
    or_default-filled plan.targets (normalized cfg).probe_targets (
      or_default-filled (trim_strings cfg.probe_targets) default_config.probe_targets (omega arith))

-- What a dry run is to show
abbrev pub Shows : RuleSet → DryRun → Type 0
Shows rules d =
    (d.setup_commands ≡ rules.setup)
    × (d.teardown_commands ≡ rules.teardown)
    × (0 < d.queue_num)
    × (0 < length d.targets)
    × (0 < length d.candidates)

dry_run_of-Shows :
    (quote : Quote) (cfg : Config) (rules : RuleSet) (plan : Plan)
    → Shows rules (dry_run_of quote (normalized cfg) rules (normalize_plan (normalized cfg) plan))
unfolding normalize_plan
dry_run_of-Shows quote cfg rules plan = (
  refl,
  refl,
  queue_num-positive cfg plan,
  targets-filled cfg plan,
  or_default-filled plan.candidates default_plan.candidates (omega arith),
)

-- A dry run that is built shows the commands of the rules that the engine of the same configuration
-- installs and removes, and probes: its queue number is not zero, and it has a target and a
-- candidate, whatever the plan leaves out.
pub build_dry_run_complete :
    (quote : Quote) (cfg : Config) (plan : Plan) (d : DryRun)
    → build_dry_run quote cfg plan ≡ returns d
    → (rules : RuleSet) × (build_rule_set quote (new_engine cfg).cfg ≡ returns rules)
      × Shows rules d
unfolding build_dry_run
build_dry_run_complete quote cfg plan d h = by_rules (build_rule_set quote (normalized cfg)) refl
  where
    by_rules :
        (o : Result ConfigError RuleSet)
        → build_rule_set quote (normalized cfg) ≡ o
        → (rules : RuleSet) × (build_rule_set quote (normalized cfg) ≡ returns rules)
          × Shows rules d
    by_rules (fails err) e = absurd (ground (arith, h, e))
    by_rules (returns rules) e =
        let same : dry_run_of quote (normalized cfg) rules (normalize_plan (normalized cfg) plan)
            ≡ d =
          ground (arith, h, e) in
        (rules, e, subst (Shows rules) same (dry_run_of-Shows quote cfg rules plan))
