-- ===== src/Router/EngineTests.antt =====
-- The theorems on configurations, the flow table and the engine at concrete inputs.
use gecit_unofficial.Base.{
  ◌≡◌, refl, ◌↔◌, true, none, [], ◌∷◌, ◌++◌, arith, returns, codes, text_eq, is_space, trim_left,
  trim_right, trim_space,
}
use gecit_unofficial.Router.Once.{IsBounded, mark_once-IsBounded}
use gecit_unofficial.Router.Validate.{validate-IsSane_iff}
use gecit_unofficial.Router.Flows.{FlowTable, purge, exists_key, mark_once}
use gecit_unofficial.Router.Sane.{IsSane}
use gecit_unofficial.Router.Lifecycle.{Starts, start-Starts}
use gecit_unofficial.Router.Config.{
  Config, default_config, trim_strings, normalized, is_letter, is_word, all_word,
  table_name_matches, validate_ports, validate_normalized, validate,
}
use gecit_unofficial.Router.Engine.{Engine, StartAnswers, StopAnswers, new_engine, start}
use gecit_unofficial.Router.Nftables.{RuleSet, Quote, rules_of, build_rule_set}

abbrev on_wan : Config
on_wan = record default_config { wan_interface = codes "eth0" }

validate-IsSane_iff_example : (validate on_wan ≡ none) ↔ IsSane (normalized on_wan)
validate-IsSane_iff_example = validate-IsSane_iff on_wan

abbrev table : FlowTable
table = record { ttl = 100; limit = 2; entries = (codes "x", 5) ∷ [] }

marked : (mark_once table (codes "y") 50).1 ≡ true
unfolding mark_once purge exists_key text_eq
marked = refl

mark_once-IsBounded_example : IsBounded (mark_once table (codes "y") 50).0
mark_once-IsBounded_example = mark_once-IsBounded table (codes "y") 50 (omega arith)

abbrev quote : Quote
quote s = 34 ∷ (s ++ 34 ∷ [])

abbrev engine : Engine
engine = new_engine on_wan

valid : validate engine.cfg ≡ none
unfolding validate validate_normalized normalized table_name_matches is_letter is_word all_word
    validate_ports text_eq trim_space trim_left trim_right is_space trim_strings
valid = refl

built : build_rule_set quote engine.cfg ≡ returns (rules_of quote (normalized on_wan))
unfolding build_rule_set validate validate_normalized normalized table_name_matches is_letter
    is_word all_word validate_ports text_eq trim_space trim_left trim_right is_space trim_strings
built = refl

abbrev runs : StartAnswers
runs = record { runner = none; install = none; early = none; stop = none; remove = none }

abbrev fine : StopAnswers
fine = record { stop = none; finished = none; remove = none }

start-Starts_example : Starts (rules_of quote (normalized on_wan)) (start quote engine runs)
start-Starts_example =
    start-Starts quote engine runs (rules_of quote (normalized on_wan)) refl valid built

abbrev rules : RuleSet
rules = record {
  table_name = codes "t";
  setup = [];
  teardown = codes "nft delete table inet t" ∷ [];
}
