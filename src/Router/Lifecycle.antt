-- ===== src/Router/Lifecycle.antt =====
-- Start and Stop: what is left installed and running.
use gecit_unofficial.Base.{
  ◌≡◌, refl, ◌⊎◌, inl, inr, Bool, true, false, ◌||◌, Option, none, some, List, [], ◌∷◌, arith,
  Option-cases, Result, returns, fails,
}
use gecit_unofficial.Router.Engine.{
  Engine, new_runner, apply_batch, runner_start, runner_stop, cancel_context, await_done,
  StartAnswers, StopAnswers, StartError, is_nil, rollback_startup, launch, start, stop, EngineCall,
}
use gecit_unofficial.Router.Config.{ConfigError, validate}
use gecit_unofficial.Router.Nftables.{RuleSet, Quote, build_rule_set, setup_batch, teardown_batch}

-- An engine that is stopped or running as a whole.
abbrev pub IsWhole : Engine → Type 0
IsWhole e =
    (e.has_cancel ≡ e.has_runner) × (e.has_done ≡ e.has_runner) × (e.rules_installed ≡ e.has_runner)

launch-IsWhole :
    (e : Engine) (rules : RuleSet) (ans : StartAnswers) → IsWhole e → IsWhole (launch e rules ans).1
unfolding launch rollback_startup
launch-IsWhole e rules ans w = ground (arith, w)

-- Start keeps the engine whole, and Stop makes any engine whole and stopped.
pub start-stop-IsWhole :
    (quote : Quote) (e : Engine) (begin : StartAnswers) (end : StopAnswers)
    → (IsWhole e → IsWhole (start quote e begin).1)
      × (IsWhole (stop e end).1 × ((stop e end).1.has_runner ≡ false))
unfolding start stop
start-stop-IsWhole quote e begin end = (
  (λ w. elim (Option-cases (validate e.cfg)) [
    | inr (err, found) ↦ ground (arith, found, w)
    | inl valid ↦ of_rules valid w (build_rule_set quote e.cfg) refl
  ]),
  ((refl, refl, refl), refl),
)
  where
    of_rules :
        validate e.cfg ≡ none
        → IsWhole e
        → (r : Result ConfigError RuleSet) → build_rule_set quote e.cfg ≡ r
        → IsWhole (start quote e begin).1
    of_rules valid w (fails err) h = ground (arith, valid, h, w)
    of_rules valid w (returns rules) h = ground (arith, valid, h, w, launch-IsWhole e rules begin w)

-- A batch was applied.
unfoldable pub has_applied : List EngineCall → Bool
has_applied [] = false
has_applied (apply_batch text applied ∷ cs) = applied || has_applied cs
has_applied (c ∷ cs) = has_applied cs

-- The end of a failed start.
abbrev pub rollback_calls : RuleSet → Bool → List EngineCall
rollback_calls rules removed =
    new_runner
    ∷ apply_batch (setup_batch rules) true
    ∷ runner_start
    ∷ runner_stop
    ∷ apply_batch (teardown_batch rules) removed
    ∷ []

-- What a start from a stopped engine comes to.
abbrev pub Starts : RuleSet → Option StartError × Engine × List EngineCall → Type 0
Starts rules r =
    ((r.1.has_runner ≡ true)
      × (r.0 ≡ none)
      × (r.1.rules ≡ some rules)
      × (r.2 ≡ new_runner ∷ apply_batch (setup_batch rules) true ∷ runner_start ∷ []))
    ⊎ (((r.1.has_runner ≡ false) × (has_applied r.2 ≡ false))
        ⊎ ((r.1.has_runner ≡ false) × ((removed : Bool) × (r.2 ≡ rollback_calls rules removed))))

-- Start on a stopped engine with a valid configuration comes to one of three ends: it runs, with
-- the setup batch applied and no error; it is stopped and no batch was applied; or the runner ended
-- early, and after the setup batch the runner was stopped and the teardown batch was handed over.
pub start-Starts :
    (quote : Quote) (e : Engine) (ans : StartAnswers) (rules : RuleSet)
    → e.has_runner ≡ false
    → validate e.cfg ≡ none
    → build_rule_set quote e.cfg ≡ returns rules
    → Starts rules (start quote e ans)
unfolding start launch rollback_startup has_applied
start-Starts quote e ans rules idle valid built = elim (Option-cases ans.runner) [
  | inr (err, found) ↦ inr (inl (ground (arith, idle, valid, built, found)))
  | inl made ↦ elim (Option-cases ans.install) [
    | inr (err, found) ↦ inr (inl (ground (arith, idle, valid, built, made, found)))
    | inl put ↦ elim (Option-cases ans.early) [
      | inl runs ↦ inl (ground (arith, idle, valid, built, made, put, runs))
      | inr (err, found) ↦ inr (
          inr (
            ground (arith, idle, valid, built, made, put, found),
            (is_nil ans.remove, ground (arith, idle, valid, built, made, put, found)),
          ))
    ]
  ]
]

-- Stop on a running engine cancels the context, stops the runner, awaits its end and hands over the
-- teardown batch of the rules that Start kept, each once; a second Stop makes no call and
-- reports no error.
pub stop_once :
    (e : Engine) (rules : RuleSet) (ans again : StopAnswers)
    → IsWhole e
    → e.has_runner ≡ true
    → e.rules ≡ some rules
    → ((stop e ans).2
        ≡ cancel_context
          ∷ runner_stop
          ∷ await_done
          ∷ apply_batch (teardown_batch rules) (is_nil ans.remove)
          ∷ [])
      × ((stop (stop e ans).1 again).0 ≡ none)
      × ((stop (stop e ans).1 again).2 ≡ [])
unfolding stop
stop_once e rules ans again w runs kept = (ground (arith, w, runs, kept), refl, refl)
