-- ===== src/Router/Engine/FirstMatch.antt =====
-- Which route decides in internal/app/router/engine.go.
use trello_openclaw_webhook.Prelude.{
  ◌≡◌, ◌≢◌, refl, sym, ap, ◌⊎◌, inl, inr, true, false, List, [], ◌∷◌, ◌++◌, arith, All, bytes,
}
use mathlib.Core.Path.{subst}
use trello_openclaw_webhook.Router.Engine.{
  Event, KanbanValue, WhenResult, eval_error, not_bool, bool, Route, Decision, Engine, decided,
  evaluate_routes, evaluate,
}

-- The decision where no route is taken.
abbrev pub IsDropped : Decision → Type 0
IsDropped d =
    (d.route ≡ []) × (d.action ≡ bytes "drop") × (d.reason ≡ bytes "router_no_route_matched")

module _ (kanban : KanbanValue) (ev : Event) where
  -- The decision is made by a route whose expression is true, and none before it is true; or no
  -- route's expression is true, and the event is dropped.
  pub record Decides (rs : List Route) (d : Decision) : Type 0 where
    pub before : List Route
    pub chosen : Route
    pub after : List Route
    pub split : rs ≡ before ++ chosen ∷ after
    pub passed : All (λ r. r.when ev kanban ≢ bool true) before
    pub true_here : chosen.when ev kanban ≡ bool true
    pub route : d.route ≡ chosen.name
    pub action : d.action ≡ chosen.action
    pub reason : d.reason ≡ chosen.reason

  Decides-cons :
      (r : Route) (rs : List Route) (d : Decision)
      → r.when ev kanban ≢ bool true
      → Decides rs d
      → Decides (r ∷ rs) d
  Decides-cons r rs d h c = record {
    before = r ∷ c.before;
    chosen = c.chosen;
    after = c.after;
    split = ap (λ l. r ∷ l) c.split;
    passed = (h, c.passed);
    true_here = c.true_here;
    route = c.route;
    action = c.action;
    reason = c.reason;
  }

  abbrev Outcome : List Route → Decision → Type 0
  Outcome rs d = Decides rs d ⊎ (All (λ r. r.when ev kanban ≢ bool true) rs × IsDropped d)

  Outcome-cons :
      (r : Route) (rs : List Route) (d : Decision)
      → r.when ev kanban ≢ bool true
      → Outcome rs d
      → Outcome (r ∷ rs) d
  Outcome-cons r rs d h (inl c) = inl (Decides-cons r rs d h c)
  Outcome-cons r rs d h (inr (p, e)) = inr ((h, p), e)

  pub evaluate_routes_skip :
      (r : Route) (rs : List Route)
      → r.when ev kanban ≢ bool true
      → (evaluate_routes kanban ev (r ∷ rs)).0 ≡ (evaluate_routes kanban ev rs).0
  unfolding evaluate_routes
  evaluate_routes_skip r rs h = ground arith

  pub evaluate_routes_hit :
      (r : Route) (rs : List Route)
      → r.when ev kanban ≡ bool true
      → (evaluate_routes kanban ev (r ∷ rs)).0 ≡ decided r
  unfolding evaluate_routes
  evaluate_routes_hit r rs h = ground arith

  When-cases : (w : WhenResult) → (w ≡ bool true) ⊎ (w ≢ bool true)
  When-cases eval_error = inr (cc)
  When-cases not_bool = inr (cc)
  When-cases (bool true) = inl refl
  When-cases (bool false) = inr (cc)

  evaluate_routes-Outcome : (rs : List Route) → Outcome rs (evaluate_routes kanban ev rs).0
  evaluate_routes-Outcome [] = inr (tt, evaluate_routes-IsDropped)
    where
      evaluate_routes-IsDropped : IsDropped (evaluate_routes kanban ev []).0
      evaluate_routes-IsDropped = unfold evaluate_routes in (refl, refl, refl)
  evaluate_routes-Outcome (r ∷ rs) = elim (When-cases (r.when ev kanban)) [
    | inl e ↦ inl (record {
      before = [];
      chosen = r;
      after = rs;
      split = refl;
      passed = tt;
      true_here = e;
      route = ap (λ (d : Decision). d.route) (evaluate_routes_hit r rs e);
      action = ap (λ (d : Decision). d.action) (evaluate_routes_hit r rs e);
      reason = ap (λ (d : Decision). d.reason) (evaluate_routes_hit r rs e);
    })
    | inr e ↦
        subst (Outcome (r ∷ rs)) (sym (evaluate_routes_skip r rs e))
          (Outcome-cons r rs _ e (evaluate_routes-Outcome rs))
  ]

-- The first route whose expression is true decides, with its name, its action and its reason; where there is none the event is dropped with
-- the reason `router_no_route_matched`. A rule whose expression fails, or is no boolean, counts as
-- one that is not true.
pub evaluate-first_match :
    (e : Engine) (ev : Event)
    → Decides e.kanban ev e.routes (evaluate e ev).0
      ⊎ (All (λ r. r.when ev e.kanban ≢ bool true) e.routes × IsDropped (evaluate e ev).0)
unfolding evaluate
evaluate-first_match e ev = evaluate_routes-Outcome e.kanban ev e.routes
