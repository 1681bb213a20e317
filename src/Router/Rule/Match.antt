-- ===== src/Router/Rule/Match.antt =====
-- Which rule `Match` of internal/app/router/rule.go chooses.
use mathlib.Core.Option.{some-injective}
use trello_openclaw_webhook.Prelude.{
  ◌≡◌, ◌≢◌, refl, sym, ap, ◌∙◌, ◌↔◌, ◌⊎◌, inl, inr, true, false, none, some, List, [], ◌∷◌, ◌++◌,
  arith, All,
}
use trello_openclaw_webhook.Router.Engine.{KanbanValue, WhenResult, eval_error, not_bool, bool}
use trello_openclaw_webhook.Router.Rule.{CardSignals, Rule, RuleMatch, matched, match_rules}

module _ (kanban : KanbanValue) (card : CardSignals) where
  abbrev pub Fails : Rule → Type 0
  Fails r = r.when card kanban ≢ bool true

  pub record Chosen (rs : List Rule) (m : RuleMatch) : Type 0 where
    pub before : List Rule
    pub rule : Rule
    pub after : List Rule
    pub split : rs ≡ before ++ rule ∷ after
    pub failed : All Fails before
    pub true_here : rule.when card kanban ≡ bool true
    pub rule_name : m.rule_name ≡ rule.name
    pub model : m.model ≡ rule.model
    pub provider : m.provider ≡ rule.provider
    pub prompt_names : m.prompt_names ≡ rule.prompts

  skip :
      (r : Rule) (rs : List Rule)
      → Fails r
      → (match_rules kanban card (r ∷ rs)).0 ≡ (match_rules kanban card rs).0
  unfolding match_rules
  skip r rs h = ground arith

  hit :
      (r : Rule) (rs : List Rule)
      → r.when card kanban ≡ bool true
      → (match_rules kanban card (r ∷ rs)).0 ≡ some (matched r)
  unfolding match_rules
  hit r rs h = ground arith

  when_true : (w : WhenResult) → (w ≡ bool true) ⊎ (w ≢ bool true)
  when_true eval_error = inr (cc)
  when_true not_bool = inr (cc)
  when_true (bool true) = inl refl
  when_true (bool false) = inr (cc)

  Chosen-cons :
      (r : Rule) (rs : List Rule) (m : RuleMatch) → Fails r → Chosen rs m → Chosen (r ∷ rs) m
  Chosen-cons r rs m h c = record {
    before = r ∷ c.before;
    rule = c.rule;
    after = c.after;
    split = ap (λ l. r ∷ l) c.split;
    failed = (h, c.failed);
    true_here = c.true_here;
    rule_name = c.rule_name;
    model = c.model;
    provider = c.provider;
    prompt_names = c.prompt_names;
  }

  -- A match is the first rule whose expression is true, with the rule's name, model, provider and
  -- prompts.
  pub match_rules-Chosen :
      (rs : List Rule) (m : RuleMatch) → (match_rules kanban card rs).0 ≡ some m → Chosen rs m
  match_rules-Chosen [] m h = absurd (nothing h)
    where
      nothing : (match_rules kanban card []).0 ≡ some m → ⊥
      nothing e = unfold match_rules in cc e
  match_rules-Chosen (r ∷ rs) m h = elim (when_true (r.when card kanban)) [
    | inl e ↦
        let same : m ≡ matched r = some-injective _ _ (sym h ∙ hit r rs e) in
        record {
          before = [];
          rule = r;
          after = rs;
          split = refl;
          failed = tt;
          true_here = e;
          rule_name = ap (λ (x : RuleMatch). x.rule_name) same;
          model = ap (λ (x : RuleMatch). x.model) same;
          provider = ap (λ (x : RuleMatch). x.provider) same;
          prompt_names = ap (λ (x : RuleMatch). x.prompt_names) same;
        }
    | inr e ↦ Chosen-cons r rs m e (match_rules-Chosen rs m (sym (skip r rs e) ∙ h))
  ]

  -- Where every rule's expression fails, is no boolean or is false, no rule is matched, and the
  -- other way round.
  pub match_rules-none_iff :
      (rs : List Rule) → ((match_rules kanban card rs).0 ≡ none) ↔ All Fails rs
  match_rules-none_iff [] = (λ _. tt, λ _. unfold match_rules in refl)
  match_rules-none_iff (r ∷ rs) = elim (when_true (r.when card kanban)) [
    | inl e ↦ (λ h. absurd (cc (h, hit r rs e)), λ h. absurd (h.0 e))
    | inr e ↦
        let ih = match_rules-none_iff rs in
        (λ h. (e, ih.0 (sym (skip r rs e) ∙ h)), λ h. skip r rs e ∙ ih.1 h.1)
  ]
