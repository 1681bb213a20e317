-- ===== src/Router/Rule.antt =====
-- internal/app/router/rule.go: the decoding of `rule {}` blocks and the choice of a card's rule.
-- The HCL library's decoding of a block is a parameter as in `Router/Config.antt`; `os.LookupEnv`
-- and `os.Stat` under the playbooks directory are arguments.
pub mod Decoded
pub mod Match
use trello_openclaw_webhook.Prelude.{
  Bool, true, false, ◌||◌, ◌&&◌, Option, none, some, List, [], ◌∷◌, Str, bytes, ◌==◌, ◌⊎◌, inl, inr,
  if◌then◌else◌, trim_space, contains, contains_str, contains_byte,
}
use trello_openclaw_webhook.Router.Engine.{KanbanValue, WhenResult, eval_error, not_bool, bool}
use trello_openclaw_webhook.Router.Provider.{
  ProviderConfig, ProviderError, normalize, validate, is_enabled, resolve_api_key,
}

-- `validatePromptName`
pub data NameError : Type 0 where
  empty_name separator dot_dot : NameError

unfoldable pub validate_prompt_name : Str → Option NameError
validate_prompt_name name =
    if name == bytes ""
    then some empty_name
    else if contains_byte name b'/' || contains_byte name 0x5C
    then some separator
    else if contains_str name (bytes "..")
    then some dot_dot
    else none

pub record CardSignals : Type 0 where
  pub id : Str
  pub name : Str
  pub list_name : Str
  pub first_line : Str
  pub labels : List Str

pub record RuleBody : Type 0 where
  pub when : CardSignals → KanbanValue → WhenResult
  pub model : Str
  pub provider_blocks : List ProviderConfig
  pub prompts : List Str

pub record RuleBlock : Type 0 where
  pub label : Str
  pub body : Option RuleBody

-- A loaded rule.
pub record Rule : Type 0 where
  pub name : Str
  pub when : CardSignals → KanbanValue → WhenResult
  pub model : Str
  pub provider : Option ProviderConfig
  pub prompts : List Str

pub data FileKind : Type 0 where
  missing directory file : FileKind

pub data RuleError : Type 0 where
  bad_file no_rules empty_label : RuleError
  bad_body duplicate many_providers no_playbooks_dir : (label : Str) → RuleError
  bad_provider : (label : Str) → ProviderError → RuleError
  bad_prompt : (label prompt : Str) → NameError → RuleError
  missing_prompt prompt_is_directory : (label prompt : Str) → RuleError

pub data RuleResult : Type 0 where
  err : RuleError → RuleResult
  ok : List Rule → RuleResult

-- What a rule may read of the process: the environment, and the kind of the file that a name has
-- in the playbooks directory.
pub record World : Type 0 where
  pub lookup_env : Str → Option Str
  pub playbooks_dir : Str
  pub stat : Str → FileKind

module _ (w : World) where
  unfoldable pub resolved_provider :
      Str → ProviderError ⊎ ProviderConfig → RuleError ⊎ Option ProviderConfig
  resolved_provider label (inl e) = inl (bad_provider label e)
  resolved_provider label (inr p) = inr (some p)

  unfoldable pub checked_provider :
      Str → ProviderConfig → Option ProviderError → RuleError ⊎ Option ProviderConfig
  unfolding resolved_provider
  checked_provider label p (some e) = inl (bad_provider label e)
  checked_provider label p none =
      if is_enabled p
      then resolved_provider label (resolve_api_key (some w.lookup_env) p)
      else inr none

  -- At most one provider block, normalised, validated and given its key.
  unfoldable pub decode_provider : Str → List ProviderConfig → RuleError ⊎ Option ProviderConfig
  unfolding checked_provider
  decode_provider label [] = inr none
  decode_provider label (p ∷ []) = checked_provider label (normalize p) (validate (normalize p))
  decode_provider label (p ∷ q ∷ ps) = inl (many_providers label)

  unfoldable pub stat_prompt : Str → Str → FileKind → Option RuleError → Option RuleError
  stat_prompt label prompt missing rest = some (missing_prompt label prompt)
  stat_prompt label prompt directory rest = some (prompt_is_directory label prompt)
  stat_prompt label prompt file rest = rest

  -- The loop over the prompts; `none` is no error.
  unfoldable pub check_prompts : Str → List Str → Option RuleError
  unfolding stat_prompt validate_prompt_name
  check_prompts label [] = none
  check_prompts label (prompt ∷ prompts) =
      let rest = check_prompts label prompts in
      elim (validate_prompt_name prompt) [
        | some e ↦ some (bad_prompt label prompt e)
        | none ↦ stat_prompt label prompt (w.stat prompt) rest
      ]

  unfoldable pub has_prompts : List Str → Bool
  has_prompts [] = false
  has_prompts (p ∷ ps) = true

  unfoldable pub with_prompts :
      Str → RuleBody → Option ProviderConfig → Option RuleError → RuleError ⊎ Rule
  with_prompts label body provider (some e) = inl e
  with_prompts label body provider none = inr (record {
    name = label;
    when = body.when;
    model = trim_space body.model;
    provider = provider;
    prompts = body.prompts;
  })

  unfoldable pub with_provider :
      Str → RuleBody → RuleError ⊎ Option ProviderConfig → RuleError ⊎ Rule
  unfolding with_prompts has_prompts
  with_provider label body (inl e) = inl e
  with_provider label body (inr provider) =
      if has_prompts body.prompts && w.playbooks_dir == bytes ""
      then inl (no_playbooks_dir label)
      else with_prompts label body provider (check_prompts label body.prompts)

  -- One block: `seen` holds the labels of the blocks before it.
  unfoldable pub decode_rule : List Str → Str → Option RuleBody → RuleError ⊎ Rule
  unfolding with_provider
  decode_rule seen label none = inl (bad_body label)
  decode_rule seen label (some body) =
      if label == bytes ""
      then inl empty_label
      else if contains seen label
      then inl (duplicate label)
      else with_provider label body (decode_provider label body.provider_blocks)

  unfoldable pub push_rule : RuleError ⊎ Rule → RuleError ⊎ List Rule → RuleError ⊎ List Rule
  push_rule (inl e) rest = inl e
  push_rule (inr r) (inl e) = inl e
  push_rule (inr r) (inr rs) = inr (r ∷ rs)

  unfoldable pub decode_rules : List Str → List RuleBlock → RuleError ⊎ List Rule
  unfolding push_rule
  decode_rules seen [] = inr []
  decode_rules seen (b ∷ bs) =
      let rest = decode_rules (b.label ∷ seen) bs in
      push_rule (decode_rule seen b.label b.body) rest

  unfoldable pub at_least_one : RuleError ⊎ List Rule → RuleResult
  at_least_one (inl e) = err e
  at_least_one (inr []) = err no_rules
  at_least_one (inr (r ∷ rs)) = ok (r ∷ rs)

  -- `DecodeRuleConfig`
  unfoldable pub decode_rule_config : Option (List RuleBlock) → RuleResult
  unfolding decode_rules at_least_one
  decode_rule_config none = err bad_file
  decode_rule_config (some blocks) = at_least_one (decode_rules [] blocks)

pub record RuleMatch : Type 0 where
  pub rule_name : Str
  pub model : Str
  pub provider : Option ProviderConfig
  pub prompt_names : List Str

pub data RuleLog : Type 0 where
  rule_when_eval_error rule_when_type_error : (rule : Str) → RuleLog
  rule_no_match : (card_id : Str) → RuleLog

abbrev pub matched : Rule → RuleMatch
matched r = record {
  rule_name = r.name;
  model = r.model;
  provider = r.provider;
  prompt_names = r.prompts;
}

abbrev pub log_before : RuleLog → Option RuleMatch × List RuleLog → Option RuleMatch × List RuleLog
log_before line (m, logs) = (m, line ∷ logs)

-- The loop of `Match`, with the lines that it logs; no match is `none`.
unfoldable pub match_rules : KanbanValue → CardSignals → List Rule → Option RuleMatch × List RuleLog
match_rules kanban card [] = (none, rule_no_match card.id ∷ [])
match_rules kanban card (r ∷ rs) =
    let rest = match_rules kanban card rs in
    elim (r.when card kanban) [
      | eval_error ↦ log_before (rule_when_eval_error r.name) rest
      | not_bool ↦ log_before (rule_when_type_error r.name) rest
      | bool b ↦ elim b [ true ↦ (some (matched r), []) | false ↦ rest ]
    ]
