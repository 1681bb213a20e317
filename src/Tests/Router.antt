-- ===== src/Tests/Router.antt =====
-- Runs of the router modules on the board of the kanban tests.
use trello_openclaw_webhook.Prelude.{
  ◌≡◌, ◌≢◌, ◌↔◌, ◌⊎◌, refl, true, ◌==◌, [], ◌∷◌, Option, none, some, Str, bytes, All, contains,
  trim_space, has_prefix, if◌then◌else◌,
}
use trello_openclaw_webhook.Router.Engine.{
  Event, KanbanValue, bool, not_bool, Route, Engine, evaluate, build_kanban_value,
}
use trello_openclaw_webhook.Router.Engine.FirstMatch.{Decides, IsDropped, evaluate-first_match}
use trello_openclaw_webhook.Router.Config.{RouteBlock, decode_config}
use trello_openclaw_webhook.Router.Config.Accepted.{Accepted, decode_config_sound}
use trello_openclaw_webhook.Router.Defaults.{HclFuncs, default_routes}
use trello_openclaw_webhook.Router.Defaults.Table.{table, default_routes-evaluate}
use trello_openclaw_webhook.Router.Provider.{ProviderConfig, validate, is_enabled}
use trello_openclaw_webhook.Router.Provider.Usable.{IsUsable, validate-IsUsable}
use trello_openclaw_webhook.Router.Rule
use trello_openclaw_webhook.Router.Rule.{
  CardSignals, RuleBlock, World, file, decode_rule_config, match_rules, matched,
}
use trello_openclaw_webhook.Router.Rule.Match.{Chosen, match_rules-Chosen}
use trello_openclaw_webhook.Router.Rule.Decoded.{IsLoaded, decode_rule_config_sound}
use trello_openclaw_webhook.Tests.Kanban.{lower, board}

abbrev pub hcl : HclFuncs
hcl = record { lower = lower; trimspace = trim_space; contains = contains; startswith = has_prefix }

-- A card moves to the plan list, which the event names by its id.
abbrev pub to_plan : Event
to_plan = record {
  type = bytes "updateCard";
  card_id = bytes "c-1";
  card_id_valid = true;
  list_after = [];
  list_after_id = bytes "l1";
  list_name = [];
  list_id = [];
  comment = [];
}

abbrev pub kanban : KanbanValue
kanban = build_kanban_value lower (some board)

abbrev broken : Route
broken = record {
  name = bytes "broken";
  when = λ ev k. not_bool;
  action = bytes "drop";
  reason = [];
}

abbrev always : Route
always = record {
  name = bytes "always";
  when = λ ev k. bool true;
  action = bytes "dispatch";
  reason = bytes "r";
}

abbrev engine : Engine
engine = record { routes = broken ∷ always ∷ []; kanban = kanban }

evaluate-first_match_example :
    Decides engine.kanban to_plan engine.routes (evaluate engine to_plan).0
    ⊎ (All (λ r. r.when to_plan engine.kanban ≢ bool true) engine.routes
        × IsDropped (evaluate engine to_plan).0)
evaluate-first_match_example = evaluate-first_match engine to_plan

abbrev block : RouteBlock
block = record {
  label = bytes "always";
  body = some (record { when = always.when; action = bytes "dispatch"; reason = bytes "r" });
}

decode_config_sound_example : (always ∷ [] ≢ []) × Accepted [] (block ∷ []) (always ∷ [])
unfolding decode_config trello_openclaw_webhook.Prelude.◌==◌
    trello_openclaw_webhook.Prelude.contains
decode_config_sound_example = decode_config_sound (block ∷ []) (always ∷ []) refl

default_routes-evaluate_example :
    (evaluate (record { routes = default_routes hcl; kanban = kanban }) to_plan).0
    ≡ table hcl kanban to_plan
default_routes-evaluate_example = default_routes-evaluate hcl kanban to_plan

-- The move as Trello reports it: with the list's id and its name.
abbrev to_plan_named : Event
to_plan_named = record to_plan { list_after = bytes "Plan" }

abbrev provider : ProviderConfig
provider = record {
  type = bytes "azure";
  base_url = bytes "https://x";
  api_key = [];
  api_key_ref = bytes "KEY";
  bearer_token = [];
  wire_api = [];
  azure_api_version = bytes "v1";
}

abbrev env : Str → Option Str
env name = some (bytes "secret")

validate-IsUsable_example : IsUsable provider
unfolding is_enabled validate trello_openclaw_webhook.Prelude.contains
    trello_openclaw_webhook.Prelude.◌==◌
validate-IsUsable_example = validate-IsUsable provider refl refl

abbrev keyed : ProviderConfig
keyed = record provider { api_key = bytes "secret" }

abbrev signals : CardSignals
signals = record {
  id = bytes "c-1";
  name = bytes "Fix";
  list_name = bytes "Plan";
  first_line = [];
  labels = bytes "bug" ∷ [];
}

abbrev rule : Rule.Rule
rule = record {
  name = bytes "bugs";
  when = λ card k. bool (contains card.labels (bytes "bug"));
  model = bytes "m";
  provider = none;
  prompts = bytes "bug.md" ∷ [];
}

abbrev rule_block : RuleBlock
rule_block = record {
  label = bytes "bugs";
  body = some (record {
    when = rule.when;
    model = bytes " m";
    provider_blocks = [];
    prompts = bytes "bug.md" ∷ [];
  });
}

abbrev world : World
world = record { lookup_env = env; playbooks_dir = bytes "/p"; stat = λ name. file }

match_rules-Chosen_example : Chosen kanban signals (rule ∷ []) (matched rule)
unfolding match_rules trello_openclaw_webhook.Prelude.contains trello_openclaw_webhook.Prelude.◌==◌
match_rules-Chosen_example = match_rules-Chosen kanban signals (rule ∷ []) (matched rule) refl

decode_rule_config_sound_example : (rule ∷ [] ≢ []) × All (IsLoaded world) (rule ∷ [])
unfolding decode_rule_config trello_openclaw_webhook.Prelude.contains
    trello_openclaw_webhook.Prelude.◌==◌ Rule.decode_rule Rule.decode_provider Rule.check_prompts
    trello_openclaw_webhook.Prelude.contains_byte trello_openclaw_webhook.Prelude.contains_str
    trim_space
decode_rule_config_sound_example = decode_rule_config_sound world (rule_block ∷ []) (rule ∷ []) refl
