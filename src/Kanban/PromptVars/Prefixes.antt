-- ===== src/Kanban/PromptVars/Prefixes.antt =====
-- The default prefix of internal/app/kanban/promptvars.go against `IsAgentComment` of
-- internal/app/kanban/kanban.go.
use trello_openclaw_webhook.Prelude.{
  ◌≡◌, ◌≢◌, refl, true, false, some, List, [], ◌∷◌, arith, Str, eq_iff, trim_space, has_prefix,
}
use trello_openclaw_webhook.Kanban.Resolve.{Resolved}
use trello_openclaw_webhook.Kanban.Category.{is_agent_comment, has_agent_prefix}
use trello_openclaw_webhook.Kanban.PromptVars.{first_non_empty, default_agent_comment_prefix}

first_non_empty-recognised :
    (ps : List Str) (text : Str)
    → first_non_empty ps ≢ []
    → has_prefix text (first_non_empty ps) ≡ true
    → has_agent_prefix ps text ≡ true
unfolding first_non_empty has_agent_prefix
first_non_empty-recognised [] text h k = ground arith
first_non_empty-recognised (p ∷ ps) text h k =
    ground (arith, eq_iff p [], first_non_empty-recognised ps text)

first_non_empty-none :
    (ps : List Str) (text : Str) → first_non_empty ps ≡ [] → has_agent_prefix ps text ≡ false
unfolding first_non_empty has_agent_prefix
first_non_empty-none [] text h = refl
first_non_empty-none (p ∷ ps) text h = ground (arith, eq_iff p [], first_non_empty-none ps text)

-- A comment that begins, after trimming, with the prefix that workers are told to use is taken
-- for an agent's own comment.
pub is_agent_comment-default_prefix :
    (r : Resolved) (text : Str)
    → default_agent_comment_prefix (some r) ≢ []
    → has_prefix (trim_space text) (default_agent_comment_prefix (some r)) ≡ true
    → is_agent_comment (some r) text ≡ true
unfolding is_agent_comment default_agent_comment_prefix
is_agent_comment-default_prefix r text h k =
    first_non_empty-recognised r.agent_comment_prefixes (trim_space text) h k

-- Where no usable prefix is configured, no comment is taken for an agent's.
pub is_agent_comment-no_prefix :
    (r : Resolved) (text : Str)
    → default_agent_comment_prefix (some r) ≡ []
    → is_agent_comment (some r) text ≡ false
unfolding is_agent_comment default_agent_comment_prefix
is_agent_comment-no_prefix r text h =
    first_non_empty-none r.agent_comment_prefixes (trim_space text) h
