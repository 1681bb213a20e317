-- ===== src/Router/Config.antt =====
-- `DecodeConfig` of internal/app/router/router.go, from the `route` blocks that the HCL library
-- finds. A block whose body the library cannot decode has no body; a file that it cannot parse or
-- scan has no blocks.
pub mod Accepted
use trello_openclaw_webhook.Prelude.{
  Bool, ◌||◌, Option, none, some, List, [], ◌∷◌, ◌++◌, Str, bytes, ◌==◌, if◌then◌else◌, contains,
  not, ◌⊎◌, inl, inr,
}
use trello_openclaw_webhook.Router.Engine.{Event, KanbanValue, WhenResult, Route}

unfoldable pub is_valid_action : Str → Bool
is_valid_action action =
    action == bytes "drop"
    || (action == bytes "dispatch"
        || (action == bytes "terminate" || action == bytes "notify_departure"))

pub record RouteBody : Type 0 where
  pub when : Event → KanbanValue → WhenResult
  pub action : Str
  pub reason : Str

pub record RouteBlock : Type 0 where
  pub label : Str
  pub body : Option RouteBody

pub data ConfigError : Type 0 where
  bad_file no_routes empty_label : ConfigError
  bad_body duplicate invalid_action : (label : Str) → ConfigError

pub data ConfigResult : Type 0 where
  err : ConfigError → ConfigResult
  ok : List Route → ConfigResult

-- One block: `seen` holds the labels of the blocks before it.
unfoldable pub decode_block : List Str → RouteBlock → Option RouteBody → ConfigError ⊎ Route
unfolding is_valid_action
decode_block seen b none = inl (bad_body b.label)
decode_block seen b (some body) =
    if b.label == bytes ""
    then inl empty_label
    else if contains seen b.label
    then inl (duplicate b.label)
    else if not (is_valid_action body.action)
    then inl (invalid_action b.label)
    else inr
        (record { name = b.label; when = body.when; action = body.action; reason = body.reason })

-- An error ends the loop; a good block's route goes before those of the later blocks.
unfoldable pub push_route :
    ConfigError ⊎ Route → ConfigError ⊎ List Route → ConfigError ⊎ List Route
push_route (inl e) rest = inl e
push_route (inr r) (inl e) = inl e
push_route (inr r) (inr rs) = inr (r ∷ rs)

-- The loop over the blocks; `seen` holds the labels of those before.
unfoldable pub decode_blocks : List Str → List RouteBlock → ConfigError ⊎ List Route
unfolding decode_block push_route
decode_blocks seen [] = inr []
decode_blocks seen (b ∷ bs) =
    let rest = decode_blocks (b.label ∷ seen) bs in push_route (decode_block seen b b.body) rest

unfoldable pub at_least_one : ConfigError ⊎ List Route → ConfigResult
at_least_one (inl e) = err e
at_least_one (inr []) = err no_routes
at_least_one (inr (r ∷ rs)) = ok (r ∷ rs)

unfoldable pub decode_config : Option (List RouteBlock) → ConfigResult
unfolding decode_blocks at_least_one
decode_config none = err bad_file
decode_config (some blocks) = at_least_one (decode_blocks [] blocks)
