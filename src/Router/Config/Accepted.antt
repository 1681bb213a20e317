-- ===== src/Router/Config/Accepted.antt =====
-- What holds of the routes that `DecodeConfig` of internal/app/router/router.go returns.
use trello_openclaw_webhook.Prelude.{
  ◌≡◌, ◌≢◌, refl, sym, ap, ◌∙◌, ◌⊎◌, inl, inr, true, false, Option, none, some, List, [], ◌∷◌, map,
  arith, Str, eq_iff, contains, All,
}
use mathlib.Core.Path.{subst}
use trello_openclaw_webhook.Router.Engine.{Route}
use trello_openclaw_webhook.Router.Config.{
  is_valid_action, RouteBody, RouteBlock, ConfigError, ok, decode_block, decode_blocks, push_route,
  decode_config, at_least_one,
}

pub record IsRoute (seen : List Str) (r : Route) : Type 0 where
  pub named : r.name ≢ []
  pub new : contains seen r.name ≡ false
  pub valid : is_valid_action r.action ≡ true

-- No two routes have the same name.
abbrev pub DistinctNames : List Route → Type 0
DistinctNames [] = Unit
DistinctNames (r ∷ rs) = All (λ q. r.name ≢ q.name) rs × DistinctNames rs

decode_block-IsRoute :
    (seen : List Str) (b : RouteBlock) (body : Option RouteBody) (r : Route)
    → decode_block seen b body ≡ inr r
    → IsRoute seen r × (r.name ≡ b.label)
unfolding decode_block
decode_block-IsRoute seen b none r h = absurd (ground arith)
decode_block-IsRoute seen b (some body) r h = (
  record {
    named = ground (arith, eq_iff b.label []);
    new = ground (arith, eq_iff b.label []);
    valid = ground (arith, eq_iff b.label []);
  },
  ground arith,
)

push_route-inr :
    (x : ConfigError ⊎ Route) (y : ConfigError ⊎ List Route) (rs : List Route)
    → push_route x y ≡ inr rs
    → (r : Route) × (rest : List Route) × (x ≡ inr r) × (y ≡ inr rest) × (r ∷ rest ≡ rs)
unfolding push_route
push_route-inr (inl e) y rs h = absurd (ground arith)
push_route-inr (inr r) (inl e) rs h = absurd (ground arith)
push_route-inr (inr r) (inr rest) rs h = (r, rest, refl, refl, ground arith)

not_new :
    (seen : List Str) (x : Str) (rs : List Route)
    → All (IsRoute (x ∷ seen)) rs
    → All (IsRoute seen) rs × All (λ q. x ≢ q.name) rs
unfolding contains
not_new seen x [] h = (tt, tt)
not_new seen x (r ∷ rs) (h, hs) =
    let (same, apart) = not_new seen x rs hs in
    let new = h.new in
    (
      (record { named = h.named; new = ground arith; valid = h.valid }, same),
      (ground (arith, eq_iff x r.name), apart),
    )

-- The loop's promise for the routes `rs` of the blocks `bs`.
abbrev pub Accepted : List Str → List RouteBlock → List Route → Type 0
Accepted seen bs rs =
    All (IsRoute seen) rs × DistinctNames rs × (map (λ r. r.name) rs ≡ map (λ b. b.label) bs)

decode_blocks_sound :
    (seen : List Str) (bs : List RouteBlock) (rs : List Route)
    → decode_blocks seen bs ≡ inr rs
    → All (IsRoute seen) rs × DistinctNames rs × (map (λ r. r.name) rs ≡ map (λ b. b.label) bs)
unfolding decode_blocks
decode_blocks_sound seen [] [] h = (tt, tt, refl)
decode_blocks_sound seen [] (r ∷ rs) h = absurd (ground arith)
decode_blocks_sound seen (b ∷ bs) rs h =
    let (r, rest, first, later, e) =
      push_route-inr (decode_block seen b b.body) (decode_blocks (b.label ∷ seen) bs) rs h in
    let (is, name) = decode_block-IsRoute seen b b.body r first in
    let (all, distinct, names) = decode_blocks_sound (b.label ∷ seen) bs rest later in
    let (kept, apart) = not_new seen b.label rest all in
    subst (Accepted seen (b ∷ bs)) e (
      (is, kept),
      (subst (λ n. All (λ q. n ≢ q.name) rest) (sym name) apart, distinct),
      ap (λ n. n ∷ map (λ r. r.name) rest) name ∙ ap (λ ns. b.label ∷ ns) names,
    )

at_least_one-ok :
    (x : ConfigError ⊎ List Route) (rs : List Route)
    → at_least_one x ≡ ok rs
    → (x ≡ inr rs) × (rs ≢ [])
unfolding at_least_one
at_least_one-ok (inl e) rs h = absurd (ground arith)
at_least_one-ok (inr []) rs h = absurd (ground arith)
at_least_one-ok (inr (r ∷ rest)) rs h = (ground arith, ground arith)

-- The routes that are loaded stand in the order of their blocks and under their labels, there is
-- at least one, each has a name and one of the four actions, and no two have the same name.
pub decode_config_sound :
    (bs : List RouteBlock) (rs : List Route)
    → decode_config (some bs) ≡ ok rs
    → (rs ≢ []) × Accepted [] bs rs
unfolding decode_config
decode_config_sound bs rs h =
    let (found, some_route) = at_least_one-ok (decode_blocks [] bs) rs h in
    (some_route, decode_blocks_sound [] bs rs found)
