-- ===== src/Router/Rule/Decoded.antt =====
-- What holds of the rules that `DecodeRuleConfig` of internal/app/router/rule.go returns.
use trello_openclaw_webhook.Prelude.{
  ◌≡◌, ◌≢◌, refl, sym, ◌⊎◌, inl, inr, true, Option, none, some, List, [], ◌∷◌, arith, Str, bytes,
  ◌==◌, eq_iff, contains, All, Option-cases, Bool-cases,
}
use mathlib.Core.Path.{subst}
use trello_openclaw_webhook.Router.Provider.{
  ProviderConfig, ProviderError, supported_provider_types, normalize, validate, is_enabled,
  resolve_api_key,
}
use trello_openclaw_webhook.Router.Provider.Usable.{
  IsUsable, validate-IsUsable, resolve_api_key-value, resolve_api_key-no_ref,
}
use trello_openclaw_webhook.Router.Rule.{
  World, Rule, RuleBlock, RuleBody, RuleError, ok, FileKind, missing, directory, file,
  validate_prompt_name, decode_provider, resolved_provider, checked_provider, check_prompts,
  stat_prompt, with_prompts, with_provider, decode_rule, push_rule, decode_rules, at_least_one,
  decode_rule_config,
}

module _ (w : World) where
  -- A prompt has a name that passes `validatePromptName` and is a file of the playbooks directory.
  abbrev pub IsPrompt : Str → Type 0
  IsPrompt p = (validate_prompt_name p ≡ none) × (w.stat p ≡ file)

  -- A provider is one of the supported types with a base URL; a key that is named by a variable
  -- is that variable's value.
  pub record IsReady (p : ProviderConfig) : Type 0 where
    pub type : contains supported_provider_types p.type ≡ true
    pub base_url : p.base_url ≢ []
    pub key : p.api_key_ref ≢ [] → w.lookup_env p.api_key_ref ≡ some p.api_key

  abbrev pub ReadyOption : Option ProviderConfig → Type 0
  ReadyOption none = Unit
  ReadyOption (some p) = IsReady p

  pub record IsLoaded (r : Rule) : Type 0 where
    pub named : r.name ≢ []
    pub provider : ReadyOption r.provider
    pub prompts : All IsPrompt r.prompts

  check_prompts_sound :
      (label : Str) (ps : List Str) → check_prompts w label ps ≡ none → All IsPrompt ps
  unfolding check_prompts
  check_prompts_sound label [] h = tt
  check_prompts_sound label (p ∷ ps) h = elim (Option-cases (validate_prompt_name p)) [
    | inr (e, bad) ↦ absurd (ground arith)
    | inl good ↦
        let stat : stat_prompt w label p (w.stat p) (check_prompts w label ps) ≡ none =
          ground arith in
        let (kind, rest) = stat_lem (w.stat p) (check_prompts w label ps) stat in
        ((good, kind), check_prompts_sound label ps rest)
  ]
    where
      stat_lem :
          (k : FileKind) (o : Option RuleError)
          → stat_prompt w label p k o ≡ none
          → (k ≡ file) × (o ≡ none)
      stat_lem missing o e = absurd (ground arith)
      stat_lem directory o e = absurd (ground arith)
      stat_lem file o e = (refl, e)

  resolve_api_key-Ready :
      (p q : ProviderConfig)
      → IsUsable p
      → resolve_api_key (some w.lookup_env) p ≡ inr q
      → IsReady q
  resolve_api_key-Ready p q u h = elim (Bool-cases (p.api_key_ref == bytes "")) [
    | inl e ↦
        let ref : p.api_key_ref ≡ [] = (eq_iff p.api_key_ref []).0 e in
        let ready : IsReady p = record {
          type = u.type;
          base_url = u.base_url;
          key = λ set. absurd (set ref);
        } in
        subst IsReady (resolve_api_key-no_ref p (some w.lookup_env) q ref h) ready
    | inr e ↦
        let (value, set, same) =
          resolve_api_key-value p w.lookup_env q (ground (arith, eq_iff p.api_key_ref [])) h in
        subst IsReady (sym same) (record { type = u.type; base_url = u.base_url; key = λ _. value })
  ]

  resolved_provider-Ready :
      (label : Str) (p : ProviderConfig) (x : ProviderError ⊎ ProviderConfig)
      (o : Option ProviderConfig)
      → IsUsable p
      → resolve_api_key (some w.lookup_env) p ≡ x
      → resolved_provider w label x ≡ inr o
      → ReadyOption o
  unfolding resolved_provider
  resolved_provider-Ready label p (inl e) o u r h = absurd (ground arith)
  resolved_provider-Ready label p (inr q) o u r h =
      let same : some q ≡ o = ground arith in subst ReadyOption same (resolve_api_key-Ready p q u r)

  checked_provider-Ready :
      (label : Str) (p : ProviderConfig) (e : Option ProviderError) (o : Option ProviderConfig)
      → validate p ≡ e
      → checked_provider w label p e ≡ inr o
      → ReadyOption o
  unfolding checked_provider
  checked_provider-Ready label p (some e) o v h = absurd (ground arith)
  checked_provider-Ready label p none o v h = elim (Bool-cases (is_enabled p)) [
    | inl on ↦ resolved_provider-Ready label p _ o (validate-IsUsable p on v) refl (ground arith)
    | inr off ↦ let same : none ≡ o = ground arith in subst ReadyOption same tt
  ]

  decode_provider-Ready :
      (label : Str) (ps : List ProviderConfig) (o : Option ProviderConfig)
      → decode_provider w label ps ≡ inr o
      → ReadyOption o
  unfolding decode_provider
  decode_provider-Ready label [] o h =
      let same : none ≡ o = ground arith in subst ReadyOption same tt
  decode_provider-Ready label (p ∷ []) o h =
      checked_provider-Ready label (normalize p) (validate (normalize p)) o refl h
  decode_provider-Ready label (p ∷ q ∷ ps) o h = absurd (ground arith)

  with_prompts-Loaded :
      (label : Str) (body : RuleBody) (o : Option ProviderConfig) (c : Option RuleError) (r : Rule)
      → label ≢ []
      → ReadyOption o
      → check_prompts w label body.prompts ≡ c
      → with_prompts w label body o c ≡ inr r
      → IsLoaded r
  unfolding with_prompts
  with_prompts-Loaded label body o (some e) r n ready c h = absurd (ground arith)
  with_prompts-Loaded label body o none r n ready c h = record {
    named = ground arith;
    provider = subst ReadyOption (ground arith) ready;
    prompts = subst (All IsPrompt) (ground arith) (check_prompts_sound label body.prompts c);
  }

  with_provider-Loaded :
      (label : Str) (body : RuleBody) (x : RuleError ⊎ Option ProviderConfig) (r : Rule)
      → label ≢ []
      → decode_provider w label body.provider_blocks ≡ x
      → with_provider w label body x ≡ inr r
      → IsLoaded r
  unfolding with_provider
  with_provider-Loaded label body (inl e) r n d h = absurd (ground arith)
  with_provider-Loaded label body (inr o) r n d h =
      with_prompts-Loaded label body o (check_prompts w label body.prompts) r n
        (decode_provider-Ready label body.provider_blocks o d) refl (ground arith)

  decode_rule-Loaded :
      (seen : List Str) (label : Str) (body : Option RuleBody) (r : Rule)
      → decode_rule w seen label body ≡ inr r
      → IsLoaded r
  unfolding decode_rule
  decode_rule-Loaded seen label none r h = absurd (ground arith)
  decode_rule-Loaded seen label (some body) r h =
      with_provider-Loaded label body (decode_provider w label body.provider_blocks) r
        (ground (arith, eq_iff label [])) refl (ground arith)

  push_rule-All :
      (x : RuleError ⊎ Rule) (y : RuleError ⊎ List Rule) (rs : List Rule)
      → ((r : Rule) → x ≡ inr r → IsLoaded r)
      → ((rest : List Rule) → y ≡ inr rest → All IsLoaded rest)
      → push_rule w x y ≡ inr rs
      → All IsLoaded rs
  unfolding push_rule
  push_rule-All (inl e) y rs hx hy h = absurd (ground arith)
  push_rule-All (inr r) (inl e) rs hx hy h = absurd (ground arith)
  push_rule-All (inr r) (inr rest) rs hx hy h =
      let same : r ∷ rest ≡ rs = ground arith in subst (All IsLoaded) same (hx r refl, hy rest refl)

  decode_rules-All :
      (seen : List Str) (bs : List RuleBlock) (rs : List Rule)
      → decode_rules w seen bs ≡ inr rs
      → All IsLoaded rs
  unfolding decode_rules
  decode_rules-All seen [] rs h = let same : [] ≡ rs = ground arith in subst (All IsLoaded) same tt
  decode_rules-All seen (b ∷ bs) rs h =
      push_rule-All (decode_rule w seen b.label b.body) (decode_rules w (b.label ∷ seen) bs) rs
        (λ r e. decode_rule-Loaded seen b.label b.body r e)
        (λ rest e. decode_rules-All (b.label ∷ seen) bs rest e) h

  at_least_one-ok :
      (x : RuleError ⊎ List Rule) (rs : List Rule)
      → at_least_one w x ≡ ok rs
      → (x ≡ inr rs) × (rs ≢ [])
  unfolding at_least_one
  at_least_one-ok (inl e) rs h = absurd (ground arith)
  at_least_one-ok (inr []) rs h = absurd (ground arith)
  at_least_one-ok (inr (r ∷ rest)) rs h = (ground arith, ground arith)

  -- A rule file that loads has at least one rule, and each of its rules has a name, prompts whose
  -- names pass `validatePromptName` and that are files of the playbooks directory, and either no
  -- provider or one of a supported type with a base URL and, where it names a variable, that
  -- variable's value as its key.
  pub decode_rule_config_sound :
      (bs : List RuleBlock) (rs : List Rule)
      → decode_rule_config w (some bs) ≡ ok rs
      → (rs ≢ []) × All IsLoaded rs
  unfolding decode_rule_config
  decode_rule_config_sound bs rs h =
      let (found, some_rule) = at_least_one-ok (decode_rules w [] bs) rs h in
      (some_rule, decode_rules-All [] bs rs found)
