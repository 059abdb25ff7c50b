-- ===== src/Store/Model.antt =====
-- internal/store/model.go: upstream APIs, gateway keys and the matching of model names.
-- Times are nanoseconds since Go's zero time, so that `IsZero` is a test against 0.
use laskah.Prelude.{
  ℕ, Bool, true, false, not, ◌&&◌, ◌||◌, Option, none, some, List, [], ◌∷◌, ◌==◌, nat_eq, ltb, leb,
  if◌then◌else◌, any, length,
}
use laskah.Prelude.Text.{Text, codes, text_eq, trim_space}
use laskah.Prelude.Maps.{lookup}
use laskah.Prelude.Int.{ℤ}

abbrev pub Time : Type 0
Time = ℕ

abbrev pub second : ℕ
second = 1_000_000_000

abbrev pub minute : ℕ
minute = 60_000_000_000

pub data ProviderType : Type 0 where
  openai anthropic gemini : ProviderType

pub record LastError : Type 0 where
  pub message : Text
  pub at : Time

pub record ProviderStats : Type 0 where
  pub requests : ℕ
  pub success : ℕ
  pub failure : ℕ
  pub prompt_tokens : ℕ
  pub completion_tokens : ℕ
  pub total_tokens : ℕ
  pub upstream_tokens : ℕ
  pub avg_latency_ms : ℕ
  pub last_error : Option LastError
  pub last_used_at : Option Time

pub record Provider (R : Type 0) : Type 0 where
  pub id : Text
  pub account_id : Text
  pub name : Text
  pub type : ProviderType
  pub base_url : Text
  pub api_key : Text
  pub models : List Text
  pub model_map : List (Text × Text)
  pub weight : R
  pub priority : ℤ
  pub timeout_ms : ℕ
  pub enabled : Bool
  pub stats : ProviderStats
  pub cooldown_until : Time
  pub inflight : ℕ
  pub consecutive_failures : ℕ

pub record KeyStats (R : Type 0) : Type 0 where
  pub requests : ℕ
  pub success : ℕ
  pub failure : ℕ
  pub prompt_tokens : ℕ
  pub completion_tokens : ℕ
  pub total_tokens : ℕ
  pub upstream_tokens : ℕ
  pub cost : R
  pub last_used_at : Option Time

pub record ApiKey (R : Type 0) : Type 0 where
  pub name : Text
  pub id : Text
  pub account_id : Text
  pub group_id : Text
  pub key : Text
  pub key_hash : Text
  pub enabled : Bool
  pub allowed_models : List Text
  pub provider_ids : List Text
  pub quota_tokens : Option ℕ
  pub rate_limit_per_min : Option ℕ
  pub expires_at : Option Time
  pub created_at : Time
  pub updated_at : Time
  pub stats : KeyStats R

pub data KeyState : Type 0 where
  key_active key_disabled key_expired key_quota_exceeded : KeyState

pub record Group : Type 0 where
  pub name : Text
  pub id : Text
  pub note : Text
  pub enabled : Bool
  pub created_at : Time
  pub updated_at : Time

-- What follows the first `/`, if there is one: `strings.Index` with the slice behind it.
unfoldable pub after_slash : Text → Option Text
after_slash [] = none
after_slash (c ∷ s) = if c == b'/' then some s else after_slash s

-- A slash at the front or at the end does not separate a vendor.
strip_vendor : Text → Text
unfolding after_slash
strip_vendor [] = []
strip_vendor (c ∷ s) =
    if c == b'/'
    then c ∷ s
    else elim (after_slash s) [ none ↦ c ∷ s | some [] ↦ c ∷ s | some (d ∷ t) ↦ trim_space (d ∷ t) ]

unfoldable pub normalize_model_id : Text → Text
unfolding strip_vendor
normalize_model_id model = strip_vendor (trim_space model)

unfoldable pub model_ids_match : Text → Text → Bool
model_ids_match left right =
    let l = normalize_model_id left in
    let r = normalize_model_id right in not (l == codes "") && l == r

-- The regular expression `.*` in front of a continuation: a line feed is not matched.
unfoldable pub star : (Text → Bool) → Text → Bool
star k [] = k []
star k (c ∷ s) = k (c ∷ s) || (not (c == 10) && star k s)

-- `^` segments joined by `.*` `$`, on the pattern before it is split at `*`.
unfoldable pub glob : Text → Text → Bool
unfolding star
glob [] [] = true
glob [] (c ∷ s) = false
glob (p ∷ ps) [] = p == b'*' && star (glob ps) []
glob (p ∷ ps) (c ∷ s) = if p == b'*' then star (glob ps) (c ∷ s) else p == c && glob ps s

unfoldable pub wildcard_match : Text → Text → Bool
wildcard_match pattern value = any (λ c. c == b'*') pattern && glob pattern value

unfoldable pub has_key : {R : Type 0} → Provider R → Text → Bool
has_key p model = elim (lookup model p.model_map) [ none ↦ false | some m ↦ true ]

unfoldable pub pattern_matches : Text → Text → Bool
pattern_matches model pattern =
    let normalized = normalize_model_id model in
    pattern == codes "*"
    || model_ids_match pattern model
    || wildcard_match pattern model
    || (not (normalized == model) && wildcard_match pattern normalized)

module _ {R : Type 0} where
  unfoldable pub explicitly_supports_model : Provider R → Text → Bool
  explicitly_supports_model p model =
      let normalized = normalize_model_id model in
      not (model == codes "")
      && (has_key p model
          || (not (normalized == model) && has_key p normalized)
          || any (pattern_matches model) p.models)

  unfoldable pub supports_model : Provider R → Text → Bool
  supports_model p model =
      model == codes "" || explicitly_supports_model p model || length p.models == 0

  -- A mapping to the empty name counts as none.
  unfoldable pub mapped : Provider R → Text → Option Text
  mapped p model = elim (lookup model p.model_map) [
    | none ↦ none
    | some m ↦ if m == codes "" then none else some m
  ]

  unfoldable pub upstream_model : Provider R → Text → Text
  upstream_model p model = elim (mapped p model) [
    | some m ↦ m
    | none ↦
        let normalized = normalize_model_id model in
        if normalized == model
        then normalized
        else elim (mapped p normalized) [ some m ↦ m | none ↦ normalized ]
  ]

  unfoldable pub allows_model : ApiKey R → Text → Bool
  allows_model k model =
      model == codes ""
      || length k.allowed_models == 0
      || any (λ allowed. allowed == codes "*" || model_ids_match allowed model) k.allowed_models

  unfoldable pub is_expired : ApiKey R → Time → Bool
  is_expired k now = elim k.expires_at [ none ↦ false | some t ↦ ltb t now ]

  unfoldable pub is_spent : ApiKey R → Bool
  is_spent k = elim k.quota_tokens [ none ↦ false | some q ↦ leb q k.stats.total_tokens ]

  unfoldable pub key_state : ApiKey R → Time → KeyState
  unfolding is_expired is_spent
  key_state k now =
      if not k.enabled
      then key_disabled
      else if is_expired k now
      then key_expired
      else if is_spent k
      then key_quota_exceeded
      else key_active
