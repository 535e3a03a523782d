-- ===== src/Models.antt =====
-- models.go: the models of an account (modelConfigs, available, detail), and by child modules the
-- choice of their routes and the cache that keeps them.
pub mod Routes
pub mod Served
pub mod Cache
pub mod Capacity
pub mod Discovery
pub mod Held
pub mod Listed
use trae_api.Prelude.{
  ℕ, String, ◌==◌, string_eq, Bool, true, false, not, ◌&&◌, ◌||◌, Option, none, some, List, [], ◌∷◌,
  map, any, has_prefix, has_suffix, if◌then◌else◌,
}
use trae_api.Json.{
  Codec, Members, Value, bool, object_value, first_string, at_key, records, positive_int,
}

pub record ModelDetail : Type 0 where
  pub name : String
  pub max_tokens : ℕ

pub record ModelConfig : Type 0 where
  pub name : String
  pub usage : String
  pub enabled : Bool
  pub custom : Bool
  pub details : List ModelDetail
  pub dev_window : ℕ
  pub max_window : ℕ

pub record ModelEntry : Type 0 where
  pub function : String
  pub config : ModelConfig

abbrev pub chat_functions : List String
chat_functions = "chat_v3" ∷ "solo_work_lite" ∷ "solo_agent" ∷ "solo_agent_lite" ∷ []

unfoldable pub chat_function : String → Bool
chat_function f = any (λ allowed. f == allowed) chat_functions

-- v == true and v == false, at an `any`
unfoldable pub is_true : Value → Bool
is_true (bool b) = b
is_true _ = false

unfoldable pub is_false : Value → Bool
is_false (bool b) = not b
is_false _ = false

-- (m modelConfig) detail
abbrev find_detail : List ModelDetail → String → Option ModelDetail
find_detail [] suffix = none
find_detail (d ∷ ds) suffix = if has_suffix d.name suffix then some d else find_detail ds suffix

abbrev pub detail : ModelConfig → String → Option ModelDetail
detail m suffix = find_detail m.details suffix

module _ ⦃go : Codec⦄ where
  unfoldable pub model_detail : Members → ModelDetail
  model_detail d = record {
    name = first_string (some d) ("model_name" ∷ []);
    max_tokens = positive_int (at_key (some d) "max_tokens");
  }

  -- One turn of the loop of modelConfigs.
  unfoldable pub model_config : Members → ModelConfig
  unfolding is_true is_false model_detail
  model_config raw =
      let window = object_value (at_key (some raw) "context_window_tokens") in
      record {
        name = first_string (some raw) ("config_name" ∷ []);
        usage = first_string (some raw) ("usage" ∷ []);
        enabled = not (is_false (at_key (some raw) "config_switch"));
        custom =
            is_true (at_key (some raw) "is_custom_model")
            || is_true
                (at_key (object_value (at_key (some raw) "display_config")) "is_custom_model");
        details = map model_detail (records (at_key (some raw) "model_detail_list"));
        dev_window = positive_int (at_key window "dev");
        max_window = positive_int (at_key window "max");
      }

  unfoldable pub model_configs : Value → List ModelConfig
  unfolding model_config
  model_configs v = map model_config (records v)

  unfoldable pub available : ModelConfig → Bool
  available m =
      not (m.name == "")
      && not (has_prefix (go.to_lower m.name) "custom_model")
      && m.enabled
      && not m.custom
      && (m.usage == "" || m.usage == "chat_completion")
