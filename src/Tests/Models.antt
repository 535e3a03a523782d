-- ===== src/Tests/Models.antt =====
-- The answer that lists one model with a long window.
use trae_api.Prelude.{
  ℕ, String, true, false, none, some, List, [], ◌∷◌, ◌≡◌, refl, text_eq, ◌<>◌, has_prefix,
  has_suffix, insert, lookup, All, Assoc, nat_eq, pos, arith,
}
use trae_api.Fault.{ok}
use trae_api.Http.ModelList.{listed, models}
use trae_api.Store.Codec.{ApiCredential}
use trae_api.Json.{
  Codec, Value, Members, text, number, array, object, cons, nil, member, end, member?, at_key,
  object_value, first_string, field, pick_objects, records, positive_int, is_positive,
}
use trae_api.Models
use trae_api.Models.{ModelConfig, chat_functions}
use trae_api.Models.Routes
use trae_api.Models.Routes.{all_routes, all_entries}
use trae_api.Models.Served.{Served, all_routes-chosen}
use trae_api.Models.Cache.{ModelCache, prune_model_cache}
use trae_api.Models.Discovery.{
  Answer, unsent, answered, model_json, batch_lists, has_models, discover, fresh_entry, fill_cache,
  model_names_attempt, model_names,
}
use trae_api.Models.Listed.{Listing, model_names_attempt-Listing}
use trae_api.Models.Held.{Held}
use trae_api.Upstream.Snapshot.{merge_all, cumulative, concat, merge_all-cumulative}
use trae_api.Tests.Codec.{test_codec}

instance abbrev codec : Codec
codec = test_codec

abbrev pub whole_number : ℕ → Value
whole_number n = number (record { negative = false; whole = n; fraction = 0 })

abbrev pub model_fast : Members
model_fast = member "config_name" (text "fast") (
    member "context_window_tokens"
      (object (member "dev" (whole_number 1000) (member "max" (whole_number 9000) end)))
      (member "model_detail_list"
        (array (
          cons
            (object
              (member "model_name" (text "fast__dev") (member "max_tokens" (whole_number 100) end)))
            (cons
              (object (
                member "model_name" (text "fast__max")
                  (member "max_tokens" (whole_number 200) end)))
              nil)))
        end))

abbrev pub root : Members
root =
    member "function_configs"
      (array (
        cons
          (object (
            member "function" (text "chat_v3")
              (member "config_info_list" (array (cons (object model_fast) nil)) end)))
          nil))
      end

abbrev pub batch : Answer
batch = answered 200 (some (some root))

abbrev silent : String → Answer
silent fn = unsent none

-- The names come out sorted already.
abbrev as_is : List String → List String
as_is xs = xs

names : (model_names_attempt as_is batch silent 0 0 1 []).0 ≡ ok ("fast" ∷ "fast-max" ∷ [])
unfolding model_names_attempt discover model_json batch_lists has_models fresh_entry fill_cache
    prune_model_cache text_eq ◌<>◌ has_prefix has_suffix insert lookup member? at_key object_value
    first_string field pick_objects records positive_int is_positive Models.chat_function
    Models.is_true Models.is_false Models.model_detail Models.model_config Models.model_configs
    Models.available Routes.add_entries Routes.all_entries Routes.choose_entry Routes.base_route
    Routes.first_of Routes.max_route Routes.group_routes Routes.all_routes
names = refl

abbrev account : ApiCredential
account = record {
  version = pos 1;
  token = "token";
  expires_at = 5;
  user_id = "user";
  client_id = "client";
  device_id = "device";
  machine_id = "machine";
}

lists_both :
    (models as_is batch silent 0 0 (λ c. 1) (ok account) []).0 ≡ listed ("fast" ∷ "fast-max" ∷ [])
unfolding models model_names model_names_attempt discover model_json batch_lists has_models
    fresh_entry fill_cache prune_model_cache text_eq ◌<>◌ has_prefix has_suffix insert lookup
    member? at_key object_value first_string field pick_objects records positive_int is_positive
    Models.chat_function Models.is_true Models.is_false Models.model_detail Models.model_config
    Models.model_configs Models.available Routes.add_entries Routes.all_entries Routes.choose_entry
    Routes.base_route Routes.first_of Routes.max_route Routes.group_routes Routes.all_routes
lists_both = refl

model_names_attempt-Listing_example : Listing 1 (model_names_attempt as_is batch silent 0 0 1 [])
model_names_attempt-Listing_example =
    model_names_attempt-Listing as_is (λ P xs h. h) batch silent 0 0 1 [] tt (omega arith)

abbrev lists : Assoc String (List ModelConfig)
lists =
    (
      "chat_v3",
      record {
        name = "fast";
        usage = "";
        enabled = true;
        custom = false;
        details = record { name = "fast__dev"; max_tokens = 100 } ∷ [];
        dev_window = 1000;
        max_window = 9000;
      }
          ∷ [],
    )
    ∷ []

all_routes-chosen_example :
    All
      (Served lists)
      (all_routes (all_entries chat_functions lists []) (all_entries chat_functions lists []))
all_routes-chosen_example = all_routes-chosen lists

abbrev kept : ModelCache
kept = record { models = "fast" ∷ []; at = 10; routes = [] }

merge_all-cumulative_example :
    merge_all "" (cumulative "" ("He" ∷ "llo" ∷ [])) ≡ "" <> concat ("He" ∷ "llo" ∷ [])
merge_all-cumulative_example = merge_all-cumulative "" ("He" ∷ "llo" ∷ [])
