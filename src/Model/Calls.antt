-- ===== src/Model/Calls.antt =====
-- The calls of mbroker/daemon/model_client.c. `model_rpc` takes a request to its response, as Frames.model_rpc does
-- over a connection; a call that returns -1 is `none`.
use aiomb.Prelude.{
  ℕ, zero, suc, List, [], ◌∷◌, map, Bool, false, Option, none, some, Text, codes, text_eq, ℤ, ltb,
  length, take, if◌then◌else◌,
}
use aiomb.CString.{fit}
use aiomb.Model.{
  Json, integer, real, string, object, end, field, model_max_servers, int_of, ServerResult,
  AnomalyEntry, AnomalyResult, PredictResult, PolicyResult, json_object_get, json_is_true,
  json_integer_value, json_string_value, elements, doubles_to_json_array, doubles_to_json_2d,
  command,
}

abbrev pub min_of : ℕ → ℕ → ℕ
min_of a b = if ltb b a then b else a

abbrev pub over : {A B : Type 0} → (A → B) → Option A → Option B
over f none = none
over f (some a) = some (f a)

abbrev pub name_of : Option Text → Text
name_of none = []
name_of (some name) = fit 64 name

abbrev is_ok : {R : Type 0} → Option (Json R) → Bool
unfolding json_object_get
is_ok none = false
is_ok (some resp) = elim (json_string_value (json_object_get "status" (some resp))) as (λ _. Bool) [
  | none ↦ false
  | some status ↦ text_eq status (codes "ok")
]

module _ {R : Type 0} (nought : R) where
  abbrev pub json_real_value : Option (Json R) → R
  json_real_value (some (real x)) = x
  json_real_value _ = nought

  -- Reads of the first `n` elements, past the end of the array too.
  unfoldable pub reals : List (Json R) → ℕ → List R
  reals xs zero = []
  reals [] (suc n) = nought ∷ reals [] n
  reals (x ∷ xs) (suc n) = json_real_value (some x) ∷ reals xs n

  abbrev pub scores : Option (List (Json R)) → ℕ → List R
  scores none num_servers = []
  scores (some xs) num_servers = reals xs (min_of num_servers model_max_servers)

  -- num_servers is what the request asked for, as the C code sets it, and not the number of the scores.
  unfoldable pub server_result : ℕ → Json R → ServerResult R
  unfolding json_object_get int_of reals
  server_result num_servers resp = record {
    server_index = int_of (json_integer_value (json_object_get "server_index" (some resp)));
    num_servers = num_servers;
    q_values = scores (elements (json_object_get "q_values" (some resp))) num_servers;
    health_scores = scores (elements (json_object_get "health_scores" (some resp))) num_servers;
  }

  unfoldable pub anomaly_entry : Json R → AnomalyEntry R
  unfolding json_object_get int_of
  anomaly_entry s = record {
    server_index = int_of (json_integer_value (json_object_get "server_index" (some s)));
    error = json_real_value (json_object_get "error" (some s));
    threshold = json_real_value (json_object_get "threshold" (some s));
    anomalous = json_is_true (json_object_get "anomalous" (some s));
  }

  abbrev pub anomalies : Option (List (Json R)) → List (AnomalyEntry R)
  anomalies none = []
  anomalies (some xs) = map anomaly_entry (take model_max_servers xs)

  unfoldable pub anomaly_result : Json R → AnomalyResult R
  unfolding json_object_get anomaly_entry
  anomaly_result resp =
      let servers = anomalies (elements (json_object_get "servers" (some resp))) in
      record {
        any_anomalous = json_is_true (json_object_get "any_anomalous" (some resp));
        count = length servers;
        servers = servers;
      }

  abbrev pub predicted : Option (List (Json R)) → List ℤ
  predicted none = []
  predicted (some xs) = map (λ x. int_of (json_integer_value (some x))) (take 64 xs)

  unfoldable pub predict_result : Json R → PredictResult
  unfolding json_object_get int_of
  predict_result resp =
      let predictions = predicted (elements (json_object_get "predictions" (some resp))) in
      record { predictions = predictions; count = length predictions }

  abbrev pub policy_values : Option (List (Json R)) → List R
  policy_values none = []
  policy_values (some xs) = map (λ x. json_real_value (some x)) (take 16 xs)

  unfoldable pub policy_result : Json R → PolicyResult R
  unfolding json_object_get int_of
  policy_result resp =
      let values = policy_values (elements (json_object_get "q_values" (some resp))) in
      record {
        action = int_of (json_integer_value (json_object_get "action" (some resp)));
        action_name = name_of (json_string_value (json_object_get "action_name" (some resp)));
        q_values = values;
        num_actions = length values;
      }

  module _ (model_rpc : Json R → Option (Json R)) where
    unfoldable pub model_select_server :
        (ℕ → R) → (ℕ → R) → (ℕ → R) → ℤ → ℕ → ℤ → Option (ServerResult R)
    unfolding server_result doubles_to_json_2d doubles_to_json_array
    model_select_server telemetry predicted_load connections policy_index num_servers num_policies =
        let params = field (codes "telemetry") (doubles_to_json_2d telemetry num_servers 11) (
          field (codes "predicted_load") (doubles_to_json_array predicted_load num_servers) (
            field (codes "connections") (doubles_to_json_array connections num_servers) (
              field (codes "policy_index") (integer policy_index)
                (field (codes "num_policies") (integer num_policies) end)))) in
        over (server_result num_servers) (model_rpc (command "select_server" params))

    unfoldable pub model_check_anomaly : (ℕ → R) → ℕ → Option (AnomalyResult R)
    unfolding anomaly_result doubles_to_json_2d
    model_check_anomaly nfs_metrics num_servers =
        let params =
          field (codes "nfs_metrics") (doubles_to_json_2d nfs_metrics num_servers 11) end in
        over anomaly_result (model_rpc (command "check_anomaly" params))

    unfoldable pub model_predict_load : (ℕ → R) → ℕ → ℕ → Option PredictResult
    unfolding predict_result doubles_to_json_2d
    model_predict_load history timesteps features =
        let params = field (codes "history") (doubles_to_json_2d history timesteps features) end in
        over predict_result (model_rpc (command "predict_load" params))

    unfoldable pub model_optimize_policy : (ℕ → R) → ℕ → Option (PolicyResult R)
    unfolding policy_result doubles_to_json_array
    model_optimize_policy state state_dim =
        let params = field (codes "state") (doubles_to_json_array state state_dim) end in
        over policy_result (model_rpc (command "optimize_policy" params))

    -- Whether the call returns 0.
    unfoldable pub model_health_check : Bool
    unfolding json_object_get
    model_health_check =
        let request = object (field (codes "cmd") (string (codes "health")) end) in
        is_ok (model_rpc request)
