-- ===== src/Model/Examples.antt =====
-- Answers of a model server to mbroker/daemon/model_client.c. A double is a natural number here.
use aiomb.Prelude.{ℕ, [], ◌∷◌, Option, none, some, codes, text_eq, true, ℤ, pos, ◌≡◌, refl}
use aiomb.DaemonConfig.{DaemonConfig, zeroed}
use aiomb.Model.{
  Json, bool, integer, real, string, array, object, cons, nil, field, end, int_of, json_object_get,
}
use aiomb.Model.Calls.{
  model_select_server, model_check_anomaly, model_predict_load, model_optimize_policy,
  model_health_check, server_result, anomaly_result, predict_result, policy_result, reals,
}
use aiomb.Model.Choice.{chosen_server, server_at}
use aiomb.Model.Bounds.{ServerFits, AnomalyFits, PredictFits, PolicyFits, results-fit}

-- One answer with the fields of all the calls.
abbrev answer : ℤ → Json ℕ
answer index = object (
    field (codes "server_index") (integer index) (
      field (codes "q_values") (array (cons (real 7) (cons (integer (pos 3)) nil))) (
        field (codes "servers")
          (array (cons (object (field (codes "anomalous") (bool true) end)) nil))
          (field (codes "status") (string (codes "ok")) end))))

abbrev answers : ℤ → Json ℕ → Option (Json ℕ)
answers index request = some (answer index)

abbrev two_servers : DaemonConfig
two_servers = record zeroed { ml_enabled = pos 1; nfs_servers = codes "a" ∷ codes "b" ∷ [] }

abbrev flat : ℕ → ℕ
flat i = i

chooses_second : chosen_server 0 (answers (pos 1)) two_servers ≡ some (codes "b")
unfolding chosen_server model_select_server server_result int_of json_object_get server_at text_eq
    reals
chooses_second = refl

-- An index out of range, or below 0 after the cast to int, leaves the host of the request.
chooses_none : chosen_server 0 (answers (pos 2)) two_servers ≡ none
unfolding chosen_server model_select_server server_result int_of json_object_get server_at text_eq
    reals
chooses_none = refl

chooses_negative : chosen_server 0 (answers (pos 4294967295)) two_servers ≡ none
unfolding chosen_server model_select_server server_result int_of json_object_get server_at text_eq
    reals
chooses_negative = refl

is_well : model_health_check 0 (answers (pos 0)) ≡ true
unfolding model_health_check json_object_get text_eq
is_well = refl

results-fit_example :
    ServerFits 2 (server_result 0 2 (answer (pos 1)))
    × AnomalyFits (anomaly_result 0 (answer (pos 1)))
    × PredictFits (predict_result 0 (answer (pos 1)))
    × PolicyFits (policy_result 0 (answer (pos 1)))
unfolding model_select_server model_check_anomaly model_predict_load model_optimize_policy
results-fit_example =
    results-fit 0 (answers (pos 1)) flat flat flat (pos 0) (pos 6) 2 2 _ _ _ _ refl refl refl refl
