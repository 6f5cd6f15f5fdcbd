-- ===== src/Model/Bounds.antt =====
-- What the answers of the model server cannot do to the daemon: no result passes its array, and no server is chosen
-- that mbroker/daemon/daemon_config.c has not read.
use mathlib.Core.Option.{none-ne-some, some-injective}
use mathlib.Core.Path.{subst}
use aiomb.Prelude.{
  ℕ, zero, suc, ◌≤◌, ◌<◌, List, [], ◌∷◌, map, false, not, ◌&&◌, Option, none, some, Text, ℤ, pos,
  negsuc, ltb, length, take, length-take-le, get_elem?, ◌≡◌, refl, ap, arith, Bool-cases, inl, inr,
}
use aiomb.CString.Laws.{length-fit}
use aiomb.DaemonConfig.{DaemonConfig}
use aiomb.Model.{Json, ServerResult, AnomalyResult, PredictResult, PolicyResult}
use aiomb.Model.Calls.{
  over, reals, min_of, scores, server_result, anomaly_entry, anomaly_result, predict_result,
  policy_result, anomalies, predicted, policy_values, name_of, model_select_server,
  model_check_anomaly, model_predict_load, model_optimize_policy,
}
use aiomb.Model.Choice.{server_at, named_server, chosen_server, is_zero}

length-map {ℓ κ} :
    {A : Type ℓ} {B : Type κ} (f : A → B) (xs : List A) → length (map f xs) ≡ length xs
length-map f [] = refl
length-map f (x ∷ xs) = ap suc (length-map f xs)

map-take-le {ℓ κ} :
    {A : Type ℓ} {B : Type κ} (f : A → B) (n : ℕ) (xs : List A) → length (map f (take n xs)) ≤ n
map-take-le f n xs = omega (arith, length-map f (take n xs), length-take-le n xs)

over-eq-some :
    {A B : Type 0} (f : A → B) (o : Option A) {b : B}
    → over f o ≡ some b
    → (a : A) × (o ≡ some a) × (f a ≡ b)
over-eq-some f none e = ground arith
over-eq-some f (some a) {b} e = (a, refl, some-injective (f a) b e)

module _ {R : Type 0} (nought : R) where
  length-reals : (xs : List (Json R)) (n : ℕ) → length (reals nought xs n) ≡ n
  unfolding reals
  length-reals xs zero = refl
  length-reals [] (suc n) = ap suc (length-reals [] n)
  length-reals (x ∷ xs) (suc n) = ap suc (length-reals xs n)

  length-scores-le : (o : Option (List (Json R))) (n : ℕ) → length (scores nought o n) ≤ 16
  length-scores-le none n = omega arith
  length-scores-le (some xs) n = ground (arith, length-reals xs (min_of n 16))

  length-anomalies-le : (o : Option (List (Json R))) → length (anomalies nought o) ≤ 16
  length-anomalies-le none = omega arith
  length-anomalies-le (some xs) = map-take-le (anomaly_entry nought) 16 xs

  length-predicted-le : (o : Option (List (Json R))) → length (predicted nought o) ≤ 64
  length-predicted-le none = omega arith
  length-predicted-le (some xs) = map-take-le _ 64 xs

  length-policy_values-le : (o : Option (List (Json R))) → length (policy_values nought o) ≤ 16
  length-policy_values-le none = omega arith
  length-policy_values-le (some xs) = map-take-le _ 16 xs

length-name_of-lt : (o : Option Text) → length (name_of o) < 64
length-name_of-lt none = omega arith
length-name_of-lt (some name) = length-fit 64 name (omega arith)

-- The results of the four calls within the arrays of their structs.
abbrev pub ServerFits : {R : Type 0} → ℕ → ServerResult R → Type 0
ServerFits n r = (r.num_servers ≡ n) × (length r.q_values ≤ 16) × (length r.health_scores ≤ 16)

abbrev pub AnomalyFits : {R : Type 0} → AnomalyResult R → Type 0
AnomalyFits r = (r.count ≡ length r.servers) × (r.count ≤ 16)

abbrev pub PredictFits : PredictResult → Type 0
PredictFits r = (r.count ≡ length r.predictions) × (r.count ≤ 64)

abbrev pub PolicyFits : {R : Type 0} → PolicyResult R → Type 0
PolicyFits r =
    (r.num_actions ≡ length r.q_values) × (r.num_actions ≤ 16) × (length r.action_name < 64)

module _ {R : Type 0} (nought : R) (resp : Json R) where
  server_result-fits : (n : ℕ) → ServerFits n (server_result nought n resp)
  unfolding server_result
  server_result-fits n = (refl, length-scores-le nought _ n, length-scores-le nought _ n)

  anomaly_result-fits : AnomalyFits (anomaly_result nought resp)
  unfolding anomaly_result
  anomaly_result-fits = (refl, length-anomalies-le nought _)

  predict_result-fits : PredictFits (predict_result nought resp)
  unfolding predict_result
  predict_result-fits = (refl, length-predicted-le nought _)

  policy_result-fits : PolicyFits (policy_result nought resp)
  unfolding policy_result
  policy_result-fits = (refl, length-policy_values-le nought _, length-name_of-lt _)

-- Whatever the model server answers, and however large the request is, what the four calls write is within the
-- arrays of their structs: at most 16 scores of servers, 16 anomalies, 64 predictions and 16 values of a policy, and
-- less than 64 bytes of its name. The counts of the last three are those of what was written; num_servers is the
-- number of the request, also where that is more than the 16 scores.
pub results-fit :
    {R : Type 0} (nought : R) (model_rpc : Json R → Option (Json R)) (a b c : ℕ → R) (i k : ℤ)
    (m n : ℕ) (server : ServerResult R) (anomaly : AnomalyResult R) (predict : PredictResult)
    (policy : PolicyResult R)
    → model_select_server nought model_rpc a b c i n k ≡ some server
    → model_check_anomaly nought model_rpc a n ≡ some anomaly
    → model_predict_load nought model_rpc a m n ≡ some predict
    → model_optimize_policy nought model_rpc a n ≡ some policy
    → ServerFits n server × AnomalyFits anomaly × PredictFits predict × PolicyFits policy
unfolding model_select_server model_check_anomaly model_predict_load model_optimize_policy
results-fit nought model_rpc a b c i k m n server anomaly predict policy e1 e2 e3 e4 =
    let (resp1, got1, is1) = over-eq-some (server_result nought n) _ e1 in
    let (resp2, got2, is2) = over-eq-some (anomaly_result nought) _ e2 in
    let (resp3, got3, is3) = over-eq-some (predict_result nought) _ e3 in
    let (resp4, got4, is4) = over-eq-some (policy_result nought) _ e4 in
    (
      subst (ServerFits n) is1 (server_result-fits nought resp1 n),
      subst AnomalyFits is2 (anomaly_result-fits nought resp2),
      subst PredictFits is3 (predict_result-fits nought resp3),
      subst PolicyFits is4 (policy_result-fits nought resp4),
    )

server_at-lt :
    (servers : List Text) (z : ℤ) {s : Text}
    → server_at servers z ≡ some s
    → (i : ℕ) × (i < length servers) × (get_elem? servers i ≡ some s)
unfolding server_at
server_at-lt servers (negsuc i) e = ground arith
server_at-lt servers (pos i) e = elim (Bool-cases (ltb i (length servers))) [
  | inl inside ↦ (i, ground arith, rw inside at e)
  | inr outside ↦ absurd (none-ne-some _ (rw outside at e))
]

named_server-lt :
    {R : Type 0} (servers : List Text) (o : Option (ServerResult R)) {s : Text}
    → named_server servers o ≡ some s
    → (i : ℕ) × (i < length servers) × (get_elem? servers i ≡ some s)
unfolding server_at
named_server-lt servers none e = absurd (none-ne-some _ e)
named_server-lt servers (some sel) e = server_at-lt servers sel.server_index e

-- Whatever the model server answers, the host that handle_custom_lowerdir mounts from is the one of the request
-- or one of the configured servers, read within their array; and it asks only where the model is enabled and
-- there are two servers or more.
pub chosen_server-lt :
    {R : Type 0} (nought : R) (model_rpc : Json R → Option (Json R)) (cfg : DaemonConfig) (s : Text)
    → chosen_server nought model_rpc cfg ≡ some s
    → (is_zero cfg.ml_enabled ≡ false)
      × (1 < length cfg.nfs_servers)
      × ((i : ℕ) × (i < length cfg.nfs_servers) × (get_elem? cfg.nfs_servers i ≡ some s))
unfolding chosen_server
chosen_server-lt nought model_rpc cfg s e =
    elim (Bool-cases (not (is_zero cfg.ml_enabled) && ltb 1 (length cfg.nfs_servers))) [
      | inr off ↦ absurd (none-ne-some _ (rw off at e))
      | inl on ↦ (
        ground arith,
        ground arith,
        named_server-lt cfg.nfs_servers
            (model_select_server nought model_rpc _ _ _ (pos 0) (length cfg.nfs_servers) (pos 6))
            (rw on at e),
      )
    ]
