-- ===== src/Model.antt =====
-- The requests and the results of mbroker/daemon/model_client.c, over the values of jansson: a null pointer is
-- `none`. A double is a value of a type R, of which the code only moves values; `nought` is 0.0.
pub mod Calls
pub mod Choice
mod Bounds
mod Requests
mod Examples
use Prim.Native.String.{String}
use aiomb.Prelude.{
  ℕ, zero, suc, ◌+◌, ◌-◌, ◌*◌, ◌%◌, ◌^◌, List, [], ◌∷◌, Bool, true, false, ◌&&◌, Option, none, some,
  Text, codes, text_eq, ℤ, pos, negsuc, ltb, leb, length, take, if◌then◌else◌,
}
use aiomb.CString.{fit}

mutual
  pub data Json (R : Type 0) : Type 0 where
    null : Json R
    bool : Bool → Json R
    integer : ℤ → Json R
    real : R → Json R
    string : Text → Json R
    array : Items R → Json R
    object : Fields R → Json R

  pub data Items (R : Type 0) : Type 0 where
    nil : Items R
    cons : Json R → Items R → Items R

  pub data Fields (R : Type 0) : Type 0 where
    end : Fields R
    field : Text → Json R → Fields R → Fields R

abbrev pub model_max_servers : ℕ
model_max_servers = 16

-- (int) of a long long
unfoldable pub int_of : ℤ → ℤ
int_of z =
    let bits : ℕ = elim z as (λ _. ℕ) [
      | pos n ↦ n % 4294967296
      | negsuc n ↦ 4294967295 - n % 4294967296
    ] in
    if ltb bits 2147483648 then pos bits else negsuc (4294967295 - bits)

-- The values of struct model_server_result, struct model_anomaly_entry, struct model_anomaly_result, struct
-- model_predict_result and struct model_policy_result; an array is the part of it that was written.
pub record ServerResult (R : Type 0) : Type 0 where
  pub server_index : ℤ
  pub num_servers : ℕ
  pub q_values : List R
  pub health_scores : List R

pub record AnomalyEntry (R : Type 0) : Type 0 where
  pub server_index : ℤ
  pub error : R
  pub threshold : R
  pub anomalous : Bool

pub record AnomalyResult (R : Type 0) : Type 0 where
  pub any_anomalous : Bool
  pub count : ℕ
  pub servers : List (AnomalyEntry R)

pub record PredictResult : Type 0 where
  pub predictions : List ℤ
  pub count : ℕ

pub record PolicyResult (R : Type 0) : Type 0 where
  pub action : ℤ
  pub action_name : Text
  pub q_values : List R
  pub num_actions : ℕ

module _ {R : Type 0} where
  abbrev pub items_of : Items R → List (Json R)
  items_of nil = []
  items_of (cons x xs) = x ∷ items_of xs

  abbrev pub array_of : List (Json R) → Items R
  array_of [] = nil
  array_of (x ∷ xs) = cons x (array_of xs)

  abbrev field_named : Text → Fields R → Option (Json R)
  field_named key end = none
  field_named key (field k x fs) = if text_eq k key then some x else field_named key fs

  unfoldable pub json_object_get : String → Option (Json R) → Option (Json R)
  json_object_get key (some (object fs)) = field_named (codes key) fs
  json_object_get key _ = none

  abbrev nth : List (Json R) → ℕ → Option (Json R)
  nth [] i = none
  nth (x ∷ xs) zero = some x
  nth (x ∷ xs) (suc i) = nth xs i

  unfoldable pub json_array_get : Option (Json R) → ℕ → Option (Json R)
  json_array_get (some (array xs)) i = nth (items_of xs) i
  json_array_get _ i = none

  abbrev pub json_is_true : Option (Json R) → Bool
  json_is_true (some (bool true)) = true
  json_is_true _ = false

  abbrev pub json_integer_value : Option (Json R) → ℤ
  json_integer_value (some (integer z)) = z
  json_integer_value _ = pos 0

  abbrev pub json_string_value : Option (Json R) → Option Text
  json_string_value (some (string s)) = some s
  json_string_value _ = none

  -- The elements of an array; json_is_array fails for all else.
  abbrev pub elements : Option (Json R) → Option (List (Json R))
  elements (some (array xs)) = some (items_of xs)
  elements _ = none

  -- The loops that build a request, from an array as a function of its index.
  unfoldable pub doubles_from : (ℕ → R) → ℕ → ℕ → List (Json R)
  doubles_from arr i zero = []
  doubles_from arr i (suc n) = real (arr i) ∷ doubles_from arr (i + 1) n

  unfoldable pub doubles_to_json_array : (ℕ → R) → ℕ → Json R
  unfolding doubles_from
  doubles_to_json_array arr n = array (array_of (doubles_from arr 0 n))

  unfoldable pub rows_from : (ℕ → R) → ℕ → ℕ → ℕ → List (Json R)
  unfolding doubles_to_json_array
  rows_from arr cols r zero = []
  rows_from arr cols r (suc n) =
      doubles_to_json_array (λ c. arr (r * cols + c)) cols ∷ rows_from arr cols (r + 1) n

  unfoldable pub doubles_to_json_2d : (ℕ → R) → ℕ → ℕ → Json R
  unfolding rows_from
  doubles_to_json_2d arr rows cols = array (array_of (rows_from arr cols 0 rows))

  abbrev pub command : String → Fields R → Json R
  command name params =
      object
        (field (codes "cmd") (string (codes name)) (field (codes "params") (object params) end))
