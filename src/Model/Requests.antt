-- ===== src/Model/Requests.antt =====
-- The arrays of a request of mbroker/daemon/model_client.c hold what they were made of.
use aiomb.Prelude.{ℕ, zero, suc, ◌+◌, ◌*◌, ◌<◌, List, [], ◌∷◌, some, ◌≡◌, refl, ap, ◌∙◌, arith}
use aiomb.Model.{
  Json, real, nth, items_of, array_of, json_array_get, doubles_from, doubles_to_json_array,
  rows_from, doubles_to_json_2d,
}

items_of-array_of : {R : Type 0} (xs : List (Json R)) → items_of (array_of xs) ≡ xs
items_of-array_of [] = refl
items_of-array_of (x ∷ xs) = ap (λ (l : List (Json _)). x ∷ l) (items_of-array_of xs)

nth-doubles_from :
    {R : Type 0} (arr : ℕ → R) (i n k : ℕ)
    → k < n
    → nth (doubles_from arr i n) k ≡ some (real (arr (i + k)))
unfolding doubles_from
nth-doubles_from arr i zero k h = absurd (omega arith)
nth-doubles_from arr i (suc n) zero h = ap (λ j. some (real (arr j))) (omega arith)
nth-doubles_from arr i (suc n) (suc k) h =
    nth-doubles_from arr (i + 1) n k (omega arith) ∙ ap (λ j. some (real (arr j))) (omega arith)

nth-rows_from :
    {R : Type 0} (arr : ℕ → R) (cols r n k : ℕ)
    → k < n
    → nth (rows_from arr cols r n) k
      ≡ some (doubles_to_json_array (λ c. arr ((r + k) * cols + c)) cols)
unfolding rows_from
nth-rows_from arr cols r zero k h = absurd (omega arith)
nth-rows_from arr cols r (suc n) zero h =
    ap (λ j. some (doubles_to_json_array (λ c. arr (j * cols + c)) cols)) (omega arith)
nth-rows_from arr cols r (suc n) (suc k) h =
    nth-rows_from arr cols (r + 1) n k (omega arith)
    ∙ ap (λ j. some (doubles_to_json_array (λ c. arr (j * cols + c)) cols)) (omega arith)

json_array_get-doubles :
    {R : Type 0} (arr : ℕ → R) (n k : ℕ)
    → k < n
    → json_array_get (some (doubles_to_json_array arr n)) k ≡ some (real (arr k))
unfolding json_array_get doubles_to_json_array
json_array_get-doubles arr n k h =
    ap (λ l. nth l k) (items_of-array_of (doubles_from arr 0 n))
    ∙ nth-doubles_from arr 0 n k h
    ∙ ap (λ j. some (real (arr j))) (omega arith)

row_of :
    {R : Type 0} (arr : ℕ → R) (rows cols r : ℕ)
    → r < rows
    → json_array_get (some (doubles_to_json_2d arr rows cols)) r
      ≡ some (doubles_to_json_array (λ c. arr (r * cols + c)) cols)
unfolding json_array_get doubles_to_json_2d
row_of arr rows cols r h =
    ap (λ l. nth l r) (items_of-array_of (rows_from arr cols 0 rows))
    ∙ nth-rows_from arr cols 0 rows r h
    ∙ ap (λ j. some (doubles_to_json_array (λ c. arr (j * cols + c)) cols)) (omega arith)

-- In the two-dimensional array that doubles_to_json_2d makes of `rows` rows, element `c` of row `r` is the double at
-- r * cols + c of the flat array, for every row and column within it.
pub json_array_get-doubles_2d :
    {R : Type 0} (arr : ℕ → R) (rows cols r c : ℕ)
    → r < rows
    → c < cols
    → json_array_get (json_array_get (some (doubles_to_json_2d arr rows cols)) r) c
      ≡ some (real (arr (r * cols + c)))
json_array_get-doubles_2d arr rows cols r c hr hc =
    ap (λ row. json_array_get row c) (row_of arr rows cols r hr)
    ∙ json_array_get-doubles (λ k. arr (r * cols + k)) cols c hc
