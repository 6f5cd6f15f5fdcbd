-- ===== src/Frames/Examples.antt =====
-- A message of two bytes, `{}`, sent and received by mbroker/daemon/model_client.c.
use aiomb.Prelude.{
  if◌then◌else◌, [], ◌∷◌, Bool, true, false, Option, none, some, Text, codes, text_eq, List, ◌≡◌,
  refl, arith,
}
use aiomb.Frames.{send_json, c_string, read_all, recv_json}
use aiomb.Frames.RoundTrip.{recv_json-send_json}

-- A reader that knows objects without members alone, and an object without keys.
abbrev empty_object : Text → Option Text
empty_object s = if text_eq s (codes "{}") then some s else none

abbrev no_key : Text → Text → Bool
no_key key object = false

-- The frame arrives in three segments, the last with the start of something else.
abbrev cut_frame : List Text
cut_frame = (0 ∷ 0 ∷ []) ∷ (0 ∷ 2 ∷ b'{' ∷ []) ∷ (b'}' ∷ 0 ∷ []) ∷ []

recv_cut_frame : recv_json true empty_object cut_frame ≡ some (codes "{}")
unfolding recv_json read_all text_eq c_string
recv_cut_frame = refl

-- The connection ends within the frame.
recv_short : recv_json true empty_object ((0 ∷ 0 ∷ 0 ∷ 2 ∷ b'{' ∷ []) ∷ []) ≡ none
unfolding recv_json read_all
recv_short = refl

-- A header of more than four megabytes.
recv_long : recv_json true empty_object ((1 ∷ 0 ∷ 0 ∷ 0 ∷ b'{' ∷ []) ∷ []) ≡ none
unfolding recv_json read_all
recv_long = refl

recv_json-send_json_example : recv_json true empty_object cut_frame ≡ empty_object (codes "{}")
unfolding send_json
recv_json-send_json_example =
    recv_json-send_json empty_object 4 2 (codes "{}") (0 ∷ []) cut_frame refl (omega arith)
      (omega arith) (refl, (refl, tt)) (refl, (refl, (refl, tt))) refl
