-- ===== src/Frames.antt =====
-- The framing of messages in mbroker/daemon/model_client.c: send_json, and recv_json over what arrives at the
-- socket. The text that json_dumps makes and the reader json_loads are parameters.
pub mod Segments
mod RoundTrip
mod Examples
use aiomb.Prelude.{
  ℕ, ◌+◌, ◌-◌, ◌*◌, ◌/◌, ◌%◌, List, [], ◌∷◌, ◌++◌, Bool, true, false, not, ◌||◌, Option, none, some,
  Text, ◌==◌, leb, codes, length, take, drop, is_empty, if◌then◌else◌,
}

abbrev pub model_resp_max : ℕ
model_resp_max = 4194304

-- htonl((uint32_t)n), as its four bytes
abbrev pub htonl : ℕ → Text
htonl n = n / 16777216 % 256 ∷ n / 65536 % 256 ∷ n / 256 % 256 ∷ n % 256 ∷ []

-- Whether send_json returns 0, and the bytes that it has written. The two numbers are what its calls of write
-- return.
unfoldable pub send_json : ℕ → ℕ → Option Text → Bool × Text
send_json w1 w2 none = (false, [])
send_json w1 w2 (some payload) =
    let len = htonl (length payload) in
    if w1 == 4 then (w2 == length payload, len ++ take w2 payload) else (false, take w1 len)

-- The loop of reads for `n` bytes. A segment is what one read finds, less what it has no room for; an empty one
-- is a read that returns 0 or an error.
unfoldable pub read_all : List Text → ℕ → Option (Text × List Text)
read_all [] n = if n == 0 then some ([], []) else none
read_all (seg ∷ segs) n =
    let more = read_all segs (n - length seg) in
    if n == 0
    then some ([], seg ∷ segs)
    else if is_empty seg
    then none
    else if leb (length seg) n
    then elim more as (λ _. Option (Text × List Text)) [
      | none ↦ none
      | some (got, rest) ↦ some (seg ++ got, rest)
    ]
    else some (take n seg, drop n seg ∷ segs)

-- The number that four header bytes stand for.
abbrev pub header_length : Text → ℕ
header_length (a ∷ b ∷ c ∷ d ∷ s) = a * 16777216 + b * 65536 + c * 256 + d
header_length s = 0

-- A buffer, read as a string of C.
unfoldable pub c_string : Text → Text
c_string [] = []
c_string (c ∷ s) = let rest = c_string s in if c == 0 then [] else c ∷ rest

-- recv_json from its call of json_loads on.
abbrev pub parse_body {ℓ} : {J : Type ℓ} → (Text → Option J) → Option (Text × List Text) → Option J
parse_body json_loads none = none
parse_body json_loads (some (buf, rest)) = json_loads (c_string buf)

-- recv_json after its header.
abbrev pub recv_body {ℓ} :
    {J : Type ℓ} → Bool → (Text → Option J) → Option (Text × List Text) → Option J
recv_body allocated json_loads none = none
recv_body allocated json_loads (some (header, rest)) =
    let n = header_length header in
    if n == 0 || not (leb n model_resp_max) || not allocated
    then none
    else parse_body json_loads (read_all rest n)

-- `allocated` says whether malloc returns a buffer.
unfoldable pub recv_json {ℓ} : {J : Type ℓ} → Bool → (Text → Option J) → List Text → Option J
recv_json allocated json_loads segs = recv_body allocated json_loads (read_all segs 4)

-- What model_rpc makes of a response: `has` tells whether an object has a key.
abbrev pub accepted {ℓ} : {J : Type ℓ} → (Text → J → Bool) → Option J → Option J
accepted has none = none
accepted has (some response) =
    if has (codes "fallback") response
    then none
    else if has (codes "error") response
    then none
    else some response

unfoldable pub model_rpc {ℓ} :
    {J : Type ℓ}
    → Bool
    → ℕ
    → ℕ
    → Option Text
    → Bool
    → (Text → Option J)
    → (Text → J → Bool)
    → List Text
    → Option J
model_rpc connected w1 w2 request allocated json_loads has segs =
    if not connected
    then none
    else if not (send_json w1 w2 request).0
    then none
    else accepted has (recv_json allocated json_loads segs)
