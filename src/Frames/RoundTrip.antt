-- ===== src/Frames/RoundTrip.antt =====
-- What send_json of mbroker/daemon/model_client.c writes, recv_json reads.
use aiomb.Prelude.{
  ℕ, ◌≤◌, ◌<◌, List, [], ◌∷◌, ◌++◌, Bool, true, false, Option, none, some, Text, ◌==◌, leb, codes,
  length, take, take-eq_of_le, is_empty, All, ◌≡◌, refl, sym, ap, ◌∙◌, arith, Bool-cases, inl, inr,
  ==_iff,
}
use mathlib.Core.Bool.{true≢false}
use mathlib.Core.Option.{some-injective, none-ne-some}
use aiomb.CString.{concat}
use aiomb.Frames.{
  model_resp_max, htonl, send_json, header_length, c_string, read_all, recv_json, accepted,
  model_rpc,
}
use aiomb.Frames.Segments.{read_all_lem}

pub c_string_id : (s : Text) → All (λ c. (c == 0) ≡ false) s → c_string s ≡ s
unfolding c_string
c_string_id [] h = refl
c_string_id (c ∷ s) h = rw (h.0, c_string_id s h.1) refl

header_length-htonl : (n : ℕ) → n < 4294967296 → header_length (htonl n) ≡ n
header_length-htonl n h = omega arith

send_json-frame :
    (w1 w2 : ℕ) (payload : Text)
    → (send_json w1 w2 (some payload)).0 ≡ true
    → (send_json w1 w2 (some payload)).1 ≡ htonl (length payload) ++ payload
unfolding send_json
send_json-frame w1 w2 payload ok = elim (Bool-cases (w1 == 4)) [
  | inl e ↦
      let whole : w2 ≡ length payload = (==_iff w2 (length payload)).0 (rw e at ok) in
      let full : take w2 payload ≡ payload =
        rw whole (take-eq_of_le (length payload) payload (omega arith)) in
      rw (e, full) refl
  | inr e ↦ absurd (true≢false (sym (rw e at ok)))
]

-- Where send_json returns 0 for a payload of 1 byte to 4 megabytes with no NUL, recv_json on the other side gives
-- what json_loads makes of that payload, however the bytes are cut into segments and whatever follows them. This
-- supposes that no read fails and that malloc returns a buffer.
pub recv_json-send_json {ℓ} :
    {J : Type ℓ} (json_loads : Text → Option J) (w1 w2 : ℕ) (payload later : Text)
    (segs : List Text)
    → (send_json w1 w2 (some payload)).0 ≡ true
    → 0 < length payload
    → length payload ≤ model_resp_max
    → All (λ c. (c == 0) ≡ false) payload
    → All (λ seg. is_empty seg ≡ false) segs
    → concat segs ≡ (send_json w1 w2 (some payload)).1 ++ later
    → recv_json true json_loads segs ≡ json_loads payload
unfolding recv_json
recv_json-send_json json_loads w1 w2 payload later segs ok positive bounded text whole e =
    let n = length payload in
    let sent : concat segs ≡ htonl n ++ (payload ++ later) =
      e ∙ ap (λ (s : Text). s ++ later) (send_json-frame w1 w2 payload ok) in
    let header = read_all_lem segs (htonl n) (payload ++ later) whole sent in
    let four : read_all segs 4 ≡ some (htonl n, header.0) = header.1 in
    let body = read_all_lem header.0 payload later header.2 header.3 in
    let some_bytes : (n == 0) ≡ false = ground arith in
    let fits : leb n model_resp_max ≡ true = ground arith in
    rw
      (
        four,
        header_length-htonl n (omega arith),
        some_bytes,
        fits,
        body.1,
        c_string_id payload text,
      )
      refl

sent_whole :
    (w1 w2 : ℕ) (request : Option Text)
    → (send_json w1 w2 request).0 ≡ true
    → (payload : Text) × (request ≡ some payload)
      × ((send_json w1 w2 request).1 ≡ htonl (length payload) ++ payload)
unfolding send_json
sent_whole w1 w2 none ok = absurd (true≢false (sym ok))
sent_whole w1 w2 (some payload) ok = (payload, refl, send_json-frame w1 w2 payload ok)

accepted_lem {ℓ} :
    {J : Type ℓ} (has : Text → J → Bool) (o : Option J) (response : J)
    → accepted has o ≡ some response
    → (o ≡ some response)
      × (has (codes "fallback") response ≡ false)
      × (has (codes "error") response ≡ false)
accepted_lem has none response e = ground arith
accepted_lem has (some r) response e = elim (Bool-cases (has (codes "fallback") r)) [
  | inl bad ↦ absurd (none-ne-some _ (rw bad at e))
  | inr good ↦ elim (Bool-cases (has (codes "error") r)) [
    | inl bad ↦ absurd (none-ne-some _ (rw (good, bad) at e))
    | inr fine ↦
        let is : some r ≡ some response = rw (good, fine) at e in
        let r≡ : response ≡ r = sym (some-injective _ _ is) in (is, rw r≡ good, rw r≡ fine)
  ]
]

-- Where model_rpc gives a response, it was connected and has written the whole frame of its request, and the
-- response is what recv_json has read, with neither of the keys "fallback" and "error".
pub model_rpc_lem {ℓ} :
    {J : Type ℓ} (connected : Bool) (w1 w2 : ℕ) (request : Option Text) (allocated : Bool)
    (json_loads : Text → Option J) (has : Text → J → Bool) (segs : List Text) (response : J)
    → model_rpc connected w1 w2 request allocated json_loads has segs ≡ some response
    → (connected ≡ true)
      × ((payload : Text) × (request ≡ some payload)
          × ((send_json w1 w2 request).1 ≡ htonl (length payload) ++ payload))
      × (recv_json allocated json_loads segs ≡ some response)
      × (has (codes "fallback") response ≡ false)
      × (has (codes "error") response ≡ false)
unfolding model_rpc
model_rpc_lem false w1 w2 request allocated json_loads has segs response e =
    absurd (none-ne-some _ e)
model_rpc_lem true w1 w2 request allocated json_loads has segs response e =
    elim (Bool-cases (send_json w1 w2 request).0) [
      | inl ok ↦
          let kept = accepted_lem has (recv_json allocated json_loads segs) response (rw ok at e) in
          (refl, sent_whole w1 w2 request ok, kept.0, kept.1, kept.2)
      | inr cut ↦ absurd (none-ne-some _ (rw cut at e))
    ]
