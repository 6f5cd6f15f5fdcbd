-- ===== src/Mount/Escapes.antt =====
-- The strings of a mount record of mbroker/daemon/mount_ops.c, written and read again.
use aiomb.Prelude.{
  ltb, ◌&&◌, ℕ, [], ◌∷◌, ◌++◌, Bool, true, false, Option, none, some, Text, ◌==◌, leb,
  if◌then◌else◌, ◌≡◌, refl, sym, ap, inl, inr, Bool-cases, ==_iff, All,
}
use aiomb.Mount.Create.{json_escape}

-- The byte that a JSON escape of one letter stands for.
abbrev escaped : ℕ → ℕ
escaped c = if c == b'n' then 10 else if c == b'r' then 13 else if c == b't' then 9 else c

abbrev push_to : ℕ → Option (Text × Text) → Option (Text × Text)
push_to c none = none
push_to c (some (s, rest)) = some (c ∷ s, rest)

-- A reader of a JSON string behind its first quote: the string, and what follows its last quote. `after` says
-- that a backslash stands before. It refuses a control byte, as JSON does, and every byte that is not of ASCII.
unfoldable pub read_string : Bool → Text → Option (Text × Text)
read_string after [] = none
read_string true (c ∷ s) = push_to (escaped c) (read_string false s)
read_string false (c ∷ s) =
    let next_escape = read_string true s in
    let rest = read_string false s in
    if c == b'"'
    then some ([], s)
    else if c == 92
    then next_escape
    else if leb 32 c && ltb c 128
    then push_to c rest
    else none

-- A byte of ASCII, and no control byte but those that json_escape knows.
unfoldable pub IsWritable : ℕ → Type 0
IsWritable c =
    (if c == 10
      then true
      else if c == 13
      then true
      else if c == 9
      then true
      else leb 32 c && ltb c 128)
    ≡ true

plain_byte :
    (c : ℕ)
    → IsWritable c
    → (c == 10) ≡ false
    → (c == 13) ≡ false
    → (c == 9) ≡ false
    → (leb 32 c && ltb c 128) ≡ true
unfolding IsWritable
plain_byte c p e3 e4 e5 = rw (e3, e4, e5) at p

-- Where a field has bytes of ASCII only, and no control byte but line feed, carriage return and tab, a reader of JSON
-- strings in ASCII finds its end where json_kv_str has put it, and the same bytes before it, quotes and backslashes
-- included.
pub read_string-json_escape :
    (s rest : Text)
    → All IsWritable s
    → read_string false (json_escape s ++ b'"' ∷ rest) ≡ some (s, rest)
unfolding read_string json_escape
read_string-json_escape [] rest w = refl
read_string-json_escape (c ∷ s) rest w =
    let h = read_string-json_escape s rest (w.1) in
    let is : (k : ℕ)
        → (c == k) ≡ true
        → Path (Option (Text × Text)) (some (k ∷ s, rest)) (some (c ∷ s, rest)) =
      λ k e. sym (ap {B = Option (Text × Text)} (λ x. some (x ∷ s, rest)) ((==_iff c k).0 e)) in
    elim (Bool-cases (c == b'"')) [
      | inl e ↦ rw (e, h) (is b'"' e)
      | inr e1 ↦ elim (Bool-cases (c == 92)) [
        | inl e ↦ rw (e1, e, h) (is 92 e)
        | inr e2 ↦ elim (Bool-cases (c == 10)) [
          | inl e ↦ rw (e1, e2, e, h) (is 10 e)
          | inr e3 ↦ elim (Bool-cases (c == 13)) [
            | inl e ↦ rw (e1, e2, e3, e, h) (is 13 e)
            | inr e4 ↦ elim (Bool-cases (c == 9)) [
              | inl e ↦ rw (e1, e2, e3, e4, e, h) (is 9 e)
              | inr e5 ↦ rw (e1, e2, e3, e4, e5, h) (rw (e1, e2, plain_byte c (w.0) e3 e4 e5) refl)
            ]
          ]
        ]
      ]
    ]
