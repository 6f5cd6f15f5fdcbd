-- ===== src/CString.antt =====
-- The libc string routines that mbroker/ calls: bounded copies (`snprintf`, `strncpy` with a
-- terminator), `strtok_r`, `strsep`, `basename`, `fgets`, and the trimming of daemon_config.c.
pub mod Laws
use aiomb.Prelude.{
  ℕ, zero, suc, ◌-◌, List, [], ◌∷◌, ◌++◌, Bool, true, false, not, ◌&&◌, ◌||◌, Option, none, some,
  Text, codes, take, select, is_empty, ◌==◌, leb, text_eq, if◌then◌else◌,
}

-- A copy into `char buf[n]` that ends with a NUL: `snprintf(buf, n, "%s", s)`.
unfoldable pub fit : ℕ → Text → Text
fit n s = take (n - 1) s

-- isspace in the C locale
unfoldable pub isspace : ℕ → Bool
isspace c = c == 32 || leb 9 c && leb c 13

unfoldable pub trim_left : Text → Text
trim_left [] = []
trim_left (c ∷ s) = let rest = trim_left s in if isspace c then rest else c ∷ s

unfoldable pub trim_right : Text → Text
trim_right [] = []
trim_right (c ∷ s) = let rest = trim_right s in if is_empty rest && isspace c then [] else c ∷ rest

-- `strip` of daemon_config.c
unfoldable pub strip : Text → Text
unfolding isspace trim_left trim_right
strip s = trim_right (trim_left s)

-- A byte in front of the first piece.
abbrev pub push : ℕ → List Text → List Text
push c [] = (c ∷ []) ∷ []
push c (w ∷ ws) = (c ∷ w) ∷ ws

-- The pieces between the delimiters, empty ones included: repeated `strsep`.
unfoldable pub split : ℕ → Text → List Text
split d [] = [] ∷ []
split d (c ∷ s) = let rest = split d s in if c == d then [] ∷ rest else push c rest

-- The tokens of repeated `strtok_r`: the pieces that are not empty.
unfoldable pub tokens : ℕ → Text → List Text
unfolding split select
tokens d s = select (λ w. not (is_empty w)) (split d s)

abbrev pub last_or : Text → List Text → Text
last_or d [] = d
last_or d (w ∷ ws) = last_or w ws

-- POSIX `basename`: the last component, `/` for a path of slashes alone, `.` for the empty path.
unfoldable pub basename : Text → Text
unfolding tokens
basename s = last_or (if is_empty s then codes "." else codes "/") (tokens b'/' s)

-- What repeated `fgets(line, n, f)` reads with room for `room` bytes and `k` left in this piece.
unfoldable pub fgets_from : ℕ → ℕ → Text → List Text
fgets_from room k [] = []
fgets_from room k (c ∷ s) =
    let next = fgets_from room room s in
    let more = fgets_from room (k - 1) s in
    if c == 10 || leb k 1 then (c ∷ []) ∷ next else push c more

unfoldable pub fgets_all : ℕ → Text → List Text
unfolding fgets_from
fgets_all n s = fgets_from (n - 1) (n - 1) s

-- The text behind a prefix, where the text begins with it.
unfoldable pub strip_prefix : Text → Text → Option Text
strip_prefix [] s = some s
strip_prefix (p ∷ ps) [] = none
strip_prefix (p ∷ ps) (c ∷ s) = let rest = strip_prefix ps s in if p == c then rest else none

-- s[0], with the NUL of the empty string
abbrev pub first : Text → ℕ
first [] = 0
first (c ∷ s) = c

-- strstr(s, "..") != NULL
unfoldable pub has_dotdot : Text → Bool
has_dotdot [] = false
has_dotdot (c ∷ s) = (c == b'.' && first s == b'.') || has_dotdot s

abbrev pub concat : List Text → Text
concat [] = []
concat (w ∷ ws) = w ++ concat ws

-- strchr(s, d) != NULL
unfoldable pub has_byte : ℕ → Text → Bool
has_byte d [] = false
has_byte d (c ∷ s) = c == d || has_byte d s
