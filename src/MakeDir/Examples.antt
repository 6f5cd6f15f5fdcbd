-- ===== src/MakeDir/Examples.antt =====
-- Runs of mkdir_p of mbroker/daemon/util.c.
use aiomb.Prelude.{ℕ, [], ◌∷◌, true, false, some, Text, codes, text_eq, ◌≡◌, refl, if◌then◌else◌}
use aiomb.CString.{fit}
use aiomb.MakeDir.{mkdir_p, make_from, strip_slash}

-- EEXIST for the lock directory's parents, EACCES in /etc.
abbrev mkdir : Text → ℕ
mkdir p = if text_eq p (codes "/run") then 17 else if text_eq p (codes "/etc/x") then 13 else 0

locks_dir :
    mkdir_p mkdir (codes "/run/a/b/")
    ≡ some (codes "/run" ∷ codes "/run/a" ∷ codes "/run/a/b" ∷ [], true)
unfolding mkdir_p make_from strip_slash text_eq fit
locks_dir = refl

refused : mkdir_p mkdir (codes "/etc/x/y") ≡ some (codes "/etc" ∷ codes "/etc/x" ∷ [], false)
unfolding mkdir_p make_from strip_slash text_eq fit
refused = refl
