-- ===== src/Recover/Counts.antt =====
-- The counts and the report of restore_mounts, against what becomes of each record.
use aiomb.Prelude.{
  ℕ, ◌+◌, ◌<◌, List, [], ◌∷◌, Bool, true, false, Option, none, some, Text, ◌==◌, length,
  if◌then◌else◌, ◌≡◌,
}
use aiomb.DaemonConfig.{DaemonConfig}
use aiomb.Mount.{reported, Env}
use aiomb.Recover.{Entry, unparsed, parsed, Report, Recovery, remounted, restore_one}

-- What becomes of a record: it cannot be used, its sandbox is mounted already, or mount_sandbox is called for it and
-- returns a status, 0 for a success.
pub data Verdict : Type 0 where
  unusable : Verdict
  present : Text → Verdict
  called : Text → ℕ → Verdict

abbrev named_verdict : Option Text → Option Text → Bool → ℕ → Verdict
named_verdict none lower there status = unusable
named_verdict (some name) none there status = unusable
named_verdict (some name) (some lower) true status = present name
named_verdict (some name) (some lower) false status = called name status

abbrev or_nothing : Option Text → Text
or_nothing none = []
or_nothing (some s) = s

abbrev pub is_restored : Verdict → ℕ
is_restored (called name status) = if status == 0 then 1 else 0
is_restored _ = 0

abbrev pub is_failed : Verdict → ℕ
is_failed (called name status) = if status == 0 then 0 else 1
is_failed (present name) = 0
is_failed unusable = 1

abbrev pub is_skipped : Verdict → ℕ
is_skipped (present name) = 1
is_skipped _ = 0

pub sum_of : (Verdict → ℕ) → List Verdict → ℕ
sum_of f [] = 0
sum_of f (v ∷ vs) = f v + sum_of f vs

-- A write behind the buffer happened only if the text is longer than the buffer now.
abbrev Flagged : ℕ → Report → Type 0
Flagged size r = r.overrun ≡ true → size < r.off

module _ (strerror : ℕ → Text) (env : Env) (cfg : DaemonConfig) (size : ℕ) where
  -- The verdict on a record, in the world that the records before it have left.
  abbrev pub verdict_of : Entry → Recovery → Verdict
  verdict_of unparsed r = unusable
  verdict_of (parsed s) r =
      named_verdict s.sandboxname s.lowerdir (reported (or_nothing s.sandboxname) r.world)
        (remounted strerror env cfg size (or_nothing s.sandboxname) (or_nothing s.lowerdir) s r).1

  unfoldable pub verdicts : List Entry → Recovery → List Verdict
  verdicts [] r = []
  verdicts (e ∷ es) r = verdict_of e r ∷ verdicts es (restore_one strerror env cfg size e r)

  -- The bytes that a verdict adds to the report, its text and the name with the reason.
  abbrev pub line_length : Verdict → ℕ
  line_length unusable = 0
  line_length (present name) = 27 + length name
  line_length (called name status) =
      if status == 0 then 7 + length name else 11 + length name + length (strerror status)

  -- The counts and the length of the text grow by those of a verdict, and the flag stays right.
  abbrev Grows : Verdict → Recovery → Recovery → Type 0
  Grows v r r' =
      (r'.restored ≡ r.restored + is_restored v)
      × (r'.failed ≡ r.failed + is_failed v)
      × (r'.skipped ≡ r.skipped + is_skipped v)
      × (r'.report.off ≡ r.report.off + line_length v)
      × (Flagged size r.report → Flagged size r'.report)
