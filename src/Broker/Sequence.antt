-- ===== src/Broker/Sequence.antt =====
-- broker_run of mbroker/daemon/broker.c over all its clients.
use mathlib.Core.Path.{subst}
use aiomb.Prelude.{
  List, [], ◌∷◌, ◌++◌, Bool, true, false, ◌&&◌, Option, none, some, All, ◌≡◌, refl, sym, ap, ◌∙◌,
  inl, inr, Bool-cases,
}
use aiomb.DaemonConfig.{DaemonConfig}
use aiomb.Mount.{World, Env}
use aiomb.Mount.Valid.{TableIsValid}
use aiomb.Broker.{Request, Reply, Service}
use aiomb.Broker.Run.{
  Accepted, client, interrupted, failed, Round, Setup, stopped, Served, serve_client, with_replies,
  pass, serve, broker_run,
}
use aiomb.Broker.Valid.{EntriesFit, handle_client-Valid}

-- The saved names that a recovery of this pass reads fit.
abbrev pub RoundFits : Accepted → Type 0
RoundFits (client sys env request) = EntriesFit sys.entries
RoundFits interrupted = Unit {0}
RoundFits failed = Unit {0}

with_replies-world : (reps : List Reply) (s : Served) → (with_replies reps s).world ≡ s.world
with_replies-world [] s = refl
with_replies-world (rep ∷ reps) s = with_replies-world reps s

serve_client-Valid :
    (sys : Service) (env : Env) (cfg : DaemonConfig) (request : Option Request) (w : World)
    → EntriesFit sys.entries
    → TableIsValid w
    → TableIsValid (serve_client sys env cfg request w).0
unfolding serve_client
serve_client-Valid sys env cfg none w f v = v
serve_client-Valid sys env cfg (some r) w f v = handle_client-Valid sys env cfg r w f v

module _ (cfg : DaemonConfig) where
  pass-Valid :
      (s : Bool) (a : Accepted) (m : Bool) (w : World) (next : World → Served)
      → RoundFits a
      → TableIsValid w
      → ((v : World) → TableIsValid v → TableIsValid (next v).world)
      → TableIsValid (pass cfg s a m w next).world
  pass-Valid true a m w next f v h = v
  pass-Valid false (client sys env request) m w next f v h =
      subst TableIsValid (sym (with_replies-world (serve_client sys env cfg request w).1 _))
        (h _ (serve_client-Valid sys env cfg request w f v))
  pass-Valid false interrupted true w next f v h = v
  pass-Valid false interrupted false w next f v h = h w v
  pass-Valid false failed true w next f v h = v
  pass-Valid false failed false w next f v h = h w v

  serve-Valid :
      (rounds : List Round) (w : World)
      → All (λ r. RoundFits r.accepted) rounds
      → TableIsValid w
      → TableIsValid (serve cfg rounds w).world
  unfolding serve
  serve-Valid [] w f v = v
  serve-Valid (r ∷ rs) w f v =
      pass-Valid r.stopping r.accepted r.stopped_meanwhile w _ f.0 v
        (λ u v'. serve-Valid rs u f.1 v')

-- However many clients it serves, whatever they ask and whatever the system answers, the broker keeps a
-- well-formed table well formed, where the names in the saved records are shorter than 2048 bytes.
pub broker_run-Valid :
    (s : Setup) (cfg : DaemonConfig) (rounds : List Round) (w : World)
    → All (λ r. RoundFits r.accepted) rounds
    → TableIsValid w
    → TableIsValid (broker_run s cfg rounds w).world
unfolding broker_run
broker_run-Valid s cfg rounds w f v = elim (Bool-cases (s.binds && (s.chmods && s.listens))) [
  | inl e ↦ rw e (serve-Valid cfg rounds w f v)
  | inr e ↦ rw e v
]

with_replies-exit : (reps : List Reply) (s : Served) → (with_replies reps s).exit ≡ s.exit
with_replies-exit [] s = refl
with_replies-exit (rep ∷ reps) s = with_replies-exit reps s

with_replies-replies :
    (reps : List Reply) (s : Served) → (with_replies reps s).replies ≡ reps ++ s.replies
with_replies-replies [] s = refl
with_replies-replies (rep ∷ reps) s = ap (λ l. rep ∷ l) (with_replies-replies reps s)

-- The loop has ended with the world and the answers of another run of it.
record Stops (r s : Served) : Type 0 where
  exit : r.exit ≡ stopped
  world : r.world ≡ s.world
  replies : r.replies ≡ s.replies

module _ (cfg : DaemonConfig) where
  pass-Stops :
      (s : Bool) (a : Accepted) (m : Bool) (w : World) (longer shorter : World → Served)
      → ((v : World) → Stops (longer v) (shorter v))
      → Stops (pass cfg s a m w longer) (pass cfg s a m w shorter)
  pass-Stops true a m w longer shorter h = record { exit = refl; world = refl; replies = refl }
  pass-Stops false (client sys env request) m w longer shorter h =
      let (v, reps) = serve_client sys env cfg request w in
      record {
        exit = with_replies-exit reps (longer v) ∙ (h v).exit;
        world =
            with_replies-world reps (longer v)
            ∙ (h v).world
            ∙ sym (with_replies-world reps (shorter v));
        replies =
            with_replies-replies reps (longer v)
            ∙ ap (λ l. reps ++ l) (h v).replies
            ∙ sym (with_replies-replies reps (shorter v));
      }
  pass-Stops false interrupted true w longer shorter h = record {
    exit = refl;
    world = refl;
    replies = refl;
  }
  pass-Stops false interrupted false w longer shorter h = h w
  pass-Stops false failed true w longer shorter h = record {
    exit = refl;
    world = refl;
    replies = refl;
  }
  pass-Stops false failed false w longer shorter h = h w

  serve-Stops :
      (before : List Round) (r : Round) (later : List Round) (w : World)
      → r.stopping ≡ true
      → Stops (serve cfg (before ++ r ∷ later) w) (serve cfg before w)
  unfolding serve
  serve-Stops [] r later w e = rw e (record { exit = refl; world = refl; replies = refl })
  serve-Stops (b ∷ before) r later w e =
      pass-Stops b.stopping b.accepted b.stopped_meanwhile w _ _
        (λ v. serve-Stops before r later v e)

-- Once a pass finds the flag of broker_stop set, a broker that could listen returns 0: it serves no later
-- client, and leaves the world and the answers of the passes before.
pub broker_run_stops :
    (s : Setup) (cfg : DaemonConfig) (before : List Round) (r : Round) (later : List Round)
    (w : World)
    → s.binds && (s.chmods && s.listens) ≡ true
    → r.stopping ≡ true
    → ((broker_run s cfg (before ++ r ∷ later) w).exit ≡ stopped)
      × ((broker_run s cfg (before ++ r ∷ later) w).world ≡ (broker_run s cfg before w).world)
      × ((broker_run s cfg (before ++ r ∷ later) w).replies ≡ (broker_run s cfg before w).replies)
unfolding broker_run
broker_run_stops s cfg before r later w up e =
    let h = serve-Stops cfg before r later w e in rw up (h.exit, h.world, h.replies)
