-- ===== src/Client/Sent.antt =====
-- The requests of mbroker/client/main.c, as mbroker/daemon/broker.c reads them.
use aiomb.Prelude.{Option, ◌≡◌}
use aiomb.Mount.Create.{has_flag}
use aiomb.Broker.{is_create, cmd_of, Request, terminated}
use aiomb.Client.{Parsed}

-- The broker reads the strings, the kind of the command and the flags as the client meant them.
pub record IsRead (p : Parsed) (r : Request) : Type 0 where
  pub whole : terminated r ≡ r
  pub kind : is_create (cmd_of r.cmd) ≡ is_create p.cmd
  pub promote : has_flag r.flags 4 ≡ p.context.enable_promote
  pub chown_owner : has_flag r.flags 8 ≡ p.context.enable_chown_owner
  pub override : has_flag r.flags 16 ≡ p.context.enable_override_uid
