-- ===== src/Redirect/Reload/Leases.antt =====
-- miniupnpd/upnpredirect.c: reload_from_lease_file on a file of leases that lease_file_add has written.
use miniupnpd_sdn.Base.{
  ℕ, ◌-◌, ◌%◌, ◌^◌, ◌≤◌, ◌<◌, ◌≡◌, List, [], ◌∷◌, ◌++◌, Option, none, some, Bytes, if◌then◌else◌,
}
use miniupnpd_sdn.Base.Ints.{ℤ, negsuc, int_eq}
use miniupnpd_sdn.Redirect.LeaseFile.{
  Env, Lease, proto_atoi, proto_itoa, lease_file_add, lease_line,
}
use miniupnpd_sdn.Redirect.LeaseFile.ReadBack.{IsLease}
use miniupnpd_sdn.Redirect.Firewall.{Firewall, IsFirewall}
use miniupnpd_sdn.Redirect.Facade.{Config, Globals, upnp_redirect}
use miniupnpd_sdn.Redirect.Reload.{own_time}

-- A lease that its line spells; the first byte of its description stands apart.
pub record Written : Type 0 where
  pub proto : ℕ
  pub eport : ℕ
  pub iaddr : Bytes
  pub iport : ℕ
  pub timestamp : ℕ
  pub first : ℕ
  pub others : Bytes
  pub is_lease : IsLease proto eport iaddr iport timestamp first others

abbrev pub line : Written → Bytes
line w = lease_line w.proto w.eport w.iaddr w.iport w.timestamp (w.first ∷ w.others)

abbrev pub file_with : List Written → Bytes
file_with [] = []
file_with (w ∷ ws) = line w ++ file_with ws

abbrev lease_of : Written → Lease
lease_of w = record {
  proto = proto_itoa w.proto;
  eport = w.eport;
  iaddr = w.iaddr;
  iport = w.iport;
  timestamp = w.timestamp;
  desc = w.first ∷ w.others;
}

-- What is left of a lease with this end: none where it is over, and 0 for one without an end.
pub data Remains (env : Env) (timestamp : ℕ) : Option ℕ → Type 0 where
  endless : timestamp ≡ 0 → Remains env timestamp (some 0)
  over : 0 < timestamp → timestamp ≤ env.unix_time % 2 ^ 32 → Remains env timestamp none
  remaining :
      env.unix_time % 2 ^ 32 < timestamp
      → Remains env timestamp (some (timestamp - env.unix_time % 2 ^ 32))

module _ (fw : Firewall) (laws : IsFirewall fw) (cfg : Config) (env : Env) where
  -- What upnp_redirect answers to the lease with `d` seconds left.
  abbrev pub redirect_again : Globals fw → Written → ℕ → Option (ℤ × Globals fw)
  redirect_again g w d =
      upnp_redirect fw cfg env g none w.eport w.iaddr w.iport (proto_itoa w.proto)
        (some (w.first ∷ w.others)) d

  -- Where that is -2, the port being another's, the lease is written to the new file again.
  abbrev pub after : Written → ℕ → ℤ → Globals fw → Globals fw
  after w d r g =
      if int_eq r (negsuc 1)
      then record g {
        lease_file =
            (lease_file_add env w.eport w.iaddr w.iport (proto_atoi (proto_itoa w.proto))
              (w.first ∷ w.others) (own_time env w.timestamp d) g.lease_file).1;
      }
      else g

  -- The leases in order: one that is over is left out, another is asked for with what remains of it.
  pub data Reloads : List Written → Globals fw → Globals fw → Type 0 where
    at_end : (g : Globals fw) → Reloads [] g g
    left_out :
        (w : Written) (ws : List Written) (g g' : Globals fw)
        → Remains env w.timestamp none
        → Reloads ws g g'
        → Reloads (w ∷ ws) g g'
    asked :
        (w : Written) (ws : List Written) (g g1 g' : Globals fw) (d : ℕ) (r : ℤ)
        → Remains env w.timestamp (some d)
        → redirect_again g w d ≡ some (r, g1)
        → Reloads ws (after w d r g1) g'
        → Reloads (w ∷ ws) g g'
