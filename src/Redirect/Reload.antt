-- ===== src/Redirect/Reload.antt =====
-- miniupnpd/upnpredirect.c: reload_from_lease_file. The file is unlinked before it is read, so what is
-- added meanwhile goes to a new one. `stale k` is what the array holds behind the line `k`.
pub mod Leases
use miniupnpd_sdn.Base.{
  ℕ, zero, suc, ◌+◌, ◌-◌, ◌%◌, ◌^◌, [], ◌∷◌, Option, none, some, Bytes, ltb, leb, if◌then◌else◌,
  length, c_string,
}
use miniupnpd_sdn.Base.Ints.{ℤ, negsuc, int_eq}
use miniupnpd_sdn.Redirect.LeaseFile.{
  Env, Lease, Reading, lease, unrecognized, fault, proto_atoi, fgets_from, lease_file_add,
  read_lease_line,
}
use miniupnpd_sdn.Redirect.Firewall.{Firewall}
use miniupnpd_sdn.Redirect.Facade.{Config, Globals, upnp_redirect}

-- `stuck` is no result of the code: the loop ran out of fuel.
pub data Reloaded (fw : Firewall) : Type 0 where
  loaded : Globals fw → Reloaded fw
  not_opened faulted stuck : Reloaded fw

-- The lease's duration, none where it has expired.
abbrev pub duration_left : Env → ℕ → Option ℕ
duration_left env timestamp =
    if ltb 0 timestamp
    then (if leb timestamp (env.unix_time % 2 ^ 32)
        then none
        else some ((timestamp + (2 ^ 32 - env.unix_time % 2 ^ 32)) % 2 ^ 32))
    else some 0

-- `timestamp = leaseduration + current_time`, or 0 as it was.
abbrev pub own_time : Env → ℕ → ℕ → ℕ
own_time env timestamp leaseduration =
    if ltb 0 timestamp then (leaseduration + env.upnp_time) % 2 ^ 32 else timestamp

module _ (fw : Firewall) (cfg : Config) (env : Env) where
  -- The end of the loop's body, on the result of upnp_redirect.
  abbrev pub add_again : Lease → ℕ → Option (ℤ × Globals fw) → Reloaded fw
  add_again l timestamp none = stuck
  add_again l timestamp (some (r, g)) =
      if int_eq r (negsuc 1)
      then loaded (record g {
        lease_file =
            (lease_file_add env l.eport l.iaddr l.iport (proto_atoi l.proto) l.desc timestamp
              g.lease_file).1;
      })
      else loaded g

  abbrev pub reload_lease : Globals fw → Lease → Option ℕ → Reloaded fw
  reload_lease g l none = loaded g
  reload_lease g l (some leaseduration) =
      add_again l (own_time env l.timestamp leaseduration) (
        upnp_redirect fw cfg env g none l.eport l.iaddr l.iport l.proto (some l.desc) leaseduration)

  unfoldable pub reload_line : Globals fw → Reading → Reloaded fw
  reload_line g (lease l) = reload_lease g l (duration_left env l.timestamp)
  reload_line g unrecognized = loaded g
  reload_line g fault = faulted

  abbrev pub then_reload : Reloaded fw → (Globals fw → Reloaded fw) → Reloaded fw
  then_reload (loaded g) k = k g
  then_reload not_opened k = not_opened
  then_reload faulted k = faulted
  then_reload stuck k = stuck

  unfoldable pub reload_loop : ℕ → (ℕ → Bytes) → ℕ → Bytes → Globals fw → Reloaded fw
  reload_loop zero stale k [] g = loaded g
  reload_loop zero stale k (c ∷ file) g = stuck
  reload_loop (suc fuel) stale k [] g = loaded g
  reload_loop (suc fuel) stale k (c ∷ file) g =
      let r = fgets_from 127 (c ∷ file) in
      then_reload (reload_line g (read_lease_line (stale k) (c_string r.0)))
        (λ g'. reload_loop fuel stale (suc k) r.1 g')

  unfoldable pub reload_from_lease_file : (ℕ → Bytes) → Globals fw → Option Bytes → Reloaded fw
  reload_from_lease_file stale g none = not_opened
  reload_from_lease_file stale g (some file) =
      if env.opens
      then reload_loop (length file) stale 0 file (record g { lease_file = some [] })
      else not_opened
