-- ===== src/Redirect/Facade.antt =====
-- miniupnpd/upnpredirect.c: the operations on one redirection, in the build for Linux with a lease file
-- and events, and without CHECK_PORTINUSE. The variables that they change are in the record Globals;
-- the permissions, the clock and what the system answers are arguments.
pub mod Decided
pub mod Shown
use miniupnpd_sdn.Base.{
  ℕ, zero, suc, ◌+◌, ◌-◌, ◌%◌, ◌^◌, Bool, true, false, not, ◌&&◌, ◌||◌, List, [], ◌∷◌, Option, none,
  some, Bytes, codes, ltb, leb, ◌==◌, if◌then◌else◌, bytes_eq,
}
use miniupnpd_sdn.Base.Options.{◌>>=◌}
use miniupnpd_sdn.Base.Ints.{ℤ, pos, negsuc, int_eq}
use miniupnpd_sdn.Permissions.{UpnpPerm, check_upnp_rule_against_permissions}
use miniupnpd_sdn.Redirect.LeaseFile.{
  Env, Lease, Reading, lease, unrecognized, fault, proto_atoi, proto_itoa, lease_file_add,
  lease_file_remove, ipproto_tcp, ipproto_udplite,
}
use miniupnpd_sdn.Redirect.Firewall.{Rule, Firewall}

-- The settings: `inet_aton` is the C library's, none where it fails.
pub record Config : Type 0 where
  pub disable_port_forwarding : Bool
  pub upnppermlist : List UpnpPerm
  pub inet_aton : Bytes → Option ℕ

abbrev pub or_empty : Option Bytes → Bytes
or_empty none = []
or_empty (some s) = s

-- `(leaseduration > 0) ? upnp_time() + leaseduration : 0`, in 32 bits
abbrev pub expiry : Env → ℕ → ℕ
expiry env leaseduration =
    if ltb 0 leaseduration then (env.upnp_time + leaseduration) % 2 ^ 32 else 0

-- The same client, and the same remote host: none or "*" for any.
abbrev pub same_client : Option Bytes → Bytes → Rule → Bool
same_client none iaddr old = bytes_eq iaddr old.iaddr && bytes_eq old.rhost []
same_client (some rhost) iaddr old =
    bytes_eq iaddr old.iaddr
    && (bytes_eq rhost (codes "*") && bytes_eq old.rhost [] || bytes_eq rhost old.rhost)

abbrev pub earlier : ℕ → ℕ → ℕ
earlier timestamp nextruletoclean =
    if ltb 0 timestamp && (nextruletoclean == 0 || ltb timestamp nextruletoclean)
    then timestamp
    else nextruletoclean

module _ (fw : Firewall) where
  -- `notified` counts the calls of upnp_event_var_change_notify(EWanIPC).
  pub record Globals : Type 0 where
    pub firewall : fw.State
    pub lease_file : Option Bytes
    pub nextruletoclean_timestamp : ℕ
    pub notified : ℕ

  abbrev pub new_rule : Option Bytes → ℕ → Bytes → ℕ → ℕ → Bytes → ℕ → Rule
  new_rule rhost eport iaddr iport proto desc timestamp = record {
    eport = eport;
    proto = proto;
    iaddr = iaddr;
    iport = iport;
    desc = desc;
    rhost = or_empty rhost;
    timestamp = timestamp;
    packets = 0;
    bytes = 0;
  }

  -- After add_filter_rule2: on Linux its failure leaves the redirection in place.
  abbrev filtered : Globals → fw.State → ℕ → Option fw.State → ℤ × Globals
  filtered g s timestamp none = (negsuc 0, g)
  filtered g s timestamp (some s') = (
    pos 0,
    record g {
      firewall = s';
      nextruletoclean_timestamp = earlier timestamp g.nextruletoclean_timestamp;
      notified = g.notified + 1;
    },
  )

  abbrev pub redirected : Env → Rule → Globals → Option fw.State → ℤ × Globals
  redirected env r g none = (negsuc 0, g)
  redirected env r g (some s) =
      let added =
        lease_file_add env r.eport r.iaddr r.iport r.proto r.desc r.timestamp g.lease_file in
      filtered (record g { firewall = s; lease_file = added.1 }) s r.timestamp
        (fw.add_filter_rule2 s r)

  unfoldable pub upnp_redirect_internal :
      Config → Env → Globals → Option Bytes → ℕ → Bytes → ℕ → ℕ → Bytes → ℕ → ℤ × Globals
  upnp_redirect_internal cfg env g rhost eport iaddr iport proto desc timestamp =
      let r = new_rule rhost eport iaddr iport proto desc timestamp in
      if cfg.disable_port_forwarding
      then (negsuc 0, g)
      else redirected env r g (fw.add_redirect_rule2 g.firewall r)

  -- One of the two updates; the code makes it twice.
  abbrev update : Globals → ℕ → ℕ → ℕ → ℕ → Bytes → ℕ → ℤ × fw.State
  update g eport proto iport iport_old desc timestamp =
      if not (iport == iport_old)
      then fw.update_portmapping g.firewall eport proto iport desc timestamp
      else fw.update_portmapping_desc_timestamp g.firewall eport proto desc timestamp

  abbrev pub twice : Globals → ℕ → ℕ → ℕ → ℕ → Bytes → ℕ → ℤ × fw.State
  twice g eport proto iport iport_old desc timestamp =
      update (record g { firewall = (update g eport proto iport iport_old desc timestamp).1 }) eport
        proto iport iport_old desc timestamp

  -- The end of the branch: the lease is written again where the update went well.
  abbrev pub rewritten :
      Env → Globals → ℕ → Bytes → ℕ → ℕ → Bytes → ℕ → ℤ × fw.State → ℤ × Option Bytes → ℤ × Globals
  rewritten env g eport iaddr iport proto desc timestamp r removed =
      let g' = record g { firewall = r.1 } in
      (
        r.0,
        if int_eq r.0 (pos 0)
            then (record g' {
              lease_file = (lease_file_add env eport iaddr iport proto desc timestamp removed.1).1;
            })
            else g',
      )

  unfoldable pub overwrite :
      Env → Globals → Rule → ℕ → Bytes → ℕ → ℕ → Bytes → ℕ → Option (ℤ × Globals)
  overwrite env g old eport iaddr iport proto desc timestamp = (do
    removed ← lease_file_remove env eport proto g.lease_file
    some (
        rewritten env g eport iaddr iport proto desc timestamp
          (twice g eport proto iport old.iport desc timestamp) removed))

  -- The branches on what get_redirect_rule finds.
  unfoldable pub redirect_over :
      Config
      → Env
      → Globals
      → Option Rule
      → Option Bytes
      → ℕ
      → Bytes
      → ℕ
      → ℕ
      → Bytes
      → ℕ
      → Option (ℤ × Globals)
  redirect_over cfg env g none rhost eport iaddr iport proto desc leaseduration = some (
      upnp_redirect_internal cfg env g rhost eport iaddr iport proto desc
        (expiry env leaseduration))
  redirect_over cfg env g (some old) rhost eport iaddr iport proto desc leaseduration =
      if same_client rhost iaddr old
      then overwrite env g old eport iaddr iport proto desc (expiry env leaseduration)
      else some (negsuc 1, g)

  unfoldable pub redirect_from :
      Config
      → Env
      → Globals
      → Option ℕ
      → Option Bytes
      → ℕ
      → Bytes
      → ℕ
      → Bytes
      → Bytes
      → ℕ
      → Option (ℤ × Globals)
  redirect_from cfg env g none rhost eport iaddr iport protocol desc leaseduration =
      some (negsuc 0, g)
  redirect_from cfg env g (some address) rhost eport iaddr iport protocol desc leaseduration =
      if not (check_upnp_rule_against_permissions cfg.upnppermlist eport address iport)
      then some (negsuc 2, g)
      else redirect_over cfg env g (fw.get_redirect_rule g.firewall eport (proto_atoi protocol))
          rhost eport iaddr iport (proto_atoi protocol) desc leaseduration

  unfoldable pub upnp_redirect :
      Config
      → Env
      → Globals
      → Option Bytes
      → ℕ
      → Bytes
      → ℕ
      → Bytes
      → Option Bytes
      → ℕ
      → Option (ℤ × Globals)
  upnp_redirect cfg env g rhost eport iaddr iport protocol desc leaseduration =
      redirect_from cfg env g (cfg.inet_aton iaddr) rhost eport iaddr iport protocol (or_empty desc)
        leaseduration

  -- The result, and whether it is not below 0.
  unfoldable pub upnp_delete_redir : Env → Globals → ℕ → ℕ → Option (Bool × Globals)
  upnp_delete_redir env g eport proto =
      let r = fw.delete_redirect_and_filter_rules g.firewall eport proto in
      (do
        removed ← lease_file_remove env eport proto g.lease_file
        some (r.0, record g { firewall = r.1; lease_file = removed.1; notified = g.notified + 1 }))

  unfoldable pub upnp_delete_redirection : Env → Globals → ℕ → Bytes → Option (Bool × Globals)
  upnp_delete_redirection env g eport protocol = upnp_delete_redir env g eport (proto_atoi protocol)

  -- What is left of a lease; `timestamp > (unsigned int)upnp_time()`.
  abbrev pub left : Env → ℕ → ℕ
  left env timestamp =
      if ltb (env.upnp_time % 2 ^ 32) timestamp then timestamp - env.upnp_time % 2 ^ 32 else 0

  abbrev rule_left : Env → Option Rule → Option (Rule × ℕ)
  rule_left env none = none
  rule_left env (some r) = some (r, left env r.timestamp)

  -- The rule and its remaining time, none where the result is below 0.
  unfoldable pub upnp_get_redirection_infos : Env → Globals → ℕ → Bytes → Option (Rule × ℕ)
  upnp_get_redirection_infos env g eport protocol =
      rule_left env (fw.get_redirect_rule g.firewall eport (proto_atoi protocol))

  abbrev protocol_text : ℕ → Bytes
  protocol_text proto =
      if proto == ipproto_tcp
      then codes "TCP"
      else if proto == ipproto_udplite
      then codes "UDPLITE"
      else codes "UDP"

  abbrev with_text : Option (Rule × ℕ) → Option (Rule × ℕ × Bytes)
  with_text none = none
  with_text (some (r, t)) = some (r, t, protocol_text r.proto)

  unfoldable pub upnp_get_redirection_infos_by_index : Env → Globals → ℕ → Option (Rule × ℕ × Bytes)
  upnp_get_redirection_infos_by_index env g index =
      with_text (rule_left env (fw.get_redirect_rule_by_index g.firewall index))
