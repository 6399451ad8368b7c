-- ===== src/Pcp/Map.antt =====
-- miniupnpd/pcpserver.c: CreatePCPMap_NAT, CreatePCPMap and DeletePCPMap.
use miniupnpd_sdn.Base.{
  ℕ, zero, suc, ◌+◌, ◌%◌, ◌^◌, Bool, true, false, not, ◌&&◌, ◌||◌, Option, none, some, Bytes, ◌==◌,
  if◌then◌else◌, get_or, bytes_eq,
}
use miniupnpd_sdn.Base.Options.{◌>>=◌}
use miniupnpd_sdn.Base.Ints.{ℤ, pos, negsuc}
use miniupnpd_sdn.Permissions.{check_upnp_rule_against_permissions}
use miniupnpd_sdn.Redirect.LeaseFile.{Env}
use miniupnpd_sdn.Redirect.Firewall.{Rule, Firewall}
use miniupnpd_sdn.Redirect.Facade.{Config, Globals, upnp_delete_redir, upnp_redirect_internal}
use miniupnpd_sdn.NatPmp.{next_port, readnu32}
use miniupnpd_sdn.Pcp.{
  PcpInfo, pcp_success, pcp_err_not_authorized, pcp_err_malformed_request, pcp_err_no_resources,
  pcp_err_cannot_provide_external,
}
use miniupnpd_sdn.Pcp.Validate.{is_v4mapped}

abbrev pub v4_address : Bytes → ℕ
v4_address ip = readnu32 (get_or ip 12 0) (get_or ip 13 0) (get_or ip 14 0) (get_or ip 15 0)

-- The rule is for the client's own address and port.
abbrev pub is_same : PcpInfo → Rule → Bool
is_same info r = bytes_eq info.mapped_str r.iaddr && info.int_port == r.iport

-- A rule that DeletePCPMap is about.
abbrev pub is_for_client : PcpInfo → Rule → Bool
is_for_client info r =
    bytes_eq r.iaddr info.mapped_str
    && (r.proto == info.protocol && (r.iport == info.int_port || info.int_port == 0))

module _ (fw : Firewall) (cfg : Config) (env : Env) (info : PcpInfo) where
  -- The result code, the external port and the variables.
  abbrev pub Mapped : Type 0
  Mapped = ℕ × ℕ × Globals fw

  abbrev pub created_code : ℕ → ℤ × Globals fw → Mapped
  created_code eport (pos n, g) = (pcp_success, eport, g)
  created_code eport (negsuc n, g) = (pcp_err_no_resources, eport, g)

  abbrev pub create_redirect : ℕ → Globals fw → Mapped
  create_redirect eport g = created_code eport (
      upnp_redirect_internal fw cfg env g none eport info.mapped_str info.int_port info.protocol
        info.desc ((env.upnp_time + info.lifetime) % 2 ^ 32))

  -- The next port, unless the client prefers a failure.
  abbrev pub go_on : (ℕ → Globals fw → Option Mapped) → ℕ → Globals fw → Option Mapped
  go_on more eport g =
      let rest = more (next_port eport) g in
      if info.pfailure_present then some (pcp_err_cannot_provide_external, eport, g) else rest

  abbrev pub replace_mapping :
      (ℕ → Globals fw → Option Mapped) → ℕ → Bool × Globals fw → Option Mapped
  replace_mapping more eport (deleted, g) =
      let rest = go_on more eport g in if deleted then some (create_redirect eport g) else rest

  -- What get_redirect_rule finds at the port.
  abbrev pub map_at :
      (ℕ → Globals fw → Option Mapped) → ℕ → Globals fw → Option Rule → Option Mapped
  map_at more eport g none = some (create_redirect eport g)
  map_at more eport g (some old) =
      let other = go_on more eport g in
      let own = (do
        d ← upnp_delete_redir fw env g eport info.protocol
        replace_mapping more eport d) in
      if is_same info old then own else other

  abbrev pub is_refused : ℕ → Bool
  is_refused eport =
      is_v4mapped info.mapped_ip
      && not (
          check_upnp_rule_against_permissions cfg.upnppermlist eport (v4_address info.mapped_ip)
            info.int_port)

  abbrev pub map_port :
      (Bool → ℕ → Globals fw → Option Mapped) → Bool → ℕ → Globals fw → Option Mapped
  map_port more any eport g =
      let refused = go_on (more any) eport g in
      let allowed =
        map_at (more true) eport g (fw.get_redirect_rule g.firewall eport info.protocol) in
      if is_refused eport then refused else allowed

  -- The loop, once `eport_first` is set; none without fuel.
  unfoldable pub create_on : ℕ → ℕ → Bool → ℕ → Globals fw → Option Mapped
  create_on zero eport_first any eport g = none
  create_on (suc fuel) eport_first any eport g =
      let tried =
        map_port (λ any' eport' g'. create_on fuel eport_first any' eport' g') any eport g in
      if eport == eport_first
      then some (if any then pcp_err_no_resources else pcp_err_not_authorized, eport, g)
      else tried

  abbrev pub wanted_port : ℕ
  wanted_port = if info.ext_port == 0 then info.int_port else info.ext_port

  unfoldable pub create_pcpmap_nat : ℕ → Globals fw → Option Mapped
  create_pcpmap_nat fuel g =
      let searched =
        map_port (λ any eport g'. create_on fuel wanted_port any eport g') false wanted_port g in
      if wanted_port == 0 then some (pcp_err_malformed_request, 0, g) else searched

  -- Without pinholes a mapping through the firewall only is refused.
  unfoldable pub create_pcpmap : ℕ → Globals fw → Option Mapped
  create_pcpmap fuel g =
      let nat = create_pcpmap_nat fuel g in
      if info.is_fw then some (pcp_err_no_resources, info.ext_port, g) else nat

  -- The result code and the variables; `index` goes up as long as there is a rule.
  abbrev pub deleted_code : Bool × Globals fw → ℕ × Globals fw
  deleted_code (deleted, g) = (if deleted then info.result_code else pcp_err_no_resources, g)

  abbrev pub delete_round :
      (ℕ → Option (ℕ × Globals fw)) → Globals fw → ℕ → Option Rule → Option (ℕ × Globals fw)
  delete_round more g index none = some (pcp_err_no_resources, g)
  delete_round more g index (some r) =
      let rest = more (index + 1) in
      let own = (do d ← upnp_delete_redir fw env g r.eport r.proto; some (deleted_code d)) in
      if is_for_client info r
      then (if bytes_eq r.desc info.desc then own else some (pcp_err_not_authorized, g))
      else rest

  unfoldable pub delete_loop : ℕ → Globals fw → ℕ → Option (ℕ × Globals fw)
  delete_loop zero g index = none
  delete_loop (suc fuel) g index =
      delete_round (λ index'. delete_loop fuel g index') g index
        (fw.get_redirect_rule_by_index g.firewall index)

  unfoldable pub delete_pcpmap : ℕ → Globals fw → Option (ℕ × Globals fw)
  delete_pcpmap fuel g =
      let loop = delete_loop fuel g 0 in if info.is_fw then some (pcp_err_no_resources, g) else loop
