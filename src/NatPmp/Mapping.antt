-- ===== src/NatPmp/Mapping.antt =====
-- miniupnpd/natpmp.c: the removal of a client's mappings, and the search for a port for a new one.
pub mod Search
pub mod Removed
use miniupnpd_sdn.Base.{
  ℕ, zero, suc, ◌+◌, ◌%◌, ◌^◌, Bool, true, false, not, ◌&&◌, ◌||◌, List, [], ◌∷◌, ◌++◌, Option,
  none, some, Bytes, codes, leb, ltb, ◌==◌, if◌then◌else◌, bytes_eq,
}
use miniupnpd_sdn.Base.Options.{◌>>=◌}
use miniupnpd_sdn.Base.Ints.{ℤ, pos, negsuc, int_eq}
use miniupnpd_sdn.Permissions.{check_upnp_rule_against_permissions}
use miniupnpd_sdn.Redirect.LeaseFile.{Env, starts_with}
use miniupnpd_sdn.Redirect.Firewall.{Rule, Firewall}
use miniupnpd_sdn.Redirect.Facade.{Config, Globals, upnp_delete_redir, upnp_redirect_internal}
use miniupnpd_sdn.NatPmp.{next_port, mapping_desc}

-- Who asks, for which of his ports and which protocol.
pub record Client : Type 0 where
  pub senderaddrstr : Bytes
  pub address : ℕ
  pub iport : ℕ
  pub proto : ℕ

-- A mapping of his that the request is about; with port 0 it is about all of them.
abbrev pub to_delete : Client → Rule → Bool
to_delete c r =
    bytes_eq r.iaddr c.senderaddrstr
    && starts_with (codes "NAT-PMP") r.desc
    && (c.iport == 0 || c.iport == r.iport && c.proto == r.proto)

-- The same mapping as the one that he asks for.
abbrev pub is_own : Client → Rule → Bool
is_own c r = bytes_eq c.senderaddrstr r.iaddr && c.iport == r.iport

module _ (fw : Firewall) (cfg : Config) (env : Env) (c : Client) where
  -- The loop of a removal, and its rounds on what get_redirect_rule_by_index finds: the result code.
  abbrev pub after_delete :
      (Globals fw → Option (ℕ × Globals fw)) → Bool × Globals fw → Option (ℕ × Globals fw)
  after_delete more (deleted, g) = let rest = more g in if deleted then rest else some (2, g)

  abbrev pub remove_round :
      (ℕ → Globals fw → Option (ℕ × Globals fw))
      → Globals fw
      → ℕ
      → Option Rule
      → Option (ℕ × Globals fw)
  remove_round more g index none = some (0, g)
  remove_round more g index (some r) =
      let deleted =
        (upnp_delete_redir fw env g r.eport r.proto >>= λ d. after_delete (more index) d) in
      let kept = more (index + 1) g in if to_delete c r then deleted else kept

  unfoldable pub remove_mappings : ℕ → ℕ → Globals fw → Option (ℕ × Globals fw)
  remove_mappings zero index g = none
  remove_mappings (suc fuel) index g =
      remove_round (λ index' g'. remove_mappings fuel index' g') g index
        (fw.get_redirect_rule_by_index g.firewall index)

  -- "do the redirection": the result code.
  abbrev pub redirect_code : ℤ × Globals fw → ℕ × Globals fw
  redirect_code (pos n, g) = (0, g)
  redirect_code (negsuc n, g) = (3, g)

  abbrev pub do_redirect : ℕ → ℕ → Globals fw → ℕ × Globals fw
  do_redirect lifetime eport g = redirect_code (
      upnp_redirect_internal fw cfg env g none eport c.senderaddrstr c.iport c.proto
        (mapping_desc eport c.proto) ((env.upnp_time + lifetime) % 2 ^ 32))

  -- A deletion that fails ends the loop with the result code as it is.
  abbrev pub replace : ℕ → ℕ → Bool × Globals fw → ℕ × Globals fw
  replace lifetime eport (deleted, g) = if deleted then do_redirect lifetime eport g else (0, g)

  -- The end of the loop's body, on what get_redirect_rule finds. The result is the code, the port
  -- and the variables.
  abbrev pub at_port :
      (ℕ → Option (ℕ × ℕ × Globals fw))
      → ℕ
      → ℕ
      → Globals fw
      → Option Rule
      → Option (ℕ × ℕ × Globals fw)
  at_port more lifetime eport g none =
      let r = do_redirect lifetime eport g in some (r.0, eport, r.1)
  at_port more lifetime eport g (some old) =
      let other = more (next_port eport) in
      let own = (do
        d ← upnp_delete_redir fw env g eport c.proto
        some ((replace lifetime eport d).0, eport, (replace lifetime eport d).1)) in
      if is_own c old then own else other

  abbrev pub is_allowed : ℕ → Bool
  is_allowed eport = check_upnp_rule_against_permissions cfg.upnppermlist eport c.address c.iport

  abbrev pub try_port :
      (Bool → ℕ → Option (ℕ × ℕ × Globals fw))
      → ℕ
      → Bool
      → ℕ
      → Globals fw
      → Option (ℕ × ℕ × Globals fw)
  try_port more lifetime any eport g =
      let refused = more any (next_port eport) in
      let allowed =
        at_port (more true) lifetime eport g (fw.get_redirect_rule g.firewall eport c.proto) in
      if not (is_allowed eport) then refused else allowed

  -- The loop, once `eport_first` is set.
  unfoldable pub search_on : ℕ → ℕ → ℕ → Bool → ℕ → Globals fw → Option (ℕ × ℕ × Globals fw)
  search_on zero eport_first lifetime any eport g = none
  search_on (suc fuel) eport_first lifetime any eport g =
      let tried =
        try_port (λ any' eport'. search_on fuel eport_first lifetime any' eport' g) lifetime any
          eport g in
      if eport == eport_first then some (if any then 4 else 2, eport, g) else tried

  -- The first round.
  unfoldable pub search_port : ℕ → ℕ → ℕ → Globals fw → Option (ℕ × ℕ × Globals fw)
  search_port fuel lifetime eport g =
      try_port (λ any eport'. search_on fuel eport lifetime any eport' g) lifetime false eport g
