-- ===== src/Pcp/Search.antt =====
-- miniupnpd/pcpserver.c: the search for an external port and the removal come to their end.
use miniupnpd_sdn.Base.{
  ℕ, zero, suc, ◌+◌, ◌≤◌, ◌<◌, ◌≡◌, ◌⊎◌, sym, ◌∙◌, inl, inr, Bool, true, false, Option, none, some,
  bytes_eq, ◌==◌, if◌then◌else◌, ap, Bool-cases, Option-cases, arith,
}
use miniupnpd_sdn.Base.Options.{◌>>=◌, none-some}
use miniupnpd_sdn.Base.Ends.{Ends, Ends-at, Ends-if}
use miniupnpd_sdn.Redirect.LeaseFile.{Env}
use miniupnpd_sdn.Redirect.Firewall.{Rule, Firewall}
use miniupnpd_sdn.Redirect.Facade.{Config, Globals, upnp_delete_redir}
use miniupnpd_sdn.Redirect.Facade.Decided.{upnp_delete_redir_total}
use miniupnpd_sdn.NatPmp.{next_port}
use miniupnpd_sdn.NatPmp.Mapping.Search.{next_port_range, next_port_at}
use miniupnpd_sdn.Pcp.{PcpInfo}
use miniupnpd_sdn.Pcp.Map.{
  Mapped, create_redirect, go_on, replace_mapping, map_at, is_same, is_for_client, is_refused,
  map_port, create_on, wanted_port, create_pcpmap_nat, create_pcpmap, deleted_code, delete_round,
  delete_loop, delete_pcpmap,
}

module _ (fw : Firewall) (cfg : Config) (env : Env) (info : PcpInfo) where
  abbrev pub Any : Mapped fw cfg env info → Type 0
  Any r = Unit {0}

  -- A round returns where the further ones do.
  go_on_total :
      (more : ℕ → Globals fw → Option (Mapped fw cfg env info)) (eport : ℕ) (g : Globals fw)
      → ((g' : Globals fw) → Ends Any (more (next_port eport) g'))
      → Ends Any (go_on fw cfg env info more eport g)
  go_on_total more eport g h =
      Ends-if Any (some (11, eport, g)) (more (next_port eport) g) info.pfailure_present (λ x. tt)
        (λ x. h g)

  map_at_total :
      (more : ℕ → Globals fw → Option (Mapped fw cfg env info)) (eport : ℕ) (g : Globals fw)
      (o : Option Rule)
      → ((g' : Globals fw) → Ends Any (more (next_port eport) g'))
      → Ends Any (map_at fw cfg env info more eport g o)
  map_at_total more eport g none h = tt
  map_at_total more eport g (some old) h =
      Ends-if Any
        (upnp_delete_redir fw env g eport info.protocol
          >>= replace_mapping fw cfg env info more eport)
        (go_on fw cfg env info more eport g) (is_same info old)
        (λ x.
          let d = upnp_delete_redir_total fw env g eport info.protocol in
          Ends-at Any (replace_mapping fw cfg env info more eport)
            (upnp_delete_redir fw env g eport info.protocol) d.0 d.1
            (Ends-if Any (some (create_redirect fw cfg env info eport d.0.1))
              (go_on fw cfg env info more eport d.0.1) d.0.0 (λ y. tt)
              (λ y. go_on_total more eport d.0.1 h)))
        (λ x. go_on_total more eport g h)

  map_port_total :
      (more : Bool → ℕ → Globals fw → Option (Mapped fw cfg env info)) (any : Bool) (eport : ℕ)
      (g : Globals fw)
      → ((any' : Bool) (g' : Globals fw) → Ends Any (more any' (next_port eport) g'))
      → Ends Any (map_port fw cfg env info more any eport g)
  map_port_total more any eport g h =
      Ends-if Any (go_on fw cfg env info (more any) eport g)
        (map_at fw cfg env info (more true) eport g
          (fw.get_redirect_rule g.firewall eport info.protocol))
        (is_refused fw cfg env info eport) (λ x. go_on_total (more any) eport g (h any))
        (λ x.
          map_at_total (more true) eport g (fw.get_redirect_rule g.firewall eport info.protocol)
            (h true))

  -- `d` steps lead from a port to the first one.
  create_on_total :
      (fuel d first : ℕ) (any : Bool) (eport : ℕ) (g : Globals fw)
      → d < fuel
      → eport < 65536
      → 0 < first
      → first < 65536
      → (eport + d ≡ first) ⊎ (eport + d ≡ first + 65535)
      → Ends Any (create_on fw cfg env info fuel first any eport g)
  unfolding create_on
  create_on_total zero d first any eport g lt e p f at = absurd (omega arith)
  create_on_total (suc fuel) zero first any eport g lt e p f at =
      let same : (eport == first) ≡ true = elim at [
        | inl x ↦ ground arith
        | inr x ↦ absurd (omega arith)
      ] in
      rw same tt
  create_on_total (suc fuel) (suc d) first any eport g lt e p f at =
      Ends-if Any (some (if any then 8 else 2, eport, g))
        (map_port fw cfg env info
          (λ any' eport' g'. create_on fw cfg env info fuel first any' eport' g') any eport g)
        (eport == first) (λ x. tt)
        (λ x.
          map_port_total (λ any' eport' g'. create_on fw cfg env info fuel first any' eport' g') any
            eport g
            (λ any' g'.
              create_on_total fuel d first any' (next_port eport) g' (omega arith)
                (next_port_range eport e).1 p f (next_port_at eport d first e p f at)))

  first_round :
      (first : ℕ)
      → 0 < first
      → first < 65536
      → (next_port first + 65534 ≡ first) ⊎ (next_port first + 65534 ≡ first + 65535)
  first_round first p f = next_port_at first 65534 first f p f (inr (omega arith))

  pub create_pcpmap_total :
      (g : Globals fw)
      → info.int_port < 65536
      → info.ext_port < 65536
      → Ends Any (create_pcpmap fw cfg env info 65536 g)
  unfolding create_pcpmap create_pcpmap_nat
  create_pcpmap_total g i e =
      let w = wanted_port fw cfg env info in
      let more : Bool → ℕ → Globals fw → Option (Mapped fw cfg env info) =
        λ any eport g'. create_on fw cfg env info 65536 w any eport g' in
      let fits : w < 65536 = ground arith in
      Ends-if Any (some (8, info.ext_port, g)) (create_pcpmap_nat fw cfg env info 65536 g)
        info.is_fw (λ x. tt)
        (λ x.
          Ends-if Any (some (3, 0, g)) (map_port fw cfg env info more false w g) (w == 0) (λ y. tt)
            (λ y. map_port_total more false w g (λ any' g'.
              create_on_total 65536 65534 w any' (next_port w) g' (omega arith)
                (next_port_range w fits).1 (ground arith) fits
                (first_round w (ground arith) fits))))

  abbrev pub Done : ℕ × Globals fw → Type 0
  Done r = Unit {0}

  -- No rule is told at the index `last`, so an index with a rule, at most `last`, is below it.
  before_last :
      (g : Globals fw) (last index : ℕ) (r : Rule)
      → fw.get_redirect_rule_by_index g.firewall last ≡ none
      → fw.get_redirect_rule_by_index g.firewall index ≡ some r
      → index ≤ last
      → index < last
  before_last g last index r n h le = elim (Bool-cases (index == last)) [
    | inl e ↦
        let same : index ≡ last = ground arith in
        absurd (
          none-some r (sym n ∙ ap (λ i. fw.get_redirect_rule_by_index g.firewall i) (sym same) ∙ h))
    | inr e ↦ ground arith
  ]

  delete_round_total :
      (more : ℕ → Option (ℕ × Globals fw)) (g : Globals fw) (index : ℕ) (r : Rule)
      → Ends Done (more (index + 1))
      → Ends Done (delete_round fw cfg env info more g index (some r))
  delete_round_total more g index r h =
      let d = upnp_delete_redir_total fw env g r.eport r.proto in
      let own : Option (ℕ × Globals fw) =
        upnp_delete_redir fw env g r.eport r.proto >>= λ e. some (deleted_code fw cfg env info e) in
      let matching = if bytes_eq r.desc info.desc then own else some (2, g) in
      Ends-if Done matching (more (index + 1)) (is_for_client info r)
        (λ x.
          Ends-if Done own (some (2, g)) (bytes_eq r.desc info.desc)
            (λ y. Ends-at Done _ (upnp_delete_redir fw env g r.eport r.proto) d.0 d.1 tt) (λ y. tt))
        (λ x. h)

  delete_loop_total :
      (fuel last index : ℕ) (g : Globals fw)
      → fw.get_redirect_rule_by_index g.firewall last ≡ none
      → index ≤ last
      → last < fuel + index
      → Ends Done (delete_loop fw cfg env info fuel g index)
  unfolding delete_loop
  delete_loop_total zero last index g n le lt = absurd (omega arith)
  delete_loop_total (suc fuel) last index g n le lt =
      elim (Option-cases (fw.get_redirect_rule_by_index g.firewall index)) [
        | inl x ↦ rw x tt
        | inr (r, x) ↦
            let there : index < last = before_last g last index r n x le in
            rw x (
              delete_round_total (λ i. delete_loop fw cfg env info fuel g i) g index r
                (delete_loop_total fuel last (index + 1) g n (omega arith) (omega arith)))
      ]

  pub delete_pcpmap_total :
      (fuel last : ℕ) (g : Globals fw)
      → fw.get_redirect_rule_by_index g.firewall last ≡ none
      → last < fuel
      → Ends Done (delete_pcpmap fw cfg env info fuel g)
  unfolding delete_pcpmap
  delete_pcpmap_total fuel last g n lt =
      Ends-if Done (some (8, g)) (delete_loop fw cfg env info fuel g 0) info.is_fw (λ x. tt)
        (λ x. delete_loop_total fuel last 0 g n (omega arith) (omega arith))
