-- ===== src/Pcp/Preferred.antt =====
-- miniupnpd/pcpserver.c: CreatePCPMap_NAT where the client prefers a failure.
use miniupnpd_sdn.Base.{
  ℕ, ◌+◌, ◌%◌, ◌^◌, ◌≡◌, ◌⊎◌, refl, inl, inr, Bool, true, false, List, [], ◌∷◌, ◌++◌, Option, none,
  some, ◌==◌, arith,
}
use miniupnpd_sdn.Base.Options.{◌>>=◌}
use miniupnpd_sdn.Base.Ints.{ℤ, pos, negsuc}
use miniupnpd_sdn.Base.Ends.{Ends, Ends-at, Ends-if}
use miniupnpd_sdn.Redirect.LeaseFile.{Env}
use miniupnpd_sdn.Redirect.Firewall.{Rule, Firewall, IsFirewall, IsListed}
use miniupnpd_sdn.Redirect.Facade.{
  Config, Globals, new_rule, upnp_delete_redir, upnp_redirect_internal,
}
use miniupnpd_sdn.Redirect.Facade.Decided.{
  IsPut, EndsWith, internal-EndsWith, upnp_delete_redir_total,
}
use miniupnpd_sdn.Pcp.{PcpInfo}
use miniupnpd_sdn.Pcp.Map.{
  Mapped, created_code, create_redirect, go_on, replace_mapping, map_at, is_same, is_refused,
  map_port, create_on, wanted_port, create_pcpmap_nat,
}

module _ (fw : Firewall) (law : IsFirewall fw) (cfg : Config) (env : Env) (info : PcpInfo) where
  -- The rule that the client asks for.
  abbrev pub wanted_rule : Rule
  wanted_rule =
      new_rule fw none (wanted_port fw cfg env info) info.mapped_str info.int_port info.protocol
        info.desc ((env.upnp_time + info.lifetime) % 2 ^ 32)

  -- The last rule is that one, as the back end lists it.
  abbrev pub HasWanted : Globals fw → Type 0
  HasWanted g =
      (before : List Rule) × (l : Rule) × (law.rules g.firewall ≡ before ++ (l ∷ []))
      × IsListed wanted_rule l

  -- The port that the client wants, where it is permitted with its rule, or an error.
  abbrev pub AtWanted : Mapped fw cfg env info → Type 0
  AtWanted r =
      (r.1 ≡ wanted_port fw cfg env info)
      × (((r.0 ≡ 0)
            × (is_refused fw cfg env info (wanted_port fw cfg env info) ≡ false)
            × HasWanted r.2)
          ⊎ ((r.0 ≡ 3) ⊎ ((r.0 ≡ 8) ⊎ (r.0 ≡ 11))))

  created_code-AtWanted :
      (g : Globals fw) (r : ℤ × Globals fw)
      → is_refused fw cfg env info (wanted_port fw cfg env info) ≡ false
      → IsPut fw law cfg env (EndsWith fw law cfg env wanted_rule) g r.0 r.1
      → AtWanted (created_code fw cfg env info (wanted_port fw cfg env info) r)
  created_code-AtWanted g (pos n, g') ok (inl a) = (refl, inl (refl, ok, a.1))
  created_code-AtWanted g (pos n, g') ok (inr a) = absurd (ground (arith, a.0))
  created_code-AtWanted g (negsuc n, g') ok a = (refl, inr (inr (inl refl)))

  create_redirect-AtWanted :
      (g : Globals fw)
      → is_refused fw cfg env info (wanted_port fw cfg env info) ≡ false
      → AtWanted (create_redirect fw cfg env info (wanted_port fw cfg env info) g)
  create_redirect-AtWanted g ok =
      let w = wanted_port fw cfg env info in
      let t = (env.upnp_time + info.lifetime) % 2 ^ 32 in
      created_code-AtWanted g
        (upnp_redirect_internal fw cfg env g none w info.mapped_str info.int_port info.protocol
          info.desc t)
        ok
        (internal-EndsWith fw law cfg env g none w info.mapped_str info.int_port info.protocol
          info.desc t)

  go_on-AtWanted :
      (more : ℕ → Globals fw → Option (Mapped fw cfg env info)) (g : Globals fw)
      → info.pfailure_present ≡ true
      → Ends AtWanted (go_on fw cfg env info more (wanted_port fw cfg env info) g)
  go_on-AtWanted more g p = rw p (refl, inr (inr (inr refl)))

  map_at-AtWanted :
      (more : ℕ → Globals fw → Option (Mapped fw cfg env info)) (g : Globals fw) (o : Option Rule)
      → is_refused fw cfg env info (wanted_port fw cfg env info) ≡ false
      → info.pfailure_present ≡ true
      → Ends AtWanted (map_at fw cfg env info more (wanted_port fw cfg env info) g o)
  map_at-AtWanted more g none ok p = create_redirect-AtWanted g ok
  map_at-AtWanted more g (some old) ok p =
      let w = wanted_port fw cfg env info in
      let d = upnp_delete_redir_total fw env g w info.protocol in
      Ends-if AtWanted
        (upnp_delete_redir fw env g w info.protocol >>= replace_mapping fw cfg env info more w)
        (go_on fw cfg env info more w g) (is_same info old)
        (λ x.
          Ends-at AtWanted (replace_mapping fw cfg env info more w)
            (upnp_delete_redir fw env g w info.protocol) d.0 d.1
            (Ends-if AtWanted (some (create_redirect fw cfg env info w d.0.1))
              (go_on fw cfg env info more w d.0.1) d.0.0 (λ y. create_redirect-AtWanted d.0.1 ok)
              (λ y. go_on-AtWanted more d.0.1 p)))
        (λ x. go_on-AtWanted more g p)

  -- With the option PREFER_FAILURE CreatePCPMap_NAT ends without a search, over a firewall of which the laws hold:
  -- it succeeds at the suggested port, or at the internal port where none is suggested,
  -- the port is permitted then and the client's rule for it is the last one, as the back end lists it;
  -- or it gives an error.
  pub create_pcpmap_nat-AtWanted :
      (fuel : ℕ) (g : Globals fw)
      → info.pfailure_present ≡ true
      → Ends AtWanted (create_pcpmap_nat fw cfg env info fuel g)
  unfolding create_pcpmap_nat
  create_pcpmap_nat-AtWanted fuel g p =
      let w = wanted_port fw cfg env info in
      let more : Bool → ℕ → Globals fw → Option (Mapped fw cfg env info) =
        λ any eport g'. create_on fw cfg env info fuel w any eport g' in
      Ends-if AtWanted (some (3, 0, g)) (map_port fw cfg env info more false w g) (w == 0)
        (λ y. (ground arith, inr (inl refl)))
        (λ y.
          Ends-if AtWanted (go_on fw cfg env info (more false) w g)
            (map_at fw cfg env info (more true) w g
              (fw.get_redirect_rule g.firewall w info.protocol))
            (is_refused fw cfg env info w) (λ z. go_on-AtWanted (more false) g p)
            (λ z.
              map_at-AtWanted (more true) g (fw.get_redirect_rule g.firewall w info.protocol) z p))
