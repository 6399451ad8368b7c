-- ===== src/Redirect/Facade/Decided.antt =====
-- miniupnpd/upnpredirect.c: the cases of upnp_redirect, with a back end that keeps its laws.
use miniupnpd_sdn.Base.{
  ℕ, ◌+◌, ◌≡◌, ◌⊎◌, Bool, refl, inl, inr, true, false, List, [], ◌∷◌, ◌++◌, Option, none, some,
  Bytes, Bool-cases, Option-cases,
}
use miniupnpd_sdn.Base.Options.{bind_some_total}
use miniupnpd_sdn.Base.Ints.{ℤ, pos, negsuc, int_eq}
use miniupnpd_sdn.Permissions.{check_upnp_rule_against_permissions}
use miniupnpd_sdn.Redirect.LeaseFile.{Env, proto_atoi, lease_file_remove}
use miniupnpd_sdn.Redirect.LeaseFile.Lines.{lease_file_remove_total}
use miniupnpd_sdn.Redirect.Firewall.{Rule, Firewall, IsFirewall, IsListed, first_rule}
use miniupnpd_sdn.Redirect.Facade.{
  upnp_delete_redir, Config, Globals, new_rule, expiry, same_client, or_empty,
  upnp_redirect_internal, overwrite, redirect_over, redirect_from, upnp_redirect, redirected, twice,
  rewritten,
}

pub upnp_delete_redir_total :
    (fw : Firewall) (env : Env) (g : Globals fw) (eport proto : ℕ)
    → (d : Bool × Globals fw) × (upnp_delete_redir fw env g eport proto ≡ some d)
unfolding upnp_delete_redir
upnp_delete_redir_total fw env g eport proto =
    let r = fw.delete_redirect_and_filter_rules g.firewall eport proto in
    bind_some_total (lease_file_remove env eport proto g.lease_file)
      (λ removed.
        (r.0, record g { firewall = r.1; lease_file = removed.1; notified = g.notified + 1 }))
      (lease_file_remove_total env eport proto g.lease_file)

module _ (fw : Firewall) (laws : IsFirewall fw) (cfg : Config) (env : Env) where
  -- What a redirection that goes through leaves, with an event; or there is an error.
  abbrev pub IsPut : (fw.State → Type 0) → Globals fw → ℤ → Globals fw → Type 0
  IsPut P g z g' =
      ((z ≡ pos 0) × P g'.firewall × (g'.notified ≡ g.notified + 1))
      ⊎ ((z ≡ negsuc 0) × (g'.notified ≡ g.notified))

  -- The rule is the last one, as the back end lists it.
  abbrev pub EndsWith : Rule → fw.State → Type 0
  EndsWith r s =
      (before : List Rule) × (l : Rule) × (laws.rules s ≡ before ++ (l ∷ [])) × IsListed r l

  -- The rules of `s`, and that one behind them.
  abbrev pub Extends : fw.State → Rule → fw.State → Type 0
  Extends s r s' = (l : Rule) × (laws.rules s' ≡ laws.rules s ++ (l ∷ [])) × IsListed r l

  -- The cases of a request: the permissions come first, then whose the port is.
  pub data IsDecided (g : Globals fw) (rhost : Option Bytes) (eport : ℕ) (iaddr : Bytes) (iport : ℕ)
      (protocol desc : Bytes) (leaseduration : ℕ) : ℤ → Globals fw → Type 0 where
    no_address :
        cfg.inet_aton iaddr ≡ none
        → IsDecided g rhost eport iaddr iport protocol desc leaseduration (negsuc 0) g
    not_permitted :
        (address : ℕ)
        → cfg.inet_aton iaddr ≡ some address
        → check_upnp_rule_against_permissions cfg.upnppermlist eport address iport ≡ false
        → IsDecided g rhost eport iaddr iport protocol desc leaseduration (negsuc 2) g
    taken :
        (address : ℕ) (old : Rule)
        → cfg.inet_aton iaddr ≡ some address
        → check_upnp_rule_against_permissions cfg.upnppermlist eport address iport ≡ true
        → first_rule (laws.rules g.firewall) eport (proto_atoi protocol) ≡ some old
        → same_client rhost iaddr old ≡ false
        → IsDecided g rhost eport iaddr iport protocol desc leaseduration (negsuc 1) g
    own :
        (address : ℕ) (old : Rule) (z : ℤ) (g' : Globals fw)
        → cfg.inet_aton iaddr ≡ some address
        → check_upnp_rule_against_permissions cfg.upnppermlist eport address iport ≡ true
        → first_rule (laws.rules g.firewall) eport (proto_atoi protocol) ≡ some old
        → same_client rhost iaddr old ≡ true
        → g'.notified ≡ g.notified
        → IsDecided g rhost eport iaddr iport protocol desc leaseduration z g'
    fresh :
        (address : ℕ) (z : ℤ) (g' : Globals fw)
        → cfg.inet_aton iaddr ≡ some address
        → check_upnp_rule_against_permissions cfg.upnppermlist eport address iport ≡ true
        → first_rule (laws.rules g.firewall) eport (proto_atoi protocol) ≡ none
        → IsPut
            (Extends g.firewall (
              new_rule fw rhost eport iaddr iport
                (proto_atoi protocol)
                desc
                (expiry env leaseduration)))
            g
            z
            g'
        → IsDecided g rhost eport iaddr iport protocol desc leaseduration z g'

  redirected-IsPut :
      (g : Globals fw) (r : Rule) (P : fw.State → Type 0)
      → ((s s' : fw.State)
          → fw.add_redirect_rule2 g.firewall r ≡ some s
          → fw.add_filter_rule2 s r ≡ some s'
          → P s')
      → let a = redirected fw env r g (fw.add_redirect_rule2 g.firewall r) in IsPut P g a.0 a.1
  redirected-IsPut g r P put = elim (Option-cases (fw.add_redirect_rule2 g.firewall r)) [
    | inl e ↦ rw e (inr (refl, refl))
    | inr (s, e) ↦ rw e (elim (Option-cases (fw.add_filter_rule2 s r)) [
      | inl f ↦ rw f (inr (refl, refl))
      | inr (s', f) ↦ rw f (inl (refl, put s s' e f, refl))
    ])
  ]

  internal-IsPut :
      (g : Globals fw) (rhost : Option Bytes) (eport : ℕ) (iaddr : Bytes) (iport proto : ℕ)
      (desc : Bytes) (timestamp : ℕ) (P : fw.State → Type 0)
      → let r = new_rule fw rhost eport iaddr iport proto desc timestamp in
        ((s s' : fw.State)
          → fw.add_redirect_rule2 g.firewall r ≡ some s
          → fw.add_filter_rule2 s r ≡ some s'
          → P s')
        → let a =
            upnp_redirect_internal fw cfg env g rhost eport iaddr iport proto desc timestamp in
          IsPut P g a.0 a.1
  unfolding upnp_redirect_internal
  internal-IsPut g rhost eport iaddr iport proto desc timestamp P put =
      let r = new_rule fw rhost eport iaddr iport proto desc timestamp in
      elim (Bool-cases cfg.disable_port_forwarding) [
        | inl e ↦ rw e (inr (refl, refl))
        | inr e ↦ rw e (redirected-IsPut g r P put)
      ]

  pub internal-EndsWith :
      (g : Globals fw) (rhost : Option Bytes) (eport : ℕ) (iaddr : Bytes) (iport proto : ℕ)
      (desc : Bytes) (timestamp : ℕ)
      → let a = upnp_redirect_internal fw cfg env g rhost eport iaddr iport proto desc timestamp in
        let r = new_rule fw rhost eport iaddr iport proto desc timestamp in
        IsPut (EndsWith r) g a.0 a.1
  internal-EndsWith g rhost eport iaddr iport proto desc timestamp =
      let r = new_rule fw rhost eport iaddr iport proto desc timestamp in
      internal-IsPut g rhost eport iaddr iport proto desc timestamp (EndsWith r)
        (λ s s' e f. laws.added g.firewall s s' r e f)

  pub internal-Extends :
      (g : Globals fw) (rhost : Option Bytes) (eport : ℕ) (iaddr : Bytes) (iport proto : ℕ)
      (desc : Bytes) (timestamp : ℕ)
      → first_rule (laws.rules g.firewall) eport proto ≡ none
      → let a = upnp_redirect_internal fw cfg env g rhost eport iaddr iport proto desc timestamp in
        let r = new_rule fw rhost eport iaddr iport proto desc timestamp in
        IsPut (Extends g.firewall r) g a.0 a.1
  internal-Extends g rhost eport iaddr iport proto desc timestamp free =
      let r = new_rule fw rhost eport iaddr iport proto desc timestamp in
      internal-IsPut g rhost eport iaddr iport proto desc timestamp (Extends g.firewall r)
        (λ s s' e f. laws.added_free g.firewall s s' r e f free)

  rewritten-quiet :
      (g : Globals fw) (eport : ℕ) (iaddr : Bytes) (iport proto : ℕ) (desc : Bytes) (timestamp : ℕ)
      (r : ℤ × fw.State) (removed : ℤ × Option Bytes)
      → (rewritten fw env g eport iaddr iport proto desc timestamp r removed).1.notified
        ≡ g.notified
  rewritten-quiet g eport iaddr iport proto desc timestamp r removed =
      elim (Bool-cases (int_eq r.0 (pos 0))) [ inl e ↦ rw e refl | inr e ↦ rw e refl ]

  -- The update of the client's own redirection returns, and sends no event.
  overwrite-quiet :
      (g : Globals fw) (old : Rule) (eport : ℕ) (iaddr : Bytes) (iport proto : ℕ) (desc : Bytes)
      (timestamp : ℕ)
      → (z : ℤ) × (g' : Globals fw) × (overwrite fw env g old eport iaddr iport proto desc timestamp
          ≡ some (z, g'))
        × (g'.notified ≡ g.notified)
  unfolding overwrite
  overwrite-quiet g old eport iaddr iport proto desc timestamp =
      let r = twice fw g eport proto iport old.iport desc timestamp in
      let removed = lease_file_remove_total env eport proto g.lease_file in
      let a = rewritten fw env g eport iaddr iport proto desc timestamp r removed.0 in
      (
        a.0,
        a.1,
        rw removed.1 refl,
        rewritten-quiet g eport iaddr iport proto desc timestamp r removed.0,
      )

  -- upnp_redirect always returns. With an address that does not parse, a port that the permissions
  -- refuse, or a port that is another client's, nothing changes and the result is -1, -3 or -2. The
  -- update of the client's own redirection sends no event. For a port that is free the new rule comes
  -- behind the back end's others, as the back end lists it, and an event is sent, or the result is -1.
  pub upnp_redirect-IsDecided :
      (g : Globals fw) (rhost : Option Bytes) (eport : ℕ) (iaddr : Bytes) (iport : ℕ)
      (protocol : Bytes) (desc : Option Bytes) (leaseduration : ℕ)
      → (z : ℤ) × (g' : Globals fw) × (upnp_redirect fw cfg env g rhost eport iaddr iport protocol
            desc leaseduration
          ≡ some (z, g'))
        × IsDecided g rhost eport iaddr iport protocol (or_empty desc) leaseduration z g'
  unfolding upnp_redirect redirect_from redirect_over
  upnp_redirect-IsDecided g rhost eport iaddr iport protocol desc leaseduration =
      let first = laws.first g.firewall eport (proto_atoi protocol) in
      elim (Option-cases (cfg.inet_aton iaddr)) [
        | inl e ↦ (_, _, rw e refl, no_address e)
        | inr (address, e) ↦
            elim (Bool-cases
              (check_upnp_rule_against_permissions cfg.upnppermlist eport address iport)) [
                | inr p ↦ (negsuc 2, g, rw (e, p) refl, not_permitted address e p)
                | inl p ↦
                    elim (Option-cases
                      (first_rule (laws.rules g.firewall) eport (proto_atoi protocol))) [
                        | inl f ↦
                            let a =
                              upnp_redirect_internal fw cfg env g rhost eport iaddr iport
                                (proto_atoi protocol) (or_empty desc) (expiry env leaseduration) in
                            (
                              a.0,
                              a.1,
                              rw (e, p, first, f) refl,
                              fresh address a.0 a.1 e p f (
                                  internal-Extends g rhost eport iaddr iport (proto_atoi protocol)
                                    (or_empty desc) (expiry env leaseduration) f),
                            )
                        | inr (old, f) ↦ elim (Bool-cases (same_client rhost iaddr old)) [
                          | inr c ↦
                              (negsuc 1, g, rw (e, p, first, f, c) refl, taken address old e p f c)
                          | inl c ↦
                              let o =
                                overwrite-quiet g old eport iaddr iport (proto_atoi protocol)
                                  (or_empty desc) (expiry env leaseduration) in
                              (
                                o.0,
                                o.1,
                                rw (e, p, first, f, c) o.2,
                                own address old o.0 o.1 e p f c o.3,
                              )
                        ]
                      ]
              ]
      ]
