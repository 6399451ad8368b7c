-- ===== src/Redirect/Facade/Shown.antt =====
-- miniupnpd/upnpredirect.c: what upnp_get_redirection_infos tells after upnp_redirect, with a back end that
-- keeps its laws.
use miniupnpd_sdn.Base.{
  ℕ, ◌+◌, ◌%◌, ◌^◌, ◌<◌, ◌≡◌, ◌⊎◌, refl, sym, ap, ◌∙◌, inl, inr, true, List, [], ◌∷◌, ◌++◌, Option,
  none, some, Bytes, Bool-cases, arith,
}
use miniupnpd_sdn.Base.Options.{none-some}
use miniupnpd_sdn.Base.Ints.{ℤ, pos, negsuc}
use miniupnpd_sdn.Permissions.{check_upnp_rule_against_permissions}
use miniupnpd_sdn.Redirect.LeaseFile.{Env, proto_atoi}
use miniupnpd_sdn.Redirect.Firewall.{Rule, Firewall, IsFirewall, IsListed, is_for, first_rule}
use miniupnpd_sdn.Redirect.Facade.{
  Config, Globals, new_rule, expiry, or_empty, left, upnp_redirect_internal, redirect_over,
  redirect_from, upnp_redirect, upnp_get_redirection_infos,
}
use miniupnpd_sdn.Redirect.Facade.Decided.{IsPut, Extends, internal-Extends}

module _ (fw : Firewall) (laws : IsFirewall fw) (cfg : Config) (env : Env) where
  -- A request for a port that is free.
  upnp_redirect-fresh :
      (g : Globals fw) (rhost : Option Bytes) (eport : ℕ) (iaddr : Bytes) (iport : ℕ)
      (protocol : Bytes) (desc : Option Bytes) (leaseduration : ℕ) (address : ℕ)
      → cfg.inet_aton iaddr ≡ some address
      → check_upnp_rule_against_permissions cfg.upnppermlist eport address iport ≡ true
      → first_rule (laws.rules g.firewall) eport (proto_atoi protocol) ≡ none
      → upnp_redirect fw cfg env g rhost eport iaddr iport protocol desc leaseduration
        ≡ some (
            upnp_redirect_internal fw cfg env g rhost eport iaddr iport
              (proto_atoi protocol)
              (or_empty desc)
              (expiry env leaseduration))
  unfolding upnp_redirect redirect_from redirect_over
  upnp_redirect-fresh g rhost eport iaddr iport protocol desc leaseduration address e p f =
      rw (e, p, laws.first g.firewall eport (proto_atoi protocol), f) refl

  is_for-itself : (r : Rule) → is_for r.eport r.proto r ≡ true
  is_for-itself r = ground arith

  not_zero : negsuc 0 ≡ pos 0 → ⊥
  not_zero h = ground arith

  first_rule-last :
      (rules : List Rule) (r l : Rule)
      → IsListed r l
      → first_rule rules r.eport r.proto ≡ none
      → first_rule (rules ++ (l ∷ [])) r.eport r.proto ≡ some l
  first_rule-last [] r l same h =
      let is : is_for r.eport r.proto l ≡ true =
        ap (λ (p : ℕ). is_for p r.proto l) (sym same.eport_same)
        ∙ ap (λ (p : ℕ). is_for l.eport p l) (sym same.proto_same)
        ∙ is_for-itself l in
      rw is refl
  first_rule-last (x ∷ rules) r l same h = elim (Bool-cases (is_for r.eport r.proto x)) [
    | inl e ↦ absurd (none-some x (sym (rw e at h)))
    | inr e ↦ rw e (first_rule-last rules r l same (rw e at h))
  ]

  left-expiry :
      (leaseduration : ℕ)
      → env.upnp_time + leaseduration < 2 ^ 32
      → left fw env (expiry env leaseduration) ≡ leaseduration
  left-expiry leaseduration h =
      let sum : (env.upnp_time + leaseduration) % 2 ^ 32 ≡ env.upnp_time + leaseduration =
        omega arith in
      let time : env.upnp_time % 2 ^ 32 ≡ env.upnp_time = omega arith in
      rw (sum, time) (ground arith)

  abbrev value : ℤ × Globals fw → Option (ℤ × Globals fw) → ℤ × Globals fw
  value d none = d
  value d (some a) = a

  appended :
      (g g' : Globals fw) (r : Rule) (a : ℤ × Globals fw)
      → IsPut fw laws cfg env (Extends fw laws cfg env g.firewall r) g a.0 a.1
      → some a ≡ some (pos 0, g')
      → Extends fw laws cfg env g.firewall r g'.firewall
  appended g g' r a (inl i) h =
      (i.1.0, ap (λ b. laws.rules (value a b).1.firewall) (sym h) ∙ i.1.1, i.1.2)
  appended g g' r a (inr i) h = absurd (not_zero (sym i.0 ∙ ap (λ b. (value a b).0) h))

  -- What is left of the new rule's lease: all of it, or nothing where its timestamp is lost.
  listed-left :
      (leaseduration : ℕ) (l : Rule)
      → env.upnp_time + leaseduration < 2 ^ 32
      → (l.timestamp ≡ expiry env leaseduration) ⊎ (l.timestamp ≡ 0)
      → (left fw env l.timestamp ≡ leaseduration)
        ⊎ ((l.timestamp ≡ 0) × (left fw env l.timestamp ≡ 0))
  listed-left leaseduration l t (inl e) =
      inl (ap (λ (k : ℕ). left fw env k) e ∙ left-expiry leaseduration t)
  listed-left leaseduration l t (inr e) = inr (e, ap (λ (k : ℕ). left fw env k) e ∙ ground arith)

  -- Where the address parses, the permissions allow the port, the port is free and the clock and the
  -- duration stay within 32 bits, and upnp_redirect returns 0: upnp_get_redirection_infos shows the
  -- new rule at the same time, as the back end lists it, with the lease's whole duration, or with 0
  -- where the back end has lost the timestamp.
  pub upnp_get_redirection_infos-upnp_redirect :
      (g g' : Globals fw) (rhost : Option Bytes) (eport : ℕ) (iaddr : Bytes) (iport : ℕ)
      (protocol : Bytes) (desc : Option Bytes) (leaseduration : ℕ) (address : ℕ)
      → cfg.inet_aton iaddr ≡ some address
      → check_upnp_rule_against_permissions cfg.upnppermlist eport address iport ≡ true
      → first_rule (laws.rules g.firewall) eport (proto_atoi protocol) ≡ none
      → env.upnp_time + leaseduration < 2 ^ 32
      → upnp_redirect fw cfg env g rhost eport iaddr iport protocol desc leaseduration
        ≡ some (pos 0, g')
      → (l : Rule) × (k : ℕ) × (upnp_get_redirection_infos fw env g' eport protocol ≡ some (l, k))
        × IsListed
            (new_rule fw rhost eport iaddr iport
              (proto_atoi protocol)
              (or_empty desc)
              (expiry env leaseduration))
            l
        × ((k ≡ leaseduration) ⊎ ((l.timestamp ≡ 0) × (k ≡ 0)))
  unfolding upnp_get_redirection_infos
  upnp_get_redirection_infos-upnp_redirect g g' rhost eport iaddr iport protocol desc leaseduration
        address e p f t h =
      let i =
        internal-Extends fw laws cfg env g rhost eport iaddr iport (proto_atoi protocol)
          (or_empty desc) (expiry env leaseduration) f in
      let same =
        sym
          (upnp_redirect-fresh g rhost eport iaddr iport protocol desc leaseduration address e p f)
        ∙ h in
      let r =
        new_rule fw rhost eport iaddr iport (proto_atoi protocol) (or_empty desc)
          (expiry env leaseduration) in
      let new = appended g g' r _ i same in
      let shown =
        laws.first g'.firewall eport (proto_atoi protocol)
        ∙ ap (λ l. first_rule l eport (proto_atoi protocol)) new.1
        ∙ first_rule-last (laws.rules g.firewall) r new.0 new.2 f in
      (
        new.0,
        left fw env new.0.timestamp,
        rw shown refl,
        new.2,
        listed-left leaseduration new.0 t new.2.timestamp_kept,
      )
