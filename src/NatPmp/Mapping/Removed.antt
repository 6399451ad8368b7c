-- ===== src/NatPmp/Mapping/Removed.antt =====
-- miniupnpd/natpmp.c: a removal deletes just the client's mappings, with a back end that keeps its laws
-- and deletes what it is told to.
use miniupnpd_sdn.Base.{
  ℕ, zero, suc, ◌+◌, ◌<◌, ◌≡◌, refl, ap, inl, inr, true, List, [], ◌∷◌, none, some, if◌then◌else◌,
  length, Bool-cases, arith,
}
use miniupnpd_sdn.Redirect.LeaseFile.{Env}
use miniupnpd_sdn.Redirect.Firewall.{Rule, Firewall, IsFirewall, first_rule, without_first}
use miniupnpd_sdn.Redirect.Facade.{Config, Globals}
use miniupnpd_sdn.Redirect.Order.{rev_onto, Apart, Fresh, Fresh-more, rule_at, deleted_rule}
use miniupnpd_sdn.NatPmp.Mapping.{Client, to_delete, remove_mappings}

-- The rules that the request is not about.
abbrev pub other_rules : Client → List Rule → List Rule
other_rules c [] = []
other_rules c (r ∷ w) = let rest = other_rules c w in if to_delete c r then rest else r ∷ rest

module _ (fw : Firewall) (laws : IsFirewall fw) (cfg : Config) (env : Env) (c : Client) where
  pub remove_mappings-rules :
      (fuel : ℕ) (g : Globals fw) (z w : List Rule)
      → ((s : fw.State) (eport proto : ℕ) (r : Rule)
          → first_rule (laws.rules s) eport proto ≡ some r
          → first_rule (without_first (laws.rules s) eport proto) eport proto ≡ none
          → ((fw.delete_redirect_and_filter_rules s eport proto).0 ≡ true)
            × (laws.rules (fw.delete_redirect_and_filter_rules s eport proto).1
                ≡ without_first (laws.rules s) eport proto))
      → Apart w
      → Fresh z w
      → laws.rules g.firewall ≡ rev_onto z w
      → length w < fuel
      → (g' : Globals fw) × (remove_mappings fw cfg env c fuel (length z) g ≡ some (0, g'))
        × (laws.rules g'.firewall ≡ rev_onto z (other_rules c w))
  unfolding remove_mappings
  remove_mappings-rules zero g z w good apart fresh e h = absurd (omega arith)
  remove_mappings-rules (suc fuel) g z [] good apart fresh e h =
      rw (rule_at fw laws g.firewall z [] e) (g, refl, e)
  remove_mappings-rules (suc fuel) g z (r ∷ w) good apart fresh e h =
      let at = rule_at fw laws g.firewall z (r ∷ w) e in
      let count : length z + 1 ≡ suc (length z) = omega arith in
      elim (Bool-cases (to_delete c r)) [
        | inl t ↦
            let d = deleted_rule fw laws env g r z w good fresh.0 apart.0 e in
            let rest =
              remove_mappings-rules fuel d.0.1 z w good apart.1 fresh.1 d.2 (omega arith) in
            rw (at, t, d.1, d.4, rest.1) (rest.0, refl, rest.2)
        | inr t ↦
            let rest =
              remove_mappings-rules fuel g (r ∷ z) w good apart.1 (Fresh-more r z w apart.0 fresh.1)
                e (omega arith) in
            rw (at, t, ap (λ (k : ℕ). remove_mappings fw cfg env c fuel k g) count, rest.1)
              (rest.0, refl, rest.2)
      ]
