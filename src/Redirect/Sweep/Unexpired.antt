-- ===== src/Redirect/Sweep/Unexpired.antt =====
-- miniupnpd/upnpredirect.c: what get_upnp_rules_state_list leaves of the rules, with a back end that
-- keeps its laws and deletes what it is told to.
use miniupnpd_sdn.Base.{
  ℕ, zero, suc, ◌+◌, ◌-◌, ◌<◌, ◌≡◌, refl, sym, ap, ◌∙◌, inl, inr, Bool, true, false, not, ◌&&◌,
  ◌||◌, List, [], ◌∷◌, ◌⊎◌, none, some, ltb, leb, ◌==◌, if◌then◌else◌, length, Bool-cases, arith,
}
use native.Mathlib.Nat.{add-zero}
use miniupnpd_sdn.Redirect.LeaseFile.{Env}
use miniupnpd_sdn.Redirect.Firewall.{Rule, Firewall, IsFirewall, first_rule, without_first}
use miniupnpd_sdn.Redirect.Order.{
  rev_onto, newest_first, Apart, Fresh, Fresh-more, Fresh-nil, newest_twice, rule_at, Deletes,
  deleted_rule,
}
use miniupnpd_sdn.Redirect.Facade.{Globals}
use miniupnpd_sdn.Redirect.Sweep.{
  RuleState, is_expired, next_to_clean, rule_state, now, scan, remove_expired,
  get_upnp_rules_state_list,
}

-- Its time has come: it has one, and that is not in the future.
abbrev pub is_due : ℕ → ℕ → Bool
is_due t timestamp = not (timestamp == 0 || ltb t timestamp)

abbrev pub unexpired : ℕ → List Rule → List Rule
unexpired t [] = []
unexpired t (r ∷ rules) =
    let rest = unexpired t rules in if is_due t r.timestamp then rest else r ∷ rest

-- The time at which the next one of the rules expires, 0 where none does.
abbrev pub next_expiry : ℕ → List Rule → ℕ
next_expiry t [] = 0
next_expiry t (r ∷ rules) =
    let m = next_expiry t rules in
    if ltb t r.timestamp && (m == 0 || ltb r.timestamp m) then r.timestamp else m

is_due-is_expired : (t timestamp : ℕ) → is_due t timestamp ≡ is_expired t timestamp
is_due-is_expired t timestamp = ground arith

abbrev pub states : ℕ → List Rule → List RuleState
states t [] = []
states t (r ∷ z) = rule_state t r ∷ states t z

-- It is 0, or to come.
next_expiry-cases : (t : ℕ) (z : List Rule) → (next_expiry t z ≡ 0) ⊎ (t < next_expiry t z)
next_expiry-cases t [] = inl refl
next_expiry-cases t (r ∷ z) =
    elim (Bool-cases
      (ltb t r.timestamp && (next_expiry t z == 0 || ltb r.timestamp (next_expiry t z)))) [
        | inl e ↦ rw e (inr (ground arith))
        | inr e ↦ rw e (next_expiry-cases t z)
      ]

next_to_clean-next :
    (t : ℕ) (r : Rule) (z : List Rule)
    → next_to_clean t (next_expiry t z) r.timestamp ≡ next_expiry t (r ∷ z)
next_to_clean-next t r z =
    let there = next_expiry-cases t z in
    elim (Bool-cases (ltb t r.timestamp)) [
      | inl e ↦ elim there [ inl n ↦ rw (n, e) (ground arith) | inr n ↦ ground arith ]
      | inr e ↦ elim there [ inl n ↦ ground arith | inr n ↦ ground arith ]
    ]

unexpired-rev :
    (t : ℕ) (z w : List Rule)
    → unexpired t (rev_onto z w) ≡ rev_onto (unexpired t z) (unexpired t w)
unexpired-rev t [] w = refl
unexpired-rev t (r ∷ z) w =
    unexpired-rev t z (r ∷ w)
    ∙ elim (Bool-cases (is_due t r.timestamp)) [ inl e ↦ rw e refl | inr e ↦ rw e refl ]

module _ (fw : Firewall) (laws : IsFirewall fw) (env : Env) (malloc : ℕ → Bool)
    (plenty : (k : ℕ) → malloc k ≡ true) where
  abbrev t : ℕ
  t = now fw env malloc

  -- The first loop, with the rules of `z` behind it and those of `w` to come.
  scan-rules :
      (fuel : ℕ) (s : fw.State) (z w : List Rule)
      → laws.rules s ≡ rev_onto z w
      → length w < fuel
      → scan fw env malloc fuel s (length z) (states t z) (next_expiry t z)
        ≡ some (states t (rev_onto w z), length (rev_onto w z), next_expiry t (rev_onto w z))
  unfolding scan
  scan-rules zero s z w e h = absurd (omega arith)
  scan-rules (suc fuel) s z [] e h = rw (rule_at fw laws s z [] e) refl
  scan-rules (suc fuel) s z (r ∷ w) e h =
      let rest = scan-rules fuel s (r ∷ z) w e (omega arith) in
      rw (rule_at fw laws s z (r ∷ w) e, plenty (suc (length z)), next_to_clean-next t r z, rest)
        refl

  -- The second loop, where the rest of the rules is `z`, newest first, and the rules of `w` stay.
  remove_expired-rules :
      (g : Globals fw) (z w : List Rule)
      → Deletes fw laws
      → Apart z
      → Fresh w z
      → laws.rules g.firewall ≡ rev_onto z w
      → (g' : Globals fw) × (remove_expired fw env malloc g (states t z) (length z + length w)
          ≡ some (states t (unexpired t z), length (unexpired t z) + length w, g'))
        × (laws.rules g'.firewall ≡ rev_onto (unexpired t z) w)
        × (g'.nextruletoclean_timestamp ≡ g.nextruletoclean_timestamp)
  unfolding remove_expired
  remove_expired-rules g [] w good apart fresh e = (g, refl, e, refl)
  remove_expired-rules g (r ∷ z) w good apart fresh e =
      elim (Bool-cases (is_expired t r.timestamp)) [
        | inl x ↦
            let d = deleted_rule fw laws env g r z w good apart.0 fresh.0 e in
            let rest = remove_expired-rules d.0.1 z w good apart.1 fresh.1 d.2 in
            let count : suc (length z) + length w - 1 ≡ length z + length w = omega arith in
            rw (x, is_due-is_expired t r.timestamp ∙ x, d.1, count)
              (rest.0, rest.1, rest.2, rest.3 ∙ d.3)
        | inr x ↦
            let rest =
              remove_expired-rules g z (r ∷ w) good apart.1 (Fresh-more r w z apart.0 fresh.1) e in
            let count : suc (length z) + length w ≡ length z + suc (length w) = omega arith in
            let count' : length (unexpired t z) + suc (length w)
                ≡ suc (length (unexpired t z)) + length w =
              omega arith in
            rw (x, is_due-is_expired t r.timestamp ∙ x, count, rest.1)
              (
                rest.0,
                ap
                      (λ (k : ℕ). some (
                        record (rule_state t r) { to_remove = false } ∷ states t (unexpired t z),
                        k,
                        rest.0,
                      ))
                      count'
                    ∙ rw x refl,
                rest.2,
                rest.3,
              )
      ]

-- With room for the list, a back end that keeps its laws and deletes a rule that is the one for its
-- port and protocol when told to, and no two rules for one port and protocol: get_upnp_rules_state_list removes just the rules whose time has come
-- and keeps the others in their order, notes the time at which the next one of them expires, and gives
-- the list of those that stay where they are more than the target.
pub get_upnp_rules_state_list-unexpired :
    (fw : Firewall) (laws : IsFirewall fw) (env : Env) (malloc : ℕ → Bool) (g : Globals fw)
    (fuel target : ℕ)
    → ((k : ℕ) → malloc k ≡ true)
    → ((s : fw.State) (eport proto : ℕ) (r : Rule)
        → first_rule (laws.rules s) eport proto ≡ some r
        → first_rule (without_first (laws.rules s) eport proto) eport proto ≡ none
        → ((fw.delete_redirect_and_filter_rules s eport proto).0 ≡ true)
          × (laws.rules (fw.delete_redirect_and_filter_rules s eport proto).1
              ≡ without_first (laws.rules s) eport proto))
    → Apart (newest_first (laws.rules g.firewall))
    → length (laws.rules g.firewall) < fuel
    → let t = now fw env malloc in
      let rules = laws.rules g.firewall in
      let stay = unexpired t (newest_first rules) in
      (g' : Globals fw) × (get_upnp_rules_state_list fw env malloc fuel g target
        ≡ some (if leb (length stay) target then [] else states t stay, g'))
      × (laws.rules g'.firewall ≡ unexpired t rules)
      × (g'.nextruletoclean_timestamp ≡ next_expiry t (newest_first rules))
unfolding get_upnp_rules_state_list
get_upnp_rules_state_list-unexpired fw laws env malloc g fuel target plenty good apart h =
    let t = now fw env malloc in
    let rules = laws.rules g.firewall in
    let s = scan-rules fw laws env malloc plenty fuel g.firewall [] rules refl h in
    let r =
      remove_expired-rules fw laws env malloc plenty
        (record g { nextruletoclean_timestamp = next_expiry t (newest_first rules) })
        (newest_first rules) [] good apart (Fresh-nil (newest_first rules))
        (sym (newest_twice rules)) in
    let removed =
      rw
        (
          add-zero (length (newest_first rules)),
          add-zero (length (unexpired t (newest_first rules))),
        )
        at r.1 in
    (
      r.0,
      rw (plenty 0, s, removed) refl,
      r.2 ∙ sym (unexpired-rev t (newest_first rules) []) ∙ ap (unexpired t) (newest_twice rules),
      r.3,
    )
