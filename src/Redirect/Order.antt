-- ===== src/Redirect/Order.antt =====
-- miniupnpd/upnpredirect.c: the back end's rules by their indices, while a loop goes through them and
-- deletes some.
use miniupnpd_sdn.Base.{
  ℕ, suc, ◌+◌, ◌≡◌, refl, ap, ◌∙◌, Bool, true, false, List, [], ◌∷◌, ◌++◌, none, some, length,
  get_elem?, arith,
}
use miniupnpd_sdn.Redirect.LeaseFile.{Env}
use miniupnpd_sdn.Redirect.LeaseFile.Lines.{lease_file_remove_total}
use miniupnpd_sdn.Redirect.Firewall.{Rule, Firewall, IsFirewall, is_for, first_rule, without_first}
use miniupnpd_sdn.Redirect.Facade.{Globals, upnp_delete_redir}

-- A list turned round, in front of another.
abbrev pub rev_onto : List Rule → List Rule → List Rule
rev_onto [] w = w
rev_onto (r ∷ z) w = rev_onto z (r ∷ w)

abbrev pub newest_first : List Rule → List Rule
newest_first rules = rev_onto rules []

-- No rule has this port and protocol.
abbrev pub NoneFor : ℕ → ℕ → List Rule → Type 0
NoneFor eport proto [] = Unit {0}
NoneFor eport proto (r ∷ z) = (is_for eport proto r ≡ false) × NoneFor eport proto z

-- No two rules have the same port and protocol.
abbrev pub Apart : List Rule → Type 0
Apart [] = Unit {0}
Apart (r ∷ z) = NoneFor r.eport r.proto z × Apart z

-- No rule of `w` is for the port and the protocol of one of `z`.
abbrev pub Fresh : List Rule → List Rule → Type 0
Fresh z [] = Unit {0}
Fresh z (r ∷ w) = NoneFor r.eport r.proto z × Fresh z w

is_for-swap : (a b : Rule) → is_for a.eport a.proto b ≡ false → is_for b.eport b.proto a ≡ false
is_for-swap a b h = ground arith

pub Fresh-more :
    (r : Rule) (z w : List Rule) → NoneFor r.eport r.proto w → Fresh z w → Fresh (r ∷ z) w
Fresh-more r z [] h f = tt
Fresh-more r z (x ∷ w) h f = ((is_for-swap r x h.0, f.0), Fresh-more r z w h.1 f.1)

pub Fresh-nil : (w : List Rule) → Fresh [] w
Fresh-nil [] = tt
Fresh-nil (r ∷ w) = (tt, Fresh-nil w)

pub rev_rev : (a b c : List Rule) → rev_onto (rev_onto a b) c ≡ rev_onto b (a ++ c)
rev_rev [] b c = refl
rev_rev (r ∷ a) b c = rev_rev a (r ∷ b) c

append_nil : (a : List Rule) → a ++ [] ≡ a
append_nil [] = refl
append_nil (r ∷ a) = ap (λ w. r ∷ w) (append_nil a)

pub newest_twice : (rules : List Rule) → rev_onto (newest_first rules) [] ≡ rules
newest_twice rules = rev_rev rules [] [] ∙ append_nil rules

without_first-rev :
    (eport proto : ℕ) (z w : List Rule)
    → NoneFor eport proto z
    → without_first (rev_onto z w) eport proto ≡ rev_onto z (without_first w eport proto)
without_first-rev eport proto [] w h = refl
without_first-rev eport proto (r ∷ z) w h =
    without_first-rev eport proto z (r ∷ w) h.1 ∙ rw h.0 refl

first_rule-rev :
    (eport proto : ℕ) (z w : List Rule)
    → NoneFor eport proto z
    → first_rule (rev_onto z w) eport proto ≡ first_rule w eport proto
first_rule-rev eport proto [] w h = refl
first_rule-rev eport proto (r ∷ z) w h = first_rule-rev eport proto z (r ∷ w) h.1 ∙ rw h.0 refl

get_elem?-rev : (z w : List Rule) (j : ℕ) → get_elem? (rev_onto z w) (length z + j) ≡ get_elem? w j
get_elem?-rev [] w j = ap (λ (k : ℕ). get_elem? w k) (omega arith)
get_elem?-rev (r ∷ z) w j =
    ap (λ (k : ℕ). get_elem? (rev_onto z (r ∷ w)) k) (omega arith) ∙ get_elem?-rev z (r ∷ w) (suc j)

first_rule-NoneFor :
    (eport proto : ℕ) (w : List Rule) → NoneFor eport proto w → first_rule w eport proto ≡ none
first_rule-NoneFor eport proto [] h = refl
first_rule-NoneFor eport proto (r ∷ w) h = rw h.0 (first_rule-NoneFor eport proto w h.1)

module _ (fw : Firewall) (laws : IsFirewall fw) where
  pub rule_at :
      (s : fw.State) (z w : List Rule)
      → laws.rules s ≡ rev_onto z w
      → fw.get_redirect_rule_by_index s (length z) ≡ get_elem? w 0
  rule_at s z w e =
      laws.by_index s (length z)
      ∙ ap (λ l. get_elem? l (length z)) e
      ∙ ap (λ (k : ℕ). get_elem? (rev_onto z w) k) (omega arith)
      ∙ get_elem?-rev z w 0

  -- A back end whose deletions of the one rule for a port and a protocol succeed, and take that rule.
  abbrev pub Deletes : Type 0
  Deletes =
      (s : fw.State) (eport proto : ℕ) (r : Rule)
      → first_rule (laws.rules s) eport proto ≡ some r
      → first_rule (without_first (laws.rules s) eport proto) eport proto ≡ none
      → ((fw.delete_redirect_and_filter_rules s eport proto).0 ≡ true)
        × (laws.rules (fw.delete_redirect_and_filter_rules s eport proto).1
            ≡ without_first (laws.rules s) eport proto)

  is_for-itself : (r : Rule) → is_for r.eport r.proto r ≡ true
  is_for-itself r = ground arith

  -- A deletion takes the rule, when no other has its port and protocol.
  pub deleted_rule :
      (env : Env) (g : Globals fw) (r : Rule) (z w : List Rule)
      → Deletes
      → NoneFor r.eport r.proto z
      → NoneFor r.eport r.proto w
      → laws.rules g.firewall ≡ rev_onto z (r ∷ w)
      → (d : Bool × Globals fw) × (upnp_delete_redir fw env g r.eport r.proto ≡ some d)
        × (laws.rules d.1.firewall ≡ rev_onto z w)
        × (d.1.nextruletoclean_timestamp ≡ g.nextruletoclean_timestamp)
        × (d.0 ≡ true)
  unfolding upnp_delete_redir
  deleted_rule env g r z w good none_for none_more e =
      let removed = lease_file_remove_total env r.eport r.proto g.lease_file in
      let first =
        ap (λ l. first_rule l r.eport r.proto) e
        ∙ first_rule-rev r.eport r.proto z (r ∷ w) none_for
        ∙ rw (is_for-itself r) refl in
      let rest : without_first (laws.rules g.firewall) r.eport r.proto ≡ rev_onto z w =
        ap (λ l. without_first l r.eport r.proto) e
        ∙ without_first-rev r.eport r.proto z (r ∷ w) none_for
        ∙ rw (is_for-itself r) refl in
      let alone =
        ap (λ l. first_rule l r.eport r.proto) rest
        ∙ first_rule-rev r.eport r.proto z w none_for
        ∙ first_rule-NoneFor r.eport r.proto w none_more in
      let gone = good g.firewall r.eport r.proto r first alone in
      let r' = fw.delete_redirect_and_filter_rules g.firewall r.eport r.proto in
      (
        (r'.0, record g { firewall = r'.1; lease_file = removed.0.1; notified = g.notified + 1 }),
        rw removed.1 refl,
        gone.1 ∙ rest,
        refl,
        gone.0,
      )
