-- ===== src/Redirect/InList.antt =====
-- A back end that keeps its rules in a list, for the tests of the redirections.
use miniupnpd_sdn.Base.{
  Bool-cases, bytes_eq, codes, if◌then◌else◌, inl, inr, sym, ap, ◌≡◌, refl, ◌∙◌, true, false, List,
  [], ◌∷◌, ◌++◌, some, get_elem?, arith,
}
use miniupnpd_sdn.Base.Ints.{pos}
use miniupnpd_sdn.Redirect.LeaseFile.{Env}
use miniupnpd_sdn.Redirect.Firewall.{
  Rule, Firewall, IsFirewall, IsListed, first_rule, without_first,
}
use miniupnpd_sdn.Redirect.Facade.{Config, Globals}

-- A rule is kept without the remote host `*`.
abbrev pub stored : Rule → Rule
stored r = if bytes_eq r.rhost (codes "*") then record r { rhost = [] } else r

abbrev pub in_list : Firewall
in_list = record {
  State = List Rule;
  get_redirect_rule = first_rule;
  get_redirect_rule_by_index = get_elem?;
  add_redirect_rule2 = λ s r. some (s ++ (stored r ∷ []));
  add_filter_rule2 = λ s r. some s;
  delete_redirect_and_filter_rules = λ s eport proto. (true, without_first s eport proto);
  update_portmapping = λ s eport proto iport desc timestamp. (pos 0, s);
  update_portmapping_desc_timestamp = λ s eport proto desc timestamp. (pos 0, s);
}

pub some-is : (s s' : List Rule) → some s ≡ some s' → s' ≡ s
some-is s s' h = cc

pub true-false : true ≡ false → ⊥
true-false h = ground arith

pub stored-IsListed : (r : Rule) → IsListed r (stored r)
stored-IsListed r = elim (Bool-cases (bytes_eq r.rhost (codes "*"))) [
  | inl e ↦ rw e (record {
    eport_same = refl;
    proto_same = refl;
    iport_same = refl;
    iaddr_same = λ a b c d h i j k e. refl;
    any_host = λ h. refl;
    timestamp_kept = inl refl;
  })
  | inr e ↦ rw e (record {
    eport_same = refl;
    proto_same = refl;
    iport_same = refl;
    iaddr_same = λ a b c d h i j k e. refl;
    any_host = λ h. elim h [
      | inl star ↦ absurd (true-false (ap (λ s. bytes_eq s (codes "*")) (sym star) ∙ e))
      | inr nothing ↦ nothing
    ];
    timestamp_kept = inl refl;
  })
]

abbrev pub in_list-laws : IsFirewall in_list
in_list-laws = record {
  rules = λ s. s;
  by_index = λ s i. refl;
  first = λ s eport proto. refl;
  added = λ s s' s'' r h k.
      (s, stored r, some-is s' s'' k ∙ some-is (s ++ (stored r ∷ [])) s' h, stored-IsListed r);
  added_free = λ s s' s'' r h k free.
      (stored r, some-is s' s'' k ∙ some-is (s ++ (stored r ∷ [])) s' h, stored-IsListed r);
}

abbrev pub an_env : Env
an_env = record {
  upnp_time = 1000;
  unix_time = 1_600_000_000;
  opens = true;
  temp_opens = true;
  renames = true;
}

abbrev pub with_rules : List Rule → Globals in_list
with_rules rules = record {
  firewall = rules;
  lease_file = some [];
  nextruletoclean_timestamp = 0;
  notified = 0;
}

abbrev pub a_config : Config
a_config = record { disable_port_forwarding = false; upnppermlist = []; inet_aton = λ s. some 5 }
