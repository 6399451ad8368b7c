-- ===== src/Redirect/Tests.antt =====
-- The theorems on redirections, with a back end that keeps its rules in a list.
use miniupnpd_sdn.Base.{
  ℕ, ◌≤◌, ◌<◌, ◌^◌, ◌≡◌, ◌⊎◌, refl, true, Option, List, [], ◌∷◌, ◌++◌, none, some, Bytes, codes,
  length, arith, c_string,
}
use miniupnpd_sdn.Base.Decimal.{decimal}
use miniupnpd_sdn.Base.Ints.{ℤ, pos}
use miniupnpd_sdn.Permissions.{check_upnp_rule_against_permissions}
use miniupnpd_sdn.Redirect.LeaseFile.{
  lease, lease_line, fgets_from, read_lease_line, lease_file_remove, lease_prefix, proto_itoa,
  proto_atoi, lease_file_add,
}
use miniupnpd_sdn.Redirect.LeaseFile.Lines.{file_of, lease_file_remove-lines}
use miniupnpd_sdn.Redirect.LeaseFile.ReadBack.{IsLease, read_lease_line-lease_line}
use miniupnpd_sdn.Redirect.Firewall.{Rule, IsListed}
use miniupnpd_sdn.Redirect.InList.{stored, in_list, in_list-laws, an_env, a_config, with_rules}
use miniupnpd_sdn.Redirect.Facade.{
  Globals, redirect_from, redirect_over, upnp_redirect_internal, upnp_redirect,
  upnp_get_redirection_infos, new_rule,
}
use miniupnpd_sdn.Redirect.Facade.Decided.{IsDecided, upnp_redirect-IsDecided}
use miniupnpd_sdn.Redirect.Facade.Shown.{upnp_get_redirection_infos-upnp_redirect}
use miniupnpd_sdn.Redirect.Reload.Leases.{Written}
use miniupnpd_sdn.Redirect.Sweep.{get_upnp_rules_state_list}
use miniupnpd_sdn.Redirect.Sweep.Unexpired.{states, get_upnp_rules_state_list-unexpired}

abbrev a_rule : ℕ → ℕ → Rule
a_rule eport timestamp = record {
  eport = eport;
  proto = 17;
  iaddr = codes "10.0.0.5";
  iport = 5000;
  desc = codes "x";
  rhost = [];
  timestamp = timestamp;
  packets = 0;
  bytes = 0;
}

abbrev three : List Rule
three = a_rule 80 900 ∷ a_rule 81 0 ∷ a_rule 82 1500 ∷ []

get_upnp_rules_state_list-unexpired_example :
    (g' : Globals in_list) × (get_upnp_rules_state_list in_list an_env
        (λ k. true)
        4
        (with_rules three)
        1
      ≡ some (states 1000 (a_rule 82 1500 ∷ a_rule 81 0 ∷ []), g'))
    × (g'.firewall ≡ a_rule 81 0 ∷ a_rule 82 1500 ∷ [])
    × (g'.nextruletoclean_timestamp ≡ 1500)
get_upnp_rules_state_list-unexpired_example =
    get_upnp_rules_state_list-unexpired in_list in_list-laws an_env (λ k. true) (with_rules three) 4
      1 (λ k. refl) (λ s eport proto r h k. (refl, refl))
      ((refl, (refl, tt)), ((refl, tt), (tt, tt))) (omega arith)

abbrev two_lines : List Bytes
two_lines = codes "UDP:80:10.0.0.5:5000:0:x" ∷ codes "UDP:8080:10.0.0.6:5000:0:y" ∷ []

-- The removal for port 80 takes the lease of port 8080 too.
lease_file_remove-lines_example :
    lease_file_remove an_env 80 17 (some (file_of two_lines)) ≡ some (pos 0, some [])
unfolding lease_prefix proto_itoa decimal
lease_file_remove-lines_example = lease_file_remove-lines an_env 80 17 two_lines refl refl refl (
  (record { one_line = ground arith; no_nul = ground arith; fits = omega arith }),
  ((record { one_line = ground arith; no_nul = ground arith; fits = omega arith }), tt),
)

-- A lease with this end, whose line is not too long.
sample-IsLease :
    (timestamp : ℕ)
    → timestamp < 2 ^ 32
    → length (lease_line 6 80 (codes "10.0.0.5") 5000 timestamp (codes "a b")) ≤ 127
    → IsLease 6 80 (codes "10.0.0.5") 5000 timestamp b'a' (codes " b")
sample-IsLease timestamp h fits = record {
  eport_fits = omega arith;
  iport_fits = omega arith;
  timestamp_fits = h;
  no_colon = ground arith;
  address_line = ground arith;
  address_string = ground arith;
  first_solid = refl;
  last_solid = refl;
  desc_line = ground arith;
  desc_string = ground arith;
  fits = fits;
}

lease_fits : length (lease_line 6 80 (codes "10.0.0.5") 5000 7 (codes "a b")) ≤ 127
unfolding lease_line proto_itoa decimal
lease_fits = omega arith

later_fits : length (lease_line 6 80 (codes "10.0.0.5") 5000 1_600_000_060 (codes "a b")) ≤ 127
unfolding lease_line proto_itoa decimal
later_fits = omega arith

abbrev written :
    (timestamp : ℕ) → IsLease 6 80 (codes "10.0.0.5") 5000 timestamp b'a' (codes " b") → Written
written timestamp h = record {
  proto = 6;
  eport = 80;
  iaddr = codes "10.0.0.5";
  iport = 5000;
  timestamp = timestamp;
  first = b'a';
  others = codes " b";
  is_lease = h;
}

-- One that is over, and one with a minute left.
abbrev two_leases : List Written
two_leases =
    written 7 (sample-IsLease 7 (omega arith) lease_fits)
    ∷ written 1_600_000_060 (sample-IsLease 1_600_000_060 (omega arith) later_fits)
    ∷ []

read_lease_line-lease_line_example :
    (fgets_from 127 (lease_line 6 80 (codes "10.0.0.5") 5000 7 (codes "a b") ++ codes "TCP")
      ≡ (lease_line 6 80 (codes "10.0.0.5") 5000 7 (codes "a b"), codes "TCP"))
    × (read_lease_line [] (c_string (lease_line 6 80 (codes "10.0.0.5") 5000 7 (codes "a b")))
        ≡ lease (record {
          proto = proto_itoa 6;
          eport = 80;
          iaddr = codes "10.0.0.5";
          iport = 5000;
          timestamp = 7;
          desc = codes "a b";
        }))
read_lease_line-lease_line_example =
    read_lease_line-lease_line 6 80 (codes "10.0.0.5") 5000 7 b'a' (codes " b") [] (codes "TCP")
      (sample-IsLease 7 (omega arith) lease_fits)

upnp_redirect-IsDecided_example :
    (z : ℤ) × (g' : Globals in_list) × (upnp_redirect in_list a_config an_env
        (with_rules three)
        none
        80
        (codes "10.0.0.9")
        5000
        (codes "UDP")
        none
        60
      ≡ some (z, g'))
    × IsDecided in_list in_list-laws a_config an_env
        (with_rules three)
        none
        80
        (codes "10.0.0.9")
        5000
        (codes "UDP")
        []
        60
        z
        g'
upnp_redirect-IsDecided_example =
    upnp_redirect-IsDecided in_list in_list-laws a_config an_env (with_rules three) none 80
      (codes "10.0.0.9") 5000 (codes "UDP") none 60

abbrev any_host : Option Bytes
any_host = some (codes "*")

-- It is listed with an empty remote host.
abbrev after_redirect : Globals in_list
after_redirect = record {
  firewall =
      three ++ (stored (new_rule in_list any_host 90 (codes "10.0.0.9") 5000 17 [] 1060) ∷ []);
  lease_file = some (lease_line 17 90 (codes "10.0.0.9") 5000 1_600_000_060 []);
  nextruletoclean_timestamp = 1060;
  notified = 1;
}

upnp_redirect_90 :
    upnp_redirect in_list a_config an_env
      (with_rules three)
      any_host
      90
      (codes "10.0.0.9")
      5000
      (codes "UDP")
      none
      60
    ≡ some (pos 0, after_redirect)
unfolding upnp_redirect redirect_from redirect_over upnp_redirect_internal
    check_upnp_rule_against_permissions proto_atoi lease_file_add
upnp_redirect_90 = refl

upnp_get_redirection_infos-upnp_redirect_example :
    (l : Rule) × (k : ℕ) × (upnp_get_redirection_infos in_list an_env after_redirect 90
        (codes "UDP")
      ≡ some (l, k))
    × IsListed (new_rule in_list any_host 90 (codes "10.0.0.9") 5000 17 [] 1060) l
    × ((k ≡ 60) ⊎ ((l.timestamp ≡ 0) × (k ≡ 0)))
unfolding proto_atoi check_upnp_rule_against_permissions
upnp_get_redirection_infos-upnp_redirect_example =
    upnp_get_redirection_infos-upnp_redirect in_list in_list-laws a_config an_env (with_rules three)
      after_redirect any_host 90 (codes "10.0.0.9") 5000 (codes "UDP") none 60 5 refl refl refl
      (omega arith) upnp_redirect_90
