-- ===== src/Permissions/Tests.antt =====
-- Runs of the permission code, and its theorems at concrete rules.
use miniupnpd_sdn.Base.{
  ℕ, ◌-◌, ◌*◌, ◌≡◌, refl, true, false, [], ◌∷◌, ◌++◌, Option, some, Bytes, codes, arith,
}
use miniupnpd_sdn.Permissions.{
  allow, deny, UpnpPerm, match_permission, check_upnp_rule_against_permissions,
  get_permitted_ext_ports, port_bit,
}
use miniupnpd_sdn.Permissions.Bitmap.{get_permitted_ext_ports-check}
use miniupnpd_sdn.Permissions.Line.{
  done, fault, read_permission_line, skip_spaces, is_space, is_digit, read_type, after_word,
  read_ports, port_value, atoi, span, read_address, read_mask, prefix_mask,
}
use miniupnpd_sdn.Permissions.Line.Sound.{IsOrdered, read_permission_line-IsOrdered}
use miniupnpd_sdn.Permissions.Line.Parts.{IsPort, IsPorts, range, IsMasked, with_bits}
use miniupnpd_sdn.Permissions.Line.Print.{
  IsLine, read_permission_line-IsLine, read_permission_line_short,
}

abbrev pub only_lan : Bytes → Option ℕ
only_lan s = some 0xc0a80300

-- upnppermissions.h: "allow 1024-65535 192.168.3.0/24 1024-65535" and the rule behind it.
abbrev pub lan_rule : UpnpPerm
lan_rule = record {
  type = allow;
  eport_min = 1024;
  eport_max = 65535;
  address = 0xc0a80300;
  mask = 0xffff_ff00;
  iport_min = 1024;
  iport_max = 65535;
}

abbrev pub lan_text : Bytes
lan_text = codes "allow 1024-65535 192.168.3.0/24 1024-65535"

abbrev lan_line : Bytes
lan_line = lan_text ++ 0 ∷ []

abbrev deny_all : UpnpPerm
deny_all = record {
  type = deny;
  eport_min = 0;
  eport_max = 65535;
  address = 0;
  mask = 0;
  iport_min = 0;
  iport_max = 65535;
}

read_lan_line : read_permission_line only_lan lan_line ≡ done lan_rule
unfolding read_permission_line skip_spaces is_space is_digit read_type after_word read_ports
    port_value atoi span read_address read_mask prefix_mask
read_lan_line = refl

read_permission_line-IsOrdered_example : IsOrdered lan_rule
read_permission_line-IsOrdered_example =
    read_permission_line-IsOrdered only_lan lan_line read_lan_line

low-IsPort : IsPort b'1' (codes "024") 1024
unfolding is_digit
low-IsPort = record {
  first = refl;
  others = (refl, (refl, (refl, tt)));
  value = refl;
  fits = omega arith;
}

high-IsPort : IsPort b'6' (codes "5535") 65535
unfolding is_digit
high-IsPort = record {
  first = refl;
  others = (refl, (refl, (refl, (refl, tt))));
  value = refl;
  fits = omega arith;
}

lan-IsPorts : IsPorts b'1' (codes "024-65535") 1024 65535
lan-IsPorts =
    range (codes "024") b'6' (codes "5535") 1024 65535 low-IsPort high-IsPort (omega arith)

lan-IsMasked : IsMasked only_lan b'1' (codes "92.168.3.0/24") lan_rule.address lan_rule.mask
unfolding is_digit
lan-IsMasked =
    with_bits (codes "92.168.3.0") b'2' (codes "4") lan_rule.address 24
      (record {
        first = refl;
        others = (refl, (refl, (refl, (refl, (refl, (refl, (refl, (refl, (refl, (refl, tt))))))))));
        value = refl;
      })
      (record { first = refl; others = (refl, tt); value = refl; fits = omega arith })

pub lan-IsLine : IsLine only_lan lan_text lan_rule
unfolding is_space
lan-IsLine = record {
  gap0 = [];
  e = b'1';
  eports = codes "024-65535";
  s1 = b' ';
  gap1 = [];
  a = b'1';
  addr = codes "92.168.3.0/24";
  s2 = b' ';
  gap2 = [];
  i = b'1';
  iports = codes "024-65535";
  gap0_spaces = tt;
  is_eports = lan-IsPorts;
  s1_space = refl;
  gap1_spaces = tt;
  is_address = lan-IsMasked;
  s2_space = refl;
  gap2_spaces = tt;
  is_iports = lan-IsPorts;
  text_is = refl;
}

read_permission_line-IsLine_example : read_permission_line only_lan lan_line ≡ done lan_rule
read_permission_line-IsLine_example =
    read_permission_line-IsLine only_lan lan_text [] lan_rule lan-IsLine

-- A multiple of ten.
ten : (d : ℕ) → is_digit d ≡ true → IsPort d (codes "0") ((d - b'0') * 10)
unfolding is_digit
ten d h = record { first = h; others = (refl, tt); value = omega arith; fits = ground arith }

read_permission_line_short_example :
    read_permission_line only_lan (codes "deny 10-20" ++ 0 ∷ []) ≡ fault
unfolding is_digit
read_permission_line_short_example =
    read_permission_line_short only_lan deny b'1' b'2' (codes "0") (codes "0") 10 20 (ten b'1' refl)
      (ten b'2' refl) (omega arith)

-- Port 80 is refused and port 8080 permitted to a client of the network, as the bitmap has it.
get_permitted_ext_ports-check_example :
    port_bit (get_permitted_ext_ports (lan_rule ∷ deny_all ∷ []) 0xc0a80305 2000) 8080
    ≡ check_upnp_rule_against_permissions (lan_rule ∷ deny_all ∷ []) 8080 0xc0a80305 2000
get_permitted_ext_ports-check_example =
    get_permitted_ext_ports-check (lan_rule ∷ deny_all ∷ []) 0xc0a80305 2000 8080
      (
        record { eport_max-lt = omega arith; iport_max-lt = omega arith },
        (record { eport_max-lt = omega arith; iport_max-lt = omega arith }, tt),
      )
      (omega arith)

check_runs :
    (check_upnp_rule_against_permissions (lan_rule ∷ deny_all ∷ []) 8080 0xc0a80305 2000 ≡ true)
    × (check_upnp_rule_against_permissions (lan_rule ∷ deny_all ∷ []) 80 0xc0a80305 2000 ≡ false)
unfolding check_upnp_rule_against_permissions match_permission
check_runs = (refl, refl)
