-- ===== src/Permissions.antt =====
-- miniupnpd/upnppermissions.c and .h: the rules that say which port mappings a client may ask for.
-- A `u_short` is a number; `u_short` fields are below 2 ^ 16 by `IsRule`. An `in_addr_t` is the
-- number that its four bytes spell in network order, so `htonl` and `ntohl` are the identity.
pub mod Bitmap
pub mod Line
pub mod Tests
use Prim.Native.Nat.{bit_and, bit_or}
use miniupnpd_sdn.Base.{
  ℕ, zero, suc, ◌+◌, ◌/◌, ◌%◌, ◌^◌, ◌<◌, Bool, true, false, not, ◌&&◌, ◌||◌, List, [], ◌∷◌, ltb,
  leb, ◌==◌, if◌then◌else◌, get_or, set, replicate,
}
use miniupnpd_sdn.Base.Bits.{complement, test_bit}

pub data PermType : Type 0 where
  allow deny : PermType

pub record UpnpPerm : Type 0 where
  pub type : PermType
  pub eport_min : ℕ
  pub eport_max : ℕ
  pub address : ℕ
  pub mask : ℕ
  pub iport_min : ℕ
  pub iport_max : ℕ

-- `perm->type == UPNPPERM_ALLOW`
abbrev pub is_allow : PermType → Bool
is_allow allow = true
is_allow deny = false

-- The fields fit a `u_short`.
pub record IsRule (perm : UpnpPerm) : Type 0 where
  pub eport_max-lt : perm.eport_max < 2 ^ 16
  pub iport_max-lt : perm.iport_max < 2 ^ 16

abbrev pub AllRules : List UpnpPerm → Type 0
AllRules [] = Unit {0}
AllRules (p ∷ ps) = IsRule p × AllRules ps

unfoldable pub match_permission : UpnpPerm → ℕ → ℕ → ℕ → Bool
match_permission perm eport address iport =
    if ltb eport perm.eport_min || ltb perm.eport_max eport
    then false
    else if ltb iport perm.iport_min || ltb perm.iport_max iport
    then false
    else if not (bit_and address perm.mask == bit_and perm.address perm.mask)
    then false
    else true

unfoldable pub check_upnp_rule_against_permissions : List UpnpPerm → ℕ → ℕ → ℕ → Bool
check_upnp_rule_against_permissions [] eport address iport = true
check_upnp_rule_against_permissions (perm ∷ permary) eport address iport =
    if match_permission perm eport address iport
    then is_allow perm.type
    else check_upnp_rule_against_permissions permary eport address iport

-- One bit of the array of allowed ports.
unfoldable pub write_port : PermType → List ℕ → ℕ → List ℕ
write_port allow allowed j =
    set allowed (j / 32) (bit_or (get_or allowed (j / 32) 0) (2 ^ (j % 32)))
write_port deny allowed j =
    set allowed (j / 32) (bit_and (get_or allowed (j / 32) 0) (complement 32 (2 ^ (j % 32))))

-- The inner `do … while ((j % 32) != 0 && j <= eport_max)`, with the rounds left in its word.
unfoldable pub write_ports : ℕ → PermType → ℕ → List ℕ → ℕ → List ℕ × ℕ
write_ports zero type last allowed j = (allowed, j)
write_ports (suc fuel) type last allowed j =
    let rest = write_ports fuel type last (write_port type allowed j) (j + 1) in
    if not ((j + 1) % 32 == 0) && leb (j + 1) last then rest else (write_port type allowed j, j + 1)

abbrev pub full_word : PermType → ℕ
full_word allow = 0xffff_ffff
full_word deny = 0

-- `for (j = eport_min; j <= eport_max; )`, with fuel for the ports left.
unfoldable pub write_range : ℕ → PermType → ℕ → List ℕ → ℕ → List ℕ
write_range zero type last allowed j = allowed
write_range (suc fuel) type last allowed j =
    let word = write_range fuel type last (set allowed (j / 32) (full_word type)) (j + 32) in
    let (allowed', j') = write_ports 32 type last allowed j in
    let bits = write_range fuel type last allowed' j' in
    if leb j last then (if j % 32 == 0 && leb (j + 31) last then word else bits) else allowed

-- One round of `for (i = n_perms - 1; i >= 0; i--)`.
unfoldable pub write_rule : UpnpPerm → ℕ → ℕ → List ℕ → List ℕ
write_rule perm addr iport allowed =
    if not (bit_and addr perm.mask == bit_and perm.address perm.mask)
    then allowed
    else if ltb iport perm.iport_min || ltb perm.iport_max iport
    then allowed
    else write_range (2 ^ 16 + 1) perm.type perm.eport_max allowed perm.eport_min

-- The array that the function fills: 65536 bits in words of 32. The last rule is written first.
unfoldable pub get_permitted_ext_ports : List UpnpPerm → ℕ → ℕ → List ℕ
get_permitted_ext_ports [] addr iport = replicate 2048 0xffff_ffff
get_permitted_ext_ports (perm ∷ permary) addr iport =
    write_rule perm addr iport (get_permitted_ext_ports permary addr iport)

-- How the callers read the array.
abbrev pub port_bit : List ℕ → ℕ → Bool
port_bit allowed j = test_bit (get_or allowed (j / 32) 0) (j % 32)
