-- ===== src/Pcp/Validate.antt =====
-- miniupnpd/pcpserver.c: CheckExternalAddress and ValidatePCPMsg.
use miniupnpd_sdn.Base.{
  ℕ, ◌+◌, ◌-◌, ◌/◌, ◌%◌, ltb, get_or, Bool, true, false, not, ◌&&◌, ◌||◌, [], ◌∷◌, ◌++◌, Option,
  none, some, Bytes, codes, ◌==◌, if◌then◌else◌, take, drop, replicate, bytes_eq,
}
use miniupnpd_sdn.Pcp.{
  PcpInfo, Settings, with_result, pcp_err_malformed_request, pcp_err_unsupp_option,
  pcp_err_malformed_option, pcp_err_network_failure, pcp_err_cannot_provide_external,
  pcp_err_address_mismatch,
}

-- `::ffff:0:0/96`
abbrev pub v4_prefix : Bytes
v4_prefix = replicate 10 0 ++ (255 ∷ 255 ∷ [])

abbrev pub is_v4mapped : Bytes → Bool
is_v4mapped ip = bytes_eq (take 12 ip) v4_prefix

-- The unspecified address of either family.
abbrev pub is_unspecified : Bytes → Bool
is_unspecified ip =
    bytes_eq ip (replicate 16 0) || is_v4mapped ip && bytes_eq (drop 12 ip) (replicate 4 0)

abbrev pub no_address : Option Bytes → Bool
no_address none = true
no_address (some ip) = is_unspecified ip

-- The address of the settings, of the one family or the other.
abbrev pub from_setting : Option Bytes → Option Bytes → Option Bytes
from_setting (some ip) six = some (v4_prefix ++ ip)
from_setting none six = six

abbrev pub interface_ip : Settings → Option Bytes → Option Bytes
interface_ip cfg none = none
interface_ip cfg (some []) = none
interface_ip cfg (some (c ∷ name)) = cfg.getifaddr_in6 (c ∷ name) false

-- The external address of an IPv4 mapping; the branch for AF_INET6 is not reached.
abbrev pub nat_address : Settings → Option Bytes → Option Bytes
nat_address cfg none = interface_ip cfg cfg.ext_if_name
nat_address cfg (some text) = from_setting (cfg.inet_pton_4 text) (cfg.inet_pton_6 text)

abbrev pub external_address : Settings → PcpInfo → Option Bytes
external_address cfg info =
    if is_v4mapped info.mapped_ip then nat_address cfg cfg.use_ext_ip_addr else some info.mapped_ip

abbrev pub is_suggested : Option Bytes → Bytes → Bool
is_suggested none external = false
is_suggested (some ip) external = bytes_eq ip external

-- Whether the check is OK.
abbrev pub check_suggested : PcpInfo → Option Bytes → Bool × PcpInfo
check_suggested info none = (false, with_result pcp_err_network_failure info)
check_suggested info (some external) =
    if no_address info.ext_ip
    then (true, record info { ext_ip = some external })
    else if is_suggested info.ext_ip external
    then (true, info)
    else if info.pfailure_present
    then (false, with_result pcp_err_cannot_provide_external info)
    else (true, record info { ext_ip = some external })

unfoldable pub check_external_address : Settings → PcpInfo → Bool × PcpInfo
check_external_address cfg info =
    check_suggested (record info { is_fw = not (is_v4mapped info.mapped_ip) })
      (external_address cfg info)

abbrev pub hex_digit : ℕ → ℕ
hex_digit n = if ltb n 10 then b'0' + n else b'a' + (n - 10)

abbrev pub hex_byte : ℕ → Bytes
hex_byte b = hex_digit (b / 16) ∷ (hex_digit (b % 16) ∷ [])

-- "%08x" of the word at an offset, on a little-endian machine.
abbrev pub hex_word : Bytes → ℕ → Bytes
hex_word nonce i =
    hex_byte (get_or nonce (i + 3) 0)
    ++ (hex_byte (get_or nonce (i + 2) 0)
        ++ (hex_byte (get_or nonce (i + 1) 0) ++ hex_byte (get_or nonce i 0)))

abbrev pub get_pcp_op_code_str : ℕ → Bytes
get_pcp_op_code_str opcode =
    if opcode == 0
    then codes "ANNOUNCE"
    else if opcode == 1
    then codes "MAP"
    else if opcode == 2
    then codes "PEER"
    else codes "UNKNOWN"

-- "PCP %s %08x%08x%08x"
abbrev pub describe : PcpInfo → Bytes
describe info =
    codes "PCP "
    ++ (get_pcp_op_code_str info.opcode
        ++ (b' ' ∷ (hex_word info.nonce 0 ++ (hex_word info.nonce 4 ++ hex_word info.nonce 8))))

abbrev pub is_third_party : Option Bytes → Bytes → Bool
is_third_party none ip = false
is_third_party (some third) ip = bytes_eq third ip

abbrev pub has_third_party : Option Bytes → Bool
has_third_party none = false
has_third_party (some third) = true

-- The switch of the end: MAP and PEER have a description.
abbrev pub set_desc : PcpInfo → PcpInfo
set_desc info =
    if info.opcode == 1 || info.opcode == 2 then record info { desc = describe info } else info

abbrev pub finish : Bool × PcpInfo → Bool × PcpInfo
finish (ok, info) = (ok, if ok then set_desc info else info)

abbrev pub refuse : ℕ → PcpInfo → Bool × PcpInfo
refuse code info = (false, with_result code info)

-- Whether the message is valid.
unfoldable pub validate_pcp_msg : Settings → PcpInfo → Bool × PcpInfo
validate_pcp_msg cfg info =
    let info' = record info { mapped_str = cfg.inet_n46top info.mapped_ip } in
    if not (info.result_code == 0)
    then (false, info)
    else if not (bytes_eq info.int_ip info.sender_ip)
    then refuse pcp_err_address_mismatch info
    else if has_third_party info.thirdp_ip && not cfg.allow_third_party
    then refuse pcp_err_unsupp_option info
    else if is_third_party info.thirdp_ip info.sender_ip
    then refuse pcp_err_malformed_request info
    else if info.protocol == 0 && not (info.int_port == 0)
    then refuse pcp_err_malformed_request info'
    else if info.pfailure_present && (no_address info.ext_ip && info.ext_port == 0)
    then refuse pcp_err_malformed_option info'
    else finish (check_external_address cfg info')
