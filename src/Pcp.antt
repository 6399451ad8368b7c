-- ===== src/Pcp.antt =====
-- miniupnpd/pcpserver.c, in the build without PCP_PEER, PCP_SADSCP, PCP_FLOWP, ENABLE_UPNPPINHOLE and
-- CHECK_PORTINUSE: the information that is taken from a request. The packet is the list of its bytes,
-- an address its 16 bytes, and a result none is a read outside the packet.
pub mod Options
pub mod Validate
pub mod Map
pub mod Search
pub mod Preferred
pub mod Packet
mod Tests
use miniupnpd_sdn.Base.{
  ℕ, zero, suc, ◌+◌, ◌-◌, ◌%◌, ◌^◌, Bool, true, false, not, ◌&&◌, ◌||◌, List, [], ◌∷◌, ◌++◌, Option,
  none, some, Bytes, ltb, leb, ◌==◌, if◌then◌else◌, length, take, drop, get_elem?, replicate,
  bytes_eq,
}
use miniupnpd_sdn.Base.Options.{◌>>=◌}
use miniupnpd_sdn.NatPmp.{readnu16, readnu32}

-- `pcp_info_t`; the pointers into the packet are the addresses that they point at.
pub record PcpInfo : Type 0 where
  pub version : ℕ
  pub opcode : ℕ
  pub result_code : ℕ
  pub lifetime : ℕ
  pub nonce : Bytes
  pub protocol : ℕ
  pub int_port : ℕ
  pub int_ip : Bytes
  pub ext_port : ℕ
  pub ext_ip : Option Bytes
  pub thirdp_ip : Option Bytes
  pub mapped_ip : Bytes
  pub mapped_str : Bytes
  pub pfailure_present : Bool
  pub sender_ip : Bytes
  pub is_fw : Bool
  pub desc : Bytes

abbrev pub pcp_success : ℕ
pcp_success = 0

abbrev pub pcp_err_unsupp_version : ℕ
pcp_err_unsupp_version = 1

abbrev pub pcp_err_not_authorized : ℕ
pcp_err_not_authorized = 2

abbrev pub pcp_err_malformed_request : ℕ
pcp_err_malformed_request = 3

abbrev pub pcp_err_unsupp_opcode : ℕ
pcp_err_unsupp_opcode = 4

abbrev pub pcp_err_unsupp_option : ℕ
pcp_err_unsupp_option = 5

abbrev pub pcp_err_malformed_option : ℕ
pcp_err_malformed_option = 6

abbrev pub pcp_err_network_failure : ℕ
pcp_err_network_failure = 7

abbrev pub pcp_err_no_resources : ℕ
pcp_err_no_resources = 8

abbrev pub pcp_err_cannot_provide_external : ℕ
pcp_err_cannot_provide_external = 11

abbrev pub pcp_err_address_mismatch : ℕ
pcp_err_address_mismatch = 12

abbrev pub with_result : ℕ → PcpInfo → PcpInfo
with_result code info = record info { result_code = code }

-- `READNU16(buf + i)`, `READNU32(buf + i)`, and the bytes that a pointer points at.
abbrev pub read_16 : Bytes → ℕ → Option ℕ
read_16 buf i = (do a ← get_elem? buf i; b ← get_elem? buf (i + 1); some (readnu16 a b))

abbrev pub read_32 : Bytes → ℕ → Option ℕ
read_32 buf i = (do
  a ← get_elem? buf i
  b ← get_elem? buf (i + 1)
  c ← get_elem? buf (i + 2)
  d ← get_elem? buf (i + 3)
  some (readnu32 a b c d))

abbrev pub read_bytes : ℕ → Bytes → ℕ → Option Bytes
read_bytes n buf i = if leb (i + n) (length buf) then some (take n (drop i buf)) else none

-- The settings and what the C library and the system answer: `inet_pton` for the two families,
-- `getifaddr_in6` for an interface and whether the family is AF_INET6, and the text of an address
-- (inet_n46top, into an array that is large enough).
pub record Settings : Type 0 where
  pub max_lifetime : ℕ
  pub min_lifetime : ℕ
  pub allow_third_party : Bool
  pub use_ext_ip_addr : Option Bytes
  pub ext_if_name : Option Bytes
  pub inet_pton_4 : Bytes → Option Bytes
  pub inet_pton_6 : Bytes → Option Bytes
  pub getifaddr_in6 : Bytes → Bool → Option Bytes
  pub inet_n46top : Bytes → Bytes
  pub startup_time : ℕ

abbrev pub server_version : ℕ
server_version = 2

-- The two bounds, the upper one first.
abbrev pub bound_lifetime : Settings → ℕ → ℕ
bound_lifetime cfg lifetime =
    let t = if ltb cfg.max_lifetime lifetime then cfg.max_lifetime else lifetime in
    if ltb t cfg.min_lifetime && not (t == 0) then cfg.min_lifetime else t

-- Whether there was a problem, and the information.
unfoldable pub parse_common_request_header : Settings → Bytes → PcpInfo → Option (Bool × PcpInfo)
parse_common_request_header cfg req info = (do
  version ← get_elem? req 0
  op ← get_elem? req 1
  lifetime ← read_32 req 4
  ip ← read_bytes 16 req 8
  let info' = record info {
    version = version;
    opcode = op % 128;
    lifetime = lifetime;
    int_ip = ip;
    mapped_ip = ip;
  }
  some (
      if ltb server_version version
      then (true, with_result pcp_err_unsupp_version info')
      else (false, record info' { lifetime = bound_lifetime cfg lifetime })))

unfoldable pub parse_pcpmap_version1 : Bytes → PcpInfo → Option PcpInfo
parse_pcpmap_version1 buf info = (do
  protocol ← get_elem? buf 0
  int_port ← read_16 buf 4
  ext_port ← read_16 buf 6
  ip ← read_bytes 16 buf 8
  some (record info {
    protocol = protocol;
    int_port = int_port;
    ext_port = ext_port;
    ext_ip = some ip;
  }))

unfoldable pub parse_pcpmap_version2 : Bytes → PcpInfo → Option PcpInfo
parse_pcpmap_version2 buf info = (do
  nonce ← read_bytes 12 buf 0
  protocol ← get_elem? buf 12
  int_port ← read_16 buf 16
  ext_port ← read_16 buf 18
  ip ← read_bytes 16 buf 20
  some (record info {
    nonce = nonce;
    protocol = protocol;
    int_port = int_port;
    ext_port = ext_port;
    ext_ip = some ip;
  }))
