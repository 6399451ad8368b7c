-- ===== src/Pcp/Packet.antt =====
-- miniupnpd/pcpserver.c: processPCPRequest, createPCPResponse and ProcessIncomingPCPPacket. `buff` is the array
-- of PCP_MAX_LEN bytes, the packet in front.
pub mod Total
pub mod Answered
use miniupnpd_sdn.Base.{
  ℕ, zero, suc, ◌+◌, ◌-◌, ◌*◌, ◌/◌, ◌%◌, ◌^◌, Bool, true, false, not, ◌&&◌, ◌||◌, List, [], ◌∷◌,
  ◌++◌, Option, none, some, Bytes, ltb, leb, ◌==◌, if◌then◌else◌, length, take, drop, get_or,
  replicate,
}
use miniupnpd_sdn.Base.Options.{◌>>=◌}
use miniupnpd_sdn.Redirect.LeaseFile.{Env}
use miniupnpd_sdn.Redirect.Firewall.{Firewall}
use miniupnpd_sdn.Redirect.Facade.{Config, Globals}
use miniupnpd_sdn.NatPmp.{writenu16, writenu32, write_at, since_epoch}
use miniupnpd_sdn.Pcp.{
  PcpInfo, Settings, with_result, parse_common_request_header, parse_pcpmap_version1,
  parse_pcpmap_version2, server_version, pcp_success, pcp_err_unsupp_version,
  pcp_err_malformed_request, pcp_err_unsupp_opcode, pcp_err_network_failure, pcp_err_no_resources,
}
use miniupnpd_sdn.Pcp.Options.{parse_pcp_options}
use miniupnpd_sdn.Pcp.Validate.{validate_pcp_msg, v4_prefix}
use miniupnpd_sdn.Pcp.Map.{create_pcpmap, delete_pcpmap}

-- `memset(&pcp_msg_info, 0, sizeof(pcp_info_t));`, and the sender.
abbrev pub start_info : Bytes → PcpInfo
start_info sender = record {
  version = 0;
  opcode = 0;
  result_code = pcp_success;
  lifetime = 0;
  nonce = replicate 12 0;
  protocol = 0;
  int_port = 0;
  int_ip = [];
  ext_port = 0;
  ext_ip = none;
  thirdp_ip = none;
  mapped_ip = [];
  mapped_str = [];
  pfailure_present = false;
  sender_ip = sender;
  is_fw = false;
  desc = [];
}

module _ (fw : Firewall) (cfg : Config) (pcp : Settings) (env : Env) where
  -- Whether a response is sent, the information for it and the variables.
  abbrev pub Processed : Type 0
  Processed = Bool × PcpInfo × Globals fw

  abbrev pub with_created : PcpInfo → ℕ × ℕ × Globals fw → Processed
  with_created info (code, eport, g) =
      (true, record info { result_code = code; ext_port = eport }, g)

  abbrev pub with_removed : PcpInfo → ℕ × Globals fw → Processed
  with_removed info (code, g) = (true, with_result code info, g)

  -- A MAP request that is valid. `rules` is the fuel for the removal.
  abbrev pub map_valid : ℕ → PcpInfo → Globals fw → Option Processed
  map_valid rules info g =
      let deletion = (do r ← delete_pcpmap fw cfg env info rules g; some (with_removed info r)) in
      let creation = (do r ← create_pcpmap fw cfg env info 65536 g; some (with_created info r)) in
      if info.lifetime == 0 then deletion else creation

  abbrev pub map_checked : ℕ → Globals fw → Bool × PcpInfo → Option Processed
  map_checked rules g (ok, info) =
      let mapped = map_valid rules info g in
      if ok then mapped else some (not (info.result_code == 0), info, g)

  -- From behind the common header, with the size of the MAP information in the version.
  abbrev pub map_request : ℕ → ℕ → Bytes → Globals fw → PcpInfo → Option PcpInfo → Option Processed
  map_request size rules req g info parsed =
      let options = (do
        info' ← parsed
        info'' ← parse_pcp_options (length req) (drop size req) (length req - size) info'
        map_checked rules g (validate_pcp_msg pcp info'')) in
      if ltb (length req) size
      then some (true, with_result pcp_err_malformed_request info, g)
      else options

  abbrev pub by_version : ℕ → Bytes → Globals fw → PcpInfo → Option Processed
  by_version rules req g info =
      let first = map_request 24 rules req g info (parse_pcpmap_version1 req info) in
      let second = map_request 36 rules req g info (parse_pcpmap_version2 req info) in
      let no_opcode = some (true, with_result pcp_err_unsupp_opcode info, g) in
      if info.version == 1
      then (if info.opcode == 1 then first else no_opcode)
      else if info.version == 2
      then (if info.opcode == 0
          then some (true, info, g)
          else if info.opcode == 1
          then second
          else no_opcode)
      else some (true, with_result pcp_err_unsupp_version info, g)

  abbrev pub after_header : ℕ → Bytes → Globals fw → Bool × PcpInfo → Option Processed
  after_header rules req g (failed, info) =
      let rest = by_version rules (drop 24 req) g info in
      if failed then some (true, info, g) else rest

  unfoldable pub process_pcp_request : ℕ → Bytes → PcpInfo → Globals fw → Option Processed
  process_pcp_request rules req info g =
      let parsed = (do r ← parse_common_request_header pcp req info; after_header rules req g r) in
      if ltb (length req) 3
      then some (false, info, g)
      else if ltb (length req) 24
      then some (true, with_result pcp_err_malformed_request info, g)
      else if ltb 1100 (length req) || not (length req % 4 == 0)
      then some (true, with_result pcp_err_malformed_request info, g)
      else parsed

-- Long lifetime errors have the lifetime 0, short ones 30 seconds.
abbrev pub response_lifetime : PcpInfo → ℕ
response_lifetime info =
    let code = info.result_code in
    if code == 7 || (code == 8 || code == 10)
    then 30
    else if leb 1 code && leb code 13
    then 0
    else info.lifetime

abbrev pub write_ip : ℕ → Option Bytes → Bytes → Bytes
write_ip i none buff = buff
write_ip i (some ip) buff = write_at i ip buff

abbrev pub write_mapping : ℕ → PcpInfo → Bytes → Bytes
write_mapping i info buff =
    write_ip (i + 4) info.ext_ip
      (write_at (i + 2) (writenu16 info.ext_port) (write_at i (writenu16 info.int_port) buff))

abbrev pub response_version : PcpInfo → ℕ
response_version info =
    if info.result_code == pcp_err_unsupp_version then server_version else info.version

-- With the epoch that the other answers of the server count from.
unfoldable pub create_pcp_response : Env → ℕ → PcpInfo → Bytes → Bytes
create_pcp_response env epoch_origin info buff =
    let header =
      response_version info
      ∷ ((128 + info.opcode)
          ∷ (0
              ∷ (info.result_code
                  ∷ (writenu32 (response_lifetime info)
                      ++ (writenu32 (since_epoch env epoch_origin) ++ replicate 12 0))))) in
    let response = write_at 0 header buff in
    if info.opcode == 1
    then (if response_version info == 1
        then write_mapping 28 info response
        else if response_version info == 2
        then write_mapping 40 info response
        else response)
    else response

-- `len` of the response: 24 at least, and rounded up to a multiple of 4.
abbrev pub response_length : ℕ → ℕ
response_length len = if ltb len 24 then 24 else (len + 3) / 4 * 4

module _ (fw : Firewall) (cfg : Config) (pcp : Settings) (env : Env) where
  -- What is sent, the epoch and the variables.
  abbrev pub Sent : Type 0
  Sent = Option Bytes × ℕ × Globals fw

  abbrev pub respond : ℕ → ℕ → Bytes → Processed fw cfg pcp env → Sent
  respond len epoch_origin buff (answered, info, g) =
      let epoch = if epoch_origin == 0 then pcp.startup_time else epoch_origin in
      if answered
      then (some (take (response_length len) (create_pcp_response env epoch info buff)), epoch, g)
      else (none, epoch_origin, g)

  -- The sender is his address, and whether it is one of a LAN (get_lan_for_peer).
  unfoldable pub process_incoming_pcp_packet :
      ℕ → Bytes → ℕ → Bytes → Bool → ℕ → Globals fw → Option Sent
  process_incoming_pcp_packet rules buff len sender is_lan epoch_origin g =
      let processed = (do
        r ← process_pcp_request fw cfg pcp env rules (take len buff) (start_info sender) g
        some (respond len epoch_origin buff r)) in
      if leb 128 (get_or buff 1 0)
      then some (none, epoch_origin, g)
      else if not pcp.allow_third_party && not is_lan
      then some (none, epoch_origin, g)
      else processed
