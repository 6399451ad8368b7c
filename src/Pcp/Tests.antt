-- ===== src/Pcp/Tests.antt =====
-- A MAP request of version 2 with the option PREFER_FAILURE.
use miniupnpd_sdn.Base.{
  ◌≡◌, refl, true, false, [], ◌∷◌, ◌++◌, none, some, Bytes, codes, replicate, arith,
}
use miniupnpd_sdn.Base.Ends.{Ends}
use miniupnpd_sdn.Redirect.InList.{in_list, in_list-laws, an_env, a_config, with_rules}
use miniupnpd_sdn.Pcp.{PcpInfo, Settings, parse_common_request_header}
use miniupnpd_sdn.Pcp.Map.{create_pcpmap_nat}
use miniupnpd_sdn.Pcp.Preferred.{AtWanted, create_pcpmap_nat-AtWanted}
use miniupnpd_sdn.Pcp.Packet.{start_info, Sent, process_incoming_pcp_packet}
use miniupnpd_sdn.Pcp.Packet.Total.{AllBytes, IsHeader, parse_common_request_header-IsHeader}
use miniupnpd_sdn.Pcp.Packet.Answered.{process_incoming_pcp_packet_total}

abbrev a_server : Settings
a_server = record {
  max_lifetime = 86400;
  min_lifetime = 120;
  allow_third_party = false;
  use_ext_ip_addr = none;
  ext_if_name = some (codes "eth0");
  inet_pton_4 = λ s. none;
  inet_pton_6 = λ s. none;
  getifaddr_in6 = λ s six. some (replicate 10 0 ++ (255 ∷ 255 ∷ 93 ∷ 184 ∷ 216 ∷ 34 ∷ []));
  inet_n46top = λ ip. codes "192.168.1.5";
  startup_time = 400;
}

abbrev a_client : Bytes
a_client = replicate 10 0 ++ (255 ∷ 255 ∷ 192 ∷ 168 ∷ 1 ∷ 5 ∷ [])

abbrev a_header : Bytes
a_header = 2 ∷ 1 ∷ 0 ∷ 0 ∷ 0 ∷ 0 ∷ 14 ∷ 16 ∷ a_client

-- UDP, the internal port 5000 and the external port 6000.
abbrev a_map : Bytes
a_map = codes "nonce nonce!" ++ (17 ∷ 0 ∷ 0 ∷ 0 ∷ 19 ∷ 136 ∷ 23 ∷ 112 ∷ replicate 16 0)

abbrev a_packet : Bytes
a_packet = a_header ++ (a_map ++ (2 ∷ 0 ∷ 0 ∷ 0 ∷ []))

packet-AllBytes : AllBytes a_packet
packet-AllBytes = ground arith

header-AllBytes : AllBytes a_header
header-AllBytes = ground arith

process_incoming_pcp_packet_total_example :
    (r : Sent in_list a_config a_server an_env) × (process_incoming_pcp_packet in_list a_config
        a_server an_env 1 a_packet 64 a_client true 0
        (with_rules [])
      ≡ some r)
process_incoming_pcp_packet_total_example =
    process_incoming_pcp_packet_total in_list a_config a_server an_env 1 0 (with_rules []) refl
      (omega arith) a_packet 64 a_client true 0 packet-AllBytes

abbrev a_wish : PcpInfo
a_wish = record (start_info a_client) {
  version = 2;
  opcode = 1;
  lifetime = 3600;
  protocol = 17;
  int_port = 5000;
  ext_port = 6000;
  mapped_ip = a_client;
  mapped_str = codes "192.168.1.5";
  pfailure_present = true;
}

create_pcpmap_nat-AtWanted_example :
    Ends
      (AtWanted in_list in_list-laws a_config an_env a_wish)
      (create_pcpmap_nat in_list a_config an_env a_wish 65536 (with_rules []))
create_pcpmap_nat-AtWanted_example =
    create_pcpmap_nat-AtWanted in_list in_list-laws a_config an_env a_wish 65536 (with_rules [])
      refl

parse_common_request_header-IsHeader_example :
    Ends (IsHeader a_server) (parse_common_request_header a_server a_header (start_info a_client))
parse_common_request_header-IsHeader_example =
    parse_common_request_header-IsHeader a_server a_header (start_info a_client) (omega arith)
      header-AllBytes (omega arith)
