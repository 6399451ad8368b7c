-- ===== src/Sdn/Rules.antt =====
-- miniupnpd/sdn/iptcrdr.c: the operations on the controller's port mappings and status. An operation
-- ends in `none` when its polling loop does not. Output buffers and variables are passed on; a port
-- that the stack holds by chance is an argument `stale`.
pub mod Replies
pub mod Iface
pub mod AnyPort
pub mod Status
use miniupnpd_sdn.Base.{
  ℕ, zero, suc, ◌+◌, Bool, true, false, not, ◌&&◌, ◌||◌, List, [], ◌∷◌, Option, none, some, Bytes,
  codes, ltb, leb, ◌==◌, if◌then◌else◌, length, take, bytes_eq,
}
use miniupnpd_sdn.Base.Ints.{ℤ, pos, negsuc, int_eq, int_of_uint}
use miniupnpd_sdn.Base.Options.{◌>>=◌}
use miniupnpd_sdn.Sdn.Json.{JsonC}
use miniupnpd_sdn.Sdn.Http.{HttpResponseCode, ok_200, notfound_404, conflict_409}
use miniupnpd_sdn.Sdn.Onos.{
  Network, ConnRuntimeVars, request_onos, onos_add_igd_port_mapping, onos_get_ext_ip_addr,
  onos_get_igd_runtime_status, onos_get_wan_connection_status, onos_get_igd_port_mapping_by_index,
  onos_get_igd_port_mapping, onos_get_igd_port_mapping_range, onos_delete_igd_port_mapping,
  onos_delete_igd_port_mapping_range,
}
use miniupnpd_sdn.Sdn.Fields.{
  PortmappingEntry, retrieve_string_from_json_obj, retrieve_int_from_json_obj,
  retrieve_unsigned_int_from_json_obj, retrieve_port_number_from_json_obj,
  retrieve_port_number_array_from_json_obj, retrieve_portmapping_array_from_json_obj,
  cmp_case_insensitive,
}
use miniupnpd_sdn.Sdn.Descs.{strncpy}

abbrev pub is_ok : HttpResponseCode → Bool
is_ok ok_200 = true
is_ok _ = false

abbrev pub is_conflict : HttpResponseCode → Bool
is_conflict conflict_409 = true
is_conflict _ = false

abbrev pub is_notfound : HttpResponseCode → Bool
is_notfound notfound_404 = true
is_notfound _ = false

-- getifstats.h
pub record IgdIfaceStatus : Type 0 where
  pub status : Bytes
  pub baudrate : ℕ
  pub ibytes : ℕ
  pub obytes : ℕ
  pub ipackets : ℕ
  pub opackets : ℕ

-- portutils.h
pub record PortRange : Type 0 where
  pub start : ℕ
  pub last : ℕ

-- The variables that the lookups write to.
pub record RuleOut : Type 0 where
  pub eport : ℕ
  pub iaddr : Bytes
  pub iport : ℕ
  pub proto : Bytes
  pub desc : Bytes
  pub rhost : Bytes
  pub leaseduration : ℕ

-- The branches behind an answer with OK_200.
unfoldable pub copy_ip : Option Bytes → Bytes → ℕ → ℤ × Bytes
copy_ip none ret_addr max_len = (negsuc 0, ret_addr)
copy_ip (some ip) ret_addr max_len =
    if leb (length ip) max_len then (pos 0, strncpy ret_addr ip max_len) else (negsuc 0, ret_addr)

-- `strncmp(wan_conn_stat, "connected", 9) != 0`
unfoldable pub conn_status : Option Bytes → ℤ
conn_status none = negsuc 0
conn_status (some s) = if not (bytes_eq (take 9 s) (codes "connected")) then negsuc 0 else pos 0

abbrev pub all_or_none : Option IgdIfaceStatus → IgdIfaceStatus → ℤ × IgdIfaceStatus
all_or_none none ret_data = (negsuc 0, ret_data)
all_or_none (some s) ret_data = (pos 0, s)

-- The return code and, where it was read, the port; the tests behind the answer.
unfoldable pub port_result : Option ℕ → ℤ × Option ℕ
port_result none = (pos 1, none)
port_result (some port) = (pos 0, some port)

-- The switch of add_redirect_and_filter_rules.
unfoldable pub add_result : ℤ → ℤ
add_result ret_code =
    if int_eq ret_code (pos 1)
    then pos 0
    else if int_eq ret_code (pos 0)
    then pos 0
    else if int_eq ret_code (negsuc 1)
    then negsuc 3
    else if int_eq ret_code (negsuc 2)
    then negsuc 1
    else negsuc 0

-- The switch of add_any_redirect_and_filter_rules. The port is written where it was read.
unfoldable pub add_any_result : ℤ × Option ℕ → ℕ → ℤ × ℕ
add_any_result (ret_code, none) ret = (if int_eq ret_code (negsuc 2) then pos 1 else negsuc 0, ret)
add_any_result (ret_code, some final_eport) ret = (pos 0, final_eport)

module _ (json : JsonC) where
  unfoldable pub get_sdn_igd_external_ip_addr : Network → Bytes → ℕ → Option (ℤ × Bytes)
  get_sdn_igd_external_ip_addr net ret_addr max_len = (do
    d ← request_onos json (onos_get_ext_ip_addr json) net json.null
    some (
        if not (is_ok d.response_code)
        then (negsuc 0, ret_addr)
        else copy_ip (retrieve_string_from_json_obj json d.response (codes "ext_ip_addr")) ret_addr
            max_len))

  unfoldable pub get_sdn_igd_wan_conn_status : Network → Option ℤ
  get_sdn_igd_wan_conn_status net = (do
    d ← request_onos json (onos_get_wan_connection_status json) net json.null
    some (
        if not (is_ok d.response_code)
        then negsuc 0
        else conn_status (retrieve_string_from_json_obj json d.response (codes "wan_conn_status"))))

  unfoldable pub iface_status : json.Object → Option IgdIfaceStatus
  iface_status response = (do
    status ← retrieve_string_from_json_obj json response (codes "iface_status")
    baudrate ← retrieve_unsigned_int_from_json_obj json response (codes "baudrate")
    bytes_sent ← retrieve_unsigned_int_from_json_obj json response (codes "total_bytes_sent")
    bytes_recv ← retrieve_unsigned_int_from_json_obj json response (codes "total_bytes_received")
    pkt_sent ← retrieve_unsigned_int_from_json_obj json response (codes "total_packets_sent")
    pkt_recv ← retrieve_unsigned_int_from_json_obj json response (codes "total_packets_received")
    some (record {
      status = status;
      baudrate = baudrate;
      ibytes = bytes_recv;
      obytes = bytes_sent;
      ipackets = pkt_recv;
      opackets = pkt_sent;
    }))

  unfoldable pub get_sdn_igd_iface_status : Network → IgdIfaceStatus → Option (ℤ × IgdIfaceStatus)
  get_sdn_igd_iface_status net ret_data = (do
    d ← request_onos json (onos_get_igd_runtime_status json) net json.null
    some (
        if not (is_ok d.response_code)
        then (negsuc 0, ret_data)
        else all_or_none (iface_status d.response) ret_data))

  unfoldable pub port_ranges : List PortRange → json.Object → Option json.Object
  port_ranges [] ranges = some ranges
  port_ranges (r ∷ rs) ranges = (do
    port_range ← json.array_add (json.new_array_ext 2) (json.new_int (pos r.start))
    port_range' ← json.array_add port_range (json.new_int (pos r.last))
    ranges' ← json.array_add ranges port_range'
    port_ranges rs ranges')

  unfoldable pub add_ranges : Option (List PortRange) → json.Object → Option json.Object
  add_ranges none jobj = some jobj
  add_ranges (some rs) jobj = (do
    ranges ← port_ranges rs (json.new_array_ext (length rs))
    json.object_add jobj (codes "permit_port_range") ranges)

  unfoldable pub add_request :
      Bytes → ℕ → Bytes → ℕ → Bytes → ℕ → Option (List PortRange) → Option json.Object
  add_request rhost eport iaddr iport proto duration allowed = (do
    j1 ← json.object_add json.new_object (codes "rhost") (json.new_string rhost)
    j2 ← json.object_add j1 (codes "eport") (json.new_int (pos eport))
    j3 ← json.object_add j2 (codes "proto") (json.new_string proto)
    j4 ← json.object_add j3 (codes "iport") (json.new_int (pos iport))
    j5 ← json.object_add j4 (codes "iaddr") (json.new_string iaddr)
    j6 ← json.object_add j5 (codes "duration") (json.new_int (int_of_uint duration))
    add_ranges allowed j6)

  unfoldable pub add_reply : ℤ → json.Object → Option ℤ → ℤ × Option ℕ
  add_reply stale response none = (negsuc 0, none)
  add_reply stale response (some ret_code) =
      let port =
        port_result (retrieve_port_number_from_json_obj json stale response (codes "eport")) in
      if int_eq ret_code (pos 0) then port else (ret_code, none)

  -- `request` behind its guard: on a failure to build it the function returns -1.
  unfoldable pub add_rules : ℤ → Network → Option json.Object → Option (ℤ × Option ℕ)
  add_rules stale net none = some (negsuc 0, none)
  add_rules stale net (some jobj) = (do
    d ← request_onos json (onos_add_igd_port_mapping json) net jobj
    some (
        if is_conflict d.response_code
        then (negsuc 2, none)
        else if not (is_ok d.response_code)
        then (negsuc 0, none)
        else add_reply stale d.response
            (retrieve_int_from_json_obj json d.response (codes "return_code"))))

  unfoldable pub add_redirect_and_filter_rules :
      ℤ → Network → Bytes → ℕ → Bytes → ℕ → Bytes → ℕ → Option ℤ
  add_redirect_and_filter_rules stale net rhost eport iaddr iport proto duration = (do
    r ← add_rules stale net (add_request rhost eport iaddr iport proto duration none)
    some (add_result r.0))

  unfoldable pub add_any_redirect_and_filter_rules :
      ℤ → Network → Bytes → ℕ → Bytes → ℕ → Bytes → ℕ → Option (List PortRange) → ℕ → Option (ℤ × ℕ)
  add_any_redirect_and_filter_rules stale net rhost eport iaddr iport proto duration allowed ret =
      (do
        r ← add_rules stale net (add_request rhost eport iaddr iport proto duration allowed)
        some (add_any_result r ret))
