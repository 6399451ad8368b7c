-- ===== src/Sdn/Tests.antt =====
-- The SDN back end over a small JSON library, and its theorems at concrete exchanges.
use miniupnpd_sdn.Base.{
  ◌≤◌, length, ℕ, zero, suc, ◌≡◌, refl, true, false, List, [], ◌∷◌, ◌++◌, Option, none, some, Bytes,
  codes, if◌then◌else◌, bytes_eq, take, replicate,
}
use miniupnpd_sdn.Base.Decimal.{digits_value}
use miniupnpd_sdn.Base.Ints.{ℤ, pos, to_ushort, isvalid_ushort, int_of_uint}
use miniupnpd_sdn.Sdn.Json.{
  JsonC, JsonType, type_null, type_int, type_object, type_array, type_string,
}
use miniupnpd_sdn.Sdn.Http.{HttpMessage, Connection, ok_200, retrieve_response_status, atoi}
use miniupnpd_sdn.Sdn.Onos.{
  mg_ev_connect, mg_ev_http_msg, mg_ev_error, mg_ev_close, mg_ev_other, Network, deliver, poll_loop,
  exchange, request_onos, on_onos_event, send_post_request, retrieve_json_payload,
  onos_add_igd_port_mapping, onos_get_igd_port_mapping, onos_get_ext_ip_addr,
  onos_get_igd_runtime_status,
}
use miniupnpd_sdn.Sdn.Onos.Exchange.{outcome, is_some, request_onos-seen, request_onos-is_some}
use miniupnpd_sdn.Sdn.Onos.Answered.{IsAnswer}
use miniupnpd_sdn.Sdn.Fields.{
  port_entry, port_of_int, differs, cmp_case_insensitive, retrieve_string_from_json_obj,
  retrieve_int_from_json_obj, retrieve_unsigned_int_from_json_obj,
  retrieve_port_number_from_json_obj, retrieve_json_array_from_json_obj,
  retrieve_port_number_array_from_json_obj,
}
use miniupnpd_sdn.Sdn.Fields.Ports.{KeptPorts, retrieve_port_number_array_from_json_obj-KeptPorts}
use miniupnpd_sdn.Sdn.Fields.Letters.{Decides, cmp_case_insensitive-Decides}
use miniupnpd_sdn.Sdn.Descs.{RdrDesc, strncpy}
use miniupnpd_sdn.Sdn.Rules.{
  IgdIfaceStatus, iface_status, get_sdn_igd_iface_status, port_ranges, add_any_result,
  add_any_redirect_and_filter_rules, RuleOut, add_request, add_ranges, add_rules, add_reply,
  port_result, add_result, add_redirect_and_filter_rules, copy_ip, get_sdn_igd_external_ip_addr,
}
use miniupnpd_sdn.Sdn.Rules.Replies.{IsAdded, add_redirect_and_filter_rules-IsAdded}
use miniupnpd_sdn.Sdn.Rules.AnyPort.{IsPortOf, add_any_redirect_and_filter_rules-IsPortOf}
use miniupnpd_sdn.Sdn.Rules.Status.{IsCopied, get_sdn_igd_external_ip_addr-IsCopied}
use miniupnpd_sdn.Sdn.Lookup.{
  rule_request, rule_reply, redirect_rule, get_redirect_rule, same_string, same_port, same_proto,
  write_found, delete_redirect_and_filter_rules,
}
use miniupnpd_sdn.Sdn.Lookup.Found.{IsFound, get_redirect_rule-IsFound}
use miniupnpd_sdn.Sdn.Lookup.Deleted.{delete_redirect_and_filter_rules-delete_code}

-- A JSON value; an object is a chain of fields, an array a chain of items.
data Value : Type 0 where
  jnull jempty jend : Value
  jint : ℤ → Value
  jstring : Bytes → Value
  jfield : Bytes → Value → Value → Value
  jitem : Value → Value → Value

abbrev get_field : Value → Bytes → Option Value
get_field (jfield k v rest) key =
    let more = get_field rest key in if bytes_eq k key then some v else more
get_field _ key = none

abbrev type_of : Value → JsonType
type_of jnull = type_null
type_of jempty = type_object
type_of jend = type_array
type_of (jint x) = type_int
type_of (jstring s) = type_string
type_of (jfield k v rest) = type_object
type_of (jitem v rest) = type_array

abbrev string_of : Value → Bytes
string_of (jstring s) = s
string_of _ = []

abbrev int_of : Value → ℤ
int_of (jint x) = x
int_of _ = pos 0

abbrev uint_of : Value → ℕ
uint_of (jint (pos n)) = n
uint_of _ = 0

abbrev count : Value → ℕ
count (jitem v rest) = suc (count rest)
count _ = 0

abbrev item : Value → ℕ → Value
item (jitem v rest) zero = v
item (jitem v rest) (suc i) = item rest i
item _ i = jnull

abbrev push : Value → Value → Value
push (jitem v rest) w = jitem v (push rest w)
push _ w = jitem w jend

-- The rule that the controller knows.
abbrev rule : Value
rule = jfield (codes "rhost") (jstring []) (
    jfield (codes "eport") (jint (pos 8080)) (
      jfield (codes "proto") (jstring (codes "tcp")) (
        jfield (codes "iaddr") (jstring (codes "10.0.0.2")) (
          jfield (codes "iport") (jint (pos 80))
            (jfield (codes "duration") (jint (pos 3600)) jempty)))))

abbrev iface : Value
iface = jfield (codes "iface_status") (jstring (codes "up")) (
    jfield (codes "baudrate") (jint (pos 1000)) (
      jfield (codes "total_bytes_sent") (jint (pos 2)) (
        jfield (codes "total_bytes_received") (jint (pos 3)) (
          jfield (codes "total_packets_sent") (jint (pos 4))
            (jfield (codes "total_packets_received") (jint (pos 5)) jempty)))))

-- The bodies of the answers below.
abbrev parse : Bytes → Value
parse body =
    if bytes_eq body (codes "added")
    then jfield (codes "return_code") (jint (pos 0)) rule
    else if bytes_eq body (codes "rule")
    then rule
    else if bytes_eq body (codes "address")
    then jfield (codes "ext_ip_addr") (jstring (codes "1.2.3.4")) jempty
    else if bytes_eq body (codes "iface")
    then iface
    else jnull

abbrev json : JsonC
json = record {
  Object = Value;
  null = jnull;
  object_get_ex = get_field;
  get_type = type_of;
  get_string = string_of;
  get_int = int_of;
  get_uint64 = uint_of;
  array_length = count;
  array_get_idx = item;
  new_object = jempty;
  new_string = jstring;
  new_int = jint;
  new_uint64 = λ n. jint (pos n);
  new_array_ext = λ n. jend;
  object_add = λ o k v. some (jfield k v o);
  array_add = λ a v. some (push a v);
  to_json_string = λ v. codes "{}";
  tokener_parse_ex = parse;
}

no_fields : (key : Bytes) → get_field jnull key ≡ none
no_fields key = refl

abbrev answer : Bytes → HttpMessage
answer body = record { uri = codes "200 OK"; body = body; message = [] }

-- The connection is made, then the answer comes, and the connection is closed.
abbrev answers : Bytes → Network
answers body = record {
  ip = 3232235521;
  port = 8181;
  connecting = [];
  polls =
      (mg_ev_connect ∷ []) ∷ (mg_ev_other ∷ mg_ev_http_msg (answer body) ∷ mg_ev_close ∷ []) ∷ [];
}

-- The controller cannot be reached.
abbrev unreachable : Network
unreachable = record {
  ip = 3232235521;
  port = 8181;
  connecting = [];
  polls = (mg_ev_error ∷ mg_ev_close ∷ []) ∷ [];
}

abbrev controller : Connection
controller = record { peer_ip = 3232235521; peer_port = 8181; is_closing = false; sent = [] }

request_onos-seen_example :
    request_onos json
      (on_onos_event json (send_post_request json) (codes "/portmapping"))
      (answers (codes "added"))
      jempty
    ≡ outcome json (send_post_request json) (codes "/portmapping") jempty (
        some (
          mg_ev_connect ∷ mg_ev_other ∷ mg_ev_http_msg (answer (codes "added")) ∷ mg_ev_close ∷ []))
request_onos-seen_example =
    request_onos-seen json (send_post_request json) (codes "/portmapping") jempty
      (answers (codes "added"))

request_onos-is_some_example :
    is_some (
      request_onos json
        (on_onos_event json (send_post_request json) (codes "/portmapping"))
        unreachable
        jempty)
    ≡ true
request_onos-is_some_example =
    request_onos-is_some json (send_post_request json) (codes "/portmapping") jempty unreachable

abbrev deleted_ports : Value
deleted_ports =
    jitem (jint (pos 80)) (jitem (jint (pos 70000)) (jitem jnull (jitem (jint (pos 443)) jend)))

abbrev deleted : Value
deleted = jfield (codes "deleted") deleted_ports jempty

deleted_found :
    retrieve_json_array_from_json_obj json deleted (codes "deleted") ≡ some deleted_ports
unfolding retrieve_json_array_from_json_obj
deleted_found = refl

retrieve_port_number_array_from_json_obj-KeptPorts_example :
    (s : List ℕ × ℕ) × (retrieve_port_number_array_from_json_obj json deleted (codes "deleted")
      ≡ some s)
    × KeptPorts json deleted_ports 0 4 (take s.1 s.0)
    × (s.1 ≤ length s.0)
retrieve_port_number_array_from_json_obj-KeptPorts_example =
    retrieve_port_number_array_from_json_obj-KeptPorts json deleted deleted_ports (codes "deleted")
      deleted_found

-- Of the four entries two are ports.
deleted_run :
    retrieve_port_number_array_from_json_obj json deleted (codes "deleted")
    ≡ some (80 ∷ 443 ∷ 0 ∷ 0 ∷ [], 2)
unfolding retrieve_port_number_array_from_json_obj retrieve_json_array_from_json_obj port_entry
    isvalid_ushort to_ushort
deleted_run = refl

cmp_case_insensitive-Decides_example :
    Decides (cmp_case_insensitive (codes "tcp") (codes "TCP")) (codes "tcp") (codes "TCP")
cmp_case_insensitive-Decides_example =
    cmp_case_insensitive-Decides (codes "tcp") (codes "TCP") (refl, (refl, (refl, tt)))
      (refl, (refl, (refl, tt)))

-- A bracket stands for any byte.
cmp_case_insensitive_bracket : cmp_case_insensitive (codes "x") (codes "[") ≡ pos 0
unfolding cmp_case_insensitive differs
cmp_case_insensitive_bracket = refl

added :
    add_redirect_and_filter_rules json
      (pos 0)
      (answers (codes "added"))
      []
      8080
      (codes "10.0.0.2")
      80
      (codes "tcp")
      3600
    ≡ some (pos 0)
unfolding add_redirect_and_filter_rules add_rules add_request add_ranges add_reply port_result
    add_result int_of_uint request_onos exchange poll_loop deliver onos_add_igd_port_mapping
    retrieve_response_status atoi digits_value retrieve_int_from_json_obj
    retrieve_port_number_from_json_obj port_of_int to_ushort
added = refl

add_redirect_and_filter_rules-IsAdded_example : IsAdded json (pos 0) (answers (codes "added"))
add_redirect_and_filter_rules-IsAdded_example =
    add_redirect_and_filter_rules-IsAdded json (pos 0) no_fields (answers (codes "added")) [] 8080
      (codes "10.0.0.2") 80 (codes "tcp") 3600 added

any_added :
    add_any_redirect_and_filter_rules json
      (pos 0)
      (answers (codes "added"))
      []
      80
      (codes "10.0.0.2")
      80
      (codes "tcp")
      3600
      (some (record { start = 1024; last = 9000 } ∷ []))
      0
    ≡ some (pos 0, 8080)
unfolding add_any_redirect_and_filter_rules add_rules add_request add_ranges port_ranges add_reply
    port_result add_any_result int_of_uint request_onos exchange poll_loop deliver
    onos_add_igd_port_mapping retrieve_response_status atoi digits_value retrieve_int_from_json_obj
    retrieve_port_number_from_json_obj port_of_int to_ushort
any_added = refl

add_any_redirect_and_filter_rules-IsPortOf_example :
    IsPortOf json (pos 0) (answers (codes "added")) 8080
add_any_redirect_and_filter_rules-IsPortOf_example =
    add_any_redirect_and_filter_rules-IsPortOf json (pos 0) 0 8080 no_fields
      (answers (codes "added")) [] 80 (codes "10.0.0.2") 80 (codes "tcp") 3600
      (some (record { start = 1024; last = 9000 } ∷ [])) any_added

abbrev asked : Value
asked =
    jfield (codes "proto") (jstring (codes "tcp"))
      (jfield (codes "eport") (jint (pos 8080)) (jfield (codes "rhost") (jstring []) jempty))

asked_is : rule_request json [] 8080 (codes "tcp") ≡ some asked
unfolding rule_request
asked_is = refl

-- With no controller to be reached the deletion counts as done.
delete_redirect_and_filter_rules-delete_code_example :
    delete_redirect_and_filter_rules json unreachable [] 8080 (codes "tcp") ≡ some (pos 0)
delete_redirect_and_filter_rules-delete_code_example =
    delete_redirect_and_filter_rules-delete_code json unreachable [] 8080 (codes "tcp") asked
      (mg_ev_error ∷ mg_ev_close ∷ []) asked_is refl

abbrev out : RuleOut
out = record {
  eport = 0;
  iaddr = replicate 16 0;
  iport = 0;
  proto = replicate 4 0;
  desc = replicate 8 0;
  rhost = replicate 4 0;
  leaseduration = 0;
}

abbrev out' : RuleOut
out' = record out {
  iaddr = codes "10.0.0.2" ++ replicate 8 0;
  iport = 80;
  desc = codes "empty" ++ replicate 3 0;
  leaseduration = 3600;
}

found :
    get_redirect_rule json (pos 0) (pos 0) (answers (codes "rule")) 8080 (codes "TCP") 16 8 [] out
    ≡ some (pos 0, out')
unfolding get_redirect_rule redirect_rule rule_request rule_reply same_string same_port same_proto
    write_found request_onos exchange poll_loop deliver onos_get_igd_port_mapping
    retrieve_response_status atoi digits_value retrieve_string_from_json_obj
    retrieve_int_from_json_obj retrieve_unsigned_int_from_json_obj
    retrieve_port_number_from_json_obj port_of_int to_ushort cmp_case_insensitive differs strncpy
found = refl

get_redirect_rule-IsFound_example :
    (hm : HttpMessage) × IsAnswer (answers (codes "rule")) hm
    × (retrieve_response_status hm ≡ ok_200)
    × IsFound json
        (pos 0)
        (pos 0)
        (retrieve_json_payload json hm)
        8080
        (codes "TCP")
        16
        8
        []
        out
        out'
get_redirect_rule-IsFound_example =
    get_redirect_rule-IsFound json (pos 0) (pos 0) 8080 (codes "TCP") 16 8 [] out out' no_fields
      (answers (codes "rule")) found

-- An address of seven bytes in a buffer of seven has no terminator.
copied :
    get_sdn_igd_external_ip_addr json (answers (codes "address")) (replicate 7 0) 7
    ≡ some (pos 0, codes "1.2.3.4")
unfolding get_sdn_igd_external_ip_addr copy_ip request_onos exchange poll_loop deliver
    onos_get_ext_ip_addr retrieve_response_status atoi digits_value retrieve_string_from_json_obj
    strncpy
copied = refl

get_sdn_igd_external_ip_addr-IsCopied_example :
    (hm : HttpMessage) × IsAnswer (answers (codes "address")) hm
    × (retrieve_response_status hm ≡ ok_200)
    × IsCopied
        (retrieve_string_from_json_obj json (retrieve_json_payload json hm) (codes "ext_ip_addr"))
        (replicate 7 0)
        7
        (codes "1.2.3.4")
get_sdn_igd_external_ip_addr-IsCopied_example =
    get_sdn_igd_external_ip_addr-IsCopied json no_fields (answers (codes "address")) (replicate 7 0)
      (codes "1.2.3.4") 7 copied

abbrev no_status : IgdIfaceStatus
no_status = record { status = []; baudrate = 0; ibytes = 0; obytes = 0; ipackets = 0; opackets = 0 }

abbrev up_status : IgdIfaceStatus
up_status = record {
  status = codes "up";
  baudrate = 1000;
  ibytes = 3;
  obytes = 2;
  ipackets = 5;
  opackets = 4;
}

iface_read :
    get_sdn_igd_iface_status json (answers (codes "iface")) no_status ≡ some (pos 0, up_status)
unfolding get_sdn_igd_iface_status iface_status request_onos exchange poll_loop deliver
    onos_get_igd_runtime_status retrieve_response_status atoi digits_value
    retrieve_string_from_json_obj retrieve_unsigned_int_from_json_obj
iface_read = refl

abbrev descs : List RdrDesc
descs =
    record { timestamp = 5; eport = 80; proto = pos 6; str = codes "web" }
    ∷ record { timestamp = 7; eport = 80; proto = pos 17; str = codes "game" }
    ∷ []
