-- ===== src/Sdn/Lookup.antt =====
-- miniupnpd/sdn/iptcrdr.c: the operations that read or delete port mappings, one or a range. Where a
-- copy is longer than its buffer, `strncpy` gives a longer buffer: the bytes that it overwrites.
pub mod Found
pub mod Deleted
use miniupnpd_sdn.Base.{
  ℕ, ◌+◌, Bool, true, false, not, List, [], ◌∷◌, Option, none, some, Bytes, codes, ◌==◌,
  if◌then◌else◌, length, bytes_eq,
}
use miniupnpd_sdn.Base.Ints.{ℤ, pos, negsuc, int_eq}
use miniupnpd_sdn.Base.Options.{◌>>=◌}
use miniupnpd_sdn.Sdn.Json.{JsonC}
use miniupnpd_sdn.Sdn.Onos.{
  Network, ConnRuntimeVars, request_onos, onos_get_igd_port_mapping_by_index,
  onos_get_igd_port_mapping, onos_get_igd_port_mapping_range, onos_delete_igd_port_mapping,
  onos_delete_igd_port_mapping_range,
}
use miniupnpd_sdn.Sdn.Fields.{
  PortmappingEntry, retrieve_string_from_json_obj, retrieve_unsigned_int_from_json_obj,
  retrieve_port_number_from_json_obj, retrieve_port_number_array_from_json_obj,
  retrieve_portmapping_array_from_json_obj, cmp_case_insensitive,
}
use miniupnpd_sdn.Sdn.Descs.{strncpy}
use miniupnpd_sdn.Sdn.Rules.{is_ok, is_notfound, RuleOut}

-- What the tests on the response's own rhost, eport and proto find.
unfoldable pub same_string : Option Bytes → Bytes → Bool
same_string none s = false
same_string (some s') s = bytes_eq s' s

unfoldable pub same_port : Option ℕ → ℕ → Bool
same_port none port = false
same_port (some port') port = port' == port

unfoldable pub same_proto : Option Bytes → Bytes → Bool
same_proto none proto = false
same_proto (some proto') proto = int_eq (cmp_case_insensitive proto' proto) (pos 0)

-- The last three reads of get_redirect_rule and what it writes.
unfoldable pub write_found : Option Bytes → Option ℕ → Option ℕ → ℕ → ℕ → RuleOut → ℤ × RuleOut
write_found none iport lease iaddrlen desclen out = (negsuc 0, out)
write_found (some iaddr) none lease iaddrlen desclen out = (negsuc 0, out)
write_found (some iaddr) (some iport) none iaddrlen desclen out =
    (negsuc 0, record out { iport = iport })
write_found (some iaddr) (some iport) (some lease) iaddrlen desclen out = (
  pos 0,
  record out {
    iport = iport;
    leaseduration = lease;
    iaddr = strncpy out.iaddr iaddr iaddrlen;
    desc = strncpy out.desc (codes "empty") desclen;
  },
)

-- The copies at the end of get_redirect_rule_by_index.
unfoldable pub copy_strings : Bytes → Bytes → Bytes → ℕ → ℕ → ℕ → RuleOut → RuleOut
copy_strings rhost proto iaddr iaddrlen desclen rhostlen out = record out {
  proto = strncpy out.proto proto (length proto + 1);
  rhost = strncpy out.rhost rhost rhostlen;
  iaddr = strncpy out.iaddr iaddr iaddrlen;
  desc = strncpy out.desc (codes "empty") desclen;
}

module _ (json : JsonC) where
  unfoldable pub rule_request : Bytes → ℕ → Bytes → Option json.Object
  rule_request rhost eport proto = (do
    j1 ← json.object_add json.new_object (codes "rhost") (json.new_string rhost)
    j2 ← json.object_add j1 (codes "eport") (json.new_int (pos eport))
    json.object_add j2 (codes "proto") (json.new_string proto))

  -- The tests and reads of get_redirect_rule behind an answer with OK_200.
  unfoldable pub rule_reply :
      ℤ → ℤ → json.Object → ℕ → Bytes → ℕ → ℕ → Bytes → RuleOut → ℤ × RuleOut
  rule_reply stale stale' response eport proto iaddrlen desclen rhost out =
      if not (same_string (retrieve_string_from_json_obj json response (codes "rhost")) rhost)
      then (negsuc 0, out)
      else if not
          (same_port (retrieve_port_number_from_json_obj json stale response (codes "eport")) eport)
      then (negsuc 0, out)
      else if not (same_proto (retrieve_string_from_json_obj json response (codes "proto")) proto)
      then (negsuc 0, out)
      else write_found (retrieve_string_from_json_obj json response (codes "iaddr"))
          (retrieve_port_number_from_json_obj json stale' response (codes "iport"))
          (retrieve_unsigned_int_from_json_obj json response (codes "duration")) iaddrlen desclen
          out

  unfoldable pub redirect_rule :
      ℤ
      → ℤ
      → Network
      → Option json.Object
      → ℕ
      → Bytes
      → ℕ
      → ℕ
      → Bytes
      → RuleOut
      → Option (ℤ × RuleOut)
  redirect_rule stale stale' net none eport proto iaddrlen desclen rhost out = some (negsuc 0, out)
  redirect_rule stale stale' net (some jobj) eport proto iaddrlen desclen rhost out = (do
    d ← request_onos json (onos_get_igd_port_mapping json) net jobj
    some (
        if is_notfound d.response_code
        then (negsuc 0, out)
        else if not (is_ok d.response_code)
        then (negsuc 0, out)
        else rule_reply stale stale' d.response eport proto iaddrlen desclen rhost out))

  unfoldable pub get_redirect_rule :
      ℤ → ℤ → Network → ℕ → Bytes → ℕ → ℕ → Bytes → RuleOut → Option (ℤ × RuleOut)
  get_redirect_rule stale stale' net eport proto iaddrlen desclen rhost out =
      redirect_rule stale stale' net (rule_request rhost eport proto) eport proto iaddrlen desclen
        rhost out

  -- The reads of get_redirect_rule_by_index in turn, the last one first.
  unfoldable pub index_duration : Option ℕ → RuleOut → Option RuleOut × RuleOut
  index_duration none out = (none, out)
  index_duration (some lease) out =
      let out' = record out { leaseduration = lease } in (some out', out')

  unfoldable pub index_iport : Option ℕ → Option ℕ → RuleOut → Option RuleOut × RuleOut
  index_iport none lease out = (none, out)
  index_iport (some iport) lease out = index_duration lease (record out { iport = iport })

  abbrev finish_index : Option RuleOut × RuleOut → Bytes → Bytes → Bytes → ℕ → ℕ → ℕ → ℤ × RuleOut
  finish_index (none, out) rhost proto iaddr iaddrlen desclen rhostlen = (negsuc 0, out)
  finish_index (some out', out) rhost proto iaddr iaddrlen desclen rhostlen =
      (pos 0, copy_strings rhost proto iaddr iaddrlen desclen rhostlen out')

  unfoldable pub index_strings :
      Option Bytes
      → Option ℕ
      → Option Bytes
      → Option Bytes
      → Option ℕ
      → Option ℕ
      → ℕ
      → ℕ
      → ℕ
      → RuleOut
      → ℤ × RuleOut
  index_strings none eport proto iaddr iport lease iaddrlen desclen rhostlen out = (negsuc 0, out)
  index_strings (some rhost) none proto iaddr iport lease iaddrlen desclen rhostlen out =
      (negsuc 0, out)
  index_strings (some rhost) (some eport) none iaddr iport lease iaddrlen desclen rhostlen out =
      (negsuc 0, record out { eport = eport })
  index_strings (some rhost) (some eport) (some proto) none iport lease iaddrlen desclen rhostlen
        out =
      (negsuc 0, record out { eport = eport })
  index_strings (some rhost) (some eport) (some proto) (some iaddr) iport lease iaddrlen desclen
        rhostlen out =
      finish_index (index_iport iport lease (record out { eport = eport })) rhost proto iaddr
        iaddrlen desclen rhostlen

  unfoldable pub rule_by_index :
      (ℕ → ℤ) → Network → Option json.Object → ℕ → ℕ → ℕ → RuleOut → Option (ℤ × RuleOut)
  rule_by_index stale net none iaddrlen desclen rhostlen out = some (negsuc 0, out)
  rule_by_index stale net (some jobj) iaddrlen desclen rhostlen out = (do
    d ← request_onos json (onos_get_igd_port_mapping_by_index json) net jobj
    some (
        if is_notfound d.response_code
        then (negsuc 0, out)
        else if not (is_ok d.response_code)
        then (negsuc 0, out)
        else index_strings (retrieve_string_from_json_obj json d.response (codes "rhost"))
            (retrieve_port_number_from_json_obj json (stale 0) d.response (codes "eport"))
            (retrieve_string_from_json_obj json d.response (codes "proto"))
            (retrieve_string_from_json_obj json d.response (codes "iaddr"))
            (retrieve_port_number_from_json_obj json (stale 1) d.response (codes "iport"))
            (retrieve_unsigned_int_from_json_obj json d.response (codes "duration")) iaddrlen
            desclen rhostlen out))

  unfoldable pub get_redirect_rule_by_index :
      (ℕ → ℤ) → Network → ℤ → ℕ → ℕ → ℕ → RuleOut → Option (ℤ × RuleOut)
  get_redirect_rule_by_index stale net index iaddrlen desclen rhostlen out =
      rule_by_index stale net (json.object_add json.new_object (codes "index") (json.new_int index))
        iaddrlen desclen rhostlen out

  unfoldable pub delete_rule : Network → Option json.Object → Option ℤ
  delete_rule net none = some (negsuc 0)
  delete_rule net (some jobj) = (do
    d ← request_onos json (onos_delete_igd_port_mapping json) net jobj
    some (
        if is_notfound d.response_code
        then negsuc 0
        else if not (is_ok d.response_code)
        then negsuc 0
        else pos 0))

  unfoldable pub delete_redirect_and_filter_rules : Network → Bytes → ℕ → Bytes → Option ℤ
  delete_redirect_and_filter_rules net rhost eport proto =
      delete_rule net (rule_request rhost eport proto)
