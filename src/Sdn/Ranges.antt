-- ===== src/Sdn/Ranges.antt =====
-- miniupnpd/sdn/iptcrdr.c: the operations on the port mappings in a range of external ports.
use miniupnpd_sdn.Base.{ℕ, not, List, Option, none, some, Bytes, codes, if◌then◌else◌}
use miniupnpd_sdn.Base.Ints.{ℤ, pos, negsuc}
use miniupnpd_sdn.Base.Options.{◌>>=◌}
use miniupnpd_sdn.Sdn.Json.{JsonC}
use miniupnpd_sdn.Sdn.Onos.{
  Network, request_onos, onos_get_igd_port_mapping_range, onos_delete_igd_port_mapping_range,
}
use miniupnpd_sdn.Sdn.Fields.{
  PortmappingEntry, retrieve_port_number_array_from_json_obj,
  retrieve_portmapping_array_from_json_obj,
}
use miniupnpd_sdn.Sdn.Rules.{is_ok, is_notfound}

module _ (json : JsonC) where
  abbrev pub default_portmapping_cap : ℕ
  default_portmapping_cap = 64

  unfoldable pub range_request : Bytes → ℕ → ℕ → Option json.Object
  range_request proto startport endport = (do
    j1 ← json.object_add json.new_object (codes "proto") (json.new_string proto)
    j2 ← json.object_add j1 (codes "start_port_num") (json.new_int (pos startport))
    json.object_add j2 (codes "end_port_num") (json.new_int (pos endport)))

  -- The array, none where it is null, and `*number`.
  abbrev array_or_null : Option (List PortmappingEntry × ℕ) → ℕ → Option (List PortmappingEntry) × ℕ
  array_or_null none number = (none, number)
  array_or_null (some (array, size)) number = (some array, size)

  unfoldable pub mappings_in_range :
      (ℕ → ℤ)
      → (ℕ → ℤ)
      → Network
      → Option json.Object
      → ℕ
      → Option (Option (List PortmappingEntry) × ℕ)
  mappings_in_range stale stale' net none number = some (none, number)
  mappings_in_range stale stale' net (some jobj) number = (do
    d ← request_onos json (onos_get_igd_port_mapping_range json) net jobj
    some (
        if is_notfound d.response_code
        then (none, 0)
        else if not (is_ok d.response_code)
        then (none, number)
        else array_or_null
            (retrieve_portmapping_array_from_json_obj json stale stale' d.response
              (codes "portmapping"))
            number))

  unfoldable pub get_portmappings_in_range :
      (ℕ → ℤ) → (ℕ → ℤ) → Network → ℕ → ℕ → Bytes → ℕ → Option (Option (List PortmappingEntry) × ℕ)
  get_portmappings_in_range stale stale' net startport endport proto number =
      mappings_in_range stale stale' net
        (do
          jobj ← range_request proto startport endport
          json.object_add jobj (codes "max_entry_number") (json.new_uint64 default_portmapping_cap))
        number

  abbrev list_or_error : Option (List ℕ × ℕ) → List ℕ × ℕ → ℤ × (List ℕ × ℕ)
  list_or_error none out = (negsuc 0, out)
  list_or_error (some r) out = (pos 0, r)

  unfoldable pub delete_range :
      Network → Option json.Object → List ℕ × ℕ → Option (ℤ × (List ℕ × ℕ))
  delete_range net none out = some (negsuc 0, out)
  delete_range net (some jobj) out = (do
    d ← request_onos json (onos_delete_igd_port_mapping_range json) net jobj
    some (
        if is_notfound d.response_code
        then (negsuc 0, out)
        else if not (is_ok d.response_code)
        then (negsuc 0, out)
        else list_or_error
            (retrieve_port_number_array_from_json_obj json d.response (codes "deleted")) out))

  -- `out` is `*entry_list` and `*list_number`.
  unfoldable pub delete_portmappings_in_range :
      Network → ℕ → ℕ → Bytes → List ℕ × ℕ → Option (ℤ × (List ℕ × ℕ))
  delete_portmappings_in_range net startport endport proto out =
      delete_range net (range_request proto startport endport) out
