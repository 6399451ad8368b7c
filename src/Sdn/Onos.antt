-- ===== src/Sdn/Onos.antt =====
-- miniupnpd/sdn/onosclient.c: the handlers that mongoose calls on a connection's events, and the loop
-- that polls until the handler is done. The events are arguments: those that `mg_http_connect`
-- delivers, and those of each `mg_mgr_poll`. `%u` and `%d` print decimal digits.
pub mod Exchange
pub mod Answered
use miniupnpd_sdn.Base.{
  ℕ, zero, suc, ◌+◌, ◌*◌, ◌-◌, ◌/◌, ◌%◌, ◌^◌, Bool, true, false, ◌&&◌, ◌||◌, List, [], ◌∷◌, ◌++◌,
  Option, none, some, Bytes, codes, ltb, leb, ◌==◌, if◌then◌else◌, length, take,
}
use miniupnpd_sdn.Base.Ints.{ℤ, pos, negsuc, int_eq}
use miniupnpd_sdn.Base.Options.{◌>>=◌}
use miniupnpd_sdn.Sdn.Json.{JsonC}
use miniupnpd_sdn.Sdn.Http.{
  HttpResponseCode, ok_200, badrequest_400, notfound_404, methodnotallowed_405, conflict_409,
  internalservererror_500, unknownerrorcode, HttpMessage, Connection, HttpOptions,
  get_http_remote_host_info, send_get_request, send_payload, retrieve_response_status,
}

pub data Event : Type 0 where
  mg_ev_connect : Event
  mg_ev_http_msg : HttpMessage → Event
  mg_ev_error mg_ev_close mg_ev_other : Event

abbrev pub Handler : Type 0 → Type 0
Handler D = Connection → Event → D → Connection × D

-- The events of one call into mongoose, in order.
unfoldable pub deliver : {D : Type 0} → Handler D → List Event → Connection × D → Connection × D
deliver h [] s = s
deliver h (e ∷ es) s = deliver h es (h s.0 e s.1)

-- `while(!done) mg_mgr_poll(&mgr, 1000);` gives `none` when it does not end.
unfoldable pub poll_loop :
    {D : Type 0}
    → Handler D
    → (D → Bool)
    → List (List Event)
    → Connection × D
    → Option (Connection × D)
poll_loop h done [] s = if done s.1 then some s else none
poll_loop h done (batch ∷ polls) s =
    let more = poll_loop h done polls (deliver h batch s) in if done s.1 then some s else more

-- What the network does in one exchange.
pub record Network : Type 0 where
  pub ip : ℕ
  pub port : ℕ
  pub connecting : List Event
  pub polls : List (List Event)

unfoldable pub exchange :
    {D : Type 0} → Handler D → (D → Bool) → Network → D → Option (Connection × D)
exchange h done net d = poll_loop h done net.polls (
    deliver h net.connecting
      (record { peer_ip = net.ip; peer_port = net.port; is_closing = false; sent = [] }, d))

abbrev pub check_alive : Handler Bool
check_alive c mg_ev_connect done = (
  send_get_request c (record { req_url = codes "/checkalive"; host = get_http_remote_host_info c }),
  done,
)
check_alive c (mg_ev_http_msg hm) done = (record c { is_closing = true }, true)
check_alive c mg_ev_error done = (c, true)
check_alive c mg_ev_close done = (c, true)
check_alive c mg_ev_other done = (c, done)

-- The function ends with 0 whether or not the controller answers.
unfoldable pub init_redirect : Network → Option (Connection × Bool)
init_redirect net = exchange check_alive (λ done. done) net false

module _ (json : JsonC) where
  pub record ConnRuntimeVars : Type 0 where
    pub request : json.Object
    pub response : json.Object
    pub response_code : HttpResponseCode
    pub done : Bool

  -- `{ .request = jobj, .done = false }` clears the other fields: NULL and OK_200.
  abbrev pub started : json.Object → ConnRuntimeVars
  started jobj = record {
    request = jobj;
    response = json.null;
    response_code = ok_200;
    done = false;
  }

  unfoldable pub send_get_request_with_payload : Connection → HttpOptions → json.Object → Connection
  send_get_request_with_payload c options payload =
      send_payload (codes "GET ") c options (json.to_json_string payload)

  unfoldable pub send_post_request : Connection → HttpOptions → json.Object → Connection
  send_post_request c options payload =
      send_payload (codes "POST ") c options (json.to_json_string payload)

  unfoldable pub send_delete_request : Connection → HttpOptions → json.Object → Connection
  send_delete_request c options payload =
      send_payload (codes "DELETE ") c options (json.to_json_string payload)

  abbrev pub retrieve_json_payload : HttpMessage → json.Object
  retrieve_json_payload hm = json.tokener_parse_ex hm.body

  -- The body that nine handlers share: `send` is their branch of MG_EV_CONNECT.
  abbrev pub on_onos_event :
      (Connection → HttpOptions → json.Object → Connection) → Bytes → Handler ConnRuntimeVars
  on_onos_event send url c mg_ev_connect d =
      (send c (record { req_url = url; host = get_http_remote_host_info c }) d.request, d)
  on_onos_event send url c (mg_ev_http_msg hm) d = (
    record c { is_closing = true },
    record d {
      response_code = retrieve_response_status hm;
      response = retrieve_json_payload hm;
      done = true;
    },
  )
  on_onos_event send url c mg_ev_error d = (c, record d { done = true })
  on_onos_event send url c mg_ev_close d = (c, record d { done = true })
  on_onos_event send url c mg_ev_other d = (c, d)

  abbrev pub without_payload : Connection → HttpOptions → json.Object → Connection
  without_payload c options jobj = send_get_request c options

  unfoldable pub onos_add_igd_port_mapping : Handler ConnRuntimeVars
  onos_add_igd_port_mapping = on_onos_event send_post_request (codes "/portmapping")

  unfoldable pub onos_get_ext_ip_addr : Handler ConnRuntimeVars
  onos_get_ext_ip_addr = on_onos_event without_payload (codes "/stats/extipaddr")

  unfoldable pub onos_get_igd_runtime_status : Handler ConnRuntimeVars
  onos_get_igd_runtime_status = on_onos_event without_payload (codes "/stats/iface")

  unfoldable pub onos_get_wan_connection_status : Handler ConnRuntimeVars
  onos_get_wan_connection_status = on_onos_event without_payload (codes "/stats/wanconnstatus")

  unfoldable pub onos_get_igd_port_mapping_by_index : Handler ConnRuntimeVars
  onos_get_igd_port_mapping_by_index =
      on_onos_event send_get_request_with_payload (codes "/portmapping/index")

  unfoldable pub onos_get_igd_port_mapping : Handler ConnRuntimeVars
  onos_get_igd_port_mapping = on_onos_event send_get_request_with_payload (codes "/portmapping")

  unfoldable pub onos_get_igd_port_mapping_range : Handler ConnRuntimeVars
  onos_get_igd_port_mapping_range =
      on_onos_event send_get_request_with_payload (codes "/portmapping/range")

  unfoldable pub onos_delete_igd_port_mapping : Handler ConnRuntimeVars
  onos_delete_igd_port_mapping = on_onos_event send_delete_request (codes "/portmapping")

  unfoldable pub onos_delete_igd_port_mapping_range : Handler ConnRuntimeVars
  onos_delete_igd_port_mapping_range =
      on_onos_event send_delete_request (codes "/portmapping/range")

  -- `mg_http_connect`, then the loop on `data.done`.
  unfoldable pub request_onos :
      Handler ConnRuntimeVars → Network → json.Object → Option ConnRuntimeVars
  request_onos h net jobj =
      let end = exchange h (λ d. d.done) net (started jobj) in (do s ← end; some s.1)
