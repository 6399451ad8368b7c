-- ===== src/Sdn/Lookup/Deleted.antt =====
-- miniupnpd/sdn/iptcrdr.c: delete_redirect_and_filter_rules, by what the network brings.
use miniupnpd_sdn.Base.{
  ℕ, ◌≡◌, refl, ap, List, Option, none, some, Bytes, codes, if◌then◌else◌, not,
}
use miniupnpd_sdn.Base.Ints.{ℤ, pos, negsuc}
use miniupnpd_sdn.Sdn.Json.{JsonC}
use miniupnpd_sdn.Sdn.Http.{
  HttpResponseCode, ok_200, badrequest_400, notfound_404, methodnotallowed_405, conflict_409,
  internalservererror_500, unknownerrorcode, HttpMessage, retrieve_response_status,
}
use miniupnpd_sdn.Sdn.Onos.{Event, Network, onos_delete_igd_port_mapping, send_delete_request}
use miniupnpd_sdn.Sdn.Onos.Exchange.{seen, last_message, request_onos-seen}
use miniupnpd_sdn.Sdn.Rules.{is_ok, is_notfound}
use miniupnpd_sdn.Sdn.Lookup.{rule_request, delete_rule, delete_redirect_and_filter_rules}

-- 0 for no answer at all, and for the status 200.
abbrev pub delete_code : Option HttpMessage → ℤ
delete_code none = pos 0
delete_code (some hm) = if is_ok (retrieve_response_status hm) then pos 0 else negsuc 0

delete_test :
    (code : HttpResponseCode)
    → (if is_notfound code then negsuc 0 else if not (is_ok code) then negsuc 0 else pos 0)
      ≡ (if is_ok code then pos 0 else negsuc 0)
delete_test ok_200 = refl
delete_test badrequest_400 = refl
delete_test notfound_404 = refl
delete_test methodnotallowed_405 = refl
delete_test conflict_409 = refl
delete_test internalservererror_500 = refl
delete_test unknownerrorcode = refl

module _ (json : JsonC) where
  delete_rule-delete_code :
      (net : Network) (jobj : json.Object) (es : List Event) (m : Option HttpMessage)
      → seen net.connecting net.polls ≡ some es
      → last_message none es ≡ m
      → delete_rule json net (some jobj) ≡ some (delete_code m)
  unfolding delete_rule onos_delete_igd_port_mapping
  delete_rule-delete_code net jobj es none s e =
      rw (request_onos-seen json (send_delete_request json) (codes "/portmapping") jobj net, s, e)
        refl
  delete_rule-delete_code net jobj es (some hm) s e =
      rw (request_onos-seen json (send_delete_request json) (codes "/portmapping") jobj net, s, e)
        (ap some (delete_test (retrieve_response_status hm)))

  -- Where the request is built and the loop ends, delete_redirect_and_filter_rules returns 0 if the
  -- last answer has the status 200, and -1 if it has another one; but it also returns 0 where the
  -- connection failed or was closed with no answer.
  pub delete_redirect_and_filter_rules-delete_code :
      (net : Network) (rhost : Bytes) (eport : ℕ) (proto : Bytes) (jobj : json.Object)
      (es : List Event)
      → rule_request json rhost eport proto ≡ some jobj
      → seen net.connecting net.polls ≡ some es
      → delete_redirect_and_filter_rules json net rhost eport proto
        ≡ some (delete_code (last_message none es))
  unfolding delete_redirect_and_filter_rules
  delete_redirect_and_filter_rules-delete_code net rhost eport proto jobj es h s =
      rw h (delete_rule-delete_code net jobj es (last_message none es) s refl)
