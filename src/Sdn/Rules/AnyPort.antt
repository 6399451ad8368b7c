-- ===== src/Sdn/Rules/AnyPort.antt =====
-- miniupnpd/sdn/iptcrdr.c: add_any_redirect_and_filter_rules, and the port that it writes.
use miniupnpd_sdn.Base.{
  ℕ, ◌≡◌, refl, sym, ap, ◌∙◌, inl, inr, not, List, Option, none, some, Bytes, codes, if◌then◌else◌,
  Bool-cases, arith,
}
use miniupnpd_sdn.Base.Ints.{minus_one-zero, ℤ, pos, negsuc, int_eq, int_eq-≡}
use miniupnpd_sdn.Base.Options.{none-some, ◌>>=◌, bind_some-bind_some}
use miniupnpd_sdn.Sdn.Json.{JsonC}
use miniupnpd_sdn.Sdn.Http.{
  HttpResponseCode, ok_200, badrequest_400, notfound_404, methodnotallowed_405, conflict_409,
  internalservererror_500, unknownerrorcode, HttpMessage, retrieve_response_status,
}
use miniupnpd_sdn.Sdn.Onos.{
  Network, ConnRuntimeVars, request_onos, onos_add_igd_port_mapping, retrieve_json_payload,
  send_post_request,
}
use miniupnpd_sdn.Sdn.Onos.Answered.{IsAnswer, request_onos-IsAnswer}
use miniupnpd_sdn.Sdn.Fields.{retrieve_int_from_json_obj, retrieve_port_number_from_json_obj}
use miniupnpd_sdn.Sdn.Fields.PortRead.{PortRead, retrieve_port_number-PortRead}
use miniupnpd_sdn.Sdn.Rules.{
  PortRange, add_request, add_reply, add_rules, port_result, add_any_result,
  add_any_redirect_and_filter_rules, is_ok, is_conflict,
}

one_zero : pos 1 ≡ pos 0 → ⊥
one_zero e = ground arith

abbrev or_none : Option (ℤ × ℕ) → ℤ × ℕ
or_none none = (negsuc 0, 0)
or_none (some r) = r

-- `*ret` is changed only where a port was read.
no_port : (r : ℤ) (ret port : ℕ) → add_any_result (r, none) ret ≡ (pos 0, port) → ⊥
unfolding add_any_result
no_port r ret port h = elim (Bool-cases (int_eq r (negsuc 2))) [
  | inl e ↦ one_zero (ap (λ p. p.0) (rw e at h))
  | inr e ↦ minus_one-zero (ap (λ p. p.0) (rw e at h))
]

port_result-some :
    (o : Option ℕ) (ret port : ℕ)
    → add_any_result (port_result o) ret ≡ (pos 0, port)
    → o ≡ some port
unfolding port_result add_any_result
port_result-some none ret port h = absurd (minus_one-zero (ap (λ p. p.0) h))
port_result-some (some p) ret port h = ap some (ap (λ q. q.1) h)

-- The answer that a port comes from.
pub record IsPortOf (json : JsonC) (stale : ℤ) (net : Network) (port : ℕ) : Type 0 where
  pub hm : HttpMessage
  pub answer : IsAnswer net hm
  pub status_is : retrieve_response_status hm ≡ ok_200
  pub code_is :
      retrieve_int_from_json_obj json (retrieve_json_payload json hm) (codes "return_code")
      ≡ some (pos 0)
  pub port_is : PortRead json stale (retrieve_json_payload json hm) (codes "eport") port

module _ (json : JsonC) (stale : ℤ) (ret port : ℕ) where
  add_reply-port :
      (response : json.Object) (o : Option ℤ)
      → add_any_result (add_reply json stale response o) ret ≡ (pos 0, port)
      → (o ≡ some (pos 0))
        × (retrieve_port_number_from_json_obj json stale response (codes "eport") ≡ some port)
  unfolding add_reply
  add_reply-port response none h = absurd (no_port (negsuc 0) ret port h)
  add_reply-port response (some r) h = elim (Bool-cases (int_eq r (pos 0))) [
    | inl e ↦ (ap some (int_eq-≡ r (pos 0) e), port_result-some _ ret port (rw e at h))
    | inr e ↦ absurd (no_port r ret port (rw e at h))
  ]

  abbrev code_result : HttpResponseCode → json.Object → Option ℤ → ℤ × Option ℕ
  code_result code response ret_code =
      if is_conflict code
      then (negsuc 2, none)
      else if not (is_ok code)
      then (negsuc 0, none)
      else add_reply json stale response ret_code

  code_result-port :
      (code : HttpResponseCode) (response : json.Object) (o : Option ℤ)
      → add_any_result (code_result code response o) ret ≡ (pos 0, port)
      → (code ≡ ok_200)
        × (o ≡ some (pos 0))
        × (retrieve_port_number_from_json_obj json stale response (codes "eport") ≡ some port)
  code_result-port ok_200 response o h = let a = add_reply-port response o h in (refl, a.0, a.1)
  code_result-port badrequest_400 response o h = absurd (no_port _ ret port h)
  code_result-port notfound_404 response o h = absurd (no_port _ ret port h)
  code_result-port methodnotallowed_405 response o h = absurd (no_port _ ret port h)
  code_result-port conflict_409 response o h = absurd (no_port _ ret port h)
  code_result-port internalservererror_500 response o h = absurd (no_port _ ret port h)
  code_result-port unknownerrorcode response o h = absurd (no_port _ ret port h)

  abbrev vars_result : ConnRuntimeVars json → ℤ × Option ℕ
  vars_result d =
      code_result d.response_code d.response
        (retrieve_int_from_json_obj json d.response (codes "return_code"))

  module _ (no_fields : (key : Bytes) → json.object_get_ex json.null key ≡ none) where
    null_int : (key : Bytes) → none ≡ retrieve_int_from_json_obj json json.null key
    unfolding retrieve_int_from_json_obj
    null_int key = rw (no_fields key) refl

    rules-port :
        (net : Network) (o : Option json.Object)
        → (add_rules json stale net o >>= λ r. some (add_any_result r ret)) ≡ some (pos 0, port)
        → IsPortOf json stale net port
    unfolding add_rules onos_add_igd_port_mapping
    rules-port net none h = absurd (no_port (negsuc 0) ret port (ap or_none h))
    rules-port net (some jobj) h =
        let a =
          request_onos-IsAnswer json (send_post_request json) (codes "/portmapping") jobj (ℤ × ℕ)
            (λ d. add_any_result (vars_result d) ret) (pos 0, port) net
            (λ e. none-some (pos 0) (
              null_int (codes "return_code")
              ∙ (add_reply-port json.null
                  (retrieve_int_from_json_obj json json.null (codes "return_code")) e).0))
            (sym (
                bind_some-bind_some (request_onos json (onos_add_igd_port_mapping json) net jobj)
                  vars_result (λ r. add_any_result r ret))
              ∙ h) in
        let z =
          code_result-port (retrieve_response_status a.0) (retrieve_json_payload json a.0) _ a.2 in
        record {
          hm = a.0;
          answer = a.1;
          status_is = z.0;
          code_is = z.1;
          port_is = retrieve_port_number-PortRead json stale _ (codes "eport") port z.2;
        }

    -- Where a null response has no fields and add_any_redirect_and_filter_rules returns 0, the
    -- controller has answered with the status 200 and the return code 0, and the port that is written
    -- is the answer's eport where that is an integer from 0 to 65535; another integer is cut to 16
    -- bits, and so is the variable's old value, one that is no port, where there is no integer.
    pub add_any_redirect_and_filter_rules-IsPortOf :
        (net : Network) (rhost : Bytes) (eport : ℕ) (iaddr : Bytes) (iport : ℕ) (proto : Bytes)
        (duration : ℕ) (allowed : Option (List PortRange))
        → add_any_redirect_and_filter_rules json stale net rhost eport iaddr iport proto duration
            allowed ret
          ≡ some (pos 0, port)
        → IsPortOf json stale net port
    unfolding add_any_redirect_and_filter_rules
    add_any_redirect_and_filter_rules-IsPortOf net rhost eport iaddr iport proto duration allowed
          h =
        rules-port net (add_request json rhost eport iaddr iport proto duration allowed) h
