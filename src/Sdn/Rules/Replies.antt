-- ===== src/Sdn/Rules/Replies.antt =====
-- miniupnpd/sdn/iptcrdr.c: a port mapping counts as added only where the controller said so.
use miniupnpd_sdn.Base.{
  ℕ, ◌≡◌, ◌⊎◌, refl, sym, ap, ◌∙◌, inl, inr, Bool, true, false, not, List, Option, none, some,
  Bytes, codes, if◌then◌else◌, Bool-cases, arith,
}
use miniupnpd_sdn.Base.Ints.{ℤ, pos, negsuc, int_eq, int_eq-≡}
use miniupnpd_sdn.Base.Options.{none-some, ◌>>=◌, bind_some-bind_some}
use miniupnpd_sdn.Sdn.Json.{JsonC}
use miniupnpd_sdn.Sdn.Http.{
  HttpResponseCode, ok_200, badrequest_400, notfound_404, methodnotallowed_405, conflict_409,
  internalservererror_500, unknownerrorcode, HttpMessage, retrieve_response_status,
}
use miniupnpd_sdn.Sdn.Onos.{
  Event, Network, ConnRuntimeVars, request_onos, onos_add_igd_port_mapping, retrieve_json_payload,
  send_post_request,
}
use miniupnpd_sdn.Sdn.Onos.Exchange.{seen, last_message, vars_of, outcome, request_onos-seen}
use miniupnpd_sdn.Sdn.Fields.{retrieve_int_from_json_obj}
use miniupnpd_sdn.Sdn.Rules.{
  add_request, add_reply, add_rules, add_result, add_redirect_and_filter_rules, is_ok, is_conflict,
}

nonzero : (b c : Bool) → (if b then negsuc 3 else if c then negsuc 1 else negsuc 0) ≡ pos 0 → ⊥
nonzero true c h = ground arith
nonzero false true h = ground arith
nonzero false false h = ground arith

add_result-zero : (r : ℤ) → add_result r ≡ pos 0 → (r ≡ pos 0) ⊎ (r ≡ pos 1)
unfolding add_result
add_result-zero r h = elim (Bool-cases (int_eq r (pos 1))) [
  | inl e ↦ inr (int_eq-≡ r (pos 1) e)
  | inr e ↦ elim (Bool-cases (int_eq r (pos 0))) [
    | inl f ↦ inl (int_eq-≡ r (pos 0) f)
    | inr f ↦ absurd (nonzero (int_eq r (negsuc 1)) (int_eq r (negsuc 2)) (rw (e, f) at h))
  ]
]

abbrev or_minus_one : Option ℤ → ℤ
or_minus_one none = negsuc 0
or_minus_one (some r) = r

abbrev pub Accepts : Option ℤ → Type 0
Accepts ret_code = (ret_code ≡ some (pos 0)) ⊎ (ret_code ≡ some (pos 1))

module _ (json : JsonC) (stale : ℤ) where
  -- What the network has brought when the loop ends: an answer with the status 200 and the return
  -- code 0 or 1.
  pub record IsAdded (net : Network) : Type 0 where
    pub es : List Event
    pub hm : HttpMessage
    pub seen_is : seen net.connecting net.polls ≡ some es
    pub message_is : last_message none es ≡ some hm
    pub status_is : retrieve_response_status hm ≡ ok_200
    pub code_is :
        Accepts
          (retrieve_int_from_json_obj json (retrieve_json_payload json hm) (codes "return_code"))

  abbrev code_result : HttpResponseCode → json.Object → Option ℤ → ℤ × Option ℕ
  code_result code response ret_code =
      if is_conflict code
      then (negsuc 2, none)
      else if not (is_ok code)
      then (negsuc 0, none)
      else add_reply json stale response ret_code

  add_reply-zero :
      (response : json.Object) (o : Option ℤ)
      → add_result (add_reply json stale response o).0 ≡ pos 0
      → Accepts o
  unfolding add_reply add_result
  add_reply-zero response none h = ground arith
  add_reply-zero response (some r) h = elim (Bool-cases (int_eq r (pos 0))) [
    | inl e ↦ inl (ap some (int_eq-≡ r (pos 0) e))
    | inr e ↦ elim (add_result-zero r (rw e at h)) [
      | inl f ↦ inl (ap some f)
      | inr f ↦ inr (ap some f)
    ]
  ]

  code_result-zero :
      (code : HttpResponseCode) (response : json.Object) (o : Option ℤ)
      → add_result (code_result code response o).0 ≡ pos 0
      → (code ≡ ok_200) × Accepts o
  unfolding add_result
  code_result-zero ok_200 response o h = (refl, add_reply-zero response o h)
  code_result-zero badrequest_400 response o h = ground arith
  code_result-zero notfound_404 response o h = ground arith
  code_result-zero methodnotallowed_405 response o h = ground arith
  code_result-zero conflict_409 response o h = ground arith
  code_result-zero internalservererror_500 response o h = ground arith
  code_result-zero unknownerrorcode response o h = ground arith

  abbrev vars_result : ConnRuntimeVars json → ℤ
  vars_result d =
      add_result
        (code_result d.response_code d.response
          (retrieve_int_from_json_obj json d.response (codes "return_code"))).0

  module _ (no_fields : (key : Bytes) → json.object_get_ex json.null key ≡ none) where
    null_int : (key : Bytes) → retrieve_int_from_json_obj json json.null key ≡ none
    unfolding retrieve_int_from_json_obj
    null_int key = rw (no_fields key) refl

    message-IsAdded :
        (net : Network) (jobj : json.Object) (es : List Event) (m : Option HttpMessage)
        → seen net.connecting net.polls ≡ some es
        → last_message none es ≡ m
        → vars_result (vars_of json jobj m true) ≡ pos 0
        → IsAdded net
    message-IsAdded net jobj es none s e h =
        elim (rw (null_int (codes "return_code")) at (
          add_reply-zero json.null (retrieve_int_from_json_obj json json.null (codes "return_code"))
            h)) [ inl f ↦ absurd (none-some (pos 0) f) | inr f ↦ absurd (none-some (pos 1) f) ]
    message-IsAdded net jobj es (some hm) s e h =
        let z =
          code_result-zero (retrieve_response_status hm) (retrieve_json_payload json hm) _ h in
        record { es = es; hm = hm; seen_is = s; message_is = e; status_is = z.0; code_is = z.1 }

    seen-IsAdded :
        (net : Network) (jobj : json.Object) (s : Option (List Event))
        → seen net.connecting net.polls ≡ s
        → or_minus_one (
            outcome json (send_post_request json) (codes "/portmapping") jobj s >>= λ d.
            some (vars_result d))
          ≡ pos 0
        → IsAdded net
    seen-IsAdded net jobj none e h = ground arith
    seen-IsAdded net jobj (some es) e h =
        message-IsAdded net jobj es (last_message none es) e refl h

    rules-IsAdded :
        (net : Network) (o : Option json.Object)
        → or_minus_one (add_rules json stale net o >>= λ r. some (add_result r.0)) ≡ pos 0
        → IsAdded net
    unfolding add_rules add_result onos_add_igd_port_mapping
    rules-IsAdded net none h = ground arith
    rules-IsAdded net (some jobj) h = seen-IsAdded net jobj (seen net.connecting net.polls) refl (
        ap (λ m. or_minus_one (m >>= λ d. some (vars_result d)))
          (sym (request_onos-seen json (send_post_request json) (codes "/portmapping") jobj net))
        ∙ ap or_minus_one (
            sym (
              bind_some-bind_some (request_onos json (onos_add_igd_port_mapping json) net jobj)
                (λ d.
                  code_result d.response_code d.response
                    (retrieve_int_from_json_obj json d.response (codes "return_code")))
                (λ r. add_result r.0)))
        ∙ h)

    -- Where a null response has no fields, add_redirect_and_filter_rules returns 0 only if the
    -- controller has answered with the status 200 and the return code 0 or 1.
    pub add_redirect_and_filter_rules-IsAdded :
        (net : Network) (rhost : Bytes) (eport : ℕ) (iaddr : Bytes) (iport : ℕ) (proto : Bytes)
        (duration : ℕ)
        → add_redirect_and_filter_rules json stale net rhost eport iaddr iport proto duration
          ≡ some (pos 0)
        → IsAdded net
    unfolding add_redirect_and_filter_rules
    add_redirect_and_filter_rules-IsAdded net rhost eport iaddr iport proto duration h =
        rules-IsAdded net (add_request json rhost eport iaddr iport proto duration none)
          (ap or_minus_one h)
