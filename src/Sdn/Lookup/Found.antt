-- ===== src/Sdn/Lookup/Found.antt =====
-- miniupnpd/sdn/iptcrdr.c: get_redirect_rule, whose answers are about the rule that was asked for.
use miniupnpd_sdn.Base.{
  &&-true, ℕ, ◌≡◌, refl, sym, ap, ◌∙◌, inl, inr, true, not, ◌==◌, [], ◌∷◌, Option, none, some,
  Bytes, codes, if◌then◌else◌, Bool-cases, ==_iff, bytes_eq, arith,
}
use miniupnpd_sdn.Base.Ints.{minus_one-zero, ℤ, pos, negsuc, int_eq-≡}
use miniupnpd_sdn.Base.Options.{none-some}
use miniupnpd_sdn.Sdn.Json.{JsonC}
use miniupnpd_sdn.Sdn.Http.{
  HttpResponseCode, ok_200, badrequest_400, notfound_404, methodnotallowed_405, conflict_409,
  internalservererror_500, unknownerrorcode, HttpMessage, retrieve_response_status,
}
use miniupnpd_sdn.Sdn.Onos.{
  Network, onos_get_igd_port_mapping, send_get_request_with_payload, retrieve_json_payload,
}
use miniupnpd_sdn.Sdn.Onos.Answered.{IsAnswer, request_onos-IsAnswer}
use miniupnpd_sdn.Sdn.Fields.{
  retrieve_string_from_json_obj, retrieve_unsigned_int_from_json_obj,
  retrieve_port_number_from_json_obj, cmp_case_insensitive,
}
use miniupnpd_sdn.Sdn.Fields.PortRead.{PortRead, retrieve_port_number-PortRead}
use miniupnpd_sdn.Sdn.Descs.{strncpy}
use miniupnpd_sdn.Sdn.Rules.{is_ok, is_notfound, RuleOut}
use miniupnpd_sdn.Sdn.Lookup.{
  same_string, same_port, same_proto, write_found, rule_request, rule_reply, redirect_rule,
  get_redirect_rule,
}

bytes_eq-≡ : (s t : Bytes) → bytes_eq s t ≡ true → s ≡ t
bytes_eq-≡ [] [] h = refl
bytes_eq-≡ [] (y ∷ t) h = ground arith
bytes_eq-≡ (x ∷ s) [] h = ground arith
bytes_eq-≡ (x ∷ s) (y ∷ t) h =
    let both = &&-true (x == y) (bytes_eq s t) h in
    ap (λ z. z ∷ s) ((==_iff x y).0 both.0) ∙ ap (λ u. y ∷ u) (bytes_eq-≡ s t both.1)

same_string-some : (o : Option Bytes) (s : Bytes) → same_string o s ≡ true → o ≡ some s
unfolding same_string
same_string-some none s h = ground arith
same_string-some (some s') s h = ap some (bytes_eq-≡ s' s h)

same_port-some : (o : Option ℕ) (port : ℕ) → same_port o port ≡ true → o ≡ some port
unfolding same_port
same_port-some none port h = ground arith
same_port-some (some port') port h = ap some ((==_iff port' port).0 h)

same_proto-some :
    (o : Option Bytes) (proto : Bytes)
    → same_proto o proto ≡ true
    → (proto' : Bytes) × (o ≡ some proto') × (cmp_case_insensitive proto' proto ≡ pos 0)
unfolding same_proto
same_proto-some none proto h = ground arith
same_proto-some (some proto') proto h =
    (proto', refl, int_eq-≡ (cmp_case_insensitive proto' proto) (pos 0) h)

-- What get_redirect_rule has written when it returns 0: the response's own rhost is the one that was
-- asked for, so is the eport that is read in it, its proto is so up to cmpCaseInsensitive, and the
-- rest is copied.
pub record IsFound (json : JsonC) (stale stale' : ℤ) (response : json.Object) (eport : ℕ)
    (proto : Bytes) (iaddrlen desclen : ℕ) (rhost : Bytes) (out out' : RuleOut) : Type 0 where
  pub iaddr : Bytes
  pub proto' : Bytes
  pub rhost_is : retrieve_string_from_json_obj json response (codes "rhost") ≡ some rhost
  pub eport_is : PortRead json stale response (codes "eport") eport
  pub proto_is : retrieve_string_from_json_obj json response (codes "proto") ≡ some proto'
  pub proto_same : cmp_case_insensitive proto' proto ≡ pos 0
  pub iaddr_is : retrieve_string_from_json_obj json response (codes "iaddr") ≡ some iaddr
  pub iport_is : PortRead json stale' response (codes "iport") out'.iport
  pub lease_is :
      retrieve_unsigned_int_from_json_obj json response (codes "duration") ≡ some out'.leaseduration
  pub written : out' ≡ record out {
    iport = out'.iport;
    leaseduration = out'.leaseduration;
    iaddr = strncpy out.iaddr iaddr iaddrlen;
    desc = strncpy out.desc (codes "empty") desclen;
  }

-- The three values that write_found needs.
record IsWritten (iaddr? : Option Bytes) (iport? lease? : Option ℕ) (iaddrlen desclen : ℕ)
    (out out' : RuleOut) : Type 0 where
  pub iaddr : Bytes
  pub iaddr_is : iaddr? ≡ some iaddr
  pub iport_is : iport? ≡ some out'.iport
  pub lease_is : lease? ≡ some out'.leaseduration
  pub written : out' ≡ record out {
    iport = out'.iport;
    leaseduration = out'.leaseduration;
    iaddr = strncpy out.iaddr iaddr iaddrlen;
    desc = strncpy out.desc (codes "empty") desclen;
  }

failed : (out out' : RuleOut) → ◌≡◌ {A = ℤ × RuleOut} (negsuc 0, out) (pos 0, out') → ⊥
failed out out' h = absurd (minus_one-zero (ap (λ r. r.0) h))

abbrev or_failed : RuleOut → Option (ℤ × RuleOut) → ℤ × RuleOut
or_failed out none = (negsuc 0, out)
or_failed out (some r) = r

write_found-IsWritten :
    (iaddr? : Option Bytes) (iport? lease? : Option ℕ) (iaddrlen desclen : ℕ) (out out' : RuleOut)
    → write_found iaddr? iport? lease? iaddrlen desclen out ≡ (pos 0, out')
    → IsWritten iaddr? iport? lease? iaddrlen desclen out out'
unfolding write_found
write_found-IsWritten none iport lease n m out out' h = absurd (failed _ _ h)
write_found-IsWritten (some iaddr) none lease n m out out' h = absurd (failed _ _ h)
write_found-IsWritten (some iaddr) (some iport) none n m out out' h = absurd (failed _ _ h)
write_found-IsWritten (some iaddr) (some iport) (some lease) n m out out' h =
    let e = ap (λ r. r.1) h in
    record {
      iaddr = iaddr;
      iaddr_is = refl;
      iport_is = ap (λ o. some o.iport) e;
      lease_is = ap (λ o. some o.leaseduration) e;
      written =
          sym e
          ∙ ap
              (λ o. record out {
                iport = o.iport;
                leaseduration = o.leaseduration;
                iaddr = strncpy out.iaddr iaddr n;
                desc = strncpy out.desc (codes "empty") m;
              })
              e;
    }

module _ (json : JsonC) (stale stale' : ℤ) (eport : ℕ) (proto : Bytes) (iaddrlen desclen : ℕ)
    (rhost : Bytes) (out out' : RuleOut) where
  rule_reply-IsFound :
      (response : json.Object)
      → rule_reply json stale stale' response eport proto iaddrlen desclen rhost out ≡ (pos 0, out')
      → IsFound json stale stale' response eport proto iaddrlen desclen rhost out out'
  unfolding rule_reply
  rule_reply-IsFound response h =
      let r? = retrieve_string_from_json_obj json response (codes "rhost") in
      let e? = retrieve_port_number_from_json_obj json stale response (codes "eport") in
      let p? = retrieve_string_from_json_obj json response (codes "proto") in
      elim (Bool-cases (same_string r? rhost)) [
        | inr e ↦ absurd (failed out out' (rw e at h))
        | inl e ↦ elim (Bool-cases (same_port e? eport)) [
          | inr f ↦ absurd (failed out out' (rw (e, f) at h))
          | inl f ↦ elim (Bool-cases (same_proto p? proto)) [
            | inr g ↦ absurd (failed out out' (rw (e, f, g) at h))
            | inl g ↦
                let w = write_found-IsWritten _ _ _ iaddrlen desclen out out' (rw (e, f, g) at h) in
                let p = same_proto-some p? proto g in
                record {
                  iaddr = w.iaddr;
                  proto' = p.0;
                  rhost_is = same_string-some r? rhost e;
                  eport_is =
                      retrieve_port_number-PortRead json stale response (codes "eport") eport
                        (same_port-some e? eport f);
                  proto_is = p.1;
                  proto_same = p.2;
                  iaddr_is = w.iaddr_is;
                  iport_is =
                      retrieve_port_number-PortRead json stale' response (codes "iport") out'.iport
                        w.iport_is;
                  lease_is = w.lease_is;
                  written = w.written;
                }
          ]
        ]
      ]

  abbrev reply_of : HttpResponseCode → json.Object → ℤ × RuleOut
  reply_of code response =
      if is_notfound code
      then (negsuc 0, out)
      else if not (is_ok code)
      then (negsuc 0, out)
      else rule_reply json stale stale' response eport proto iaddrlen desclen rhost out

  reply_of-ok :
      (code : HttpResponseCode) (response : json.Object)
      → reply_of code response ≡ (pos 0, out')
      → (code ≡ ok_200)
        × (rule_reply json stale stale' response eport proto iaddrlen desclen rhost out
            ≡ (pos 0, out'))
  reply_of-ok ok_200 response h = (refl, h)
  reply_of-ok badrequest_400 response h = absurd (failed out out' h)
  reply_of-ok notfound_404 response h = absurd (failed out out' h)
  reply_of-ok methodnotallowed_405 response h = absurd (failed out out' h)
  reply_of-ok conflict_409 response h = absurd (failed out out' h)
  reply_of-ok internalservererror_500 response h = absurd (failed out out' h)
  reply_of-ok unknownerrorcode response h = absurd (failed out out' h)

  module _ (no_fields : (key : Bytes) → json.object_get_ex json.null key ≡ none) where
    null_string : (key : Bytes) → retrieve_string_from_json_obj json json.null key ≡ none
    unfolding retrieve_string_from_json_obj
    null_string key = rw (no_fields key) refl

    no_answer :
        rule_reply json stale stale' json.null eport proto iaddrlen desclen rhost out
          ≡ (pos 0, out')
        → ⊥
    no_answer h =
        none-some rhost
          (sym (null_string (codes "rhost")) ∙ (rule_reply-IsFound json.null h).rhost_is)

    redirect_rule-IsFound :
        (net : Network) (o : Option json.Object)
        → redirect_rule json stale stale' net o eport proto iaddrlen desclen rhost out
          ≡ some (pos 0, out')
        → (hm : HttpMessage) × IsAnswer net hm
          × (retrieve_response_status hm ≡ ok_200)
          × IsFound json stale stale'
              (retrieve_json_payload json hm)
              eport
              proto
              iaddrlen
              desclen
              rhost
              out
              out'
    unfolding redirect_rule onos_get_igd_port_mapping
    redirect_rule-IsFound net none h = absurd (failed out out' (ap (or_failed out) h))
    redirect_rule-IsFound net (some jobj) h =
        let a =
          request_onos-IsAnswer json (send_get_request_with_payload json) (codes "/portmapping")
            jobj (ℤ × RuleOut) (λ d. reply_of d.response_code d.response) (pos 0, out') net
            no_answer h in
        let z = reply_of-ok (retrieve_response_status a.0) (retrieve_json_payload json a.0) a.2 in
        (a.0, a.1, z.0, rule_reply-IsFound (retrieve_json_payload json a.0) z.1)

    -- Where a null response has no fields and get_redirect_rule returns 0, the controller has
    -- answered with the status 200, and with a rule that has the rhost that was asked for and, up to
    -- cmpCaseInsensitive, the proto. The address and the lease that are written are that rule's. The
    -- rule's eport is the one that was asked for and its iport the one that is written where they are
    -- integers from 0 to 65535; another integer counts as cut to 16 bits, and where there is none the
    -- variable's old value does, if that is no port.
    pub get_redirect_rule-IsFound :
        (net : Network)
        → get_redirect_rule json stale stale' net eport proto iaddrlen desclen rhost out
          ≡ some (pos 0, out')
        → (hm : HttpMessage) × IsAnswer net hm
          × (retrieve_response_status hm ≡ ok_200)
          × IsFound json stale stale'
              (retrieve_json_payload json hm)
              eport
              proto
              iaddrlen
              desclen
              rhost
              out
              out'
    unfolding get_redirect_rule
    get_redirect_rule-IsFound net h =
        redirect_rule-IsFound net (rule_request json rhost eport proto) h
