-- ===== src/Sdn/Rules/Iface.antt =====
-- miniupnpd/sdn/iptcrdr.c: get_sdn_igd_iface_status gives the whole status or leaves it as it was.
use miniupnpd_sdn.Base.{
  ◌≡◌, ◌≢◌, refl, sym, ap, ◌∙◌, ◌⊎◌, inl, inr, Bool-cases, false, arith, Option, none, some, Bytes,
  codes,
}
use miniupnpd_sdn.Base.Ints.{ℤ, pos, int_eq, int_eq-≡, minus_one-zero}
use miniupnpd_sdn.Base.Options.{◌>>=◌, none-some}
use miniupnpd_sdn.Sdn.Json.{JsonC}
use miniupnpd_sdn.Sdn.Http.{
  HttpResponseCode, ok_200, badrequest_400, notfound_404, methodnotallowed_405, conflict_409,
  internalservererror_500, unknownerrorcode, HttpMessage, retrieve_response_status,
}
use miniupnpd_sdn.Sdn.Onos.{
  Network, ConnRuntimeVars, onos_get_igd_runtime_status, without_payload, retrieve_json_payload,
}
use miniupnpd_sdn.Sdn.Onos.Answered.{IsAnswer, request_onos-IsAnswer}
use miniupnpd_sdn.Sdn.Fields.{retrieve_string_from_json_obj}
use miniupnpd_sdn.Sdn.Rules.{IgdIfaceStatus, all_or_none, iface_status, get_sdn_igd_iface_status}
use miniupnpd_sdn.Sdn.Rules.Status.{if_ok, if_ok-zero}

all_or_none-some :
    (o : Option IgdIfaceStatus) (ret_data s : IgdIfaceStatus)
    → all_or_none o ret_data ≡ (pos 0, s)
    → o ≡ some s
all_or_none-some none ret_data s h = absurd (minus_one-zero (ap (λ r. r.0) h))
all_or_none-some (some s') ret_data s h = ap some (ap (λ r. r.1) h)

all_or_none-kept :
    (o : Option IgdIfaceStatus) (ret_data s : IgdIfaceStatus) (r : ℤ)
    → all_or_none o ret_data ≡ (r, s)
    → r ≢ pos 0
    → s ≡ ret_data
all_or_none-kept none ret_data s r h n = sym (ap (λ p. p.1) h)
all_or_none-kept (some s') ret_data s r h n = absurd (n (sym (ap (λ p. p.0) h)))

if_ok-kept :
    (code : HttpResponseCode) (o : Option IgdIfaceStatus) (ret_data s : IgdIfaceStatus) (r : ℤ)
    → if_ok code (all_or_none o ret_data) ret_data ≡ (r, s)
    → r ≢ pos 0
    → s ≡ ret_data
if_ok-kept ok_200 o ret_data s r h n = all_or_none-kept o ret_data s r h n
if_ok-kept badrequest_400 o ret_data s r h n = sym (ap (λ p. p.1) h)
if_ok-kept notfound_404 o ret_data s r h n = sym (ap (λ p. p.1) h)
if_ok-kept methodnotallowed_405 o ret_data s r h n = sym (ap (λ p. p.1) h)
if_ok-kept conflict_409 o ret_data s r h n = sym (ap (λ p. p.1) h)
if_ok-kept internalservererror_500 o ret_data s r h n = sym (ap (λ p. p.1) h)
if_ok-kept unknownerrorcode o ret_data s r h n = sym (ap (λ p. p.1) h)

nonzero : (r : ℤ) → int_eq r (pos 0) ≡ false → r ≡ pos 0 → ⊥
nonzero r b z = ground (arith, ap (λ x. int_eq x (pos 0)) z)

abbrev or_else : ℤ × IgdIfaceStatus → Option (ℤ × IgdIfaceStatus) → ℤ × IgdIfaceStatus
or_else r none = r
or_else r (some x) = x

module _ (json : JsonC) (ret_data : IgdIfaceStatus) where
  -- The answer that the data come from.
  pub record IsRead (net : Network) (s : IgdIfaceStatus) : Type 0 where
    pub hm : HttpMessage
    pub answer : IsAnswer net hm
    pub status_is : retrieve_response_status hm ≡ ok_200
    pub data_are : iface_status json (retrieve_json_payload json hm) ≡ some s

  abbrev result : ConnRuntimeVars json → ℤ × IgdIfaceStatus
  result d = if_ok d.response_code (all_or_none (iface_status json d.response) ret_data) ret_data

  bind-kept :
      (m : Option (ConnRuntimeVars json)) (s : IgdIfaceStatus) (r : ℤ)
      → (m >>= λ d. some (result d)) ≡ some (r, s)
      → r ≢ pos 0
      → s ≡ ret_data
  bind-kept none s r h n = absurd (none-some (r, s) h)
  bind-kept (some d) s r h n =
      if_ok-kept d.response_code (iface_status json d.response) ret_data s r (ap (or_else (r, s)) h)
        n

  module _ (no_fields : (key : Bytes) → json.object_get_ex json.null key ≡ none) where
    null_status : none ≡ iface_status json json.null
    unfolding iface_status retrieve_string_from_json_obj
    null_status = rw (no_fields (codes "iface_status")) refl

    -- Where a null response has no fields: get_sdn_igd_iface_status returns 0, the controller has
    -- answered with the status 200, and the data are the six fields of that answer; or it returns
    -- anything else, and the data are what they were.
    pub get_sdn_igd_iface_status-all_or_none :
        (net : Network) (r : ℤ) (s : IgdIfaceStatus)
        → get_sdn_igd_iface_status json net ret_data ≡ some (r, s)
        → ((r ≡ pos 0) × IsRead net s) ⊎ ((r ≢ pos 0) × (s ≡ ret_data))
    unfolding get_sdn_igd_iface_status onos_get_igd_runtime_status
    get_sdn_igd_iface_status-all_or_none net r s h = elim (Bool-cases (int_eq r (pos 0))) [
      | inl b ↦
          let z = int_eq-≡ r (pos 0) b in
          let a =
            request_onos-IsAnswer json (without_payload json) (codes "/stats/iface") json.null
              (ℤ × IgdIfaceStatus) result (pos 0, s) net
              (λ e. none-some s (null_status ∙ all_or_none-some _ ret_data s e))
              (h ∙ ap (λ x. some (x, s)) z) in
          let c = if_ok-zero (retrieve_response_status a.0) _ ret_data s a.2 in
          inl (
            z,
            record {
              hm = a.0;
              answer = a.1;
              status_is = c.0;
              data_are = all_or_none-some _ ret_data s c.1;
            },
          )
      | inr b ↦ let n : r ≢ pos 0 = λ z. nonzero r b z in inr (n, bind-kept _ s r h n)
    ]
