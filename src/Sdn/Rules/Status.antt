-- ===== src/Sdn/Rules/Status.antt =====
-- miniupnpd/sdn/iptcrdr.c: the external address and the status of the interface, as far as they come
-- from an answer of the controller.
use miniupnpd_sdn.Base.{
  ℕ, ◌-◌, ◌≤◌, ◌≡◌, refl, sym, ap, ◌∙◌, inl, inr, not, ◌++◌, Option, none, some, Bytes, codes, leb,
  if◌then◌else◌, length, drop, replicate, Bool-cases, arith,
}
use miniupnpd_sdn.Base.Ints.{minus_one-zero, ℤ, pos, negsuc}
use miniupnpd_sdn.Base.Options.{none-some}
use miniupnpd_sdn.Sdn.Json.{JsonC}
use miniupnpd_sdn.Sdn.Http.{
  HttpResponseCode, ok_200, badrequest_400, notfound_404, methodnotallowed_405, conflict_409,
  internalservererror_500, unknownerrorcode, HttpMessage, retrieve_response_status,
}
use miniupnpd_sdn.Sdn.Onos.{Network, onos_get_ext_ip_addr, without_payload, retrieve_json_payload}
use miniupnpd_sdn.Sdn.Onos.Answered.{IsAnswer, request_onos-IsAnswer}
use miniupnpd_sdn.Sdn.Fields.{retrieve_string_from_json_obj}
use miniupnpd_sdn.Sdn.Descs.Newest.{strncpy_fits}
use miniupnpd_sdn.Sdn.Rules.{is_ok, copy_ip, get_sdn_igd_external_ip_addr}

module _ {A : Type 0} where
  abbrev pub if_ok : HttpResponseCode → ℤ × A → A → ℤ × A
  if_ok code r a = if not (is_ok code) then (negsuc 0, a) else r

  pub if_ok-zero :
      (code : HttpResponseCode) (r : ℤ × A) (a b : A)
      → if_ok code r a ≡ (pos 0, b)
      → (code ≡ ok_200) × (r ≡ (pos 0, b))
  if_ok-zero ok_200 r a b h = (refl, h)
  if_ok-zero badrequest_400 r a b h = absurd (minus_one-zero (ap (λ r. r.0) h))
  if_ok-zero notfound_404 r a b h = absurd (minus_one-zero (ap (λ r. r.0) h))
  if_ok-zero methodnotallowed_405 r a b h = absurd (minus_one-zero (ap (λ r. r.0) h))
  if_ok-zero conflict_409 r a b h = absurd (minus_one-zero (ap (λ r. r.0) h))
  if_ok-zero internalservererror_500 r a b h = absurd (minus_one-zero (ap (λ r. r.0) h))
  if_ok-zero unknownerrorcode r a b h = absurd (minus_one-zero (ap (λ r. r.0) h))

-- The address that is copied, with the zeros behind it.
pub record IsCopied (ip? : Option Bytes) (ret_addr : Bytes) (max_len : ℕ) (buf : Bytes)
    : Type 0 where
  pub ip : Bytes
  pub ip_is : ip? ≡ some ip
  pub ip_fits : length ip ≤ max_len
  pub copied : buf ≡ (ip ++ replicate (max_len - length ip) 0) ++ drop max_len ret_addr

copy_ip-IsCopied :
    (ip? : Option Bytes) (ret_addr buf : Bytes) (max_len : ℕ)
    → copy_ip ip? ret_addr max_len ≡ (pos 0, buf)
    → IsCopied ip? ret_addr max_len buf
unfolding copy_ip
copy_ip-IsCopied none ret_addr buf max_len h = absurd (minus_one-zero (ap (λ r. r.0) h))
copy_ip-IsCopied (some ip) ret_addr buf max_len h = elim (Bool-cases (leb (length ip) max_len)) [
  | inl e ↦
      let fits : length ip ≤ max_len = ground arith in
      record {
        ip = ip;
        ip_is = refl;
        ip_fits = fits;
        copied = sym (ap (λ r. r.1) (rw e at h)) ∙ strncpy_fits ret_addr ip max_len fits;
      }
  | inr e ↦ absurd (minus_one-zero (ap (λ r. r.0) (rw e at h)))
]

module _ (json : JsonC) (no_fields : (key : Bytes) → json.object_get_ex json.null key ≡ none)
    (net : Network) (ret_addr buf : Bytes) (max_len : ℕ) where
  null_string : (key : Bytes) → retrieve_string_from_json_obj json json.null key ≡ none
  unfolding retrieve_string_from_json_obj
  null_string key = rw (no_fields key) refl

  no_copy :
      copy_ip (retrieve_string_from_json_obj json json.null (codes "ext_ip_addr")) ret_addr max_len
        ≡ (pos 0, buf)
      → ⊥
  no_copy h =
      none-some _ (
        sym (null_string (codes "ext_ip_addr")) ∙ (copy_ip-IsCopied _ ret_addr buf max_len h).ip_is)

  -- Where a null response has no fields and get_sdn_igd_external_ip_addr returns 0, the controller has
  -- answered with the status 200 and an address of at most `max_len` bytes; it stands in the buffer,
  -- filled up to `max_len` with zeros, so an address of just `max_len` bytes has no terminator.
  pub get_sdn_igd_external_ip_addr-IsCopied :
      get_sdn_igd_external_ip_addr json net ret_addr max_len ≡ some (pos 0, buf)
      → (hm : HttpMessage) × IsAnswer net hm
        × (retrieve_response_status hm ≡ ok_200)
        × IsCopied
            (retrieve_string_from_json_obj json
              (retrieve_json_payload json hm)
              (codes "ext_ip_addr"))
            ret_addr
            max_len
            buf
  unfolding get_sdn_igd_external_ip_addr onos_get_ext_ip_addr
  get_sdn_igd_external_ip_addr-IsCopied h =
      let ip? = λ (response : json.Object).
        retrieve_string_from_json_obj json response (codes "ext_ip_addr") in
      let a =
        request_onos-IsAnswer json (without_payload json) (codes "/stats/extipaddr") json.null
          (ℤ × Bytes)
          (λ d. if_ok d.response_code (copy_ip (ip? d.response) ret_addr max_len) ret_addr)
          (pos 0, buf) net no_copy h in
      let z =
        if_ok-zero (retrieve_response_status a.0)
          (copy_ip (ip? (retrieve_json_payload json a.0)) ret_addr max_len) ret_addr buf a.2 in
      (a.0, a.1, z.0, copy_ip-IsCopied _ ret_addr buf max_len z.1)
