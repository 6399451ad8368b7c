-- ===== src/Sdn/Onos/Answered.antt =====
-- miniupnpd/sdn/iptcrdr.c: what an operation's result tells of the exchange that it rests on.
use miniupnpd_sdn.Base.{◌≡◌, refl, sym, ap, ◌∙◌, List, Option, none, some, Bytes, true}
use miniupnpd_sdn.Base.Options.{none-some, ◌>>=◌}
use miniupnpd_sdn.Sdn.Json.{JsonC}
use miniupnpd_sdn.Sdn.Http.{HttpMessage, Connection, HttpOptions}
use miniupnpd_sdn.Sdn.Onos.{Event, Network, ConnRuntimeVars, on_onos_event, request_onos}
use miniupnpd_sdn.Sdn.Onos.Exchange.{seen, last_message, vars_of, outcome, request_onos-seen}

-- The last answer that came before the loop ended.
pub record IsAnswer (net : Network) (hm : HttpMessage) : Type 0 where
  pub es : List Event
  pub seen_is : seen net.connecting net.polls ≡ some es
  pub message_is : last_message none es ≡ some hm

abbrev or_else : {R : Type 0} → R → Option R → R
or_else r none = r
or_else r (some x) = x

module _ (json : JsonC) (send : Connection → HttpOptions → json.Object → Connection) (url : Bytes)
    (jobj : json.Object) (R : Type 0) (k : ConnRuntimeVars json → R) (r : R) (net : Network) where
  message-IsAnswer :
      (es : List Event) (m : Option HttpMessage)
      → seen net.connecting net.polls ≡ some es
      → last_message none es ≡ m
      → (k (vars_of json jobj none true) ≡ r → ⊥)
      → k (vars_of json jobj m true) ≡ r
      → (hm : HttpMessage) × IsAnswer net hm × (k (vars_of json jobj (some hm) true) ≡ r)
  message-IsAnswer es none s e other h = absurd (other h)
  message-IsAnswer es (some hm) s e other h =
      (hm, record { es = es; seen_is = s; message_is = e }, h)

  seen-IsAnswer :
      (s : Option (List Event))
      → seen net.connecting net.polls ≡ s
      → (k (vars_of json jobj none true) ≡ r → ⊥)
      → (outcome json send url jobj s >>= λ d. some (k d)) ≡ some r
      → (hm : HttpMessage) × IsAnswer net hm × (k (vars_of json jobj (some hm) true) ≡ r)
  seen-IsAnswer none e other h = absurd (none-some r h)
  seen-IsAnswer (some es) e other h =
      message-IsAnswer es (last_message none es) e refl other (ap (or_else r) h)

  -- A result that no answer does not explain comes from an answer.
  pub request_onos-IsAnswer :
      (k (vars_of json jobj none true) ≡ r → ⊥)
      → (request_onos json (on_onos_event json send url) net jobj >>= λ d. some (k d)) ≡ some r
      → (hm : HttpMessage) × IsAnswer net hm × (k (vars_of json jobj (some hm) true) ≡ r)
  request_onos-IsAnswer other h =
      seen-IsAnswer (seen net.connecting net.polls) refl other
        (ap (λ m. m >>= λ d. some (k d)) (sym (request_onos-seen json send url jobj net)) ∙ h)
