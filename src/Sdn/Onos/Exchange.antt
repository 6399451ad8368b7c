-- ===== src/Sdn/Onos/Exchange.antt =====
-- miniupnpd/sdn/onosclient.c and the loops of iptcrdr.c: an exchange with the controller, described
-- by the events alone.
use miniupnpd_sdn.Base.{
  ◌≡◌, refl, sym, ap, ◌∙◌, inl, inr, Bool, true, false, ◌||◌, List, [], ◌∷◌, ◌++◌, Option, none,
  some, Bytes, if◌then◌else◌, Bool-cases,
}
use miniupnpd_sdn.Base.Options.{◌>>=◌}
use miniupnpd_sdn.Sdn.Json.{JsonC}
use miniupnpd_sdn.Sdn.Http.{
  HttpResponseCode, ok_200, HttpMessage, Connection, HttpOptions, retrieve_response_status,
}
use miniupnpd_sdn.Sdn.Onos.{
  Event, mg_ev_connect, mg_ev_http_msg, mg_ev_error, mg_ev_close, mg_ev_other, Handler, deliver,
  poll_loop, exchange, Network, ConnRuntimeVars, started, on_onos_event, request_onos,
  retrieve_json_payload,
}

abbrev pub is_final : Event → Bool
is_final mg_ev_connect = false
is_final (mg_ev_http_msg hm) = true
is_final mg_ev_error = true
is_final mg_ev_close = true
is_final mg_ev_other = false

abbrev pub any_final : List Event → Bool
any_final [] = false
any_final (e ∷ es) = is_final e || any_final es

abbrev pub or_message : Option HttpMessage → Event → Option HttpMessage
or_message m (mg_ev_http_msg hm) = some hm
or_message m _ = m

-- The last answer among the events, `m` where there is none.
abbrev pub last_message : Option HttpMessage → List Event → Option HttpMessage
last_message m [] = m
last_message m (e ∷ es) = last_message (or_message m e) es

-- The events up to the end of the first poll that has a final one, those `es` that came before
-- included.
abbrev pub seen : List Event → List (List Event) → Option (List Event)
seen es [] = if any_final es then some es else none
seen es (batch ∷ polls) =
    let more = seen (es ++ batch) polls in if any_final es then some es else more

or_assoc : (a b c : Bool) → (a || (b || c)) ≡ ((a || b) || c)
or_assoc true b c = refl
or_assoc false b c = refl

or_true : (b : Bool) → (b || true) ≡ true
or_true true = refl
or_true false = refl

or_false : (b : Bool) → (b || false) ≡ b
or_false true = refl
or_false false = refl

any_final-append : (es fs : List Event) → any_final (es ++ fs) ≡ (any_final es || any_final fs)
any_final-append [] fs = refl
any_final-append (e ∷ es) fs =
    ap (λ b. is_final e || b) (any_final-append es fs)
    ∙ or_assoc (is_final e) (any_final es) (any_final fs)

abbrev pub joined : List (List Event) → List Event
joined [] = []
joined (batch ∷ polls) = batch ++ joined polls

abbrev pub is_some {ℓ} : {A : Type ℓ} → Option A → Bool
is_some none = false
is_some (some a) = true

seen-is_some :
    (es : List Event) (polls : List (List Event))
    → is_some (seen es polls) ≡ (any_final es || any_final (joined polls))
seen-is_some es [] = elim (Bool-cases (any_final es)) [ inl e ↦ rw e refl | inr e ↦ rw e refl ]
seen-is_some es (batch ∷ polls) =
    let rest = seen-is_some (es ++ batch) polls in
    elim (Bool-cases (any_final es)) [
      | inl e ↦ rw e refl
      | inr e ↦
          rw (e, any_final-append batch (joined polls))
            (rest
              ∙ ap (λ b. b || any_final (joined polls)) (any_final-append es batch)
              ∙ ap (λ b. (b || any_final batch) || any_final (joined polls)) e)
    ]

last_message-append :
    (m : Option HttpMessage) (es fs : List Event)
    → last_message m (es ++ fs) ≡ last_message (last_message m es) fs
last_message-append m [] fs = refl
last_message-append m (e ∷ es) fs = last_message-append (or_message m e) es fs

deliver-append :
    {D : Type 0} (h : Handler D) (es fs : List Event) (s : Connection × D)
    → deliver h (es ++ fs) s ≡ deliver h fs (deliver h es s)
unfolding deliver
deliver-append h [] fs s = refl
deliver-append h (e ∷ es) fs s = deliver-append h es fs (h s.0 e s.1)

module _ (json : JsonC) where
  abbrev pub response_of : Option HttpMessage → json.Object
  response_of none = json.null
  response_of (some hm) = retrieve_json_payload json hm

  abbrev pub code_of : Option HttpMessage → HttpResponseCode
  code_of none = ok_200
  code_of (some hm) = retrieve_response_status hm

  abbrev pub vars_of : json.Object → Option HttpMessage → Bool → ConnRuntimeVars json
  vars_of jobj m done = record {
    request = jobj;
    response = response_of m;
    response_code = code_of m;
    done = done;
  }

  module _ (send : Connection → HttpOptions → json.Object → Connection) (url : Bytes)
      (jobj : json.Object) where
    deliver-vars :
        (es : List Event) (c : Connection) (m : Option HttpMessage) (b : Bool)
        → (deliver (on_onos_event json send url) es (c, vars_of jobj m b)).1
          ≡ vars_of jobj (last_message m es) (b || any_final es)
    unfolding deliver
    deliver-vars [] c m b = ap (vars_of jobj m) (sym (or_false b))
    deliver-vars (mg_ev_connect ∷ es) c m b = deliver-vars es _ m b
    deliver-vars (mg_ev_http_msg hm ∷ es) c m b =
        deliver-vars es _ (some hm) true ∙ ap (vars_of jobj _) (sym (or_true b))
    deliver-vars (mg_ev_error ∷ es) c m b =
        deliver-vars es _ m true ∙ ap (vars_of jobj _) (sym (or_true b))
    deliver-vars (mg_ev_close ∷ es) c m b =
        deliver-vars es _ m true ∙ ap (vars_of jobj _) (sym (or_true b))
    deliver-vars (mg_ev_other ∷ es) c m b = deliver-vars es _ m b

    -- What the loop returns from a state that the events `es` have led to.
    abbrev pub outcome : Option (List Event) → Option (ConnRuntimeVars json)
    outcome none = none
    outcome (some es) = some (vars_of jobj (last_message none es) true)

    poll_loop-seen :
        (polls : List (List Event)) (es : List Event) (c : Connection)
        → (poll_loop
              (on_onos_event json send url)
              (λ d. d.done)
              polls
              (c, vars_of jobj (last_message none es) (any_final es))
            >>= λ s. some s.1)
          ≡ outcome (seen es polls)
    unfolding poll_loop
    poll_loop-seen [] es c = elim (Bool-cases (any_final es)) [
      | inl e ↦ rw e refl
      | inr e ↦ rw e refl
    ]
    poll_loop-seen (batch ∷ polls) es c =
        let s =
          deliver (on_onos_event json send url) batch
            (c, vars_of jobj (last_message none es) (any_final es)) in
        let next : s.1 ≡ vars_of jobj (last_message none (es ++ batch)) (any_final (es ++ batch)) =
          rw (last_message-append none es batch, any_final-append es batch)
            (deliver-vars batch c (last_message none es) (any_final es)) in
        let rest =
          ap
            (λ v. poll_loop (on_onos_event json send url) (λ d. d.done) polls (s.0, v) >>= λ s.
              some s.1)
            next
          ∙ poll_loop-seen polls (es ++ batch) s.0 in
        elim (Bool-cases (any_final es)) [ inl e ↦ rw e refl | inr e ↦ rw e (rw⁻¹ e rest) ]

    -- Each handler's exchange ends after the first poll that brings an answer, an error or the
    -- close of the connection, and never ends where there is none. Its result is that of the last
    -- answer among the events up to then; with no answer the response is null and the code OK_200.
    pub request_onos-seen :
        (net : Network)
        → request_onos json (on_onos_event json send url) net jobj
          ≡ outcome (seen net.connecting net.polls)
    unfolding request_onos exchange
    request_onos-seen net =
        let s = deliver (on_onos_event json send url) net.connecting (
          record { peer_ip = net.ip; peer_port = net.port; is_closing = false; sent = [] },
          started json jobj,
        ) in
        ap
          (λ v. poll_loop (on_onos_event json send url) (λ d. d.done) net.polls (s.0, v) >>= λ s.
            some s.1)
          (deliver-vars net.connecting _ none false)
        ∙ poll_loop-seen net.polls net.connecting s.0

    outcome-is_some : (o : Option (List Event)) → is_some (outcome o) ≡ is_some o
    outcome-is_some none = refl
    outcome-is_some (some es) = refl

    -- A handler's exchange returns exactly where the network brings an answer, an error or the
    -- close of the connection at some time.
    pub request_onos-is_some :
        (net : Network)
        → is_some (request_onos json (on_onos_event json send url) net jobj)
          ≡ (any_final net.connecting || any_final (joined net.polls))
    request_onos-is_some net =
        ap is_some (request_onos-seen net)
        ∙ outcome-is_some (seen net.connecting net.polls)
        ∙ seen-is_some net.connecting net.polls
