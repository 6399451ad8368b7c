-- ===== src/NatPmp/Packet/Answer.antt =====
-- miniupnpd/natpmp.c: the answer to a mapping request, from its bytes to those of the response.
use miniupnpd_sdn.Base.{
  none, ℕ, ◌+◌, ◌*◌, ◌/◌, ◌%◌, ◌^◌, ◌<◌, ◌≡◌, refl, ap, ◌∙◌, inl, inr, Bool, true, false, ◌||◌, [],
  ◌∷◌, ◌++◌, some, Bytes, ltb, leb, ◌==◌, if◌then◌else◌, length, take, Bool-cases, arith,
}
use miniupnpd_sdn.Redirect.LeaseFile.{Env, ipproto_tcp, ipproto_udp}
use miniupnpd_sdn.Redirect.Firewall.{Rule, Firewall, IsFirewall, first_rule, without_first}
use miniupnpd_sdn.Redirect.Facade.{Config, Globals}
use miniupnpd_sdn.Redirect.Order.{Apart, Fresh-nil}
use miniupnpd_sdn.NatPmp.{Natpmp, readnu16, readnu32, writenu16, writenu32, epoch_from, since_epoch}
use miniupnpd_sdn.NatPmp.Mapping.{Client}
use miniupnpd_sdn.NatPmp.Mapping.Search.{IsFound, search_port-IsFound}
use miniupnpd_sdn.NatPmp.Mapping.Removed.{other_rules, remove_mappings-rules}
use miniupnpd_sdn.NatPmp.Packet.{
  too_short, req_client, State, mapping, start_response, mapping_response,
  process_incoming_natpmp_packet,
}

-- The opcode of a mapping request.
abbrev pub op : Bool → ℕ
op udp = if udp then 1 else 2

writenu16-readnu16 : (a b : ℕ) → a < 256 → b < 256 → writenu16 (readnu16 a b) ≡ a ∷ b ∷ []
unfolding writenu16 readnu16
writenu16-readnu16 a b h k =
    let high : (a * 2 ^ 8 + b) / 2 ^ 8 % 256 ≡ a = omega arith in
    let low : (a * 2 ^ 8 + b) % 256 ≡ b = omega arith in rw (high, low) refl

writenu32-readnu32 :
    (a b c d : ℕ)
    → a < 256
    → b < 256
    → c < 256
    → d < 256
    → writenu32 (readnu32 a b c d) ≡ a ∷ b ∷ c ∷ d ∷ []
unfolding writenu32 readnu32
writenu32-readnu32 a b c d h k l m =
    let n = a * 2 ^ 24 + b * 2 ^ 16 + c * 2 ^ 8 + d in
    let b3 : n / 2 ^ 24 % 256 ≡ a = omega arith in
    let b2 : n / 2 ^ 16 % 256 ≡ b = omega arith in
    let b1 : n / 2 ^ 8 % 256 ≡ c = omega arith in
    let b0 : n % 256 ≡ d = omega arith in rw (b3, b2, b1, b0) refl

-- A mapping request: its port, the port that it suggests and the lifetime as bytes, and what follows.
pub record Request : Type 0 where
  pub udp : Bool
  pub r2 : ℕ
  pub r3 : ℕ
  pub i1 : ℕ
  pub i0 : ℕ
  pub e1 : ℕ
  pub e0 : ℕ
  pub t3 : ℕ
  pub t2 : ℕ
  pub t1 : ℕ
  pub t0 : ℕ
  pub rest : Bytes

abbrev pub bytes_of : Request → Bytes
bytes_of q =
    0 ∷ op q.udp ∷ q.r2 ∷ q.r3 ∷ q.i1 ∷ q.i0 ∷ q.e1 ∷ q.e0 ∷ q.t3 ∷ q.t2 ∷ q.t1 ∷ q.t0 ∷ q.rest

pub record AreBytes (q : Request) : Type 0 where
  pub i1_byte : q.i1 < 256
  pub i0_byte : q.i0 < 256
  pub e1_byte : q.e1 < 256
  pub e0_byte : q.e0 < 256
  pub t3_byte : q.t3 < 256
  pub t2_byte : q.t2 < 256
  pub t1_byte : q.t1 < 256
  pub t0_byte : q.t0 < 256

-- The response: the result code, the time, the client's port, the external port and the lifetime, of
-- which the client's port and the lifetime are the request's bytes.
abbrev pub response : Request → ℕ → ℕ → ℕ → Bytes
response q code time eport =
    (0 ∷ (128 + op q.udp) ∷ 0 ∷ code ∷ [])
    ++ (writenu32 time ++ (q.i1 ∷ q.i0 ∷ (writenu16 eport ++ (q.t3 ∷ q.t2 ∷ q.t1 ∷ q.t0 ∷ []))))

mapping_response-bytes :
    (env : Env) (epoch code eport : ℕ) (q : Request)
    → AreBytes q
    → take 16 (mapping_response (bytes_of q) (start_response env epoch (bytes_of q)) code eport)
      ≡ response q code (since_epoch env epoch) eport
unfolding writenu16 writenu32
mapping_response-bytes env epoch code eport q h =
    let udp = Bool-cases q.udp in
    let head = 0 ∷ (128 + op q.udp) ∷ 0 ∷ code ∷ writenu32 (since_epoch env epoch) in
    let byte : (128 + op q.udp) % 256 ≡ 128 + op q.udp = elim udp [
      | inl e ↦ rw e refl
      | inr e ↦ rw e refl
    ] in
    rw byte (
      ap
        (λ (p : Bytes).
          head ++ (p ++ (writenu16 eport ++ writenu32 (readnu32 q.t3 q.t2 q.t1 q.t0))))
        (writenu16-readnu16 q.i1 q.i0 h.i1_byte h.i0_byte)
      ∙ ap (λ (p : Bytes). head ++ (q.i1 ∷ q.i0 ∷ (writenu16 eport ++ p)))
          (writenu32-readnu32 q.t3 q.t2 q.t1 q.t0 h.t3_byte h.t2_byte h.t1_byte h.t0_byte))

-- The request as the code reads it.
abbrev pub client_of : Request → Bytes → ℕ → Client
client_of q senderaddrstr address = record {
  senderaddrstr = senderaddrstr;
  address = address;
  iport = readnu16 q.i1 q.i0;
  proto = if q.udp then ipproto_udp else ipproto_tcp;
}

abbrev pub lifetime_of : Request → ℕ
lifetime_of q = readnu32 q.t3 q.t2 q.t1 q.t0

abbrev pub eport_of : Request → ℕ
eport_of q = readnu16 q.e1 q.e0

long_enough : (q : Request) → too_short (bytes_of q) ≡ false
long_enough q =
    let two : ltb (length (bytes_of q)) 2 ≡ false = ground arith in
    let twelve : ltb (length (bytes_of q)) 12 ≡ false = ground arith in
    rw (two, twelve) (elim (Bool-cases q.udp) [ inl e ↦ rw e refl | inr e ↦ rw e refl ])

client_read :
    (q : Request) (senderaddrstr : Bytes) (address : ℕ)
    → req_client (bytes_of q) senderaddrstr address ≡ client_of q senderaddrstr address
client_read q senderaddrstr address = elim (Bool-cases q.udp) [
  | inl e ↦ rw e refl
  | inr e ↦ rw e refl
]

is_request : (q : Request) → leb 128 (op q.udp) ≡ false
is_request q = elim (Bool-cases q.udp) [ inl e ↦ rw e refl | inr e ↦ rw e refl ]

not_address : (q : Request) → (op q.udp == 0) ≡ false
not_address q = elim (Bool-cases q.udp) [ inl e ↦ rw e refl | inr e ↦ rw e refl ]

is_mapping : (q : Request) → (op q.udp == 1 || op q.udp == 2) ≡ true
is_mapping q = elim (Bool-cases q.udp) [ inl e ↦ rw e refl | inr e ↦ rw e refl ]

module _ (fw : Firewall) (cfg : Config) (natpmp : Natpmp) (env : Env) where
  process_mapping :
      (q : Request) (senderaddrstr : Bytes) (address rules : ℕ) (s : State fw) (code eport : ℕ)
      (g' : Globals fw)
      → AreBytes q
      → mapping fw cfg natpmp env rules
          (client_of q senderaddrstr address)
          (eport_of q)
          (lifetime_of q)
          s.globals
        ≡ some (code, eport, g')
      → let epoch = epoch_from natpmp s.epoch_origin in
        process_incoming_natpmp_packet fw cfg natpmp env rules (bytes_of q) senderaddrstr address s
        ≡ some (
          some (response q code (since_epoch env epoch) eport),
          record { globals = g'; epoch_origin = epoch },
        )
  unfolding process_incoming_natpmp_packet
  process_mapping q senderaddrstr address rules s code eport g' h m =
      let epoch = epoch_from natpmp s.epoch_origin in
      rw
        (
          long_enough q,
          is_request q,
          not_address q,
          is_mapping q,
          client_read q senderaddrstr address,
          m,
        )
        (ap (λ (b : Bytes). some (some b, record { globals = g'; epoch_origin = epoch }))
          (mapping_response-bytes env epoch code eport q h))

  readnu16_small : (a b : ℕ) → a < 256 → b < 256 → readnu16 a b < 65536
  unfolding readnu16
  readnu16_small a b h k = omega arith

  -- A request for a mapping with a lifetime and a port is always answered: with the result code 2 where
  -- the permissions refuse all ports, 4 where they allow some and all these have another mapping, and
  -- else with a port that they allow and that is free or the client's already, and the result code of
  -- the redirection. The response repeats the client's port and the lifetime.
  pub process_incoming_natpmp_packet-IsFound :
      (q : Request) (senderaddrstr : Bytes) (address rules : ℕ) (s : State fw)
      → AreBytes q
      → 0 < lifetime_of q
      → 0 < readnu16 q.i1 q.i0
      → let epoch = epoch_from natpmp s.epoch_origin in
        (code eport : ℕ) × (g' : Globals fw) × (process_incoming_natpmp_packet fw cfg natpmp env
            rules
            (bytes_of q)
            senderaddrstr
            address
            s
          ≡ some (
            some (response q code (since_epoch env epoch) eport),
            record { globals = g'; epoch_origin = epoch },
          ))
        × IsFound fw cfg env
            (client_of q senderaddrstr address)
            (lifetime_of q)
            s.globals
            code
            eport
            g'
  unfolding mapping
  process_incoming_natpmp_packet-IsFound q senderaddrstr address rules s h l i =
      let c = client_of q senderaddrstr address in
      let start = if eport_of q == 0 then c.iport else eport_of q in
      let iport_small = readnu16_small q.i1 q.i0 h.i1_byte h.i0_byte in
      let eport_small = readnu16_small q.e1 q.e0 h.e1_byte h.e0_byte in
      let low : 0 < start = ground arith in
      let high : start < 65536 = ground arith in
      let f =
        search_port-IsFound fw cfg env c (lifetime_of q) s.globals 65536 start (omega arith) low
          high in
      let some_time : (lifetime_of q == 0) ≡ false = ground arith in
      let some_port : (c.iport == 0) ≡ false = ground arith in
      (
        f.0,
        f.1,
        f.2,
        process_mapping q senderaddrstr address rules s f.0 f.1 f.2 h
            (rw (some_time, some_port) f.3),
        f.4,
      )

  -- A request with the lifetime 0, with a back end that keeps its laws and deletes a rule that is the
  -- one for its port and protocol when told to, and no two rules for one port and protocol: just the client's NAT-PMP mappings with his port and
  -- protocol are removed, all of his with the port 0. The response has the result code 0 and the
  -- external port 0.
  pub process_incoming_natpmp_packet-other_rules :
      (laws : IsFirewall fw) (q : Request) (senderaddrstr : Bytes) (address fuel : ℕ) (s : State fw)
      → ((t : fw.State) (eport proto : ℕ) (r : Rule)
          → first_rule (laws.rules t) eport proto ≡ some r
          → first_rule (without_first (laws.rules t) eport proto) eport proto ≡ none
          → ((fw.delete_redirect_and_filter_rules t eport proto).0 ≡ true)
            × (laws.rules (fw.delete_redirect_and_filter_rules t eport proto).1
                ≡ without_first (laws.rules t) eport proto))
      → AreBytes q
      → lifetime_of q ≡ 0
      → Apart (laws.rules s.globals.firewall)
      → length (laws.rules s.globals.firewall) < fuel
      → let epoch = epoch_from natpmp s.epoch_origin in
        (g' : Globals fw) × (process_incoming_natpmp_packet fw cfg natpmp env fuel
            (bytes_of q)
            senderaddrstr
            address
            s
          ≡ some (
            some (response q 0 (since_epoch env epoch) 0),
            record { globals = g'; epoch_origin = epoch },
          ))
        × (laws.rules g'.firewall
            ≡ other_rules (client_of q senderaddrstr address) (laws.rules s.globals.firewall))
  unfolding mapping
  process_incoming_natpmp_packet-other_rules laws q senderaddrstr address fuel s good h l apart
        enough =
      let c = client_of q senderaddrstr address in
      let rules = laws.rules s.globals.firewall in
      let f =
        remove_mappings-rules fw laws cfg env c fuel s.globals [] rules good apart (Fresh-nil rules)
          refl enough in
      (f.0, process_mapping q senderaddrstr address fuel s 0 0 f.0 h (rw (l, f.1) refl), f.2)
