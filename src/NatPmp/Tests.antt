-- ===== src/NatPmp/Tests.antt =====
-- Mapping requests, with a back end that keeps its rules in a list.
use miniupnpd_sdn.Base.{ℕ, ◌≡◌, ◌<◌, refl, true, List, [], ◌∷◌, none, some, Bytes, codes, arith}
use miniupnpd_sdn.Redirect.Firewall.{Rule}
use miniupnpd_sdn.Redirect.Facade.{Globals}
use miniupnpd_sdn.Redirect.InList.{in_list, in_list-laws, an_env, a_config, with_rules}
use miniupnpd_sdn.NatPmp.{Natpmp, readnu16, readnu32, addr_is_reserved}
use miniupnpd_sdn.NatPmp.Mapping.Search.{IsFound}
use miniupnpd_sdn.NatPmp.Packet.{State, process_incoming_natpmp_packet}
use miniupnpd_sdn.NatPmp.Packet.Answer.{
  Request, AreBytes, bytes_of, response, client_of, lifetime_of,
  process_incoming_natpmp_packet-IsFound, process_incoming_natpmp_packet-other_rules,
}

abbrev a_box : Natpmp
a_box = record {
  use_ext_ip_addr = none;
  ext_if_name = some (codes "eth0");
  inet_pton = λ s. none;
  getifaddr = λ s. some 0x5db8d822;
  startup_time = 400;
}

-- Port 5000 of the client for an hour, and the end of that mapping.
abbrev an_hour : Request
an_hour = record {
  udp = true;
  r2 = 0;
  r3 = 0;
  i1 = 19;
  i0 = 136;
  e1 = 0;
  e0 = 0;
  t3 = 0;
  t2 = 0;
  t1 = 14;
  t0 = 16;
  rest = [];
}

abbrev no_more : Request
no_more = record an_hour { t1 = 0; t0 = 0 }

an_hour-AreBytes : AreBytes an_hour
an_hour-AreBytes = record {
  i1_byte = omega arith;
  i0_byte = omega arith;
  e1_byte = omega arith;
  e0_byte = omega arith;
  t3_byte = omega arith;
  t2_byte = omega arith;
  t1_byte = omega arith;
  t0_byte = omega arith;
}

no_more-AreBytes : AreBytes no_more
no_more-AreBytes = record {
  i1_byte = omega arith;
  i0_byte = omega arith;
  e1_byte = omega arith;
  e0_byte = omega arith;
  t3_byte = omega arith;
  t2_byte = omega arith;
  t1_byte = omega arith;
  t0_byte = omega arith;
}

abbrev natpmp_rule : ℕ → Bytes → Rule
natpmp_rule eport iaddr = record {
  eport = eport;
  proto = 17;
  iaddr = iaddr;
  iport = 5000;
  desc = codes "NAT-PMP 5000 udp";
  rhost = [];
  timestamp = 4600;
  packets = 0;
  bytes = 0;
}

abbrev two_rules : List Rule
two_rules = natpmp_rule 5000 (codes "10.0.0.5") ∷ natpmp_rule 5001 (codes "10.0.0.6") ∷ []

abbrev with_two : State in_list
with_two = record { globals = with_rules two_rules; epoch_origin = 0 }

long_time : 0 < lifetime_of an_hour
unfolding readnu32
long_time = omega arith

some_port : 0 < readnu16 an_hour.i1 an_hour.i0
unfolding readnu16
some_port = omega arith

process_incoming_natpmp_packet-IsFound_example :
    (code eport : ℕ) × (g' : Globals in_list) × (process_incoming_natpmp_packet in_list a_config
        a_box an_env 0
        (bytes_of an_hour)
        (codes "10.0.0.7")
        7
        with_two
      ≡ some (some (response an_hour code 600 eport), record { globals = g'; epoch_origin = 400 }))
    × IsFound in_list a_config an_env
        (client_of an_hour (codes "10.0.0.7") 7)
        (lifetime_of an_hour)
        with_two.globals
        code
        eport
        g'
process_incoming_natpmp_packet-IsFound_example =
    process_incoming_natpmp_packet-IsFound in_list a_config a_box an_env an_hour (codes "10.0.0.7")
      7 0 with_two an_hour-AreBytes long_time some_port

process_incoming_natpmp_packet-other_rules_example :
    (g' : Globals in_list) × (process_incoming_natpmp_packet in_list a_config a_box an_env 3
        (bytes_of no_more)
        (codes "10.0.0.5")
        5
        with_two
      ≡ some (some (response no_more 0 600 0), record { globals = g'; epoch_origin = 400 }))
    × (g'.firewall ≡ natpmp_rule 5001 (codes "10.0.0.6") ∷ [])
unfolding readnu16 readnu32
process_incoming_natpmp_packet-other_rules_example =
    process_incoming_natpmp_packet-other_rules in_list a_config a_box an_env in_list-laws no_more
      (codes "10.0.0.5") 5 3 with_two (λ t eport proto r h k. (refl, refl)) no_more-AreBytes refl
      ((refl, tt), (tt, tt)) (omega arith)

reserved_10 : addr_is_reserved 0x0a000001 ≡ true
unfolding addr_is_reserved
reserved_10 = refl
