-- ===== src/Pcp/Packet/Answered.antt =====
-- miniupnpd/pcpserver.c: ProcessIncomingPCPPacket returns.
use miniupnpd_sdn.Base.{
  ℕ, zero, suc, ◌-◌, ◌%◌, ◌≤◌, ◌<◌, ◌≡◌, refl, Bool, true, not, ◌&&◌, ◌||◌, [], ◌∷◌, Option, none,
  some, Bytes, ltb, leb, ◌==◌, length, take, drop, get_or, bytes_eq, arith,
}
use miniupnpd_sdn.Base.Options.{◌>>=◌}
use miniupnpd_sdn.Base.Ends.{Ends, Ends-bind, Ends-if, if_ends}
use miniupnpd_sdn.Redirect.LeaseFile.{Env}
use miniupnpd_sdn.Redirect.Firewall.{Firewall}
use miniupnpd_sdn.Redirect.Facade.{Config, Globals}
use miniupnpd_sdn.Pcp.{
  PcpInfo, Settings, with_result, parse_common_request_header, parse_pcpmap_version1,
  parse_pcpmap_version2,
}
use miniupnpd_sdn.Pcp.Options.{parse_pcp_options}
use miniupnpd_sdn.Pcp.Validate.{
  no_address, is_suggested, check_suggested, external_address, check_external_address,
  has_third_party, is_third_party, finish, is_v4mapped, validate_pcp_msg,
}
use miniupnpd_sdn.Pcp.Map.{create_pcpmap, delete_pcpmap}
use miniupnpd_sdn.Pcp.Search.{Any, Done, create_pcpmap_total, delete_pcpmap_total}
use miniupnpd_sdn.Pcp.Packet.{
  start_info, with_created, with_removed, map_valid, map_checked, map_request, by_version,
  process_pcp_request, Sent, process_incoming_pcp_packet,
}
use miniupnpd_sdn.Pcp.Packet.Total.{
  AllBytes, AllBytes-drop, Anything, HavePorts, length-drop, parse_pcp_options-HavePorts,
  parse_pcpmap_version1-HavePorts, parse_pcpmap_version2-HavePorts,
  parse_common_request_header-Ends,
}

-- The checks leave the ports as they are.
abbrev Keeps : Bool × PcpInfo → Type 0
Keeps r = HavePorts r.1

check_suggested-Keeps :
    (info : PcpInfo) (o : Option Bytes) → HavePorts info → Keeps (check_suggested info o)
check_suggested-Keeps info none p = p
check_suggested-Keeps info (some external) p =
    if_ends Keeps _ _ (no_address info.ext_ip) (λ x. p)
      (λ x.
        if_ends Keeps _ _ (is_suggested info.ext_ip external) (λ y. p)
          (λ y. if_ends Keeps _ _ info.pfailure_present (λ z. p) (λ z. p)))

finish-Keeps : (r : Bool × PcpInfo) → Keeps r → Keeps (finish r)
finish-Keeps (ok, info) p =
    if_ends HavePorts _ _ ok
      (λ x. if_ends HavePorts _ _ (info.opcode == 1 || info.opcode == 2) (λ y. p) (λ y. p)) (λ x. p)

check_external_address-Keeps :
    (cfg : Settings) (info : PcpInfo) → HavePorts info → Keeps (check_external_address cfg info)
unfolding check_external_address
check_external_address-Keeps cfg info p =
    check_suggested-Keeps (record info { is_fw = not (is_v4mapped info.mapped_ip) })
      (external_address cfg info) p

validate_pcp_msg-Keeps :
    (cfg : Settings) (info : PcpInfo) → HavePorts info → Keeps (validate_pcp_msg cfg info)
unfolding validate_pcp_msg
validate_pcp_msg-Keeps cfg info p =
    if_ends Keeps _ _ (not (info.result_code == 0)) (λ a. p)
      (λ a.
        if_ends Keeps _ _ (not (bytes_eq info.int_ip info.sender_ip)) (λ b. p)
          (λ b.
            if_ends Keeps _ _ (has_third_party info.thirdp_ip && not cfg.allow_third_party) (λ c. p)
              (λ c.
                if_ends Keeps _ _ (is_third_party info.thirdp_ip info.sender_ip) (λ d. p)
                  (λ d.
                    if_ends Keeps _ _ (info.protocol == 0 && not (info.int_port == 0)) (λ e. p)
                      (λ e.
                        if_ends Keeps _ _
                          (info.pfailure_present && (no_address info.ext_ip && info.ext_port == 0))
                          (λ f. p)
                          (λ f.
                            let info' : PcpInfo = record info {
                              mapped_str = cfg.inet_n46top info.mapped_ip;
                            } in
                            finish-Keeps (check_external_address cfg info')
                              (check_external_address-Keeps cfg info' p)))))))

module _ (fw : Firewall) (cfg : Config) (pcp : Settings) (env : Env) (rules last : ℕ)
    (g : Globals fw) (ended : fw.get_redirect_rule_by_index g.firewall last ≡ none)
    (enough : last < rules) where
  map_checked-Ends :
      (r : Bool × PcpInfo) → Keeps r → Ends Anything (map_checked fw cfg pcp env rules g r)
  map_checked-Ends (ok, info) p =
      Ends-if Anything (map_valid fw cfg pcp env rules info g) _ ok
        (λ x.
          Ends-if Anything
            (delete_pcpmap fw cfg env info rules g >>= λ r.
              some (with_removed fw cfg pcp env info r))
            (create_pcpmap fw cfg env info 65536 g >>= λ r.
              some (with_created fw cfg pcp env info r))
            (info.lifetime == 0)
            (λ y.
              Ends-bind Anything (Done fw cfg env info) _ (delete_pcpmap fw cfg env info rules g)
                (delete_pcpmap_total fw cfg env info rules last g ended enough) (λ r u. tt))
            (λ y.
              Ends-bind Anything (Any fw cfg env info) _ (create_pcpmap fw cfg env info 65536 g)
                (create_pcpmap_total fw cfg env info g p.0 p.1) (λ r u. tt)))
        (λ x. tt)

  map_request-Ends :
      (size : ℕ) (req : Bytes) (info : PcpInfo) (parsed : Option PcpInfo)
      → AllBytes req
      → (size ≤ length req → Ends HavePorts parsed)
      → Ends Anything (map_request fw cfg pcp env size rules req g info parsed)
  map_request-Ends size req info parsed h e =
      Ends-if Anything (some (true, with_result 3 info, g)) _ (ltb (length req) size) (λ x. tt)
        (λ x. Ends-bind Anything HavePorts _ parsed (e (ground arith)) (λ info' p.
          Ends-bind Anything HavePorts _
            (parse_pcp_options (length req) (drop size req) (length req - size) info')
            (parse_pcp_options-HavePorts (length req) (drop size req) (length req - size) info'
              (AllBytes-drop size req h) (omega (arith, length-drop size req)) (omega arith) p)
            (λ info'' q.
              map_checked-Ends (validate_pcp_msg pcp info'')
                (validate_pcp_msg-Keeps pcp info'' q))))

  by_version-Ends :
      (req : Bytes) (info : PcpInfo)
      → AllBytes req
      → Ends Anything (by_version fw cfg pcp env rules req g info)
  by_version-Ends req info h =
      let first =
        map_request-Ends 24 req info (parse_pcpmap_version1 req info) h
          (λ le. parse_pcpmap_version1-HavePorts req info h le) in
      let second =
        map_request-Ends 36 req info (parse_pcpmap_version2 req info) h
          (λ le. parse_pcpmap_version2-HavePorts req info h le) in
      Ends-if Anything _ _ (info.version == 1)
        (λ x. Ends-if Anything _ _ (info.opcode == 1) (λ y. first) (λ y. tt))
        (λ x.
          Ends-if Anything _ _ (info.version == 2)
            (λ y.
              Ends-if Anything _ _ (info.opcode == 0) (λ z. tt)
                (λ z. Ends-if Anything _ _ (info.opcode == 1) (λ w. second) (λ w. tt)))
            (λ y. tt))

  process_pcp_request-Ends :
      (req : Bytes) (info : PcpInfo)
      → AllBytes req
      → Ends Anything (process_pcp_request fw cfg pcp env rules req info g)
  unfolding process_pcp_request
  process_pcp_request-Ends req info h =
      Ends-if Anything _ _ (ltb (length req) 3) (λ x. tt)
        (λ x.
          Ends-if Anything _ _ (ltb (length req) 24) (λ y. tt)
            (λ y.
              Ends-if Anything _ _ (ltb 1100 (length req) || not (length req % 4 == 0)) (λ z. tt)
                (λ z.
                  Ends-bind Anything Anything _ (parse_common_request_header pcp req info)
                    (parse_common_request_header-Ends Anything pcp req info (λ v t i. tt) h
                      (ground arith))
                    (λ r u.
                      Ends-if Anything _ _ r.0 (λ w. tt)
                        (λ w. by_version-Ends (drop 24 req) r.1 (AllBytes-drop 24 req h))))))

  AllBytes-take : (n : ℕ) (buf : Bytes) → AllBytes buf → AllBytes (take n buf)
  AllBytes-take zero buf h = tt
  AllBytes-take (suc n) [] h = tt
  AllBytes-take (suc n) (c ∷ s) h = (h.0, AllBytes-take n s h.1)

  some-Ends : {A : Type 0} (m : Option A) → Ends Anything m → (a : A) × (m ≡ some a)
  some-Ends none e = absurd e
  some-Ends (some a) e = (a, refl)

  -- ProcessIncomingPCPPacket returns on any bytes of any length and from any sender: it reads nothing behind the
  -- packet, the search for a port ends within 65536 rounds, and the removal with more fuel than an
  -- index at which the firewall tells no rule. Nothing else is asked of the firewall.
  pub process_incoming_pcp_packet_total :
      (buff : Bytes) (len : ℕ) (sender : Bytes) (is_lan : Bool) (epoch_origin : ℕ)
      → AllBytes buff
      → (r : Sent fw cfg pcp env) × (process_incoming_pcp_packet fw cfg pcp env rules buff len
            sender is_lan epoch_origin g
          ≡ some r)
  unfolding process_incoming_pcp_packet
  process_incoming_pcp_packet_total buff len sender is_lan epoch_origin h = some-Ends _ (
      Ends-if Anything _ _ (leb 128 (get_or buff 1 0)) (λ x. tt)
        (λ x.
          Ends-if Anything _ _ (not pcp.allow_third_party && not is_lan) (λ y. tt)
            (λ y.
              Ends-bind Anything Anything _
                (process_pcp_request fw cfg pcp env rules (take len buff) (start_info sender) g)
                (process_pcp_request-Ends (take len buff) (start_info sender)
                  (AllBytes-take len buff h))
                (λ r u. tt))))
