-- ===== src/NatPmp/Packet.antt =====
-- miniupnpd/natpmp.c: ProcessIncomingNATPMPPacket and SendNATPMPPublicAddressChangeNotification. The
-- datagrams are results, with what `sendto_or_schedule` answers where the code goes on by it.
pub mod Answer
use miniupnpd_sdn.Base.{
  ℕ, zero, suc, ◌+◌, ◌%◌, ◌^◌, Bool, true, false, not, ◌&&◌, ◌||◌, List, [], ◌∷◌, ◌++◌, Option,
  none, some, Bytes, leb, ltb, ◌==◌, if◌then◌else◌, length, take, get_or, replicate,
}
use miniupnpd_sdn.Base.Options.{◌>>=◌}
use miniupnpd_sdn.Base.Ints.{ℤ, pos, negsuc}
use miniupnpd_sdn.Redirect.LeaseFile.{Env, ipproto_tcp, ipproto_udp}
use miniupnpd_sdn.Redirect.Firewall.{Firewall}
use miniupnpd_sdn.Redirect.Facade.{Config, Globals}
use miniupnpd_sdn.NatPmp.{
  Natpmp, readnu16, readnu32, writenu16, writenu32, write_at, write_code,
  fill_public_address_response, epoch_from, since_epoch,
}
use miniupnpd_sdn.NatPmp.Mapping.{Client, remove_mappings, search_port}

-- `n<2 || ((((req[1]-1)&~1)==0) && n<12)`: the opcodes 1 and 2 need 12 bytes.
abbrev pub too_short : Bytes → Bool
too_short req =
    ltb (length req) 2 || (get_or req 1 0 == 1 || get_or req 1 0 == 2) && ltb (length req) 12

abbrev pub req_iport : Bytes → ℕ
req_iport req = readnu16 (get_or req 4 0) (get_or req 5 0)

abbrev pub req_eport : Bytes → ℕ
req_eport req = readnu16 (get_or req 6 0) (get_or req 7 0)

abbrev pub req_lifetime : Bytes → ℕ
req_lifetime req = readnu32 (get_or req 8 0) (get_or req 9 0) (get_or req 10 0) (get_or req 11 0)

abbrev pub req_client : Bytes → Bytes → ℕ → Client
req_client req senderaddrstr address = record {
  senderaddrstr = senderaddrstr;
  address = address;
  iport = req_iport req;
  proto = if get_or req 1 0 == 1 then ipproto_udp else ipproto_tcp;
}

-- The response up to the switch.
abbrev pub start_response : Env → ℕ → Bytes → Bytes
start_response env epoch_origin req =
    write_at 4 (writenu32 (since_epoch env epoch_origin))
      (write_at 1 ((128 + get_or req 1 0) % 256 ∷ []) (replicate 32 0))

-- The end of a mapping request.
abbrev pub mapping_response : Bytes → Bytes → ℕ → ℕ → Bytes
mapping_response req resp code eport =
    write_at 8 (writenu16 (req_iport req) ++ (writenu16 eport ++ writenu32 (req_lifetime req)))
      (write_code code resp)

pub record State (fw : Firewall) : Type 0 where
  pub globals : Globals fw
  pub epoch_origin : ℕ

module _ (fw : Firewall) (cfg : Config) (natpmp : Natpmp) (env : Env) where
  abbrev with_port_0 : Option (ℕ × Globals fw) → Option (ℕ × ℕ × Globals fw)
  with_port_0 none = none
  with_port_0 (some (code, g)) = some (code, 0, g)

  -- The result code, the port and the variables of a mapping request. `rules` is the fuel for the
  -- removal.
  unfoldable pub mapping : ℕ → Client → ℕ → ℕ → Globals fw → Option (ℕ × ℕ × Globals fw)
  mapping rules c eport lifetime g =
      if lifetime == 0
      then with_port_0 (remove_mappings fw cfg env c rules 0 g)
      else if c.iport == 0
      then some (2, eport, g)
      else search_port fw cfg env c 65536 lifetime (if eport == 0 then c.iport else eport) g

  -- What is sent, and the state.
  abbrev Sent : Type 0
  Sent = Option Bytes × State fw

  abbrev pub mapped : Bytes → Bytes → ℕ → ℕ × ℕ × Globals fw → Sent
  mapped req resp epoch_origin (code, eport, g) = (
    some (take 16 (mapping_response req resp code eport)),
    record { globals = g; epoch_origin = epoch_origin },
  )

  abbrev pub answer_mapping : ℕ → Bytes → Bytes → ℕ → Bytes → ℕ → Globals fw → Option Sent
  answer_mapping rules req senderaddrstr address resp epoch_origin g = (do
    m ← mapping rules (req_client req senderaddrstr address) (req_eport req) (req_lifetime req) g
    some (mapped req resp epoch_origin m))

  abbrev pub answer : ℕ → Bytes → Bytes → ℕ → Bytes → State fw → Option Sent
  answer rules req senderaddrstr address resp s =
      if ltb 0 (get_or req 0 0)
      then some (some (take 8 (write_code 1 resp)), s)
      else if get_or req 1 0 == 0
      then some (some (take 12 (fill_public_address_response natpmp resp)), s)
      else if get_or req 1 0 == 1 || get_or req 1 0 == 2
      then answer_mapping rules req senderaddrstr address resp s.epoch_origin s.globals
      else some (some (take 8 (write_code 5 resp)), s)

  unfoldable pub process_incoming_natpmp_packet : ℕ → Bytes → Bytes → ℕ → State fw → Option Sent
  process_incoming_natpmp_packet rules req senderaddrstr address s =
      let s' = record s { epoch_origin = epoch_from natpmp s.epoch_origin } in
      let answered =
        answer rules req senderaddrstr address (start_response env s'.epoch_origin req) s' in
      if too_short req
      then some (none, s)
      else if leb 128 (get_or req 1 0)
      then some (none, s)
      else answered

  -- The sockets, the ports that the notification goes to, and whether `sendto_or_schedule` fails.
  unfoldable pub notify : (ℤ → ℕ → Bool) → List ℤ → List (ℤ × ℕ)
  notify fails [] = []
  notify fails (negsuc k ∷ sockets) = notify fails sockets
  notify fails (pos k ∷ sockets) =
      let rest = notify fails sockets in
      if fails (pos k) 5351
      then (pos k, 5351) ∷ []
      else if fails (pos k) 5350
      then (pos k, 5351) ∷ (pos k, 5350) ∷ []
      else (pos k, 5351) ∷ (pos k, 5350) ∷ rest

  -- `stale` is what the array holds where the address goes.
  abbrev pub notif : Bytes → ℕ → Bytes
  notif stale epoch_origin = fill_public_address_response natpmp (
      write_at 4 (writenu32 (since_epoch env epoch_origin))
        (0 ∷ 128 ∷ 0 ∷ 0 ∷ 0 ∷ 0 ∷ 0 ∷ 0 ∷ stale))

  -- The payload, where the datagrams go, and the new `epoch_origin`.
  unfoldable pub send_natpmp_public_address_change_notification :
      (ℤ → ℕ → Bool) → Bytes → List ℤ → ℕ → Bytes × List (ℤ × ℕ) × ℕ
  send_natpmp_public_address_change_notification fails stale sockets epoch_origin =
      let epoch = epoch_from natpmp epoch_origin in
      let payload = notif stale epoch in
      let sent = notify fails sockets in
      (payload, if get_or payload 3 0 == 0 then sent else [], epoch)
