-- ===== src/Pcp/Options.antt =====
-- miniupnpd/pcpserver.c: parsePCPOption and parsePCPOptions.
use miniupnpd_sdn.Base.{
  ℕ, zero, suc, ◌+◌, ◌-◌, ◌%◌, ◌^◌, true, Option, none, some, Bytes, ltb, ◌==◌, if◌then◌else◌, drop,
  get_elem?,
}
use miniupnpd_sdn.Base.Options.{◌>>=◌}
use miniupnpd_sdn.Pcp.{
  PcpInfo, with_result, read_16, read_bytes, pcp_err_malformed_request, pcp_err_malformed_option,
  pcp_err_unsupp_option,
}

abbrev pub malformed : PcpInfo → Option (ℕ × PcpInfo)
malformed info = some (0, with_result pcp_err_malformed_option info)

-- The address, unless there was one before.
abbrev pub set_third_party : ℕ → PcpInfo → Option Bytes → Bytes → ℕ × PcpInfo
set_third_party option_length info (some old) ip = (0, with_result pcp_err_malformed_option info)
set_third_party option_length info none ip =
    (option_length, record info { thirdp_ip = some ip; mapped_ip = ip })

abbrev pub third_party : Bytes → ℕ → PcpInfo → Option (ℕ × PcpInfo)
third_party buf option_length info =
    let fits = (do
      ip ← read_bytes 16 buf 4
      some (set_third_party option_length info info.thirdp_ip ip)) in
    if option_length == 20 then fits else malformed info

-- The opcode MAP is 1; a wrong one is noted, and the parsing goes on.
abbrev pub prefer_failure : ℕ → PcpInfo → Option (ℕ × PcpInfo)
prefer_failure option_length info =
    let info' = if info.opcode == 1 then info else with_result pcp_err_malformed_request info in
    if option_length == 4
    then some (
      option_length,
      if info.pfailure_present
          then with_result pcp_err_malformed_option info'
          else record info' { pfailure_present = true },
    )
    else malformed info

abbrev pub filter_option : ℕ → PcpInfo → Option (ℕ × PcpInfo)
filter_option option_length info =
    if option_length == 24
    then some (
        if info.opcode == 1
        then (option_length, info)
        else (0, with_result pcp_err_malformed_request info))
    else malformed info

-- Codes below 128 are mandatory to understand; the parsing goes on behind them too.
abbrev pub by_code : Bytes → ℕ → ℕ → PcpInfo → Option (ℕ × PcpInfo)
by_code buf code option_length info =
    if code == 1
    then third_party buf option_length info
    else if code == 2
    then prefer_failure option_length info
    else if code == 3
    then filter_option option_length info
    else some (option_length, if ltb code 128 then with_result pcp_err_unsupp_option info else info)

-- The length with the header is an `unsigned short`.
unfoldable pub parse_pcp_option : Bytes → ℕ → PcpInfo → Option (ℕ × PcpInfo)
parse_pcp_option buf remain info =
    let parsed = (do
      len ← read_16 buf 2
      let option_length = (len + 4) % 2 ^ 16
      code ← get_elem? buf 0
      (if ltb remain option_length then malformed info else by_code buf code option_length info)) in
    if ltb remain 4 then malformed info else parsed

-- `while (remain > 0)`, with fuel for a round for each byte.
unfoldable pub parse_pcp_options : ℕ → Bytes → ℕ → PcpInfo → Option PcpInfo
parse_pcp_options zero buf zero info = some info
parse_pcp_options zero buf (suc remain) info = none
parse_pcp_options (suc fuel) buf zero info = some info
parse_pcp_options (suc fuel) buf (suc remain) info = (do
  r ← parse_pcp_option buf (suc remain) info
  let rest = parse_pcp_options fuel (drop r.0 buf) (suc remain - r.0) r.1
  (if r.0 == 0 then some r.1 else rest))
