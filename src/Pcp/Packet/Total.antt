-- ===== src/Pcp/Packet/Total.antt =====
-- miniupnpd/pcpserver.c: the parts of a packet are read with no read behind it.
use miniupnpd_sdn.Base.{
  ℕ, zero, suc, ◌+◌, ◌-◌, ◌%◌, ◌^◌, ◌≤◌, ◌<◌, ◌≡◌, refl, ◌∙◌, inl, inr, Bool, true, false, ◌⊎◌, [],
  ◌∷◌, Option, none, some, Bytes, ltb, leb, ◌==◌, if◌then◌else◌, length, drop, get_elem?, arith,
}
use miniupnpd_sdn.Base.Ends.{Ends, Ends-bind, Ends-if, if_ends}
use miniupnpd_sdn.NatPmp.{readnu16}
use miniupnpd_sdn.Pcp.{
  PcpInfo, Settings, with_result, bound_lifetime, read_16, read_32, read_bytes,
  parse_common_request_header, parse_pcpmap_version1, parse_pcpmap_version2,
}
use miniupnpd_sdn.Pcp.Options.{
  malformed, set_third_party, third_party, prefer_failure, filter_option, by_code, parse_pcp_option,
  parse_pcp_options,
}

-- The bytes of a packet.
abbrev pub AllBytes : Bytes → Type 0
AllBytes [] = Unit {0}
AllBytes (c ∷ s) = (c < 256) × AllBytes s

abbrev pub IsByte : ℕ → Type 0
IsByte c = c < 256

pub get_elem-IsByte :
    (buf : Bytes) (i : ℕ) → AllBytes buf → i < length buf → Ends IsByte (get_elem? buf i)
get_elem-IsByte [] i h lt = absurd (omega arith)
get_elem-IsByte (c ∷ s) zero h lt = h.0
get_elem-IsByte (c ∷ s) (suc i) h lt = get_elem-IsByte s i h.1 (omega arith)

pub AllBytes-drop : (n : ℕ) (buf : Bytes) → AllBytes buf → AllBytes (drop n buf)
AllBytes-drop zero buf h = h
AllBytes-drop (suc n) [] h = h
AllBytes-drop (suc n) (c ∷ s) h = AllBytes-drop n s h.1

abbrev pub IsPort : ℕ → Type 0
IsPort p = p < 65536

abbrev pub Anything : {A : Type 0} → A → Type 0
Anything a = Unit {0}

module _ (buf : Bytes) (h : AllBytes buf) where
  pub read_16-IsPort : (i : ℕ) → i + 1 < length buf → Ends IsPort (read_16 buf i)
  unfolding readnu16
  read_16-IsPort i lt =
      Ends-bind IsPort IsByte _ (get_elem? buf i) (get_elem-IsByte buf i h (omega arith)) (λ a x.
        Ends-bind IsPort IsByte _ (get_elem? buf (i + 1)) (get_elem-IsByte buf (i + 1) h lt)
          (λ b y. omega (arith, x, y)))

  read_32-Ends : (i : ℕ) → i + 3 < length buf → Ends Anything (read_32 buf i)
  read_32-Ends i lt =
      Ends-bind Anything IsByte _ (get_elem? buf i) (get_elem-IsByte buf i h (omega arith)) (λ a x.
        Ends-bind Anything IsByte _ (get_elem? buf (i + 1))
          (get_elem-IsByte buf (i + 1) h (omega arith))
          (λ b y.
            Ends-bind Anything IsByte _ (get_elem? buf (i + 2))
              (get_elem-IsByte buf (i + 2) h (omega arith))
              (λ c z.
                Ends-bind Anything IsByte _ (get_elem? buf (i + 3))
                  (get_elem-IsByte buf (i + 3) h lt) (λ d w. tt))))

  read_bytes-Ends : (n i : ℕ) → i + n ≤ length buf → Ends Anything (read_bytes n buf i)
  read_bytes-Ends n i le = let fits : leb (i + n) (length buf) ≡ true = ground arith in rw fits tt

-- The ports of the request fit 16 bits.
abbrev pub HavePorts : PcpInfo → Type 0
HavePorts info = IsPort info.int_port × IsPort info.ext_port

-- The length of an option that is inside the packet.
abbrev Parsed : ℕ → ℕ × PcpInfo → Type 0
Parsed remain r = (r.0 ≤ remain) × HavePorts r.1

set_third_party-Parsed :
    (remain len : ℕ) (info : PcpInfo) (old : Option Bytes) (ip : Bytes)
    → len ≤ remain
    → HavePorts info
    → Parsed remain (set_third_party len info old ip)
set_third_party-Parsed remain len info none ip le p = (le, p)
set_third_party-Parsed remain len info (some old) ip le p = (omega arith, p)

module _ (buf : Bytes) (remain : ℕ) (h : AllBytes buf) (inside : remain ≤ length buf) where
  by_code-Parsed :
      (code len : ℕ) (info : PcpInfo)
      → len ≤ remain
      → HavePorts info
      → Ends (Parsed remain) (by_code buf code len info)
  by_code-Parsed code len info le p =
      let none_read : Parsed remain (0, with_result 6 info) = (omega arith, p) in
      Ends-if (Parsed remain) (third_party buf len info) _ (code == 1)
        (λ x.
          Ends-if (Parsed remain) _ (malformed info) (len == 20)
            (λ y.
              Ends-bind (Parsed remain) Anything _ (read_bytes 16 buf 4)
                (read_bytes-Ends buf h 16 4 (ground arith))
                (λ ip u. set_third_party-Parsed remain len info info.thirdp_ip ip le p))
            (λ y. none_read))
        (λ x.
          Ends-if (Parsed remain) (prefer_failure len info) _ (code == 2)
            (λ y.
              Ends-if (Parsed remain) _ (malformed info) (len == 4)
                (λ z. (
                  le,
                  if_ends HavePorts _ _ info.pfailure_present
                      (λ w. if_ends HavePorts _ _ (info.opcode == 1) (λ v. p) (λ v. p))
                      (λ w. if_ends HavePorts _ _ (info.opcode == 1) (λ v. p) (λ v. p)),
                ))
                (λ z. none_read))
            (λ y.
              Ends-if (Parsed remain) (filter_option len info) _ (code == 3)
                (λ z.
                  Ends-if (Parsed remain) _ (malformed info) (len == 24)
                    (λ w.
                      if_ends (Parsed remain) _ _ (info.opcode == 1) (λ v. (le, p))
                        (λ v. (omega arith, p)))
                    (λ w. none_read))
                (λ z. (le, if_ends HavePorts _ _ (ltb code 128) (λ w. p) (λ w. p)))))

  parse_pcp_option-Parsed :
      (info : PcpInfo) → HavePorts info → Ends (Parsed remain) (parse_pcp_option buf remain info)
  unfolding parse_pcp_option
  parse_pcp_option-Parsed info p =
      Ends-if (Parsed remain) (malformed info) _ (ltb remain 4) (λ x. (omega arith, p))
        (λ x.
          Ends-bind (Parsed remain) IsPort _ (read_16 buf 2) (read_16-IsPort buf h 2 (ground arith))
            (λ len u.
              Ends-bind (Parsed remain) IsByte _ (get_elem? buf 0)
                (get_elem-IsByte buf 0 h (ground arith))
                (λ code v.
                  Ends-if (Parsed remain) (malformed info) _ (ltb remain ((len + 4) % 2 ^ 16))
                    (λ y. (omega arith, p))
                    (λ y. by_code-Parsed code ((len + 4) % 2 ^ 16) info (ground arith) p))))

pub length-drop : (n : ℕ) (buf : Bytes) → length (drop n buf) ≡ length buf - n
length-drop zero buf = omega arith
length-drop (suc n) [] = omega arith
length-drop (suc n) (c ∷ s) = length-drop n s ∙ omega arith

pub parse_pcp_options-HavePorts :
    (fuel : ℕ) (buf : Bytes) (remain : ℕ) (info : PcpInfo)
    → AllBytes buf
    → remain ≤ length buf
    → remain ≤ fuel
    → HavePorts info
    → Ends HavePorts (parse_pcp_options fuel buf remain info)
unfolding parse_pcp_options
parse_pcp_options-HavePorts zero buf zero info h i e p = p
parse_pcp_options-HavePorts zero buf (suc remain) info h i e p = absurd (omega arith)
parse_pcp_options-HavePorts (suc fuel) buf zero info h i e p = p
parse_pcp_options-HavePorts (suc fuel) buf (suc remain) info h i e p =
    Ends-bind HavePorts (Parsed (suc remain)) _ (parse_pcp_option buf (suc remain) info)
      (parse_pcp_option-Parsed buf (suc remain) h i info p)
      (λ r q.
        Ends-if HavePorts (some r.1) (parse_pcp_options fuel (drop r.0 buf) (suc remain - r.0) r.1)
          (r.0 == 0) (λ x. q.1)
          (λ x.
            parse_pcp_options-HavePorts fuel (drop r.0 buf) (suc remain - r.0) r.1
              (AllBytes-drop r.0 buf h) (omega (arith, length-drop r.0 buf, q.0))
              (ground (arith, q.0)) q.1))

pub parse_pcpmap_version1-HavePorts :
    (buf : Bytes) (info : PcpInfo)
    → AllBytes buf
    → 24 ≤ length buf
    → Ends HavePorts (parse_pcpmap_version1 buf info)
unfolding parse_pcpmap_version1
parse_pcpmap_version1-HavePorts buf info h le =
    Ends-bind HavePorts IsByte _ (get_elem? buf 0) (get_elem-IsByte buf 0 h (omega arith))
      (λ protocol a.
        Ends-bind HavePorts IsPort _ (read_16 buf 4) (read_16-IsPort buf h 4 (omega arith))
          (λ int_port b.
            Ends-bind HavePorts IsPort _ (read_16 buf 6) (read_16-IsPort buf h 6 (omega arith))
              (λ ext_port c.
                Ends-bind HavePorts Anything _ (read_bytes 16 buf 8)
                  (read_bytes-Ends buf h 16 8 (omega arith)) (λ ip d. (b, c)))))

pub parse_pcpmap_version2-HavePorts :
    (buf : Bytes) (info : PcpInfo)
    → AllBytes buf
    → 36 ≤ length buf
    → Ends HavePorts (parse_pcpmap_version2 buf info)
unfolding parse_pcpmap_version2
parse_pcpmap_version2-HavePorts buf info h le =
    Ends-bind HavePorts Anything _ (read_bytes 12 buf 0) (read_bytes-Ends buf h 12 0 (omega arith))
      (λ nonce z.
        Ends-bind HavePorts IsByte _ (get_elem? buf 12) (get_elem-IsByte buf 12 h (omega arith))
          (λ protocol a.
            Ends-bind HavePorts IsPort _ (read_16 buf 16) (read_16-IsPort buf h 16 (omega arith))
              (λ int_port b.
                Ends-bind HavePorts IsPort _ (read_16 buf 18)
                  (read_16-IsPort buf h 18 (omega arith))
                  (λ ext_port c.
                    Ends-bind HavePorts Anything _ (read_bytes 16 buf 20)
                      (read_bytes-Ends buf h 16 20 (omega arith)) (λ ip d. (b, c))))))

-- The lifetime, after a header without a problem.
abbrev pub IsLifetime : Settings → ℕ → Type 0
IsLifetime cfg t = (t ≡ 0) ⊎ ((cfg.min_lifetime ≤ t) × (t ≤ cfg.max_lifetime))

abbrev pub IsHeader : Settings → Bool × PcpInfo → Type 0
IsHeader cfg r = (r.1.result_code ≡ 1) ⊎ IsLifetime cfg r.1.lifetime

bound_lifetime-IsLifetime :
    (cfg : Settings) (t : ℕ)
    → cfg.min_lifetime ≤ cfg.max_lifetime
    → IsLifetime cfg (bound_lifetime cfg t)
bound_lifetime-IsLifetime cfg t le = ground arith

-- What holds of each header that has been read.
pub parse_common_request_header-Ends :
    (Q : Bool × PcpInfo → Type 0) (cfg : Settings) (req : Bytes) (info : PcpInfo)
    → ((version lifetime : ℕ) (info' : PcpInfo)
        → Q (
            if ltb 2 version
            then (true, with_result 1 info')
            else (false, record info' { lifetime = bound_lifetime cfg lifetime })))
    → AllBytes req
    → 24 ≤ length req
    → Ends Q (parse_common_request_header cfg req info)
unfolding parse_common_request_header
parse_common_request_header-Ends Q cfg req info q h le =
    Ends-bind Q IsByte _ (get_elem? req 0) (get_elem-IsByte req 0 h (omega arith)) (λ version x.
      Ends-bind Q IsByte _ (get_elem? req 1) (get_elem-IsByte req 1 h (omega arith)) (λ op y.
        Ends-bind Q Anything _ (read_32 req 4) (read_32-Ends req h 4 (omega arith)) (λ lifetime z.
          Ends-bind Q Anything _ (read_bytes 16 req 8) (read_bytes-Ends req h 16 8 (omega arith))
            (λ ip w. q version lifetime (record info {
              version = version;
              opcode = op % 128;
              lifetime = lifetime;
              int_ip = ip;
              mapped_ip = ip;
            })))))

-- A packet of 24 bytes has a header that is read inside it: the version is refused, or the lifetime is 0 or
-- between the two bounds then, the lower one being no more than the upper.
pub parse_common_request_header-IsHeader :
    (cfg : Settings) (req : Bytes) (info : PcpInfo)
    → cfg.min_lifetime ≤ cfg.max_lifetime
    → AllBytes req
    → 24 ≤ length req
    → Ends (IsHeader cfg) (parse_common_request_header cfg req info)
parse_common_request_header-IsHeader cfg req info b h le =
    parse_common_request_header-Ends (IsHeader cfg) cfg req info
      (λ version lifetime info'.
        if_ends (IsHeader cfg) _ _ (ltb 2 version) (λ u. inl refl)
          (λ u. inr (bound_lifetime-IsLifetime cfg lifetime b)))
      h le
