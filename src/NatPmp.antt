-- ===== src/NatPmp.antt =====
-- miniupnpd/natpmp.c, in the build without SDN, CHECK_PORTINUSE and MULTIPLE_EXTERNAL_IP, with the
-- integers of macros.h and addr_is_reserved of getifaddr.c. The sender is his address as text
-- (`senderaddrstr`) and as a number; `unsigned short` is 16 bits wide.
pub mod Mapping
pub mod Packet
mod Tests
use miniupnpd_sdn.Base.{
  ℕ, zero, suc, ◌+◌, ◌*◌, ◌-◌, ◌/◌, ◌%◌, ◌^◌, Bool, true, false, not, ◌&&◌, ◌||◌, List, [], ◌∷◌,
  ◌++◌, Option, none, some, Bytes, codes, ltb, leb, ◌==◌, if◌then◌else◌, length, take, get_or,
  replicate, bytes_eq,
}
use miniupnpd_sdn.Base.Options.{◌>>=◌}
use miniupnpd_sdn.Base.Decimal.{decimal}
use miniupnpd_sdn.Base.Ints.{ℤ, pos, negsuc}
use miniupnpd_sdn.Permissions.{check_upnp_rule_against_permissions}
use miniupnpd_sdn.Redirect.LeaseFile.{Env, starts_with, ipproto_tcp, ipproto_udp}
use miniupnpd_sdn.Redirect.Firewall.{Rule, Firewall}
use miniupnpd_sdn.Redirect.Facade.{Config, Globals, upnp_delete_redir, upnp_redirect_internal}

-- The bytes do not overlap, so `|` is a sum.
unfoldable pub readnu32 : ℕ → ℕ → ℕ → ℕ → ℕ
readnu32 p0 p1 p2 p3 = p0 * 2 ^ 24 + p1 * 2 ^ 16 + p2 * 2 ^ 8 + p3

unfoldable pub readnu16 : ℕ → ℕ → ℕ
readnu16 p0 p1 = p0 * 2 ^ 8 + p1

-- `(n & 0xff000000) >> 24`, and so on.
unfoldable pub writenu32 : ℕ → Bytes
writenu32 n = n / 2 ^ 24 % 256 ∷ n / 2 ^ 16 % 256 ∷ n / 2 ^ 8 % 256 ∷ n % 256 ∷ []

unfoldable pub writenu16 : ℕ → Bytes
writenu16 n = n / 2 ^ 8 % 256 ∷ n % 256 ∷ []

abbrev ip : ℕ → ℕ → ℕ → ℕ → ℕ
ip a b c d = a * 2 ^ 24 + b * 2 ^ 16 + c * 2 ^ 8 + d

-- `reserved`: an address, and the width of its mask.
abbrev pub reserved : List (ℕ × ℕ)
reserved =
    (ip 0 0 0 0, 8)
    ∷ (ip 10 0 0 0, 8)
    ∷ (ip 100 64 0 0, 10)
    ∷ (ip 127 0 0 0, 8)
    ∷ (ip 169 254 0 0, 16)
    ∷ (ip 192 0 0 0, 24)
    ∷ (ip 192 0 2 0, 24)
    ∷ (ip 192 31 196 0, 24)
    ∷ (ip 192 52 193 0, 24)
    ∷ (ip 192 88 99 0, 24)
    ∷ (ip 192 168 0 0, 16)
    ∷ (ip 192 175 48 0, 24)
    ∷ (ip 198 18 0 0, 15)
    ∷ (ip 198 51 100 0, 24)
    ∷ (ip 203 0 113 0, 24)
    ∷ (ip 224 0 0 0, 4)
    ∷ (ip 240 0 0 0, 4)
    ∷ []

abbrev pub in_ranges : List (ℕ × ℕ) → ℕ → Bool
in_ranges [] address = false
in_ranges ((a, m) ∷ ranges) address =
    address / 2 ^ (32 - m) == a / 2 ^ (32 - m) || in_ranges ranges address

unfoldable pub addr_is_reserved : ℕ → Bool
addr_is_reserved address = in_ranges reserved address

-- Bytes written over those of an array, from an offset on.
abbrev pub write_at : ℕ → Bytes → Bytes → Bytes
write_at zero [] array = array
write_at zero (b ∷ bs) [] = []
write_at zero (b ∷ bs) (x ∷ array) = b ∷ write_at zero bs array
write_at (suc i) bs [] = []
write_at (suc i) bs (x ∷ array) = x ∷ write_at i bs array

abbrev pub write_code : ℕ → Bytes → Bytes
write_code code resp = write_at 3 (code ∷ []) resp

-- The settings: `inet_pton` gives the four bytes of an address, and `getifaddr` the interface's
-- address, none where it fails.
pub record Natpmp : Type 0 where
  pub use_ext_ip_addr : Option Bytes
  pub ext_if_name : Option Bytes
  pub inet_pton : Bytes → Option Bytes
  pub getifaddr : Bytes → Option ℕ
  pub startup_time : ℕ

abbrev pub write_address : Option Bytes → Bytes → Bytes
write_address none resp = resp
write_address (some address) resp = write_at 8 address resp

abbrev pub interface_address : Option ℕ → Bytes → Bytes
interface_address none resp = write_code 3 resp
interface_address (some address) resp =
    if addr_is_reserved address then write_code 3 resp else write_at 8 (writenu32 address) resp

abbrev pub from_interface : Natpmp → Option Bytes → Bytes → Bytes
from_interface cfg none resp = write_code 3 resp
from_interface cfg (some []) resp = write_code 3 resp
from_interface cfg (some (c ∷ name)) resp = interface_address (cfg.getifaddr (c ∷ name)) resp

abbrev pub from_settings : Natpmp → Option Bytes → Bytes → Bytes
from_settings cfg none resp = from_interface cfg cfg.ext_if_name resp
from_settings cfg (some address) resp = write_address (cfg.inet_pton address) resp

unfoldable pub fill_public_address_response : Natpmp → Bytes → Bytes
fill_public_address_response cfg resp = from_settings cfg cfg.use_ext_ip_addr resp

-- `if(epoch_origin == 0) epoch_origin = startup_time;`
abbrev pub epoch_from : Natpmp → ℕ → ℕ
epoch_from cfg epoch_origin = if epoch_origin == 0 then cfg.startup_time else epoch_origin

-- `upnp_time() - epoch_origin` in 32 bits.
abbrev pub since_epoch : Env → ℕ → ℕ
since_epoch env epoch_origin = (env.upnp_time + (2 ^ 32 - epoch_origin % 2 ^ 32)) % 2 ^ 32

-- `eport++; if(eport == 0) eport++;`
abbrev pub next_port : ℕ → ℕ
next_port eport = if (eport + 1) % 2 ^ 16 == 0 then 1 else (eport + 1) % 2 ^ 16

abbrev pub proto_name : ℕ → Bytes
proto_name proto = if proto == ipproto_tcp then codes "tcp" else codes "udp"

-- "NAT-PMP %hu %s"
abbrev pub mapping_desc : ℕ → ℕ → Bytes
mapping_desc eport proto = codes "NAT-PMP " ++ (decimal eport ++ (32 ∷ proto_name proto))
