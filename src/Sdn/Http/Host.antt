-- ===== src/Sdn/Http/Host.antt =====
-- miniupnpd/sdn/onosclient.c: getHttpRemoteHostInfo, whose buffer is never too small.
use miniupnpd_sdn.Base.{
  ℕ, zero, suc, ◌/◌, ◌%◌, ◌^◌, ◌≤◌, ◌<◌, ◌≡◌, refl, ap, [], ◌∷◌, ◌++◌, Bytes, length, take,
  length-append, arith,
}
use miniupnpd_sdn.Base.Decimal.{decimal, length-decimal}
use miniupnpd_sdn.Sdn.Http.{Connection, host_text, max_remote_addr_len, get_http_remote_host_info}

length-take_all : (n : ℕ) (s : Bytes) → length s ≤ n → take n s ≡ s
length-take_all zero [] h = refl
length-take_all zero (x ∷ s) h = absurd (omega arith)
length-take_all (suc n) [] h = refl
length-take_all (suc n) (x ∷ s) h = ap (λ t. x ∷ t) (length-take_all n s (omega arith))

length-joined :
    (a b c d e : Bytes)
    → length a ≤ 3
    → length b ≤ 3
    → length c ≤ 3
    → length d ≤ 3
    → length e ≤ 5
    → length (a ++ (b'.' ∷ b) ++ (b'.' ∷ c) ++ (b'.' ∷ d) ++ (b':' ∷ e)) ≤ 21
length-joined a b c d e ha hb hc hd he = omega (
  arith,
  length-append (((a ++ (b'.' ∷ b)) ++ (b'.' ∷ c)) ++ (b'.' ∷ d)) (b':' ∷ e),
  length-append ((a ++ (b'.' ∷ b)) ++ (b'.' ∷ c)) (b'.' ∷ d),
  length-append (a ++ (b'.' ∷ b)) (b'.' ∷ c),
  length-append a (b'.' ∷ b),
)

length-host_text : (ip port : ℕ) → ip < 2 ^ 32 → port < 2 ^ 16 → length (host_text ip port) ≤ 21
unfolding host_text
length-host_text ip port h k =
    length-joined (decimal (ip / 2 ^ 24)) (decimal (ip / 2 ^ 16 % 256)) (decimal (ip / 2 ^ 8 % 256))
      (decimal (ip % 256)) (decimal port) (length-decimal 2 (ip / 2 ^ 24) (omega arith))
      (length-decimal 2 (ip / 2 ^ 16 % 256) (omega arith))
      (length-decimal 2 (ip / 2 ^ 8 % 256) (omega arith))
      (length-decimal 2 (ip % 256) (omega arith)) (length-decimal 4 port (omega arith))

-- For an IPv4 address and a 16-bit port the host that is sent is the whole text: the buffer of 22
-- bytes holds it with its terminator.
pub get_http_remote_host_info-host_text :
    (c : Connection)
    → c.peer_ip < 2 ^ 32
    → c.peer_port < 2 ^ 16
    → (get_http_remote_host_info c ≡ host_text c.peer_ip c.peer_port)
      × (length (host_text c.peer_ip c.peer_port) < max_remote_addr_len)
unfolding get_http_remote_host_info
get_http_remote_host_info-host_text c h k =
    let le = length-host_text c.peer_ip c.peer_port h k in
    (length-take_all 21 (host_text c.peer_ip c.peer_port) le, omega arith)
