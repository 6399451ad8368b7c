-- ===== src/Permissions/Line.antt =====
-- miniupnpd/upnppermissions.c: read_permission_line. A C string is the list of the bytes from the
-- pointer to the end of its buffer, the terminator included. What the function writes into the line
-- ends a token that it reads at once, so a token is the bytes passed over.
pub mod Sound
pub mod Parts
pub mod Print
use miniupnpd_sdn.Base.{
  ℕ, zero, suc, ◌+◌, ◌-◌, ◌*◌, ◌%◌, ◌^◌, Bool, true, false, not, ◌&&◌, ◌||◌, List, [], ◌∷◌, ◌++◌,
  Option, none, some, Bytes, codes, ltb, leb, ◌==◌, if◌then◌else◌,
}
use miniupnpd_sdn.Permissions.{PermType, allow, deny, UpnpPerm}

-- `fault` is undefined behaviour: a read behind the buffer, or a shift by 32 or more.
pub data Outcome {ℓ} (A : Type ℓ) : Type ℓ where
  done : A → Outcome A
  rejected : Outcome A
  fault : Outcome A

infixl 5 ◌>>=◌ ◌>>◌
abbrev pub ◌>>=◌ {ℓ κ} : {A : Type ℓ} {B : Type κ} → Outcome A → (A → Outcome B) → Outcome B
done a >>= f = f a
rejected >>= f = rejected
fault >>= f = fault

abbrev pub ◌>>◌ {ℓ} : {B : Type ℓ} → Outcome (Unit {0}) → Outcome B → Outcome B
m >> k = m >>= λ _. k

abbrev pub guard : Bool → Outcome (Unit {0})
guard true = done tt
guard false = rejected

unfoldable pub is_digit : ℕ → Bool
is_digit c = leb b'0' c && leb c b'9'

-- `isspace` in the C locale.
unfoldable pub is_space : ℕ → Bool
is_space c = c == b' ' || leb 9 c && leb c 13

abbrev pub is_dotted : ℕ → Bool
is_dotted c = is_digit c || c == b'.'

abbrev pub peek : Bytes → Outcome ℕ
peek [] = fault
peek (c ∷ s) = done c

-- `p + 1`
abbrev pub next : Bytes → Bytes
next [] = []
next (c ∷ s) = s

-- `while(isspace(*p)) p++;`
unfoldable pub skip_spaces : Bytes → Outcome Bytes
skip_spaces [] = fault
skip_spaces (c ∷ s) = if is_space c then skip_spaces s else done (c ∷ s)

-- `for(q = p; test(*q); q++);` gives the bytes passed over and the rest, which starts at `q`.
unfoldable pub span : (ℕ → Bool) → Bytes → Outcome (Bytes × Bytes)
span test [] = fault
span test (c ∷ s) =
    let more = (do (tok, rest) ← span test s; done (c ∷ tok, rest)) in
    if test c then more else done ([], c ∷ s)

-- `memcmp(p, word, n) == 0`, which stops at the first difference; then `p += n`.
unfoldable pub after_word : Bytes → Bytes → Outcome (Option Bytes)
after_word [] s = done (some s)
after_word (w ∷ ws) [] = fault
after_word (w ∷ ws) (c ∷ s) = if w == c then after_word ws s else done none

abbrev pub digits_value : ℕ → Bytes → ℕ
digits_value acc [] = acc
digits_value acc (c ∷ s) = digits_value (acc * 10 + (c - b'0')) s

abbrev pub long_max : ℕ
long_max = 2 ^ 63 - 1

-- `atoi` of a token of digits, as the 32 bits of the int: the value that `strtol` bounds, cut off.
unfoldable pub atoi : Bytes → ℕ
atoi tok = let v = digits_value 0 tok in (if leb v long_max then v else long_max) % 2 ^ 32

-- `i > k` for the int with the bits `i`.
abbrev pub int_gt : ℕ → ℕ → Bool
int_gt i k = ltb k i && ltb i (2 ^ 31)

-- `i = atoi(p); if(i > 65535) return -1; … = (u_short)i;`
unfoldable pub port_value : Bytes → Outcome ℕ
port_value tok = do guard (not (int_gt (atoi tok) 65535)); done (atoi tok % 2 ^ 16)

-- What ends a single port: a space, and for the last token also the terminator.
abbrev pub ends_port : Bool → ℕ → Bool
ends_port last c = is_space c || last && c == 0

-- A port or a range of ports. The pointer returned is `q`, at the byte that ended the token.
unfoldable pub read_ports : Bool → Bytes → Outcome (ℕ × ℕ × Bytes)
read_ports last p = do
  c ← peek p
  guard (is_digit c)
  (low, q) ← span is_digit p
  d ← peek q
  let range = do
    port_min ← port_value low
    (high, q') ← span is_digit (next q)
    port_max ← port_value high
    guard (leb port_min port_max)
    done (port_min, port_max, q')
  let single = do port ← port_value low; done (port, port, q)
  if d == b'-' then range else (if ends_port last d then single else rejected)

-- The netmask of `n` bits: `htonl(n_bits ? (0xffffffffu << (32 - n_bits)) : 0)`. A count that is
-- negative as an int shifts by more than the word has.
unfoldable pub prefix_mask : ℕ → Outcome ℕ
prefix_mask n_bits =
    if n_bits == 0
    then done 0
    else if leb (2 ^ 31) n_bits
    then fault
    else done (0xffff_ffff * 2 ^ (32 - n_bits) % 2 ^ 32)

unfoldable pub read_type : Bytes → Outcome (PermType × Bytes)
read_type p = do
  yes_rest ← after_word (codes "allow") p
  no_rest ← (elim yes_rest [ some s ↦ done none | none ↦ after_word (codes "deny") p ])
  elim yes_rest [
    | some s ↦ done (allow, s)
    | none ↦ elim no_rest [ some s ↦ done (deny, s) | none ↦ rejected ]
  ]

-- `inet_aton`, which the C library implements: the address, or none where it returns 0.
module _ (inet_aton : Bytes → Option ℕ) where
  abbrev pub aton : Bytes → Outcome ℕ
  aton tok = elim (inet_aton tok) [ none ↦ rejected | some a ↦ done a ]

  -- The part behind the slash: bits, or a dotted mask. At the first byte behind the digits.
  unfoldable pub read_mask : Bytes → Outcome (ℕ × Bytes)
  read_mask p = do
    (tok, q) ← span is_digit p
    d ← peek q
    let dotted = do
      (more, q') ← span is_dotted q
      e ← peek q'
      guard (is_space e)
      mask ← aton (tok ++ more)
      done (mask, q')
    let bits = do
      guard (is_space d)
      guard (not (int_gt (atoi tok) 32))
      mask ← prefix_mask (atoi tok)
      done (mask, q)
    if d == b'.' then dotted else bits

  unfoldable pub read_address : Bytes → Outcome (ℕ × ℕ × Bytes)
  read_address p = do
    c ← peek p
    guard (is_digit c)
    (tok, q) ← span is_dotted p
    d ← peek q
    let masked = do address ← aton tok; (mask, q') ← read_mask (next q); done (address, mask, q')
    let plain = do address ← aton tok; done (address, 0xffff_ffff, q)
    if d == b'/' then masked else (if is_space d then plain else rejected)

  unfoldable pub read_permission_line : Bytes → Outcome UpnpPerm
  read_permission_line p = do
    p1 ← skip_spaces p
    (type, p2) ← read_type p1
    p3 ← skip_spaces p2
    (eport_min, eport_max, q1) ← read_ports false p3
    p4 ← skip_spaces (next q1)
    (address, mask, q2) ← read_address p4
    p5 ← skip_spaces (next q2)
    (iport_min, iport_max, q3) ← read_ports true p5
    done (record {
      type = type;
      eport_min = eport_min;
      eport_max = eport_max;
      address = address;
      mask = mask;
      iport_min = iport_min;
      iport_max = iport_max;
    })
