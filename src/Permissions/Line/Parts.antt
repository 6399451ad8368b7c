-- ===== src/Permissions/Line/Parts.antt =====
-- miniupnpd/upnppermissions.c: the ports and the addresses of a permission line, read from their texts.
use miniupnpd_sdn.Base.{
  ℕ, zero, suc, ◌-◌, ◌^◌, ◌≤◌, ◌<◌, ◌≡◌, refl, ap, ◌∙◌, Bool, true, false, [], ◌∷◌, ◌++◌, Option,
  some, ◌==◌, Bytes, arith, append_assoc,
}
use native.Mathlib.Nat.{one-le-pow}
use miniupnpd_sdn.Base.Bits.{pow_mono}
use miniupnpd_sdn.Permissions.Line.{
  done, aton, is_digit, is_space, is_dotted, span, digits_value, atoi, port_value, read_ports,
  prefix_mask, read_mask, read_address, ends_port,
}

-- Every byte of a token passes the test.
abbrev pub All : (ℕ → Bool) → Bytes → Type 0
All test [] = Unit {0}
All test (c ∷ s) = (test c ≡ true) × All test s

-- A token is what is passed over, up to the first byte that fails the test.
pub span-append :
    (test : ℕ → Bool) (tok : Bytes) (c : ℕ) (s : Bytes)
    → All test tok
    → test c ≡ false
    → span test (tok ++ c ∷ s) ≡ done (tok, c ∷ s)
unfolding span
span-append test [] c s h k = rw k
span-append test (d ∷ tok) c s h k = rw (h.0, span-append test tok c s h.1 k)

-- The digits of a port: the first one apart, and the value they spell.
pub record IsPort (d : ℕ) (tok : Bytes) (v : ℕ) : Type 0 where
  pub first : is_digit d ≡ true
  pub others : All is_digit tok
  pub value : digits_value 0 (d ∷ tok) ≡ v
  pub fits : v < 2 ^ 16

port_value-IsPort : (d : ℕ) (tok : Bytes) {v : ℕ} → IsPort d tok v → port_value (d ∷ tok) ≡ done v
unfolding port_value atoi
port_value-IsPort d tok h = ground arith

pub delimiters :
    (is_digit b'-' ≡ false)
    × (is_digit b' ' ≡ false)
    × (is_digit 0 ≡ false)
    × (is_digit b'/' ≡ false)
    × (is_space b' ' ≡ true)
unfolding is_digit is_space
delimiters = (refl, refl, refl, refl, refl)

pub not-is_space : (d : ℕ) → is_digit d ≡ true → is_space d ≡ false
unfolding is_digit is_space
not-is_space d h = ground arith

pub read_ports_range :
    (last : Bool) (d e : ℕ) (lo hi : Bytes) (a b c : ℕ) (s : Bytes)
    → IsPort d lo a
    → IsPort e hi b
    → a ≤ b
    → is_digit c ≡ false
    → read_ports last (d ∷ (lo ++ b'-' ∷ e ∷ (hi ++ c ∷ s))) ≡ done (a, b, c ∷ s)
unfolding read_ports
read_ports_range last d e lo hi a b c s x y le z =
    rw
      (
        x.first,
        span-append is_digit (d ∷ lo) b'-' (e ∷ (hi ++ c ∷ s)) (x.first, x.others) delimiters.0,
        port_value-IsPort d lo x,
        span-append is_digit (e ∷ hi) c s (y.first, y.others) z,
        port_value-IsPort e hi y,
      )
      (ground arith)

-- The text of an address and the number that the C library reads from it.
pub record IsAddress (inet_aton : Bytes → Option ℕ) (d : ℕ) (tok : Bytes) (address : ℕ)
    : Type 0 where
  pub first : is_digit d ≡ true
  pub others : All is_dotted tok
  pub value : inet_aton (d ∷ tok) ≡ some address

-- The text of a prefix length.
pub record IsPrefix (d : ℕ) (tok : Bytes) (bits : ℕ) : Type 0 where
  pub first : is_digit d ≡ true
  pub others : All is_digit tok
  pub value : digits_value 0 (d ∷ tok) ≡ bits
  pub fits : bits ≤ 32

atoi-IsPrefix : (d : ℕ) (tok : Bytes) {v : ℕ} → IsPrefix d tok v → atoi (d ∷ tok) ≡ v
unfolding atoi
atoi-IsPrefix d tok x = ground arith

-- The mask of a prefix length: its ones above its zeros.
abbrev pub netmask : ℕ → ℕ
netmask bits = 2 ^ 32 - 2 ^ (32 - bits)

prefix_mask-netmask : (n : ℕ) → n ≤ 32 → prefix_mask n ≡ done (netmask n)
unfolding prefix_mask
prefix_mask-netmask zero h = refl
prefix_mask-netmask (suc n) h = ground (arith, pow_mono (32 - suc n) 32, one-le-pow (32 - suc n) 2)

-- A space is no digit, no dot, no dash and no slash.
pub space-ends :
    (c : ℕ)
    → is_space c ≡ true
    → (is_digit c ≡ false)
      × (is_dotted c ≡ false)
      × ((c == b'-') ≡ false)
      × ((c == b'/') ≡ false)
      × ((c == b'.') ≡ false)
unfolding is_space is_digit
space-ends c h = (ground arith, ground arith, ground arith, ground arith, ground arith)

read_mask_bits :
    (inet_aton : Bytes → Option ℕ) (d : ℕ) (tok : Bytes) (bits c : ℕ) (s : Bytes)
    → IsPrefix d tok bits
    → is_space c ≡ true
    → read_mask inet_aton (d ∷ (tok ++ c ∷ s)) ≡ done (netmask bits, c ∷ s)
unfolding read_mask
read_mask_bits inet_aton d tok bits c s x e =
    let ends = space-ends c e in
    let v = atoi-IsPrefix d tok x in
    rw
      (
        span-append is_digit (d ∷ tok) c s (x.first, x.others) ends.0,
        e,
        ends.4,
        v,
        prefix_mask-netmask bits x.fits,
      )
      (ground arith)

aton-some :
    (inet_aton : Bytes → Option ℕ) (tok : Bytes) {a : ℕ}
    → inet_aton tok ≡ some a
    → aton inet_aton tok ≡ done a
aton-some inet_aton tok h = rw (h, aton)

-- A range of ports, or one port: the first digit apart.
pub data IsPorts (d : ℕ) : Bytes → ℕ → ℕ → Type 0 where
  range :
      (lo : Bytes) (e : ℕ) (hi : Bytes) (min max : ℕ)
      → IsPort d lo min
      → IsPort e hi max
      → min ≤ max
      → IsPorts d (lo ++ b'-' ∷ e ∷ hi) min max
  single : (tok : Bytes) (port : ℕ) → IsPort d tok port → IsPorts d tok port port

pub first-IsPorts : (d : ℕ) (tok : Bytes) (a b : ℕ) → IsPorts d tok a b → is_digit d ≡ true
first-IsPorts d _ _ _ (range lo e hi a b x y le) = x.first
first-IsPorts d _ _ _ (single tok a x) = x.first

read_ports_single :
    (last : Bool) (d : ℕ) (tok : Bytes) (a c : ℕ) (s : Bytes)
    → IsPort d tok a
    → is_digit c ≡ false
    → (c == b'-') ≡ false
    → ends_port last c ≡ true
    → read_ports last (d ∷ (tok ++ c ∷ s)) ≡ done (a, a, c ∷ s)
unfolding read_ports
read_ports_single last d tok a c s x z m e =
    rw
      (x.first, span-append is_digit (d ∷ tok) c s (x.first, x.others) z, port_value-IsPort d tok x)
      (rw (m, e) refl)

pub read_ports-IsPorts :
    (last : Bool) (d : ℕ) (tok : Bytes) (a b c : ℕ) (s : Bytes)
    → IsPorts d tok a b
    → is_digit c ≡ false
    → (c == b'-') ≡ false
    → ends_port last c ≡ true
    → read_ports last (d ∷ (tok ++ c ∷ s)) ≡ done (a, b, c ∷ s)
read_ports-IsPorts last d _ _ _ c s (range lo e hi a b x y le) z m k =
    ap (λ t. read_ports last (d ∷ t)) (append_assoc lo (b'-' ∷ e ∷ hi) (c ∷ s))
    ∙ read_ports_range last d e lo hi a b c s x y le z
read_ports-IsPorts last d _ _ _ c s (single tok a x) z m k =
    read_ports_single last d tok a c s x z m k

-- An address with a prefix length, with a dotted mask, or alone: the first digit apart.
pub data IsMasked (inet_aton : Bytes → Option ℕ) (d : ℕ) : Bytes → ℕ → ℕ → Type 0 where
  with_bits :
      (tok : Bytes) (e : ℕ) (len : Bytes) (address bits : ℕ)
      → IsAddress inet_aton d tok address
      → IsPrefix e len bits
      → IsMasked inet_aton d (tok ++ b'/' ∷ e ∷ len) address (netmask bits)
  with_mask :
      (tok digits more : Bytes) (address mask : ℕ)
      → IsAddress inet_aton d tok address
      → All is_digit digits
      → All is_dotted more
      → inet_aton (digits ++ b'.' ∷ more) ≡ some mask
      → IsMasked inet_aton d (tok ++ b'/' ∷ (digits ++ b'.' ∷ more)) address mask
  alone :
      (tok : Bytes) (address : ℕ)
      → IsAddress inet_aton d tok address
      → IsMasked inet_aton d tok address 0xffff_ffff

pub first-IsMasked :
    (inet_aton : Bytes → Option ℕ) (d : ℕ) (tok : Bytes) (a m : ℕ)
    → IsMasked inet_aton d tok a m
    → is_digit d ≡ true
first-IsMasked f d _ _ _ (with_bits tok e len a n x y) = x.first
first-IsMasked f d _ _ _ (with_mask tok digits more a m x y z w) = x.first
first-IsMasked f d _ _ _ (alone tok a x) = x.first

dot : (is_digit b'.' ≡ false) × (is_dotted b'.' ≡ true)
unfolding is_digit
dot = (refl, refl)

read_mask_dotted :
    (inet_aton : Bytes → Option ℕ) (digits more : Bytes) (mask c : ℕ) (s : Bytes)
    → All is_digit digits
    → All is_dotted more
    → inet_aton (digits ++ b'.' ∷ more) ≡ some mask
    → is_space c ≡ true
    → read_mask inet_aton (digits ++ b'.' ∷ (more ++ c ∷ s)) ≡ done (mask, c ∷ s)
unfolding read_mask
read_mask_dotted inet_aton digits more mask c s x y z e =
    rw
      (
        span-append is_digit digits b'.' (more ++ c ∷ s) x dot.0,
        span-append is_dotted (b'.' ∷ more) c s (dot.1, y) (space-ends c e).1,
        e,
        aton-some inet_aton (digits ++ b'.' ∷ more) z,
      )
      refl

module _ (inet_aton : Bytes → Option ℕ) (d c : ℕ) (s : Bytes) (e : is_space c ≡ true) where
  read_token :
      (tok : Bytes) (address : ℕ) (b : ℕ) (t : Bytes)
      → IsAddress inet_aton d tok address
      → is_dotted b ≡ false
      → span is_dotted (d ∷ (tok ++ b ∷ t)) ≡ done (d ∷ tok, b ∷ t)
  read_token tok address b t x z =
      let first : is_dotted d ≡ true = ground (arith, x.first) in
      span-append is_dotted (d ∷ tok) b t (first, x.others) z

  pub read_address-IsMasked :
      (tok : Bytes) (address mask : ℕ)
      → IsMasked inet_aton d tok address mask
      → read_address inet_aton (d ∷ (tok ++ c ∷ s)) ≡ done (address, mask, c ∷ s)
  unfolding read_address
  read_address-IsMasked _ _ _ (with_bits tok n len address bits x y) =
      ap (λ t. read_address inet_aton (d ∷ t)) (append_assoc tok (b'/' ∷ n ∷ len) (c ∷ s))
      ∙ rw
          (
            x.first,
            read_token tok address b'/' (n ∷ (len ++ c ∷ s)) x (rw delimiters.3),
            aton-some inet_aton (d ∷ tok) x.value,
            read_mask_bits inet_aton n len bits c s y e,
          )
          refl
  read_address-IsMasked _ _ _ (with_mask tok digits more address mask x y z w) =
      ap (λ t. read_address inet_aton (d ∷ t))
        (append_assoc tok (b'/' ∷ (digits ++ b'.' ∷ more)) (c ∷ s)
          ∙ ap (λ t. tok ++ b'/' ∷ t) (append_assoc digits (b'.' ∷ more) (c ∷ s)))
      ∙ rw
          (
            x.first,
            read_token tok address b'/' (digits ++ b'.' ∷ (more ++ c ∷ s)) x (rw delimiters.3),
            aton-some inet_aton (d ∷ tok) x.value,
            read_mask_dotted inet_aton digits more mask c s y z w e,
          )
          refl
  read_address-IsMasked _ _ _ (alone tok address x) =
      let ends = space-ends c e in
      rw
        (
          x.first,
          read_token tok address c s x ends.1,
          ends.3,
          e,
          aton-some inet_aton (d ∷ tok) x.value,
        )
        refl
