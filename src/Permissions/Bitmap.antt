-- ===== src/Permissions/Bitmap.antt =====
-- miniupnpd/upnppermissions.c: the array of get_permitted_ext_ports, bit by bit.
use Prim.Native.Nat.{bit_and, bit_or}
use miniupnpd_sdn.Base.{
  ℕ, zero, suc, ◌+◌, ◌/◌, ◌%◌, ◌^◌, ◌≤◌, ◌<◌, ◌≡◌, refl, inl, inr, not, ◌&&◌, List, [], ◌∷◌, ltb,
  leb, ◌==◌, if◌then◌else◌, arith, Bool-cases, get_or, set, length, length-set, length-replicate,
  get_or-replicate, get_or-set_self, get_or-set_ne,
}
use miniupnpd_sdn.Base.Bits.{
  test_bit, complement, test_bit-set_bit, test_bit-clear_bit, test_bit-ones, test_bit-zero,
}
use miniupnpd_sdn.Permissions.{
  PermType, allow, deny, UpnpPerm, is_allow, IsRule, AllRules, match_permission,
  check_upnp_rule_against_permissions, write_port, write_ports, full_word, write_range, write_rule,
  get_permitted_ext_ports, port_bit,
}

get_or-set :
    (a : List ℕ) (q v i : ℕ)
    → q < length a
    → get_or (set a q v) i 0 ≡ (if q == i then v else get_or a i 0)
get_or-set a q v i h = ground (arith, get_or-set_self a q v 0 h, get_or-set_ne a q i v 0)

port_bit-set :
    (a : List ℕ) (q v x : ℕ)
    → q < length a
    → port_bit (set a q v) x ≡ (if q == x / 32 then test_bit v (x % 32) else port_bit a x)
port_bit-set a q v x h = elim (Bool-cases (q == x / 32)) [
  | inl e ↦ rw (get_or-set a q v (x / 32) h) (rw e refl)
  | inr e ↦ rw (get_or-set a q v (x / 32) h) (rw e refl)
]

write_port_bit :
    (t : PermType) (a : List ℕ) (j x : ℕ)
    → j / 32 < length a
    → port_bit (write_port t a j) x ≡ (if x == j then is_allow t else port_bit a x)
unfolding write_port
write_port_bit allow a j x h = ground (
  arith,
  port_bit-set a (j / 32) (bit_or (get_or a (j / 32) 0) (2 ^ (j % 32))) x h,
  test_bit-set_bit (get_or a (j / 32) 0) (j % 32) (x % 32),
)
write_port_bit deny a j x h = ground (
  arith,
  port_bit-set a (j / 32) (bit_and (get_or a (j / 32) 0) (complement 32 (2 ^ (j % 32)))) x h,
  test_bit-clear_bit 32 (get_or a (j / 32) 0) (j % 32) (x % 32) (omega arith) (omega arith),
)

length-write_port : (t : PermType) (a : List ℕ) (j : ℕ) → length (write_port t a j) ≡ length a
unfolding write_port
length-write_port allow a j = length-set a _ _
length-write_port deny a j = length-set a _ _

-- What a partial write of the ports from `j` to below `j'` leaves.
record Written (t : PermType) (a : List ℕ) (j : ℕ) (a' : List ℕ) (j' : ℕ) : Type 0 where
  same_length : length a' ≡ length a
  bits : (x : ℕ) → port_bit a' x ≡ (if leb j x && ltb x j' then is_allow t else port_bit a x)

module _ (t : PermType) where
  Written-refl : (a : List ℕ) (j : ℕ) → Written t a j a j
  Written-refl a j = record { same_length = refl; bits = λ x. ground arith }

  -- No port is left to write.
  Written-none : (a : List ℕ) (j k : ℕ) → k ≤ j → Written t a j a k
  Written-none a j k h = record { same_length = refl; bits = λ x. ground arith }

  Written-trans :
      {a b c : List ℕ} (i j k : ℕ)
      → i ≤ j
      → j ≤ k
      → Written t a i b j
      → Written t b j c k
      → Written t a i c k
  Written-trans i j k p q v w = record {
    same_length = omega (arith, v.same_length, w.same_length);
    bits = λ x. ground (arith, v.bits x, w.bits x);
  }

  write_port-Written :
      (a : List ℕ) (j : ℕ) → j / 32 < length a → Written t a j (write_port t a j) (j + 1)
  write_port-Written a j h = record {
    same_length = length-write_port t a j;
    bits = λ x. ground (arith, write_port_bit t a j x h);
  }

  word_bit : (x : ℕ) → test_bit (full_word t) (x % 32) ≡ is_allow t
  word_bit x = full t
    where
      full : (u : PermType) → test_bit (full_word u) (x % 32) ≡ is_allow u
      full allow = test_bit-ones 32 (x % 32) (omega arith)
      full deny = test_bit-zero (x % 32)

  word-Written :
      (a : List ℕ) (j : ℕ)
      → j / 32 < length a
      → j % 32 ≡ 0
      → Written t a j (set a (j / 32) (full_word t)) (j + 32)
  word-Written a j h e = record {
    same_length = length-set a _ _;
    bits = λ x. ground (arith, port_bit-set a (j / 32) (full_word t) x h, word_bit x);
  }

  -- How far the inner loop gets: never beyond the rule, and at least one port.
  write_ports_end :
      (f last : ℕ) (a : List ℕ) (j : ℕ)
      → j ≤ last
      → (j < (write_ports (suc f) t last a j).1) × ((write_ports (suc f) t last a j).1 ≤ last + 1)
  unfolding write_ports
  write_ports_end zero last a j h = ground arith
  write_ports_end (suc f) last a j h = elim (Bool-cases (leb (j + 1) last)) [
    | inl more ↦ ground (arith, write_ports_end f last (write_port t a j) (j + 1))
    | inr stop ↦ ground arith
  ]

  write_ports-Written :
      (f last : ℕ) (a : List ℕ) (j : ℕ)
      → length a ≡ 2048
      → last < 2 ^ 16
      → j ≤ last
      → Written t a j (write_ports (suc f) t last a j).0 (write_ports (suc f) t last a j).1
  unfolding write_ports
  write_ports-Written zero last a j l m h =
      elim (Bool-cases (not ((j + 1) % 32 == 0) && leb (j + 1) last)) [
        | inl more ↦ rw more (write_port-Written a j (omega arith))
        | inr stop ↦ rw stop (write_port-Written a j (omega arith))
      ]
  write_ports-Written (suc f) last a j l m h =
      let first = write_port-Written a j (omega arith) in
      elim (Bool-cases (not ((j + 1) % 32 == 0) && leb (j + 1) last)) [
        | inl more ↦
            let next : j + 1 ≤ last = ground arith in
            let (near, far) = write_ports_end f last (write_port t a j) (j + 1) next in
            rw more (
              Written-trans j (j + 1) _ (omega arith) (omega arith) first (
                write_ports-Written f last (write_port t a j) (j + 1)
                  (omega (arith, first.same_length)) m next))
        | inr stop ↦ rw stop first
      ]

  -- The loop over a rule's ports writes each of them, and no other.
  write_range-Written :
      (f last : ℕ) (a : List ℕ) (j : ℕ)
      → length a ≡ 2048
      → last < 2 ^ 16
      → last < f + j
      → Written t a j (write_range f t last a j) (last + 1)
  unfolding write_range
  write_range-Written zero last a j l m fuel = Written-none a j (last + 1) (omega arith)
  write_range-Written (suc f) last a j l m fuel = elim (Bool-cases (leb j last)) [
    | inr over ↦ rw over (Written-none a j (last + 1) (ground arith))
    | inl more ↦
        let go : j ≤ last = ground arith in
        elim (Bool-cases (j % 32 == 0 && leb (j + 31) last)) [
          | inl word ↦
              let first = word-Written a j (omega arith) (ground arith) in
              let room : j + 31 ≤ last = ground arith in
              rw (more, word)
                (Written-trans j (j + 32) (last + 1) (omega arith) (omega arith) first (
                  write_range-Written f last _ (j + 32) (omega (arith, first.same_length)) m
                    (omega arith)))
          | inr bits ↦
              let first = write_ports-Written 31 last a j l m go in
              let (near, far) = write_ports_end 31 last a j go in
              rw (more, bits)
                (Written-trans j _ (last + 1) (omega arith) far first (
                  write_range-Written f last _ _ (omega (arith, first.same_length)) m
                    (omega arith)))
        ]
  ]

write_rule_bit :
    (perm : UpnpPerm) (addr iport : ℕ) (a : List ℕ) (x : ℕ)
    → IsRule perm
    → length a ≡ 2048
    → port_bit (write_rule perm addr iport a) x
      ≡ (if match_permission perm x addr iport then is_allow perm.type else port_bit a x)
unfolding write_rule match_permission
write_rule_bit perm addr iport a x v l =
    let w =
      write_range-Written perm.type (2 ^ 16 + 1) perm.eport_max a perm.eport_min l v.eport_max-lt
        (omega arith) in
    ground (arith, w.bits x)

length-write_rule :
    (perm : UpnpPerm) (addr iport : ℕ) (a : List ℕ)
    → IsRule perm
    → length a ≡ 2048
    → length (write_rule perm addr iport a) ≡ 2048
unfolding write_rule
length-write_rule perm addr iport a v l =
    let w =
      write_range-Written perm.type (2 ^ 16 + 1) perm.eport_max a perm.eport_min l v.eport_max-lt
        (omega arith) in
    ground (arith, w.same_length)

length-get_permitted_ext_ports :
    (permary : List UpnpPerm) (addr iport : ℕ)
    → AllRules permary
    → length (get_permitted_ext_ports permary addr iport) ≡ 2048
unfolding get_permitted_ext_ports
length-get_permitted_ext_ports [] addr iport h = length-replicate {A = ℕ} 2048 0xffff_ffff
length-get_permitted_ext_ports (p ∷ ps) addr iport h =
    length-write_rule p addr iport _ h.0 (length-get_permitted_ext_ports ps addr iport h.1)

-- For rules whose ports fit 16 bits: a port is set in the array of permitted external ports exactly
-- when a mapping from that port, asked for on its own, passes the permission check.
pub get_permitted_ext_ports-check :
    (permary : List UpnpPerm) (addr iport eport : ℕ)
    → AllRules permary
    → eport < 2 ^ 16
    → port_bit (get_permitted_ext_ports permary addr iport) eport
      ≡ check_upnp_rule_against_permissions permary eport addr iport
unfolding get_permitted_ext_ports check_upnp_rule_against_permissions
get_permitted_ext_ports-check [] addr iport eport h k =
    rw (get_or-replicate {A = ℕ} 2048 (eport / 32) 0xffff_ffff 0 (omega arith))
      (test_bit-ones 32 (eport % 32) (omega arith))
get_permitted_ext_ports-check (p ∷ ps) addr iport eport h k = ground (
  arith,
  write_rule_bit p addr iport (get_permitted_ext_ports ps addr iport) eport h.0
      (length-get_permitted_ext_ports ps addr iport h.1),
  get_permitted_ext_ports-check ps addr iport eport h.1 k,
)
