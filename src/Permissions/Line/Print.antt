-- ===== src/Permissions/Line/Print.antt =====
-- miniupnpd/upnppermissions.c: lines in the documented format, read back; and a line cut short.
use miniupnpd_sdn.Base.{
  ℕ, ◌≤◌, ◌≡◌, refl, true, false, [], ◌∷◌, ◌++◌, Option, Bytes, codes, append_assoc,
}
use miniupnpd_sdn.Permissions.{PermType, allow, deny, UpnpPerm}
use miniupnpd_sdn.Permissions.Line.{
  done, fault, is_digit, is_space, ends_port, skip_spaces, read_type, read_permission_line,
  after_word,
}
use miniupnpd_sdn.Permissions.Line.Parts.{
  All, IsPort, IsPorts, IsMasked, delimiters, not-is_space, space-ends, first-IsPorts,
  first-IsMasked, read_ports_range, read_ports-IsPorts, read_address-IsMasked,
}

-- The spaces of a gap are passed over.
skip_spaces_gap :
    (gap : Bytes) (d : ℕ) (s : Bytes)
    → All is_space gap
    → is_digit d ≡ true
    → skip_spaces (gap ++ d ∷ s) ≡ done (d ∷ s)
unfolding skip_spaces
skip_spaces_gap [] d s g h = rw (not-is_space d h)
skip_spaces_gap (c ∷ gap) d s g h = rw (g.0, skip_spaces_gap gap d s g.1 h)

skip_spaces_one :
    (gap : Bytes) (d : ℕ) (s : Bytes)
    → All is_space gap
    → is_digit d ≡ true
    → skip_spaces (b' ' ∷ (gap ++ d ∷ s)) ≡ done (d ∷ s)
skip_spaces_one gap d s g h = skip_spaces_gap (b' ' ∷ gap) d s (delimiters.4, g) h

-- The word that a rule begins with.
abbrev pub type_word : PermType → Bytes
type_word allow = codes "allow "
type_word deny = codes "deny "

read_type_word : (t : PermType) (s : Bytes) → read_type (type_word t ++ s) ≡ done (t, b' ' ∷ s)
unfolding read_type after_word
read_type_word allow s = refl
read_type_word deny s = refl

-- The pieces of a line in the documented format and what they stand for: the word and a space, the
-- external ports, the address and the internal ports, with one space or more between them.
pub record IsLine (inet_aton : Bytes → Option ℕ) (text : Bytes) (perm : UpnpPerm) : Type 0 where
  pub gap0 : Bytes
  pub e : ℕ
  pub eports : Bytes
  pub s1 : ℕ
  pub gap1 : Bytes
  pub a : ℕ
  pub addr : Bytes
  pub s2 : ℕ
  pub gap2 : Bytes
  pub i : ℕ
  pub iports : Bytes
  pub gap0_spaces : All is_space gap0
  pub is_eports : IsPorts e eports perm.eport_min perm.eport_max
  pub s1_space : is_space s1 ≡ true
  pub gap1_spaces : All is_space gap1
  pub is_address : IsMasked inet_aton a addr perm.address perm.mask
  pub s2_space : is_space s2 ≡ true
  pub gap2_spaces : All is_space gap2
  pub is_iports : IsPorts i iports perm.iport_min perm.iport_max
  pub text_is :
      text
      ≡ type_word perm.type
        ++ (gap0 ++ e ∷ (eports ++ s1 ∷ (gap1 ++ a ∷ (addr ++ s2 ∷ (gap2 ++ i ∷ iports)))))

skip_spaces_none :
    (t : PermType) (s : Bytes) → skip_spaces (type_word t ++ s) ≡ done (type_word t ++ s)
unfolding skip_spaces is_space
skip_spaces_none allow s = refl
skip_spaces_none deny s = refl

terminated :
    (t : PermType) (e s1 a s2 i : ℕ) (gap0 eports gap1 addr gap2 iports end : Bytes)
    → (type_word t
          ++ (gap0 ++ e ∷ (eports ++ s1 ∷ (gap1 ++ a ∷ (addr ++ s2 ∷ (gap2 ++ i ∷ iports))))))
        ++ end
      ≡ type_word t
        ++ (gap0 ++ e ∷ (eports ++ s1 ∷ (gap1 ++ a ∷ (addr ++ s2 ∷ (gap2 ++ i ∷ (iports ++ end))))))
terminated t e s1 a s2 i gap0 eports gap1 addr gap2 iports end = simp (append_assoc)

end_of_line : (is_digit 0 ≡ false) × (ends_port true 0 ≡ true)
unfolding is_digit is_space
end_of_line = (refl, refl)

ends_port-space : (c : ℕ) → is_space c ≡ true → ends_port false c ≡ true
ends_port-space c h = rw h refl

-- A line of the word allow or deny and a space, the external ports, an address and the internal ports,
-- with spaces between, is read as the rule that it describes, whatever stands behind its terminator.
-- Ports are a number or two with a dash between, in order, below 65536. The address, which the C
-- library accepts, has a prefix length of at most 32, a dotted mask that the C library accepts, or
-- neither, and then the mask of 32 ones.
pub read_permission_line-IsLine :
    (inet_aton : Bytes → Option ℕ) (text behind : Bytes) (perm : UpnpPerm)
    → IsLine inet_aton text perm
    → read_permission_line inet_aton (text ++ 0 ∷ behind) ≡ done perm
unfolding read_permission_line
read_permission_line-IsLine inet_aton text behind perm l =
    let ends1 = space-ends l.s1 l.s1_space in
    let ends2 = space-ends l.s2 l.s2_space in
    rw
      (
        l.text_is,
        terminated perm.type l.e l.s1 l.a l.s2 l.i l.gap0 l.eports l.gap1 l.addr l.gap2 l.iports
            (0 ∷ behind),
        skip_spaces_none perm.type _,
        read_type_word perm.type _,
        skip_spaces_one l.gap0 l.e _ l.gap0_spaces (first-IsPorts l.e l.eports _ _ l.is_eports),
        read_ports-IsPorts false l.e l.eports _ _ l.s1 _ l.is_eports ends1.0 ends1.2
            (ends_port-space l.s1 l.s1_space),
        skip_spaces_gap l.gap1 l.a _ l.gap1_spaces
            (first-IsMasked inet_aton l.a l.addr _ _ l.is_address),
        read_address-IsMasked inet_aton l.a l.s2 _ l.s2_space l.addr _ _ l.is_address,
        skip_spaces_gap l.gap2 l.i _ l.gap2_spaces (first-IsPorts l.i l.iports _ _ l.is_iports),
        read_ports-IsPorts true l.i l.iports _ _ 0 behind l.is_iports end_of_line.0 refl
            end_of_line.1,
      )
      refl

-- A line that ends behind its range of external ports, both below 65536 and in order, makes the
-- function read behind the line's terminator.
pub read_permission_line_short :
    (inet_aton : Bytes → Option ℕ) (t : PermType) (d e : ℕ) (lo hi : Bytes) (a b : ℕ)
    → IsPort d lo a
    → IsPort e hi b
    → a ≤ b
    → read_permission_line inet_aton (type_word t ++ d ∷ (lo ++ b'-' ∷ e ∷ (hi ++ 0 ∷ []))) ≡ fault
unfolding read_permission_line
read_permission_line_short inet_aton t d e lo hi a b x y le =
    rw
      (
        skip_spaces_none t _,
        read_type_word t _,
        skip_spaces_one [] d _ tt x.first,
        read_ports_range false d e lo hi a b 0 [] x y le delimiters.2,
      )
      (unfold skip_spaces in refl)
