-- ===== src/Redirect/LeaseFile/ReadBack.antt =====
-- miniupnpd/upnpredirect.c: reload_from_lease_file reads the leases that lease_file_add wrote.
use miniupnpd_sdn.Base.{
  append_assoc, ℕ, ◌^◌, ◌≤◌, ◌<◌, ◌≡◌, refl, sym, ap, ◌∙◌, inl, inr, false, [], ◌∷◌, ◌++◌, some,
  Bytes, codes, ◌==◌, length, length-append, c_string, Bool-cases, arith,
}
use miniupnpd_sdn.Base.Decimal.{
  decimal, is_blank, skip_blanks, Lacks, Lacks-decimal, atoi_ushort-decimal, strtoul_uint-decimal,
}
use miniupnpd_sdn.Redirect.LeaseFile.{
  proto_itoa, ipproto_udp, ipproto_tcp, ipproto_udplite, field, lease_line, fgets_from, lease,
  split, trim_end, trimmed, read_lease_line,
}
use miniupnpd_sdn.Redirect.LeaseFile.Lines.{fgets_from-line, c_string-line}

-- A description's bytes behind the first: none, or the last one is no blank.
abbrev pub Solid : Bytes → Type 0
Solid [] = Unit {0}
Solid (c ∷ []) = is_blank c ≡ false
Solid (c ∷ d ∷ s) = Solid (d ∷ s)

-- A lease that its line spells: the address has no colon, and the description no blank at its ends.
pub record IsLease (proto eport : ℕ) (iaddr : Bytes) (iport timestamp : ℕ) (first : ℕ)
    (others : Bytes) : Type 0 where
  pub eport_fits : eport < 65536
  pub iport_fits : iport < 65536
  pub timestamp_fits : timestamp < 2 ^ 32
  pub no_colon : Lacks b':' iaddr
  pub address_line : Lacks 10 iaddr
  pub address_string : Lacks 0 iaddr
  pub first_solid : is_blank first ≡ false
  pub last_solid : Solid others
  pub desc_line : Lacks 10 (first ∷ others)
  pub desc_string : Lacks 0 (first ∷ others)
  pub fits : length (lease_line proto eport iaddr iport timestamp (first ∷ others)) ≤ 127

split-field : (s rest : Bytes) → Lacks b':' s → split (field s rest) ≡ some (s, rest)
unfolding split
split-field [] rest h = refl
split-field (c ∷ s) rest h = rw (h.0, split-field s rest h.1) refl

Lacks-field :
    (b : ℕ) (s rest : Bytes)
    → (b':' == b) ≡ false
    → Lacks b s
    → Lacks b rest
    → Lacks b (field s rest)
Lacks-field b [] rest e h k = (e, k)
Lacks-field b (c ∷ s) rest e h k = (h.0, Lacks-field b s rest e h.1 k)

-- The names of the protocols.
Lacks-proto_itoa :
    (b proto : ℕ)
    → Lacks b (codes "UDP")
    → Lacks b (codes "TCP")
    → Lacks b (codes "UDPLITE")
    → Lacks b (codes "*UNKNOWN*")
    → Lacks b (proto_itoa proto)
unfolding proto_itoa
Lacks-proto_itoa b proto u t l x = elim (Bool-cases (proto == ipproto_udp)) [
  | inl e ↦ rw e u
  | inr e ↦ rw e (elim (Bool-cases (proto == ipproto_tcp)) [
    | inl f ↦ rw f t
    | inr f ↦
        rw f (elim (Bool-cases (proto == ipproto_udplite)) [ inl g ↦ rw g l | inr g ↦ rw g x ])
  ])
]

proto_colon : (proto : ℕ) → Lacks b':' (proto_itoa proto)
proto_colon proto =
    Lacks-proto_itoa b':' proto (ground arith) (ground arith) (ground arith) (ground arith)

proto_line : (proto : ℕ) → Lacks 10 (proto_itoa proto)
proto_line proto =
    Lacks-proto_itoa 10 proto (ground arith) (ground arith) (ground arith) (ground arith)

proto_string : (proto : ℕ) → Lacks 0 (proto_itoa proto)
proto_string proto =
    Lacks-proto_itoa 0 proto (ground arith) (ground arith) (ground arith) (ground arith)

trim_end-newline : (s : Bytes) → Solid s → trim_end (s ++ (10 ∷ [])) ≡ s
unfolding trim_end
trim_end-newline [] h = refl
trim_end-newline (c ∷ []) h = rw h refl
trim_end-newline (c ∷ d ∷ s) h = rw (trim_end-newline (d ∷ s) h) refl

skip_solid : (c : ℕ) (s : Bytes) → is_blank c ≡ false → skip_blanks (c ∷ s) ≡ c ∷ s
unfolding skip_blanks
skip_solid c s h = rw h refl

-- The line as far as its last field.
module _ (proto eport : ℕ) (iaddr : Bytes) (iport timestamp first : ℕ) (others : Bytes) where
  abbrev body : Bytes
  body = field (proto_itoa proto) (
      field (decimal eport)
        (field iaddr (field (decimal iport) (field (decimal timestamp) (first ∷ others)))))

  field-newline : (s t : Bytes) → field s t ++ (10 ∷ []) ≡ field s (t ++ (10 ∷ []))
  field-newline [] t = refl
  field-newline (c ∷ s) t = ap (λ w. c ∷ w) (field-newline s t)

  body-newline : lease_line proto eport iaddr iport timestamp (first ∷ others) ≡ body ++ (10 ∷ [])
  unfolding lease_line
  body-newline = sym (
      field-newline (proto_itoa proto) _
      ∙ ap (field (proto_itoa proto)) (
          field-newline (decimal eport) _
          ∙ ap (field (decimal eport)) (
              field-newline iaddr _
              ∙ ap (field iaddr) (
                  field-newline (decimal iport) _
                  ∙ ap (field (decimal iport))
                      (field-newline (decimal timestamp) (first ∷ others))))))

  Lacks-body :
      (b : ℕ)
      → (b':' == b) ≡ false
      → Lacks b (proto_itoa proto)
      → ((n : ℕ) → Lacks b (decimal n))
      → Lacks b iaddr
      → Lacks b (first ∷ others)
      → Lacks b body
  Lacks-body b e p d i t = Lacks-field b (proto_itoa proto) _ e p (
      Lacks-field b (decimal eport) _ e (d eport) (
        Lacks-field b iaddr _ e i (
          Lacks-field b (decimal iport) _ e (d iport)
            (Lacks-field b (decimal timestamp) (first ∷ others) e (d timestamp) t))))

  read_body :
      (stale : Bytes)
      → IsLease proto eport iaddr iport timestamp first others
      → read_lease_line stale (lease_line proto eport iaddr iport timestamp (first ∷ others))
        ≡ lease (record {
          proto = proto_itoa proto;
          eport = eport;
          iaddr = iaddr;
          iport = iport;
          timestamp = timestamp;
          desc = first ∷ others;
        })
  unfolding read_lease_line lease_line trimmed
  read_body stale h =
      rw
        (
          split-field (proto_itoa proto) _ (proto_colon proto),
          split-field (decimal eport) _ (Lacks-decimal b':' eport refl),
          split-field iaddr _ h.no_colon,
          split-field (decimal iport) _ (Lacks-decimal b':' iport refl),
          split-field (decimal timestamp) _ (Lacks-decimal b':' timestamp refl),
          atoi_ushort-decimal eport h.eport_fits,
          atoi_ushort-decimal iport h.iport_fits,
          strtoul_uint-decimal timestamp h.timestamp_fits,
          skip_solid first (others ++ (10 ∷ [])) h.first_solid,
          trim_end-newline others h.last_solid,
        )
        refl

  -- A lease that lease_file_add has written is the first line that reload_from_lease_file takes from
  -- the file, and it reads the same lease in it, whatever the array held before: where the address has
  -- no colon, the description is not empty and has no blank at its ends, neither has a newline or a
  -- NUL, the numbers fit their types and the line has at most 127 bytes.
  pub read_lease_line-lease_line :
      (stale file : Bytes)
      → IsLease proto eport iaddr iport timestamp first others
      → (fgets_from 127 (lease_line proto eport iaddr iport timestamp (first ∷ others) ++ file)
          ≡ (lease_line proto eport iaddr iport timestamp (first ∷ others), file))
        × (read_lease_line stale
              (c_string (lease_line proto eport iaddr iport timestamp (first ∷ others)))
            ≡ lease (record {
              proto = proto_itoa proto;
              eport = eport;
              iaddr = iaddr;
              iport = iport;
              timestamp = timestamp;
              desc = first ∷ others;
            }))
  read_lease_line-lease_line stale file h =
      let line =
        Lacks-body 10 refl (proto_line proto) (λ n. Lacks-decimal 10 n refl) h.address_line
          h.desc_line in
      let string =
        Lacks-body 0 refl (proto_string proto) (λ n. Lacks-decimal 0 n refl) h.address_string
          h.desc_string in
      (
        rw body-newline (
            ap (fgets_from 127) (append_assoc body (10 ∷ []) file)
            ∙ fgets_from-line 127 body file line
                (omega (arith, h.fits, ap length body-newline, length-append body (10 ∷ [])))),
        ap (read_lease_line stale)
              (ap c_string body-newline ∙ c_string-line body string ∙ sym body-newline)
            ∙ read_body stale h,
      )
