-- ===== src/Config/Rules.antt =====
-- miniupnpd/options.c: the lines of permission rules among the others.
use miniupnpd_sdn.Base.{
  ℕ, ◌≤◌, ◌≡◌, refl, ap, ◌∙◌, sym, true, false, [], ◌∷◌, ◌++◌, Option, Bytes, codes, ltb, length,
  length-append, arith, append_assoc,
}
use miniupnpd_sdn.Base.Decimal.{is_blank, skip_blanks}
use miniupnpd_sdn.Permissions.{PermType, allow, deny, UpnpPerm}
use miniupnpd_sdn.Permissions.Line.{is_digit}
use miniupnpd_sdn.Permissions.Line.Print.{type_word, IsLine}
use miniupnpd_sdn.Permissions.Line.Parts.{All, IsPorts, range, single, first-IsPorts}
use miniupnpd_sdn.Redirect.LeaseFile.{trim_end}
use miniupnpd_sdn.Redirect.LeaseFile.ReadBack.{Solid}
use miniupnpd_sdn.Config.{permission, classify}
use miniupnpd_sdn.Config.Lines.{AllBlank, skip_blanks-blank, trim_end-trail, trim_end-solid}

-- A permission rule in the documented format, with blanks around.
pub record IsRule (inet_aton : Bytes → Option ℕ) (perm : UpnpPerm) (text : Bytes) : Type 0 where
  pub indent : Bytes
  pub rule : Bytes
  pub trail : Bytes
  pub indent_blank : AllBlank indent
  pub trail_blank : AllBlank trail
  pub is_line : IsLine inet_aton rule perm
  pub text_is : text ≡ indent ++ (rule ++ trail)

no_blank : (d : ℕ) → is_digit d ≡ true → is_blank d ≡ false
unfolding is_digit
no_blank d h = ground arith

digits-Solid : (s : Bytes) → All is_digit s → Solid s
digits-Solid [] h = tt
digits-Solid (c ∷ []) h = no_blank c h.0
digits-Solid (c ∷ d ∷ s) h = digits-Solid (d ∷ s) h.1

append-Solid : (s : Bytes) (c d : ℕ) (t : Bytes) → Solid (d ∷ t) → Solid (s ++ c ∷ d ∷ t)
append-Solid [] c d t h = h
append-Solid (x ∷ []) c d t h = h
append-Solid (x ∷ y ∷ s) c d t h = append-Solid (y ∷ s) c d t h

ports-Solid : (d : ℕ) (tok : Bytes) (a b : ℕ) → IsPorts d tok a b → Solid tok
ports-Solid d _ _ _ (range lo e hi a b x y le) =
    append-Solid lo b'-' e hi (digits-Solid (e ∷ hi) (y.first, y.others))
ports-Solid d _ _ _ (single tok a x) = digits-Solid tok x.others

-- The rule in front of its last number.
module _ (inet_aton : Bytes → Option ℕ) (perm : UpnpPerm) (rule : Bytes)
    (l : IsLine inet_aton rule perm) where
  abbrev middle : Bytes
  middle = l.gap0 ++ (l.e ∷ (l.eports ++ l.s1 ∷ (l.gap1 ++ l.a ∷ (l.addr ++ l.s2 ∷ l.gap2))))

  abbrev lead : Bytes
  lead = type_word perm.type ++ middle

  rule_parts : rule ≡ lead ++ (l.i ∷ l.iports)
  rule_parts = l.text_is ∙ simp (append_assoc)

  trim_end-rule :
      (indent trail : Bytes)
      → AllBlank trail
      → trim_end (indent ++ (rule ++ trail)) ≡ indent ++ rule
  trim_end-rule indent trail t =
      ap (λ r. trim_end (indent ++ (r ++ trail))) rule_parts
      ∙ ap trim_end (
          ap (λ r. indent ++ r) (append_assoc lead (l.i ∷ l.iports) trail)
          ∙ sym (append_assoc indent lead (l.i ∷ (l.iports ++ trail))))
      ∙ trim_end-solid (indent ++ lead) l.i (l.iports ++ trail)
          (no_blank l.i (first-IsPorts l.i l.iports _ _ l.is_iports))
      ∙ rw (trim_end-trail l.iports trail (ports-Solid l.i l.iports _ _ l.is_iports) t)
          (append_assoc indent lead (l.i ∷ l.iports))
      ∙ ap (λ r. indent ++ r) (sym rule_parts)

skip_blanks-type_word :
    (t : PermType) (indent s : Bytes)
    → AllBlank indent
    → skip_blanks (indent ++ (type_word t ++ s)) ≡ type_word t ++ s
skip_blanks-type_word allow indent s b = skip_blanks-blank indent b'a' (codes "llow " ++ s) b refl
skip_blanks-type_word deny indent s b = skip_blanks-blank indent b'd' (codes "eny " ++ s) b refl

classify-type_word :
    (t : PermType) (s : Bytes)
    → 2 ≤ length s
    → classify (type_word t ++ s) ≡ permission (type_word t ++ s)
unfolding classify
classify-type_word allow s le =
    let long : ltb 6 (length (codes "allow " ++ s)) ≡ true = ground arith in rw long refl
classify-type_word deny s le =
    let long : ltb 6 (length (codes "deny " ++ s)) ≡ true = ground arith in rw long refl

pub read_line-IsRule :
    (inet_aton : Bytes → Option ℕ) (perm : UpnpPerm) (text : Bytes) (r : IsRule inet_aton perm text)
    → classify (skip_blanks (trim_end text)) ≡ permission r.rule
read_line-IsRule inet_aton perm text r =
    let l = r.is_line in
    let s = middle inet_aton perm r.rule l ++ (l.i ∷ l.iports) in
    let parts : r.rule ≡ type_word perm.type ++ s =
      rule_parts inet_aton perm r.rule l
      ∙ append_assoc (type_word perm.type) (middle inet_aton perm r.rule l) (l.i ∷ l.iports) in
    ap (λ x. classify (skip_blanks (trim_end x))) r.text_is
    ∙ ap (λ x. classify (skip_blanks x))
        (trim_end-rule inet_aton perm r.rule l r.indent r.trail r.trail_blank)
    ∙ ap (λ x. classify (skip_blanks (r.indent ++ x))) parts
    ∙ ap classify (skip_blanks-type_word perm.type r.indent s r.indent_blank)
    ∙ classify-type_word perm.type s (
        omega (
          arith,
          length-append (middle inet_aton perm r.rule l) (l.i ∷ l.iports),
          length-append l.gap0
              (l.e ∷ (l.eports ++ l.s1 ∷ (l.gap1 ++ l.a ∷ (l.addr ++ l.s2 ∷ l.gap2)))),
        ))
    ∙ ap permission (sym parts)
