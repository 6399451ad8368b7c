-- ===== src/Config/Spelled.antt =====
-- miniupnpd/options.c: lines that spell a comment, an option or a permission rule.
use miniupnpd_sdn.Base.{
  ℕ, ◌≡◌, refl, ap, ◌∙◌, inl, inr, true, false, not, [], ◌∷◌, ◌++◌, some, Bytes, ltb, ◌==◌, length,
  Bool-cases, arith, append_assoc, &&-true,
}
use miniupnpd_sdn.Base.Decimal.{is_blank, skip_blanks}
use miniupnpd_sdn.Redirect.LeaseFile.{trim_end}
use miniupnpd_sdn.Redirect.LeaseFile.ReadBack.{Solid}
use miniupnpd_sdn.Config.{
  UpnpConfigOption, optionids, find_option, setting, is_permission, classify,
}
use miniupnpd_sdn.Config.Lines.{
  AllBlank, strchr-end, Lacks-append, Lacks-blank, skip_blanks-blank, skip_blanks-all,
  trim_end-blank, trim_end-trail, trim_end-solid, is_word, is_name, optionids_names,
  find_option_name, is_word-Solid, is_word-Lacks,
}

-- A value: empty, or with no blank at its ends.
abbrev pub Tight : Bytes → Type 0
Tight [] = Unit {0}
Tight (c ∷ s) = (is_blank c ≡ false) × Solid s

-- An option's name, `=` and the value, with blanks between them and around.
pub record IsAssignment (id : UpnpConfigOption) (value text : Bytes) : Type 0 where
  pub indent : Bytes
  pub letter : ℕ
  pub name : Bytes
  pub before : Bytes
  pub after : Bytes
  pub trail : Bytes
  pub indent_blank : AllBlank indent
  pub before_blank : AllBlank before
  pub after_blank : AllBlank after
  pub trail_blank : AllBlank trail
  pub named : find_option (letter ∷ name) optionids ≡ some id
  pub tight : Tight value
  pub text_is :
      text ≡ (indent ++ (letter ∷ (name ++ before))) ++ (b'=' ∷ (after ++ (value ++ trail)))

trim_value :
    (after value trail : Bytes)
    → AllBlank after
    → AllBlank trail
    → Tight value
    → skip_blanks (trim_end (after ++ (value ++ trail))) ≡ value
trim_value after [] trail a t h =
    ap skip_blanks (trim_end-blank (after ++ trail) (both after trail a t)) ∙ skip_blanks-all [] tt
  where
    both : (s u : Bytes) → AllBlank s → AllBlank u → AllBlank (s ++ u)
    both [] u x y = y
    both (c ∷ s) u x y = (x.0, both s u x.1 y)
trim_value after (c ∷ s) trail a t h =
    ap skip_blanks
      (trim_end-solid after c (s ++ trail) h.0 ∙ rw (trim_end-trail s trail h.1 t) refl)
    ∙ skip_blanks-blank after c s a h.0

-- What the first byte of a name is not.
record IsInitial (c : ℕ) : Type 0 where
  pub no_blank : is_blank c ≡ false
  pub no_hash : (c == b'#') ≡ false
  pub no_a : (b'a' == c) ≡ false
  pub no_d : (b'd' == c) ≡ false

name-IsInitial :
    (c : ℕ) (s : Bytes) → is_name (c ∷ s) ≡ true → IsInitial c × (is_word (c ∷ s) ≡ true)
name-IsInitial c s h =
    let h1 = &&-true (not (c == b'#')) _ h in
    let h2 = &&-true (not (c == b'a')) _ h1.1 in
    let h3 = &&-true (not (c == b'd')) _ h2.1 in
    (
      record {
        no_blank = ground (arith, (&&-true (not (is_blank c)) _ h3.1).0);
        no_hash = ground (arith, h1.0);
        no_a = ground (arith, h2.0);
        no_d = ground (arith, h3.0);
      },
      h3.1,
    )

no_permission : (c : ℕ) (s : Bytes) → IsInitial c → is_permission (c ∷ s) ≡ false
no_permission c s h = elim (Bool-cases (ltb 6 (length (c ∷ s)))) [
  | inl e ↦ rw (e, h.no_a, h.no_d) refl
  | inr e ↦ rw e refl
]

classify_assignment :
    (id : UpnpConfigOption) (c : ℕ) (name before body value : Bytes)
    → find_option (c ∷ name) optionids ≡ some id
    → AllBlank before
    → skip_blanks body ≡ value
    → classify (c ∷ ((name ++ before) ++ (b'=' ∷ body))) ≡ setting id value
unfolding classify
classify_assignment id c name before body value f b v =
    let n = name-IsInitial c name (find_option_name (c ∷ name) optionids id optionids_names f) in
    let w = is_word-Lacks (c ∷ name) n.1 in
    let l = Lacks-append b'=' (c ∷ name) before w (Lacks-blank b'=' before refl b) in
    rw
      (
        n.0.no_hash,
        no_permission c ((name ++ before) ++ (b'=' ∷ body)) n.0,
        strchr-end b'=' (c ∷ (name ++ before)) body l,
        trim_end-trail name before
            (is_word-Solid name
              (&&-true (not (c == b'=')) _ (&&-true (not (is_blank c)) _ n.1).1).1)
            b,
        f,
        v,
      )
      refl

pub read_line-IsAssignment :
    (id : UpnpConfigOption) (value text : Bytes)
    → IsAssignment id value text
    → classify (skip_blanks (trim_end text)) ≡ setting id value
read_line-IsAssignment id value text a =
    let n =
      name-IsInitial a.letter a.name
        (find_option_name (a.letter ∷ a.name) optionids id optionids_names a.named) in
    let body = trim_end (a.after ++ (value ++ a.trail)) in
    let lead = a.indent ++ (a.letter ∷ (a.name ++ a.before)) in
    let trimmed : trim_end text ≡ a.indent ++ (a.letter ∷ ((a.name ++ a.before) ++ (b'=' ∷ body))) =
      ap trim_end a.text_is
      ∙ trim_end-solid lead b'=' (a.after ++ (value ++ a.trail)) refl
      ∙ append_assoc a.indent (a.letter ∷ (a.name ++ a.before)) (b'=' ∷ body) in
    ap (λ s. classify (skip_blanks s)) trimmed
    ∙ ap classify (
        skip_blanks-blank a.indent a.letter ((a.name ++ a.before) ++ (b'=' ∷ body)) a.indent_blank
          n.0.no_blank)
    ∙ classify_assignment id a.letter a.name a.before body value a.named a.before_blank
        (trim_value a.after value a.trail a.after_blank a.trail_blank a.tight)
