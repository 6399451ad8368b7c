-- ===== src/Config/Lines.antt =====
-- miniupnpd/options.c: the lines of the configuration file, and what they are read as.
use miniupnpd_sdn.Base.{
  ℕ, ◌≡◌, refl, ap, ◌∙◌, inl, inr, Bool, true, false, not, ◌&&◌, List, [], ◌∷◌, ◌++◌, some, Bytes,
  ◌==◌, if◌then◌else◌, bytes_eq, Bool-cases, arith, &&-true,
}
use miniupnpd_sdn.Base.Options.{none-some}
use miniupnpd_sdn.Base.Decimal.{is_blank, skip_blanks, Lacks}
use miniupnpd_sdn.Redirect.LeaseFile.{trim_end}
use miniupnpd_sdn.Redirect.LeaseFile.Lines.{c_string-line}
use miniupnpd_sdn.Redirect.LeaseFile.ReadBack.{Solid}
use miniupnpd_sdn.Config.{UpnpConfigOption, optionids, find_option, strchr, classify, read_line}

abbrev pub AllBlank : Bytes → Type 0
AllBlank [] = Unit {0}
AllBlank (c ∷ s) = (is_blank c ≡ true) × AllBlank s

-- The newline ends the text.
pub strchr-end : (b : ℕ) (s t : Bytes) → Lacks b s → strchr b (s ++ (b ∷ t)) ≡ some (s, t)
unfolding strchr
strchr-end b [] t h = let same : (b == b) ≡ true = ground arith in rw same refl
strchr-end b (c ∷ s) t h = rw (h.0, strchr-end b s t h.1) refl

pub Lacks-append : (b : ℕ) (s t : Bytes) → Lacks b s → Lacks b t → Lacks b (s ++ t)
Lacks-append b [] t h k = k
Lacks-append b (c ∷ s) t h k = (h.0, Lacks-append b s t h.1 k)

pub Lacks-blank : (b : ℕ) (s : Bytes) → is_blank b ≡ false → AllBlank s → Lacks b s
Lacks-blank b [] e h = tt
Lacks-blank b (c ∷ s) e h = (ground (arith, h.0), Lacks-blank b s e h.1)

pub skip_blanks-blank :
    (indent : Bytes) (c : ℕ) (s : Bytes)
    → AllBlank indent
    → is_blank c ≡ false
    → skip_blanks (indent ++ (c ∷ s)) ≡ c ∷ s
unfolding skip_blanks
skip_blanks-blank [] c s h e = rw e refl
skip_blanks-blank (d ∷ indent) c s h e = rw h.0 (skip_blanks-blank indent c s h.1 e)

pub skip_blanks-all : (s : Bytes) → AllBlank s → skip_blanks s ≡ []
unfolding skip_blanks
skip_blanks-all [] h = refl
skip_blanks-all (c ∷ s) h = rw h.0 (skip_blanks-all s h.1)

pub trim_end-blank : (s : Bytes) → AllBlank s → trim_end s ≡ []
unfolding trim_end
trim_end-blank [] h = refl
trim_end-blank (c ∷ s) h = rw (trim_end-blank s h.1, h.0) refl

pub trim_end-trail : (s trail : Bytes) → Solid s → AllBlank trail → trim_end (s ++ trail) ≡ s
unfolding trim_end
trim_end-trail [] trail h b = trim_end-blank trail b
trim_end-trail (c ∷ []) trail h b = rw (trim_end-blank trail b, h) refl
trim_end-trail (c ∷ d ∷ s) trail h b = rw (trim_end-trail (d ∷ s) trail h b) refl

-- A byte that is no blank stays, and so does what is in front of it.
pub trim_end-solid :
    (s : Bytes) (c : ℕ) (t : Bytes)
    → is_blank c ≡ false
    → trim_end (s ++ (c ∷ t)) ≡ s ++ (c ∷ trim_end t)
unfolding trim_end
trim_end-solid [] c t e = by_rest (trim_end t)
  where
    by_rest :
        (r : Bytes) → elim r [ [] ↦ if is_blank c then [] else c ∷ [] | d ∷ u ↦ c ∷ d ∷ u ] ≡ c ∷ r
    by_rest [] = rw e refl
    by_rest (d ∷ u) = refl
trim_end-solid (d ∷ []) c t e = rw (trim_end-solid [] c t e) refl
trim_end-solid (d ∷ f ∷ s) c t e = rw (trim_end-solid (f ∷ s) c t e) refl

-- A line in the buffer: its text, and the newline.
pub read_line-text :
    (text : Bytes)
    → Lacks 10 text
    → Lacks 0 text
    → read_line (text ++ (10 ∷ [])) ≡ classify (skip_blanks (trim_end text))
unfolding read_line
read_line-text text n z = rw (c_string-line text z, strchr-end 10 text [] n) refl

-- What a name in the table has.
abbrev pub is_word : Bytes → Bool
is_word [] = true
is_word (c ∷ s) = not (is_blank c) && (not (c == b'=') && is_word s)

abbrev pub is_name : Bytes → Bool
is_name [] = false
is_name (c ∷ s) = not (c == b'#') && (not (c == b'a') && (not (c == b'd') && is_word (c ∷ s)))

abbrev pub are_names : List (UpnpConfigOption × Bytes) → Bool
are_names [] = true
are_names ((id, n) ∷ ids) = is_name n && are_names ids

pub optionids_names : are_names optionids ≡ true
optionids_names = refl

bytes_eq_same : (s t : Bytes) → bytes_eq s t ≡ true → s ≡ t
bytes_eq_same [] [] h = refl
bytes_eq_same [] (y ∷ t) h = absurd (ground arith)
bytes_eq_same (x ∷ s) [] h = absurd (ground arith)
bytes_eq_same (x ∷ s) (y ∷ t) h =
    let both = &&-true (x == y) (bytes_eq s t) h in
    let first : x ≡ y = ground (arith, both.0) in rw (first, bytes_eq_same s t both.1) refl

pub find_option_name :
    (name : Bytes) (ids : List (UpnpConfigOption × Bytes)) (id : UpnpConfigOption)
    → are_names ids ≡ true
    → find_option name ids ≡ some id
    → is_name name ≡ true
unfolding find_option
find_option_name name [] id h f = absurd (none-some id f)
find_option_name name ((i, n) ∷ ids) id h f =
    let both = &&-true (is_name n) (are_names ids) h in
    elim (Bool-cases (bytes_eq name n)) [
      | inl e ↦ ap is_name (bytes_eq_same name n e) ∙ both.0
      | inr e ↦ find_option_name name ids id both.1 (rw e at f)
    ]

pub is_word-Solid : (s : Bytes) → is_word s ≡ true → Solid s
is_word-Solid [] h = tt
is_word-Solid (c ∷ []) h = ground (arith, (&&-true (not (is_blank c)) _ h).0)
is_word-Solid (c ∷ d ∷ s) h =
    is_word-Solid (d ∷ s) (&&-true (not (c == b'=')) _ (&&-true (not (is_blank c)) _ h).1).1

pub is_word-Lacks : (s : Bytes) → is_word s ≡ true → Lacks b'=' s
is_word-Lacks [] h = tt
is_word-Lacks (c ∷ s) h =
    let more = &&-true (not (c == b'=')) (is_word s) (&&-true (not (is_blank c)) _ h).1 in
    (ground (arith, more.0), is_word-Lacks s more.1)
