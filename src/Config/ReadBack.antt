-- ===== src/Config/ReadBack.antt =====
-- miniupnpd/options.c: a configuration file that spells options and rules is read as these.
use miniupnpd_sdn.Base.{
  ℕ, zero, suc, ◌+◌, ◌<◌, ◌≤◌, ◌≡◌, refl, ap, ◌∙◌, inl, inr, true, false, ◌⊎◌, List, [], ◌∷◌, ◌++◌,
  Option, none, some, Bytes, length, length-append, arith,
}
use miniupnpd_sdn.Base.Options.{◌>>=◌}
use miniupnpd_sdn.Base.Ints.{pos}
use miniupnpd_sdn.Base.Decimal.{skip_blanks, Lacks}
use miniupnpd_sdn.Permissions.{UpnpPerm}
use miniupnpd_sdn.Permissions.Line.Print.{read_permission_line-IsLine}
use miniupnpd_sdn.Redirect.LeaseFile.{fgets_from, trim_end}
use miniupnpd_sdn.Redirect.LeaseFile.Lines.{file_of, fgets_from-line}
use miniupnpd_sdn.Config.{
  UpnpConfigOption, Array, null, live, freed, Store, Realloc, skipped, enlarge, is_freed, returned,
  classify, read_line, store_line, read_lines, readoptionsfile, options_of,
}
use miniupnpd_sdn.Config.Lines.{
  AllBlank, skip_blanks-blank, trim_end-blank, trim_end-solid, read_line-text,
}
use miniupnpd_sdn.Config.Spelled.{IsAssignment, read_line-IsAssignment}
use miniupnpd_sdn.Config.Rules.{IsRule, read_line-IsRule}
use miniupnpd_sdn.Config.Stored.{
  Item, nothing, assigned, ruled, settings, rules, elements, stored, stored_all, HaveStrings,
  options_of-stored_all, stored_all-rules,
}

-- Blanks, a `#` and any text.
pub record IsComment (text : Bytes) : Type 0 where
  pub indent : Bytes
  pub remark : Bytes
  pub indent_blank : AllBlank indent
  pub text_is : text ≡ indent ++ (b'#' ∷ remark)

abbrev pub Spells : (Bytes → Option ℕ) → Bytes → Item → Type 0
Spells inet_aton text nothing = AllBlank text ⊎ IsComment text
Spells inet_aton text (assigned id value) = IsAssignment id value text
Spells inet_aton text (ruled perm) = IsRule inet_aton perm text

-- A line without its newline: it fits the buffer, and is a C string.
pub record IsText (text : Bytes) : Type 0 where
  pub one_line : Lacks 10 text
  pub no_nul : Lacks 0 text
  pub fits : length text < 1023

abbrev pub AllSpell : (Bytes → Option ℕ) → List Bytes → List Item → Type 0
AllSpell inet_aton [] [] = Unit {0}
AllSpell inet_aton [] (item ∷ items) = ⊥
AllSpell inet_aton (text ∷ texts) [] = ⊥
AllSpell inet_aton (text ∷ texts) (item ∷ items) =
    IsText text × Spells inet_aton text item × AllSpell inet_aton texts items

-- The calls of realloc succeed.
pub record Succeeds (r : Realloc) : Type 0 where
  pub permlist : (n : ℕ) → r.permlist n ≡ true
  pub options : (n : ℕ) → r.options n ≡ true
  pub repo : (n : ℕ) → r.repo n ≡ true

Lacks-right : (s t : Bytes) → Lacks 0 (s ++ t) → Lacks 0 t
Lacks-right [] t h = h
Lacks-right (c ∷ s) t h = Lacks-right s t h.1

Lacks-left : (s t : Bytes) → Lacks 0 (s ++ t) → Lacks 0 s
Lacks-left [] t h = tt
Lacks-left (c ∷ s) t h = (h.0, Lacks-left s t h.1)

value_string :
    (id : UpnpConfigOption) (value text : Bytes)
    → IsAssignment id value text
    → Lacks 0 text
    → Lacks 0 value
value_string id value text a h =
    let lead = a.indent ++ (a.letter ∷ (a.name ++ a.before)) in
    let rest = Lacks-right lead (b'=' ∷ (a.after ++ (value ++ a.trail))) (rw a.text_is at h) in
    Lacks-left value a.trail (Lacks-right a.after (value ++ a.trail) rest.1)

pub AllSpell-HaveStrings :
    (inet_aton : Bytes → Option ℕ) (texts : List Bytes) (items : List Item)
    → AllSpell inet_aton texts items
    → HaveStrings items
AllSpell-HaveStrings inet_aton [] [] h = tt
AllSpell-HaveStrings inet_aton [] (item ∷ items) h = absurd h
AllSpell-HaveStrings inet_aton (text ∷ texts) [] h = absurd h
AllSpell-HaveStrings inet_aton (text ∷ texts) (nothing ∷ items) h =
    AllSpell-HaveStrings inet_aton texts items h.2
AllSpell-HaveStrings inet_aton (text ∷ texts) (ruled perm ∷ items) h =
    AllSpell-HaveStrings inet_aton texts items h.2
AllSpell-HaveStrings inet_aton (text ∷ texts) (assigned id value ∷ items) h =
    (value_string id value text h.1 h.0.no_nul, AllSpell-HaveStrings inet_aton texts items h.2)

classify_nothing :
    (text : Bytes)
    → AllBlank text ⊎ IsComment text
    → classify (skip_blanks (trim_end text)) ≡ skipped
unfolding classify skip_blanks
classify_nothing text (inl b) = rw (trim_end-blank text b) refl
classify_nothing text (inr c) =
    ap (λ s. classify (skip_blanks (trim_end s))) c.text_is
    ∙ ap (λ s. classify (skip_blanks s)) (trim_end-solid c.indent b'#' c.remark refl)
    ∙ ap classify (skip_blanks-blank c.indent b'#' (trim_end c.remark) c.indent_blank refl)

module _ (inet_aton : Bytes → Option ℕ) (r : Realloc) (stale : ℕ → Bytes) where
  -- A round of the loop, from what `fgets` gives.
  abbrev round : ℕ → ℕ → Store → Bytes × Bytes → Option Store
  round fuel n s p = (do
    s' ← store_line inet_aton r stale n (read_line p.0) s
    read_lines fuel inet_aton r stale (suc n) p.1 s')

  read_lines-round :
      (fuel n : ℕ) (text file : Bytes) (s : Store)
      → read_lines (suc fuel) inet_aton r stale n (text ++ (10 ∷ file)) s
        ≡ round fuel n s (fgets_from 1023 (text ++ (10 ∷ file)))
  unfolding read_lines
  read_lines-round fuel n [] file s = refl
  read_lines-round fuel n (c ∷ text) file s = refl

module _ (inet_aton : Bytes → Option ℕ) (r : Realloc) (stale : ℕ → Bytes) (ok : Succeeds r) where
  enlarged : (a : Array) → is_freed a ≡ false → enlarge true a ≡ some (some (elements a))
  enlarged null f = refl
  enlarged (live options) f = refl
  enlarged freed f = absurd (ground arith)

  stored-line :
      (text : Bytes) (item : Item) (n : ℕ) (s : Store)
      → Spells inet_aton text item
      → is_freed s.ary_options ≡ false
      → store_line inet_aton r stale n (classify (skip_blanks (trim_end text))) s
        ≡ some (stored s item)
  unfolding store_line
  stored-line text nothing n s h f = rw (classify_nothing text h) refl
  stored-line text (assigned id value) n s h f =
      rw (read_line-IsAssignment id value text h, ok.options n, ok.repo n, enlarged s.ary_options f)
        refl
  stored-line text (ruled perm) n s h f =
      rw
        (
          read_line-IsRule inet_aton perm text h,
          ok.permlist n,
          read_permission_line-IsLine inet_aton h.rule (stale n) perm h.is_line,
        )
        refl

  stored-is_freed :
      (s : Store) (item : Item)
      → is_freed s.ary_options ≡ false
      → is_freed (stored s item).ary_options ≡ false
  stored-is_freed s nothing f = f
  stored-is_freed s (assigned id value) f = refl
  stored-is_freed s (ruled perm) f = f

  read_lines-stored :
      (fuel n : ℕ) (texts : List Bytes) (items : List Item) (s : Store)
      → AllSpell inet_aton texts items
      → is_freed s.ary_options ≡ false
      → length (file_of texts) ≤ fuel
      → read_lines fuel inet_aton r stale n (file_of texts) s ≡ some (stored_all s items)
  unfolding read_lines
  read_lines-stored zero n [] [] s h f le = refl
  read_lines-stored (suc fuel) n [] [] s h f le = refl
  read_lines-stored fuel n [] (item ∷ items) s h f le = absurd h
  read_lines-stored fuel n (text ∷ texts) [] s h f le = absurd h
  read_lines-stored zero n (text ∷ texts) (item ∷ items) s h f le =
      absurd (omega (arith, length-append text (10 ∷ file_of texts)))
  read_lines-stored (suc fuel) n (text ∷ texts) (item ∷ items) s h f le =
      read_lines-round inet_aton r stale fuel n text (file_of texts) s
      ∙ ap (round inet_aton r stale fuel n s)
          (fgets_from-line 1023 text (file_of texts) h.0.one_line h.0.fits)
      ∙ rw (read_line-text text h.0.one_line h.0.no_nul, stored-line text item n s h.1 f)
          (read_lines-stored fuel (suc n) texts items (stored s item) h.2 (stored-is_freed s item f)
            (omega (arith, length-append text (10 ∷ file_of texts))))

-- A file whose lines are blank, comments, options with their values and permission rules, with any
-- blanks around, is read as these options with these values and these rules, in the order of the lines
-- and the rules behind those there are, where no options have been read and the calls of realloc
-- succeed. The lines are shorter than 1023 bytes and have no NUL. A rule's ports are a number or a
-- range, and its address has a prefix length, a dotted mask, or neither.
pub readoptionsfile-AllSpell :
    (inet_aton : Bytes → Option ℕ) (r : Realloc) (stale : ℕ → Bytes) (c : ℕ) (fname : Bytes)
    (texts : List Bytes) (items : List Item) (repo : Bytes) (perms : List UpnpPerm)
    → Succeeds r
    → AllSpell inet_aton texts items
    → (s : Store) × (readoptionsfile inet_aton r stale
          (c ∷ fname)
          (some (file_of texts))
          (record { ary_options = null; string_repo = repo; upnppermlist = perms })
        ≡ some (pos 0, s))
      × (options_of s ≡ settings items)
      × (s.upnppermlist ≡ perms ++ rules items)
unfolding readoptionsfile
readoptionsfile-AllSpell inet_aton r stale c fname texts items repo perms ok h =
    let s : Store = record { ary_options = null; string_repo = []; upnppermlist = perms } in
    (
      stored_all s items,
      ap returned (
          read_lines-stored inet_aton r stale ok (length (file_of texts)) 1 texts items s h refl
            (omega arith)),
      options_of-stored_all perms items (AllSpell-HaveStrings inet_aton texts items h),
      stored_all-rules s items,
    )

round_again :
    (inet_aton : Bytes → Option ℕ) (r : Realloc) (stale : ℕ → Bytes) (fuel : ℕ)
    (id : UpnpConfigOption) (value text file : Bytes) (s : Store)
    → s.ary_options ≡ freed
    → IsText text
    → IsAssignment id value text
    → round inet_aton r stale fuel 1 s (text ++ (10 ∷ []), file) ≡ none
unfolding store_line
round_again inet_aton r stale fuel id value text file s f t a =
    rw (read_line-text text t.one_line t.no_nul, read_line-IsAssignment id value text a, f) refl

-- Where options have been read before, a file whose first line is an option makes readoptionsfile
-- enlarge the array that it has freed.
pub readoptionsfile-again :
    (inet_aton : Bytes → Option ℕ) (r : Realloc) (stale : ℕ → Bytes) (c : ℕ) (fname : Bytes)
    (options : List (UpnpConfigOption × ℕ)) (id : UpnpConfigOption) (value text file repo : Bytes)
    (perms : List UpnpPerm)
    → IsText text
    → IsAssignment id value text
    → readoptionsfile inet_aton r stale
        (c ∷ fname)
        (some (text ++ (10 ∷ file)))
        (record { ary_options = live options; string_repo = repo; upnppermlist = perms })
      ≡ none
unfolding readoptionsfile store_line
readoptionsfile-again inet_aton r stale c fname options id value text file repo perms t a =
    let s : Store = record { ary_options = freed; string_repo = []; upnppermlist = perms } in
    let enough : length (text ++ (10 ∷ file)) ≡ suc (length text + length file) =
      omega (arith, length-append text (10 ∷ file)) in
    ap (λ fuel. returned (read_lines fuel inet_aton r stale 1 (text ++ (10 ∷ file)) s)) enough
    ∙ ap returned (
        read_lines-round inet_aton r stale (length text + length file) 1 text file s
        ∙ ap (round inet_aton r stale (length text + length file) 1 s)
            (fgets_from-line 1023 text file t.one_line t.fits)
        ∙ round_again inet_aton r stale (length text + length file) id value text file s refl t a)
