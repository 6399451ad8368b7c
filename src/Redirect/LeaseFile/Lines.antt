-- ===== src/Redirect/LeaseFile/Lines.antt =====
-- miniupnpd/upnpredirect.c: the lease file line by line, and what lease_file_remove takes off it.
use miniupnpd_sdn.Base.{
  append_assoc, ℕ, zero, suc, ◌≤◌, ◌<◌, ◌≡◌, refl, ap, ◌∙◌, inl, inr, true, not, List, [], ◌∷◌,
  ◌++◌, Option, none, some, Bytes, ◌==◌, if◌then◌else◌, length, length-append, c_string, Bool-cases,
  arith,
}
use miniupnpd_sdn.Base.Decimal.{Lacks}
use miniupnpd_sdn.Base.Options.{◌>>=◌, bind_some_total}
use miniupnpd_sdn.Base.Ints.{ℤ, pos, negsuc}
use miniupnpd_sdn.Redirect.LeaseFile.{
  Env, fgets_from, starts_with, copy_others, lease_prefix, lease_file_remove,
}

-- A line without its newline: it fits the buffer, and is a C string.
pub record IsLine (line : Bytes) : Type 0 where
  pub one_line : Lacks 10 line
  pub no_nul : Lacks 0 line
  pub fits : length line < 510

abbrev pub AllLines : List Bytes → Type 0
AllLines [] = Unit {0}
AllLines (l ∷ ls) = IsLine l × AllLines ls

-- The file with these lines.
abbrev pub file_of : List Bytes → Bytes
file_of [] = []
file_of (l ∷ ls) = l ++ (10 ∷ file_of ls)

-- The lines that do not start with a text.
abbrev pub other_lines : Bytes → List Bytes → List Bytes
other_lines str [] = []
other_lines str (l ∷ ls) =
    let rest = other_lines str ls in if starts_with str (l ++ (10 ∷ [])) then rest else l ∷ rest

pub fgets_from-line :
    (k : ℕ) (line file : Bytes)
    → Lacks 10 line
    → length line < k
    → fgets_from k (line ++ (10 ∷ file)) ≡ (line ++ (10 ∷ []), file)
unfolding fgets_from
fgets_from-line zero line file h le = absurd (omega arith)
fgets_from-line (suc k) [] file h le = refl
fgets_from-line (suc k) (c ∷ line) file h le =
    rw (h.0, fgets_from-line k line file h.1 (omega arith)) refl

pub c_string-line : (line : Bytes) → Lacks 0 line → c_string (line ++ (10 ∷ [])) ≡ line ++ (10 ∷ [])
c_string-line [] h = refl
c_string-line (c ∷ line) h = rw h.0 (ap (λ s. c ∷ s) (c_string-line line h.1))

-- A round of the loop, from what `fgets` gives.
abbrev round : ℕ → Bytes → Bytes × Bytes → Option Bytes
round fuel str r = (do
  others ← copy_others fuel str r.1
  some (if starts_with str (c_string r.0) then others else c_string r.0 ++ others))

copy_others-round :
    (fuel : ℕ) (str line file : Bytes)
    → copy_others (suc fuel) str (line ++ (10 ∷ file))
      ≡ round fuel str (fgets_from 510 (line ++ (10 ∷ file)))
unfolding copy_others
copy_others-round fuel str [] file = refl
copy_others-round fuel str (c ∷ line) file = refl

copy_others-lines :
    (fuel : ℕ) (str : Bytes) (lines : List Bytes)
    → AllLines lines
    → length (file_of lines) ≤ fuel
    → copy_others fuel str (file_of lines) ≡ some (file_of (other_lines str lines))
unfolding copy_others
copy_others-lines zero str [] h le = refl
copy_others-lines (suc fuel) str [] h le = refl
copy_others-lines zero str (l ∷ ls) h le = absurd (omega (arith, length-append l (10 ∷ file_of ls)))
copy_others-lines (suc fuel) str (l ∷ ls) h le =
    let rest =
      copy_others-lines fuel str ls h.1 (omega (arith, length-append l (10 ∷ file_of ls))) in
    copy_others-round fuel str l (file_of ls)
    ∙ ap (round fuel str) (fgets_from-line 510 l (file_of ls) h.0.one_line h.0.fits)
    ∙ rw (rest, c_string-line l h.0.no_nul)
        (elim (Bool-cases (starts_with str (l ++ (10 ∷ [])))) [
          | inl e ↦ rw e refl
          | inr e ↦ rw e (ap some (append_assoc l (10 ∷ []) (file_of (other_lines str ls))))
        ])

-- When the files can be opened and renamed, lease_file_remove leaves all lines of the file but those
-- that start with the protocol's name, a colon and the port's digits. Those of a longer port that
-- begins with the same digits go too.
pub lease_file_remove-lines :
    (env : Env) (eport proto : ℕ) (lines : List Bytes)
    → env.opens ≡ true
    → env.temp_opens ≡ true
    → env.renames ≡ true
    → AllLines lines
    → lease_file_remove env eport proto (some (file_of lines))
      ≡ some (pos 0, some (file_of (other_lines (lease_prefix eport proto) lines)))
unfolding lease_file_remove
lease_file_remove-lines env eport proto lines o t r h =
    rw
      (
        copy_others-lines (length (file_of lines)) (lease_prefix eport proto) lines h (omega arith),
        o,
        t,
        r,
      )
      refl

fgets_from-rest : (k : ℕ) (file : Bytes) → length (fgets_from k file).1 ≤ length file
unfolding fgets_from
fgets_from-rest zero file = omega arith
fgets_from-rest (suc k) [] = omega arith
fgets_from-rest (suc k) (c ∷ file) = elim (Bool-cases (c == 10)) [
  | inl e ↦ rw e (omega arith)
  | inr e ↦ rw e (omega (arith, fgets_from-rest k file))
]

pub fgets_from-less :
    (k c : ℕ) (file : Bytes) → length (fgets_from (suc k) (c ∷ file)).1 ≤ length file
unfolding fgets_from
fgets_from-less k c file = elim (Bool-cases (c == 10)) [
  | inl e ↦ rw e (omega arith)
  | inr e ↦ rw e (fgets_from-rest k file)
]

-- The fuel is enough for any file.
copy_others_total :
    (fuel : ℕ) (str file : Bytes)
    → length file ≤ fuel
    → (others : Bytes) × (copy_others fuel str file ≡ some others)
unfolding copy_others
copy_others_total zero str [] h = ([], refl)
copy_others_total (suc fuel) str [] h = ([], refl)
copy_others_total zero str (c ∷ file) h = absurd (omega arith)
copy_others_total (suc fuel) str (c ∷ file) h =
    let r = fgets_from 510 (c ∷ file) in
    bind_some_total (copy_others fuel str r.1)
      (λ others. if starts_with str (c_string r.0) then others else c_string r.0 ++ others)
      (copy_others_total fuel str r.1 (omega (arith, fgets_from-less 509 c file)))

pub lease_file_remove_total :
    (env : Env) (eport proto : ℕ) (file : Option Bytes)
    → (r : ℤ × Option Bytes) × (lease_file_remove env eport proto file ≡ some r)
unfolding lease_file_remove
lease_file_remove_total env eport proto none = (_, refl)
lease_file_remove_total env eport proto (some file) =
    bind_some_total (copy_others (length file) (lease_prefix eport proto) file)
      (λ others.
        if not env.opens
        then (pos 0, some file)
        else if not env.temp_opens
        then (negsuc 0, some file)
        else if env.renames
        then (pos 0, some others)
        else (pos 0, some file))
      (copy_others_total (length file) (lease_prefix eport proto) file (omega arith))
