-- ===== src/Config/Stored.antt =====
-- miniupnpd/options.c: the options' values in the string repository.
use miniupnpd_sdn.Base.{
  ℕ, ◌≡◌, refl, ap, ◌∙◌, sym, List, [], ◌∷◌, ◌++◌, Bytes, length, drop, c_string, append_assoc,
}
use miniupnpd_sdn.Base.Decimal.{Lacks}
use miniupnpd_sdn.Permissions.{UpnpPerm}
use miniupnpd_sdn.Config.{
  UpnpConfigOption, Array, null, live, freed, Store, values_at, values_of, options_of,
}

-- What a line of the file adds.
pub data Item : Type 0 where
  nothing : Item
  assigned : UpnpConfigOption → Bytes → Item
  ruled : UpnpPerm → Item

-- The options and the rules, in the order of the lines.
abbrev pub settings : List Item → List (UpnpConfigOption × Bytes)
settings [] = []
settings (nothing ∷ items) = settings items
settings (assigned id value ∷ items) = (id, value) ∷ settings items
settings (ruled perm ∷ items) = settings items

abbrev pub rules : List Item → List UpnpPerm
rules [] = []
rules (nothing ∷ items) = rules items
rules (assigned id value ∷ items) = rules items
rules (ruled perm ∷ items) = perm ∷ rules items

abbrev pub elements : Array → List (UpnpConfigOption × ℕ)
elements null = []
elements (live options) = options
elements freed = []

-- The store with what a line adds.
abbrev pub stored : Store → Item → Store
stored s nothing = s
stored s (assigned id value) = record s {
  ary_options = live (elements s.ary_options ++ ((id, length s.string_repo) ∷ []));
  string_repo = s.string_repo ++ (value ++ (0 ∷ []));
}
stored s (ruled perm) = record s { upnppermlist = s.upnppermlist ++ (perm ∷ []) }

abbrev pub stored_all : Store → List Item → Store
stored_all s [] = s
stored_all s (item ∷ items) = stored_all (stored s item) items

-- The values are C strings.
abbrev pub HaveStrings : List Item → Type 0
HaveStrings [] = Unit {0}
HaveStrings (nothing ∷ items) = HaveStrings items
HaveStrings (assigned id value ∷ items) = Lacks 0 value × HaveStrings items
HaveStrings (ruled perm ∷ items) = HaveStrings items

drop-length : (s t : Bytes) → drop (length s) (s ++ t) ≡ t
drop-length [] t = refl
drop-length (c ∷ s) t = drop-length s t

c_string-append : (s t : Bytes) → Lacks 0 s → c_string (s ++ (0 ∷ t)) ≡ s
c_string-append [] t h = refl
c_string-append (c ∷ s) t h = rw (h.0, c_string-append s t h.1) refl

values_at-append :
    (repo : Bytes) (a b : List (UpnpConfigOption × ℕ))
    → values_at repo (a ++ b) ≡ values_at repo a ++ values_at repo b
values_at-append repo [] b = refl
values_at-append repo ((id, o) ∷ a) b = rw (values_at-append repo a b) refl

-- What is put behind the repository changes no value.
abbrev Stable : Store → Type 0
Stable s =
    (more : Bytes)
    → values_at (s.string_repo ++ more) (elements s.ary_options)
      ≡ values_at s.string_repo (elements s.ary_options)

values_at-added :
    (repo value more : Bytes) (id : UpnpConfigOption) (options : List (UpnpConfigOption × ℕ))
    → Lacks 0 value
    → values_at (repo ++ ((value ++ (0 ∷ [])) ++ more)) options ≡ values_at repo options
    → values_at ((repo ++ (value ++ (0 ∷ []))) ++ more) (options ++ ((id, length repo) ∷ []))
      ≡ values_at repo options ++ ((id, value) ∷ [])
values_at-added repo value more id options z h =
    let text = append_assoc value (0 ∷ []) more in
    rw
      (
        append_assoc repo (value ++ (0 ∷ [])) more,
        values_at-append (repo ++ ((value ++ (0 ∷ [])) ++ more)) options ((id, length repo) ∷ []),
        h,
        drop-length repo ((value ++ (0 ∷ [])) ++ more),
        text,
        c_string-append value more z,
      )
      refl

empty : {A : Type 0} (l : List A) → l ++ [] ≡ l
empty [] = refl
empty (x ∷ l) = ap (λ m. x ∷ m) (empty l)

stored_value :
    (s : Store) (id : UpnpConfigOption) (value : Bytes)
    → Lacks 0 value
    → Stable s
    → values_at
        (s.string_repo ++ (value ++ (0 ∷ [])))
        (elements s.ary_options ++ ((id, length s.string_repo) ∷ []))
      ≡ values_at s.string_repo (elements s.ary_options) ++ ((id, value) ∷ [])
stored_value s id value z h =
    ap (λ r. values_at r (elements s.ary_options ++ ((id, length s.string_repo) ∷ [])))
      (sym (empty (s.string_repo ++ (value ++ (0 ∷ [])))))
    ∙ values_at-added s.string_repo value [] id (elements s.ary_options) z
        (h ((value ++ (0 ∷ [])) ++ []))

stored-Stable :
    (s : Store) (id : UpnpConfigOption) (value : Bytes)
    → Lacks 0 value
    → Stable s
    → Stable (stored s (assigned id value))
stored-Stable s id value z h more =
    values_at-added s.string_repo value more id (elements s.ary_options) z
      (h ((value ++ (0 ∷ [])) ++ more))
    ∙ sym (stored_value s id value z h)

values_of-elements : (repo : Bytes) (a : Array) → values_of repo a ≡ values_at repo (elements a)
values_of-elements repo null = refl
values_of-elements repo (live options) = refl
values_of-elements repo freed = refl

stored_all-settings :
    (s : Store) (items : List Item)
    → HaveStrings items
    → Stable s
    → values_at (stored_all s items).string_repo (elements (stored_all s items).ary_options)
      ≡ values_at s.string_repo (elements s.ary_options) ++ settings items
stored_all-settings s [] z h = sym (empty (values_at s.string_repo (elements s.ary_options)))
stored_all-settings s (nothing ∷ items) z h = stored_all-settings s items z h
stored_all-settings s (ruled perm ∷ items) z h =
    stored_all-settings (stored s (ruled perm)) items z h
stored_all-settings s (assigned id value ∷ items) z h =
    stored_all-settings (stored s (assigned id value)) items z.1 (stored-Stable s id value z.0 h)
    ∙ ap (λ v. v ++ settings items) (stored_value s id value z.0 h)
    ∙ append_assoc (values_at s.string_repo (elements s.ary_options)) ((id, value) ∷ [])
        (settings items)

pub options_of-stored_all :
    (perms : List UpnpPerm) (items : List Item)
    → HaveStrings items
    → options_of
        (stored_all (record { ary_options = null; string_repo = []; upnppermlist = perms }) items)
      ≡ settings items
unfolding options_of
options_of-stored_all perms items z =
    let s : Store = record { ary_options = null; string_repo = []; upnppermlist = perms } in
    values_of-elements (stored_all s items).string_repo (stored_all s items).ary_options
    ∙ stored_all-settings s items z (λ more. refl)

pub stored_all-rules :
    (s : Store) (items : List Item)
    → (stored_all s items).upnppermlist ≡ s.upnppermlist ++ rules items
stored_all-rules s [] = sym (empty s.upnppermlist)
stored_all-rules s (nothing ∷ items) = stored_all-rules s items
stored_all-rules s (assigned id value ∷ items) =
    stored_all-rules (stored s (assigned id value)) items
stored_all-rules s (ruled perm ∷ items) =
    stored_all-rules (stored s (ruled perm)) items
    ∙ append_assoc s.upnppermlist (perm ∷ []) (rules items)
