-- ===== src/NatPmp/Mapping/Search.antt =====
-- miniupnpd/natpmp.c: the search for an external port tries every port once.
use miniupnpd_sdn.Base.{
  ℕ, zero, suc, ◌+◌, ◌%◌, ◌^◌, ◌≤◌, ◌<◌, ◌≡◌, ◌⊎◌, refl, sym, ap, ◌∙◌, inl, inr, Bool, true, false,
  ◌&&◌, ◌||◌, Option, none, some, ltb, leb, ◌==◌, if◌then◌else◌, Bool-cases, Option-cases, arith,
}
use miniupnpd_sdn.Redirect.LeaseFile.{Env}
use miniupnpd_sdn.Redirect.Firewall.{Rule, Firewall}
use miniupnpd_sdn.Redirect.Facade.{Config, Globals, upnp_delete_redir}
use miniupnpd_sdn.Redirect.Facade.Decided.{upnp_delete_redir_total}
use miniupnpd_sdn.NatPmp.{next_port}
use miniupnpd_sdn.NatPmp.Mapping.{
  Client, is_own, is_allowed, do_redirect, replace, try_port, search_on, search_port,
}

-- Whether a port is among the `d` ones from `eport` on, round the end.
abbrev among : ℕ → ℕ → ℕ → Bool
among eport d p = leb eport p && ltb p (eport + d) || ltb (p + 65535) (eport + d)

pub next_port_value : (eport : ℕ) → eport < 65535 → next_port eport ≡ eport + 1
next_port_value eport h =
    let low : (eport + 1) % 2 ^ 16 ≡ eport + 1 = omega arith in rw low (ground arith)

next_port_last : next_port 65535 ≡ 1
next_port_last = refl

-- The step from one port to the next.
among-next :
    (eport d p : ℕ)
    → eport < 65536
    → 0 < p
    → p < 65536
    → d < 65535
    → among eport (d + 1) p ≡ true
    → (p ≡ eport) ⊎ (among (next_port eport) d p ≡ true)
among-next eport d p a b c e h = elim (Bool-cases (ltb eport 65535)) [
  | inl t ↦ rw (next_port_value eport (ground arith)) (ground arith)
  | inr t ↦ let last : eport ≡ 65535 = ground arith in rw last (ground arith)
]

pub next_port_range :
    (eport : ℕ) → eport < 65536 → (0 < next_port eport) × (next_port eport < 65536)
next_port_range eport h = elim (Bool-cases (ltb eport 65535)) [
  | inl t ↦ rw (next_port_value eport (ground arith)) (omega arith, ground arith)
  | inr t ↦ let last : eport ≡ 65535 = ground arith in rw last (omega arith, omega arith)
]

pub next_port_at :
    (eport d first : ℕ)
    → eport < 65536
    → 0 < first
    → first < 65536
    → (eport + suc d ≡ first) ⊎ (eport + suc d ≡ first + 65535)
    → (next_port eport + d ≡ first) ⊎ (next_port eport + d ≡ first + 65535)
next_port_at eport d first h l f at = elim (Bool-cases (ltb eport 65535)) [
  | inl t ↦
      rw (next_port_value eport (ground arith))
        (elim at [ inl e ↦ inl (omega arith) | inr e ↦ inr (omega arith) ])
  | inr t ↦
      let last : eport ≡ 65535 = ground arith in
      rw last (inl (elim at [ inl e ↦ absurd (omega arith) | inr e ↦ omega arith ]))
]

among-all :
    (eport p : ℕ) → 0 < eport → eport < 65536 → 0 < p → p < 65536 → among eport 65535 p ≡ true
among-all eport p l h a b = ground arith

true-false : true ≡ false → ⊥
true-false h = ground arith

among-none : (eport p : ℕ) → eport < 65536 → 0 < p → among eport 0 p ≡ false
among-none eport p a b = ground arith

module _ (fw : Firewall) (cfg : Config) (env : Env) (c : Client) (lifetime : ℕ)
    (g : Globals fw) where
  -- The port is another mapping's.
  abbrev pub Other : ℕ → Type 0
  Other p =
      (old : Rule) × (fw.get_redirect_rule g.firewall p c.proto ≡ some old) × (is_own c old ≡ false)

  abbrev allowed : ℕ → Bool
  allowed p = is_allowed fw cfg env c p

  abbrev Passed : Bool → ℕ → Type 0
  Passed any p = (allowed p ≡ false) ⊎ ((any ≡ true) × Other p)

  abbrev AnyAllowed : Bool → Type 0
  AnyAllowed any = (any ≡ false) ⊎ ((q : ℕ) × (allowed q ≡ true))

  abbrev Grows : Bool → Bool → Type 0
  Grows any any' = (any ≡ any') ⊎ (any' ≡ true)

  -- The result codes 2 and 4, which change nothing, and the port that is taken.
  pub data IsFound : ℕ → ℕ → Globals fw → Type 0 where
    none_allowed : (eport : ℕ) → ((k : ℕ) → allowed (k % 65535 + 1) ≡ false) → IsFound 2 eport g
    all_taken :
        (eport q : ℕ)
        → allowed q ≡ true
        → ((k : ℕ) → (allowed (k % 65535 + 1) ≡ false) ⊎ Other (k % 65535 + 1))
        → IsFound 4 eport g
    free :
        (eport : ℕ)
        → 0 < eport
        → eport < 65536
        → allowed eport ≡ true
        → fw.get_redirect_rule g.firewall eport c.proto ≡ none
        → IsFound
            (do_redirect fw cfg env c lifetime eport g).0
            eport
            (do_redirect fw cfg env c lifetime eport g).1
    own :
        (eport : ℕ) (old : Rule) (d : Bool × Globals fw)
        → 0 < eport
        → eport < 65536
        → allowed eport ≡ true
        → fw.get_redirect_rule g.firewall eport c.proto ≡ some old
        → is_own c old ≡ true
        → upnp_delete_redir fw env g eport c.proto ≡ some d
        → IsFound
            (replace fw cfg env c lifetime eport d).0
            eport
            (replace fw cfg env c lifetime eport d).1

  abbrev pub Result : Option (ℕ × ℕ × Globals fw) → Type 0
  Result o =
      (code eport : ℕ) × (g' : Globals fw) × (o ≡ some (code, eport, g')) × IsFound code eport g'

  Passed-Grows : (any any' : Bool) (p : ℕ) → Grows any any' → Passed any p → Passed any' p
  Passed-Grows any any' p grows (inl h) = inl h
  Passed-Grows any any' p (inl e) (inr h) = inr (sym e ∙ h.0, h.1)
  Passed-Grows any any' p (inr e) (inr h) = inr (e, h.1)

  try_port-Result :
      (more : Bool → ℕ → Option (ℕ × ℕ × Globals fw)) (any : Bool) (eport : ℕ)
      → 0 < eport
      → eport < 65536
      → AnyAllowed any
      → ((any' : Bool)
          → AnyAllowed any'
          → Grows any any'
          → Passed any' eport
          → Result (more any' (next_port eport)))
      → Result (try_port fw cfg env c more lifetime any eport g)
  try_port-Result more any eport low high some_allowed rest = elim (Bool-cases (allowed eport)) [
    | inr a ↦ rw a (rest any some_allowed (inl refl) (inl a))
    | inl a ↦ rw a (elim (Option-cases (fw.get_redirect_rule g.firewall eport c.proto)) [
      | inl n ↦ rw n (_, _, _, refl, free eport low high a n)
      | inr (old, s) ↦ rw s (elim (Bool-cases (is_own c old)) [
        | inr o ↦ rw o (rest true (inr (eport, a)) (inr refl) (inr (refl, (old, s, o))))
        | inl o ↦
            let d = upnp_delete_redir_total fw env g eport c.proto in
            rw (o, d.1) (_, _, _, refl, own eport old d.0 low high a s o d.1)
      ])
    ])
  ]

  -- What holds of a port that the loop has passed, at the end.
  at_end :
      (any : Bool) (eport : ℕ)
      → AnyAllowed any
      → ((k : ℕ) → Passed any (k % 65535 + 1))
      → IsFound (if any then 4 else 2) eport g
  at_end false eport some_allowed passed =
      none_allowed eport (λ k. elim (passed k) [ inl e ↦ e | inr h ↦ absurd (ground arith) ])
  at_end true eport (inl e) passed = absurd (ground arith)
  at_end true eport (inr (q, a)) passed =
      all_taken eport q a (λ k. elim (passed k) [ inl e ↦ inl e | inr h ↦ inr h.1 ])

  next_port-Passed :
      (any any' : Bool) (eport d p : ℕ)
      → eport < 65536
      → 0 < p
      → p < 65536
      → d < 65535
      → Grows any any'
      → Passed any' eport
      → (among eport (suc d) p ≡ true) ⊎ Passed any p
      → (among (next_port eport) d p ≡ true) ⊎ Passed any' p
  next_port-Passed any any' eport d p high low f small grows here (inr h) =
      inr (Passed-Grows any any' p grows h)
  next_port-Passed any any' eport d p high low f small grows here (inl h) =
      elim (among-next eport d p high low f small
        (ap (λ (k : ℕ). among eport k p) (omega arith) ∙ h)) [
          | inl e ↦ inr (rw e here)
          | inr i ↦ inl i
        ]

  -- The loop with `d` ports before it is back at the first one.
  search_on-Result :
      (fuel d first : ℕ) (any : Bool) (eport : ℕ)
      → 0 < eport
      → eport < 65536
      → 0 < first
      → first < 65536
      → (eport + d ≡ first) ⊎ (eport + d ≡ first + 65535)
      → d < 65535
      → d < fuel
      → AnyAllowed any
      → ((p : ℕ) → 0 < p → p < 65536 → (among eport d p ≡ true) ⊎ Passed any p)
      → Result (search_on fw cfg env c fuel first lifetime any eport g)
  unfolding search_on
  search_on-Result zero d first any eport low high l f at small enough some_allowed passed =
      absurd (omega arith)
  search_on-Result (suc fuel) zero first any eport low high l f at small enough some_allowed
        passed =
      let same : (eport == first) ≡ true = elim at [
        | inl e ↦ ground arith
        | inr e ↦ absurd (omega arith)
      ] in
      rw same (
        _,
        _,
        _,
        refl,
        at_end any eport some_allowed (λ k.
            elim (passed (k % 65535 + 1) (omega arith) (omega arith)) [
              | inl h ↦
                  absurd (true-false (sym h ∙ among-none eport (k % 65535 + 1) high (omega arith)))
              | inr h ↦ h
            ]),
      )
  search_on-Result (suc fuel) (suc d) first any eport low high l f at small enough some_allowed
        passed =
      let differ : (eport == first) ≡ false = elim at [
        | inl e ↦ ground arith
        | inr e ↦ ground arith
      ] in
      let range = next_port_range eport high in
      rw differ (
        try_port-Result (λ any' eport'. search_on fw cfg env c fuel first lifetime any' eport' g)
          any eport low high some_allowed
          (λ any' allowed' grows here.
            search_on-Result fuel d first any' (next_port eport) range.0 range.1 l f
              (next_port_at eport d first high l f at) (omega arith) (omega arith) allowed'
              (λ p a b.
                next_port-Passed any any' eport d p high a b (omega arith) grows here
                  (passed p a b))))

  -- With fuel for every port the search always ends. The result code is 2 only if the permissions
  -- refuse all ports, and 4 only if they allow some, all of which another mapping has; both change
  -- nothing. Else it has a port that the permissions allow and that is free or has the mapping asked for
  -- already, which is deleted first, and the result code is that of the redirection.
  pub search_port-IsFound :
      (fuel eport : ℕ)
      → 65535 ≤ fuel
      → 0 < eport
      → eport < 65536
      → (code eport' : ℕ) × (g' : Globals fw) × (search_port fw cfg env c fuel lifetime eport g
          ≡ some (code, eport', g'))
        × IsFound code eport' g'
  unfolding search_port
  search_port-IsFound fuel eport enough low high =
      let range = next_port_range eport high in
      try_port-Result (λ any' eport'. search_on fw cfg env c fuel eport lifetime any' eport' g)
        false eport low high (inl refl)
        (λ any' allowed' grows here.
          search_on-Result fuel 65534 eport any' (next_port eport) range.0 range.1 low high
            (next_port_at eport 65534 eport high low high (inr (omega arith))) (omega arith)
            (omega arith) allowed'
            (λ p a b.
              next_port-Passed false any' eport 65534 p high a b (omega arith) grows here
                (inl (among-all eport p low high a b))))
