-- ===== src/MiniXml/Bounds.antt =====
-- miniupnpd/minixml.c: the elements, and the whole parser, stay inside a buffer with one readable
-- byte behind the document, and end.
use miniupnpd_sdn.Base.{
  ℕ, zero, suc, ◌+◌, ◌-◌, ◌≤◌, ◌<◌, refl, inl, inr, not, Bytes, codes, ltb, leb, ◌==◌,
  if◌then◌else◌, length, Bool-cases, arith,
}
use miniupnpd_sdn.MiniXml.Effects.{text, ◌>>=◌, pass, emit, stop_if}
use miniupnpd_sdn.MiniXml.Safe.{
  Ends, if-Ends, bind-Ends, pass-Ends, emit-Ends, stop_if-Ends, weaken-Ends, read-Ends,
  advance_while-Ends, matches-Ends, seek-Ends, parseatt-Ends,
}
use miniupnpd_sdn.MiniXml.{
  is_white_space, ends_name, read, advance_while, matches, seek, fuel, parseatt, comment,
  element_name, cdata, char_data, content, open_tag, close_tag, tag, parseelt_step, parseelt,
  parsexml,
}

module _ (buf : Bytes) (n : ℕ) (room : n < length buf) where
  comment-Ends : (p : ℕ) → Ends n (λ q. (p < q) × (q ≤ n)) (comment buf n p)
  unfolding comment
  comment-Ends p = bind-Ends (stop_if _) _ (stop_if-Ends _) λ _ e.
      bind-Ends (seek buf n (fuel buf n) _ (p + 4)) _
        (seek-Ends buf n room _ _ (p + 4) refl (ground arith) (omega arith))
        λ q r. pass-Ends _ (omega arith, r.1)

  element_name-Ends :
      (f name p : ℕ)
      → name ≤ p
      → p ≤ n
      → n < f + p
      → Ends n (λ v. (v.0 ≤ v.1) × (p ≤ v.1) × (v.1 ≤ n)) (element_name buf n f name p)
  unfolding element_name
  element_name-Ends zero name p h k g = absurd (omega arith)
  element_name-Ends (suc f) name p h k g =
      bind-Ends (read buf p) _ (read-Ends buf n room p k) λ c _.
        elim (Bool-cases (not (ends_name c))) [
          | inr t ↦ rw t (pass-Ends _ (h, omega arith, k))
          | inl t ↦ rw t (
              bind-Ends (stop_if _) _ (stop_if-Ends _) λ _ e.
                let inside : p + 1 < n = ground arith in
                bind-Ends (read buf (p + 1)) _ (read-Ends buf n room (p + 1) (omega arith)) λ d _.
                  elim (Bool-cases (d == b':')) [
                    | inl u ↦ rw u (
                        weaken-Ends _
                          (element_name-Ends f (p + 2) (p + 2) (omega arith) (omega arith)
                            (omega arith))
                          λ v r. (r.0, omega arith, r.2))
                    | inr u ↦ rw u (
                        weaken-Ends _
                          (element_name-Ends f name (p + 1) (omega arith) (omega arith)
                            (omega arith))
                          λ v r. (r.0, omega arith, r.2))
                  ])
        ]

  cdata-Ends : (p : ℕ) → p + 12 ≤ n → Ends n (λ q. (p < q) × (q ≤ n)) (cdata buf n p)
  unfolding cdata
  cdata-Ends p h =
      bind-Ends (seek buf n (fuel buf n) _ (p + 9)) _
        (seek-Ends buf n room _ _ (p + 9) refl (omega arith) (omega arith))
        λ q r.
          bind-Ends (if ltb (p + 9) q then emit (text (p + 9) (q - (p + 9))) else pass tt) _
            (if-Ends (ltb (p + 9) q) (λ t. emit-Ends _ (omega arith)) (λ t. pass-Ends tt tt))
            λ _ _.
              weaken-Ends _ (advance_while-Ends buf n room _ _ 0 q (omega arith) (omega arith))
                λ s v. (omega arith, v.1)

  char_data-Ends :
      (start p : ℕ) → start ≤ p → p < n → Ends n (λ q. (p ≤ q) × (q ≤ n)) (char_data buf n start p)
  unfolding char_data
  char_data-Ends start p h k =
      bind-Ends (advance_while buf n (fuel buf n) _ 1 p) _
        (advance_while-Ends buf n room _ _ 1 p (omega arith) (omega arith))
        λ q r.
          let inside : q < n = r.2 k in
          let report = λ (x : ℕ). (if x == b'/' then emit (text start (q - start)) else pass tt) in
          bind-Ends (if ltb start q then (read buf (q + 1) >>= report) else pass tt) _
            (if-Ends (ltb start q)
              (λ t.
                bind-Ends (read buf (q + 1)) report (read-Ends buf n room (q + 1) (omega arith))
                  λ x _.
                    if-Ends (x == b'/') (λ u. emit-Ends (text start (q - start)) (omega arith))
                      (λ u. pass-Ends tt tt))
              (λ t. pass-Ends tt tt))
            λ _ _. pass-Ends q (r.0, r.1)

  content-Ends : (p : ℕ) → p < n → Ends n (λ q. (p < q) × (q ≤ n)) (content buf n p)
  unfolding content
  content-Ends p h = bind-Ends (stop_if _) _ (stop_if-Ends _) λ _ e.
      bind-Ends (advance_while buf n (fuel buf n) is_white_space 0 (p + 1)) _
        (advance_while-Ends buf n room _ _ 0 (p + 1) (omega arith) (omega arith))
        λ q r.
          let inside : q < n = r.2 (ground arith) in
          elim (Bool-cases (leb (q + 12) n)) [
            | inl l ↦ rw l (
                bind-Ends (matches buf (codes "<![CDATA[") q) _
                  (matches-Ends buf n room _ q (ground arith))
                  λ found _.
                    if-Ends found
                      (λ t. weaken-Ends _ (cdata-Ends q (ground arith)) λ s v. (omega arith, v.1))
                      (λ t.
                        weaken-Ends _ (char_data-Ends (p + 1) q r.0 inside)
                          λ s v. (omega arith, v.1)))
            | inr l ↦
                rw l (weaken-Ends _ (char_data-Ends (p + 1) q r.0 inside) λ s v. (omega arith, v.1))
          ]

  open_tag-Ends :
      (name p : ℕ) → name ≤ p → p ≤ n → Ends n (λ q. (p ≤ q) × (q ≤ n)) (open_tag buf n name p)
  unfolding open_tag
  open_tag-Ends name p h k = bind-Ends (emit _) _ (emit-Ends _ (omega arith)) λ _ _.
      bind-Ends (parseatt buf n (fuel buf n) p) _
        (parseatt-Ends buf n room _ p (omega arith) (omega arith))
        λ q r. bind-Ends (read buf q) _ (read-Ends buf n room q (omega arith)) λ c _.
          if-Ends (not (c == b'/'))
            (λ t. weaken-Ends _ (content-Ends q r.1) λ s v. (omega arith, v.1))
            (λ t. pass-Ends q (r.0, omega arith))

  close_tag-Ends : (p : ℕ) → Ends n (λ q. (p < q) × (q ≤ n + 1)) (close_tag buf n p)
  unfolding close_tag
  close_tag-Ends p = bind-Ends (stop_if _) _ (stop_if-Ends _) λ _ e.
      let inside : p + 1 < n = ground arith in
      bind-Ends (advance_while buf n (fuel buf n) _ 0 (p + 1)) _
        (advance_while-Ends buf n room _ _ 0 (p + 1) (omega arith) (omega arith))
        λ q r.
          bind-Ends (emit _) _ (emit-Ends _ (omega arith))
            λ _ _. pass-Ends _ (omega arith, omega arith)

  tag-Ends : (p : ℕ) → p < n → Ends n (λ q. (p < q) × (q ≤ n + 1)) (tag buf n p)
  unfolding tag
  tag-Ends p h =
      bind-Ends (element_name buf n (fuel buf n) (p + 1) (p + 1)) _
        (element_name-Ends _ (p + 1) (p + 1) (omega arith) (omega arith) (omega arith))
        λ v r.
          if-Ends (ltb v.0 v.1)
            (λ t. weaken-Ends _ (open_tag-Ends v.0 v.1 r.0 r.2) λ s w. (omega arith, omega arith))
            (λ t. bind-Ends (read buf v.1) _ (read-Ends buf n room v.1 r.2) λ c _.
              if-Ends (c == b'/')
                (λ u. weaken-Ends _ (close_tag-Ends v.1) λ s w. (omega arith, w.1))
                (λ u. pass-Ends v.1 (omega arith, omega arith)))

  parseelt_step-Ends :
      (p : ℕ) → p + 1 < n → Ends n (λ q. (p < q) × (q ≤ n + 1)) (parseelt_step buf n p)
  unfolding parseelt_step
  parseelt_step-Ends p h = elim (Bool-cases (leb (p + 4) n)) [
    | inl l ↦ rw l (
        bind-Ends (matches buf (codes "<!--") p) _ (matches-Ends buf n room _ p (ground arith))
          λ found _.
            if-Ends found (λ t. weaken-Ends _ (comment-Ends p) λ s v. (v.0, omega arith))
              (λ t. unmarked))
    | inr l ↦ rw l unmarked
  ]
    where
      unmarked :
          Ends n
            (λ q. (p < q) × (q ≤ n + 1))
            (read buf p >>= λ c.
              if c == b'<'
              then (read buf (p + 1) >>= λ d. if not (d == b'?') then tag buf n p else pass (p + 1))
              else pass (p + 1))
      unmarked = bind-Ends (read buf p) _ (read-Ends buf n room p (omega arith)) λ c _.
          if-Ends (c == b'<')
            (λ t. bind-Ends (read buf (p + 1)) _ (read-Ends buf n room (p + 1) (omega arith)) λ d _.
              if-Ends (not (d == b'?')) (λ u. tag-Ends p (omega arith))
                (λ u. pass-Ends (p + 1) (omega arith, omega arith)))
            (λ t. pass-Ends (p + 1) (omega arith, omega arith))

  parseelt-Ends :
      (f p : ℕ) → p ≤ n + 1 → n + 1 < f + p → Ends n (λ q. n ≤ q + 1) (parseelt buf n f p)
  unfolding parseelt
  parseelt-Ends zero p h k = absurd (omega arith)
  parseelt-Ends (suc f) p h k =
      if-Ends (ltb (p + 1) n)
        (λ t.
          bind-Ends (parseelt_step buf n p) _ (parseelt_step-Ends p (ground arith))
            λ q r. parseelt-Ends f q r.1 (omega arith))
        (λ t. pass-Ends p (ground arith))

  -- With one readable byte behind the document the parser ends without a read outside the buffer,
  -- whatever the bytes are: at the document's end or by an early return. Every name, text and value
  -- that it hands to a callback lies inside the document.
  pub parsexml-Ends : Ends n (λ q. n ≤ q + 1) (parsexml buf n)
  unfolding parsexml
  parsexml-Ends = parseelt-Ends (n + 2) 0 (omega arith) (omega arith)
