-- ===== src/MiniXml.antt =====
-- miniupnpd/minixml.c and .h: the XML parser. A pointer is an offset from `xmlstart`; `buf` holds
-- the bytes that can be read there, which may be more than the `xmlsize` bytes of the document.
-- A callback that is NULL is one that takes no notice of its event.
pub mod Effects
pub mod Safe
pub mod Bounds
mod Tests
use miniupnpd_sdn.Base.{
  ℕ, zero, suc, ◌+◌, ◌-◌, Bool, true, false, not, ◌&&◌, ◌||◌, List, [], ◌∷◌, Option, none, some,
  Bytes, codes, ltb, leb, ◌==◌, if◌then◌else◌, get_elem?,
}
use Effects.{
  Event, starts, ends, text, attribute, Flow, next, stop, fault, stuck, Run, ◌>>=◌, ◌>>◌, pass,
  emit, stop_if,
}

-- IS_WHITE_SPACE
unfoldable pub is_white_space : ℕ → Bool
is_white_space c = c == b' ' || c == b'\t' || c == b'\r' || c == b'\n'

-- What ends the name of an element, and an attribute's value without quotes.
unfoldable pub ends_name : ℕ → Bool
ends_name c = is_white_space c || c == b'>' || c == b'/'

module _ (buf : Bytes) where
  -- `*p`
  unfoldable pub read : ℕ → Run ℕ
  read p = elim (get_elem? buf p) [ none ↦ ([], fault) | some c ↦ ([], next c) ]

  -- `memcmp(p, word, n) == 0`
  unfoldable pub matches : Bytes → ℕ → Run Bool
  matches [] p = pass true
  matches (w ∷ ws) p = do c ← read p; if w == c then matches ws (p + 1) else pass false

-- `xmlend` is the document's size, as an offset.
module _ (buf : Bytes) (xmlend : ℕ) where
  -- `while(test(*p)) { p++; if(p + margin >= xmlend) return; }`
  unfoldable pub advance_while : ℕ → (ℕ → Bool) → ℕ → ℕ → Run ℕ
  advance_while zero test margin p = ([], stuck)
  advance_while (suc f) test margin p =
      let more = (do stop_if (leb xmlend (p + 1 + margin)); advance_while f test margin (p + 1)) in
      do c ← read buf p; if test c then more else pass p

  -- `while(memcmp(p, mark, 3) != 0) { p++; if(p + 3 >= xmlend) return; }`
  unfoldable pub seek : ℕ → Bytes → ℕ → Run ℕ
  seek zero mark p = ([], stuck)
  seek (suc f) mark p =
      let more = (do stop_if (leb xmlend (p + 1 + 3)); seek f mark (p + 1)) in
      do found ← matches buf mark p; if found then pass p else more

  abbrev pub fuel : ℕ
  fuel = xmlend + 2

  -- `while(*(p++) != '=') { if(p >= xmlend) return -1; }`
  unfoldable pub pass_equals : ℕ → ℕ → Run ℕ
  pass_equals zero p = ([], stuck)
  pass_equals (suc f) p =
      let more = (do stop_if (leb xmlend (p + 1)); pass_equals f (p + 1)) in
      do c ← read buf p; if not (c == b'=') then more else pass (p + 1)

  -- The value of an attribute, quoted or not: its offset and length, and the position behind.
  unfoldable pub att_value : ℕ → Run (ℕ × ℕ × ℕ)
  att_value p =
      let quoted = λ (sep : ℕ). (do
        stop_if (leb xmlend (p + 1))
        q ← advance_while fuel (λ c. not (c == sep)) 0 (p + 1)
        pass (p + 1, q - (p + 1), q)) in
      let bare = (do q ← advance_while fuel (λ c. not (ends_name c)) 0 p; pass (p, q - p, q)) in
      do sep ← read buf p; if sep == b'\'' || sep == b'"' then quoted sep else bare

  -- One attribute, from its name up to what ends its value.
  unfoldable pub att : ℕ → Run ℕ
  att attname = do
    p ← advance_while fuel (λ c. not (c == b'=' || is_white_space c)) 0 attname
    q ← pass_equals fuel p
    r ← advance_while fuel is_white_space 0 q
    (attvalue, attvaluelen, s) ← att_value r
    emit (attribute attname (p - attname) attvalue attvaluelen)
    pass s

  -- parseatt; its return of -1 ends parseelt at once.
  unfoldable pub parseatt : ℕ → ℕ → Run ℕ
  parseatt zero p = ([], stuck)
  parseatt (suc f) p =
      let skip = parseatt f (p + 1) in
      let one = (do q ← att p; parseatt f (q + 1)) in
      do
        stop_if (leb xmlend p)
        c ← read buf p
        if c == b'/' || c == b'>' then pass p else (if is_white_space c then skip else one)

  -- `<!-- … -->`, from the `<`.
  unfoldable pub comment : ℕ → Run ℕ
  comment p = do stop_if (leb xmlend (p + 4 + 3)); q ← seek fuel (codes "-->") (p + 4); pass (q + 3)

  -- The name of an element; what stands before a colon is dropped. Its offset and its end.
  unfoldable pub element_name : ℕ → ℕ → ℕ → Run (ℕ × ℕ)
  element_name zero name p = ([], stuck)
  element_name (suc f) name p =
      let more = (do
        stop_if (leb xmlend (p + 1))
        c ← read buf (p + 1)
        let name' = if c == b':' then p + 2 else name
        let p' = if c == b':' then p + 2 else p + 1
        element_name f name' p') in
      do c ← read buf p; if not (ends_name c) then more else pass (name, p)

  unfoldable pub cdata : ℕ → Run ℕ
  cdata p = do
    let start = p + 9
    q ← seek fuel (codes "]]>") start
    if ltb start q then emit (text start (q - start)) else pass tt
    advance_while fuel (λ c. not (c == b'<')) 0 q

  -- Text up to the next tag; it is reported if that tag closes the element. `start` is its
  -- beginning, `p` the position behind its leading white space.
  unfoldable pub char_data : ℕ → ℕ → Run ℕ
  char_data start p =
      let report = λ (q : ℕ). (do
        c ← read buf (q + 1)
        if c == b'/' then emit (text start (q - start)) else pass tt) in
      do
        q ← advance_while fuel (λ c. not (c == b'<')) 1 p
        if ltb start q then report q else pass tt
        pass q

  -- What follows an opening tag, from its `>`.
  unfoldable pub content : ℕ → Run ℕ
  content p = do
    stop_if (leb xmlend (p + 1))
    q ← advance_while fuel is_white_space 0 (p + 1)
    let long_enough = leb (q + 12) xmlend
    is_cdata ← (if long_enough then matches buf (codes "<![CDATA[") q else pass false)
    if is_cdata then cdata q else char_data (p + 1) q

  -- A tag that opens an element; `p` is the end of its name.
  unfoldable pub open_tag : ℕ → ℕ → Run ℕ
  open_tag name p = do
    emit (starts name (p - name))
    q ← parseatt fuel p
    c ← read buf q
    if not (c == b'/') then content q else pass q

  -- A tag that closes an element, from its slash.
  unfoldable pub close_tag : ℕ → Run ℕ
  close_tag p = do
    stop_if (leb xmlend (p + 1))
    q ← advance_while fuel (λ c. not (c == b'>')) 0 (p + 1)
    emit (ends (p + 1) (q - (p + 1)))
    pass (q + 1)

  unfoldable pub tag : ℕ → Run ℕ
  tag p = do
    (name, q) ← element_name fuel (p + 1) (p + 1)
    let close = (do c ← read buf q; if c == b'/' then close_tag q else pass q)
    if ltb name q then open_tag name q else close

  -- One round of parseelt's loop.
  unfoldable pub parseelt_step : ℕ → Run ℕ
  parseelt_step p =
      let unmarked = (do
        c ← read buf p
        let opened = (do d ← read buf (p + 1); if not (d == b'?') then tag p else pass (p + 1))
        if c == b'<' then opened else pass (p + 1)) in
      do
        let long_enough = leb (p + 4) xmlend
        is_comment ← (if long_enough then matches buf (codes "<!--") p else pass false)
        if is_comment then comment p else unmarked

  unfoldable pub parseelt : ℕ → ℕ → Run ℕ
  parseelt zero p = ([], stuck)
  parseelt (suc f) p =
      let round = (do q ← parseelt_step p; parseelt f q) in
      if ltb (p + 1) xmlend then round else pass p

  unfoldable pub parsexml : Run ℕ
  parsexml = parseelt fuel 0
