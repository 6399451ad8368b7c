-- ===== src/ReplyParse/Bounds.antt =====
-- miniupnpd/upnpreplyparse.c: what the callbacks store fits the arrays that it is copied to.
use miniupnpd_sdn.Base.{
  ℕ, zero, suc, ◌≤◌, ◌<◌, inl, inr, Bool, true, false, not, List, [], ◌∷◌, Option, none, some,
  Bytes, leb, if◌then◌else◌, length, take, drop, bytes_eq, c_string, Bool-cases, arith,
}
use miniupnpd_sdn.MiniXml.Effects.{Event, starts, ends, text, attribute}
use miniupnpd_sdn.ReplyParse.{
  NameValue, NameValueParserData, stored_value, on_event, on_events, parse_name_value,
  port_listing_name,
}

length-take-le : (k : ℕ) (s : Bytes) → length (take k s) ≤ k
length-take-le zero s = omega arith
length-take-le (suc k) [] = omega arith
length-take-le (suc k) (c ∷ s) = omega (arith, length-take-le k s)

length-c_string : (s : Bytes) → length (c_string s) ≤ length s
length-c_string [] = omega arith
length-c_string (c ∷ s) = ground (arith, length-c_string s)

-- With its terminator it fits `char name[64]` and `char value[128]`.
pub record Fits (nv : NameValue) : Type 0 where
  pub name_fits : length nv.name < 64
  pub value_fits : length nv.value < 128

abbrev pub AllFit : List NameValue → Type 0
AllFit [] = Unit {0}
AllFit (nv ∷ nvs) = Fits nv × AllFit nvs

stored_value_fits : (s : Option Bytes) (l : ℕ) → length (stored_value s l) < 128
stored_value_fits none l = omega arith
stored_value_fits (some s) l = elim (Bool-cases (leb 128 l)) [
  | inl e ↦ rw e (omega (arith, length-c_string (take 127 s), length-take-le 127 s))
  | inr e ↦ rw e (ground (arith, length-c_string (take l s), length-take-le l s))
]

-- The current element's name fits `char curelt[64]`, and all that is stored fits.
pub record IsValid (d : NameValueParserData) : Type 0 where
  pub curelt_fits : length d.curelt < 64
  pub stored : AllFit d.l_head

if-IsValid :
    (b : Bool) {x y : NameValueParserData} → IsValid x → IsValid y → IsValid (if b then x else y)
if-IsValid true h k = h
if-IsValid false h k = k

module _ (malloc : ℕ → Bool) (buffer : Bytes) where
  on_event-IsValid :
      (d : NameValueParserData) (e : Event) → IsValid d → IsValid (on_event malloc buffer d e)
  unfolding on_event
  on_event-IsValid d (starts s l) v = record {
    curelt_fits = omega (
      arith,
      length-c_string (take 63 (take l (drop s buffer))),
      length-take-le 63 (take l (drop s buffer)),
    );
    stored = v.stored;
  }
  on_event-IsValid d (ends s l) v =
      let fit : Fits
          (record { name = c_string (take 63 d.curelt); value = stored_value d.cdata d.cdatalen }) =
        record {
          name_fits = omega (arith, length-c_string (take 63 d.curelt), length-take-le 63 d.curelt);
          value_fits = stored_value_fits d.cdata d.cdatalen;
        } in
      if-IsValid (not d.topelt) v (
        if-IsValid (not (bytes_eq d.curelt port_listing_name))
          (if-IsValid (malloc 200)
            (record { curelt_fits = v.curelt_fits; stored = (fit, v.stored) }) v)
          (record { curelt_fits = v.curelt_fits; stored = v.stored }))
  on_event-IsValid d (text s l) v = ground arith
  on_event-IsValid d (attribute s l t k) v = v

  pub on_events-IsValid :
      (d : NameValueParserData) (es : List Event)
      → IsValid d
      → IsValid (on_events malloc buffer d es)
  unfolding on_events
  on_events-IsValid d [] v = v
  on_events-IsValid d (e ∷ es) v =
      on_events-IsValid (on_event malloc buffer d e) es (on_event-IsValid d e v)

  -- Whatever the document and however `malloc` answers, every name and value that is stored fits its
  -- array with the terminator, and so does the name of the last element.
  pub parse_name_value-IsValid : (bufsize : ℕ) → IsValid (parse_name_value malloc buffer bufsize)
  unfolding parse_name_value
  parse_name_value-IsValid bufsize =
      on_events-IsValid _ _ (record { curelt_fits = omega arith; stored = tt })
