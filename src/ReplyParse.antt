-- ===== src/ReplyParse.antt =====
-- miniupnpd/upnpreplyparse.c and .h: the arguments of a SOAP request, by the callbacks that
-- ParseNameValue hands to the XML parser. A `char[]` that holds a C string is its bytes up to the
-- first NUL. `malloc` is a parameter: whether a request for so many bytes is met.
pub mod Bounds
mod Tests
use miniupnpd_sdn.Base.{
  ℕ, zero, suc, ◌+◌, ◌-◌, Bool, true, false, not, List, [], ◌∷◌, Option, none, some, Bytes, codes,
  ltb, leb, ◌==◌, if◌then◌else◌, length, take, drop, bytes_eq, c_string,
}
use miniupnpd_sdn.MiniXml.{parsexml}
use miniupnpd_sdn.MiniXml.Effects.{Event, starts, ends, text, attribute}

pub record NameValue : Type 0 where
  pub name : Bytes
  pub value : Bytes

-- `cdata` is none for NULL; `cdatalen` is its length.
pub record NameValueParserData : Type 0 where
  pub l_head : List NameValue
  pub curelt : Bytes
  pub port_listing : Option Bytes
  pub port_listing_length : ℕ
  pub topelt : Bool
  pub cdata : Option Bytes
  pub cdatalen : ℕ

abbrev pub port_listing_name : Bytes
port_listing_name = codes "NewPortListing"

-- sizeof(struct NameValue) and sizeof(nv->value).
abbrev pub sizeof_NameValue : ℕ
sizeof_NameValue = 200

abbrev pub sizeof_value : ℕ
sizeof_value = 128

unfoldable pub name_value_parser_start_elt : NameValueParserData → Bytes → NameValueParserData
name_value_parser_start_elt d name = record d {
  topelt = true;
  curelt = c_string (take 63 name);
  cdata = none;
  cdatalen = 0;
}

-- What goes into `nv->value`: at most 127 bytes of the text, or nothing.
abbrev pub stored_value : Option Bytes → ℕ → Bytes
stored_value none l = []
stored_value (some s) l = c_string (take (if leb sizeof_value l then sizeof_value - 1 else l) s)

-- The bytes that a callback is pointed to.
abbrev pub slice : Bytes → ℕ → ℕ → Bytes
slice buffer start len = take len (drop start buffer)

-- After `memset(data, 0, …)`.
abbrev pub cleared : NameValueParserData
cleared = record {
  l_head = [];
  curelt = [];
  port_listing = none;
  port_listing_length = 0;
  topelt = false;
  cdata = none;
  cdatalen = 0;
}

module _ (malloc : ℕ → Bool) where
  -- The name behind the slash is not looked at.
  unfoldable pub name_value_parser_end_elt : NameValueParserData → NameValueParserData
  name_value_parser_end_elt d =
      let nv : NameValue = record {
        name = c_string (take 63 d.curelt);
        value = stored_value d.cdata d.cdatalen;
      } in
      if not d.topelt
      then d
      else if not (bytes_eq d.curelt port_listing_name)
      then (if malloc sizeof_NameValue
          then record d { l_head = nv ∷ d.l_head; cdata = none; cdatalen = 0; topelt = false }
          else d)
      else record d { cdata = none; cdatalen = 0; topelt = false }

  unfoldable pub name_value_parser_get_data : NameValueParserData → Bytes → NameValueParserData
  name_value_parser_get_data d datas =
      let l = length datas in
      if bytes_eq d.curelt port_listing_name
      then (if malloc (l + 1)
          then record d { port_listing = some datas; port_listing_length = l }
          else record d { port_listing = none })
      else record d { cdata = some datas; cdatalen = l }

  -- A callback of the XML parser; there is none for attributes.
  unfoldable pub on_event : Bytes → NameValueParserData → Event → NameValueParserData
  unfolding name_value_parser_start_elt name_value_parser_end_elt name_value_parser_get_data
  on_event buffer d (starts start len) = name_value_parser_start_elt d (slice buffer start len)
  on_event buffer d (ends start len) = name_value_parser_end_elt d
  on_event buffer d (text start len) = name_value_parser_get_data d (slice buffer start len)
  on_event buffer d (attribute start len vstart vlen) = d

  unfoldable pub on_events : Bytes → NameValueParserData → List Event → NameValueParserData
  on_events buffer d [] = d
  on_events buffer d (e ∷ es) = on_events buffer (on_event buffer d e) es

  unfoldable pub parse_name_value : Bytes → ℕ → NameValueParserData
  parse_name_value buffer bufsize = on_events buffer cleared (parsexml buffer bufsize).0

abbrev pub clear_name_value_list : NameValueParserData → NameValueParserData
clear_name_value_list d = elim d.port_listing [
  | none ↦ record d { l_head = [] }
  | some s ↦ record d { l_head = []; port_listing = none; port_listing_length = 0 }
]

unfoldable pub find_value : List NameValue → Bytes → Option Bytes
find_value [] name = none
find_value (nv ∷ nvs) name = if bytes_eq nv.name name then some nv.value else find_value nvs name

unfoldable pub get_value_from_name_value_list : NameValueParserData → Bytes → Option Bytes
get_value_from_name_value_list d name = find_value d.l_head name
