-- ===== src/Config/Tests.antt =====
-- A configuration file.
use miniupnpd_sdn.Base.{
  ℕ, ◌≡◌, refl, true, inl, inr, List, [], ◌∷◌, ◌++◌, none, some, Bytes, codes, arith,
}
use miniupnpd_sdn.Base.Ints.{pos}
use miniupnpd_sdn.Permissions.Tests.{only_lan, lan_text, lan_rule, lan-IsLine}
use miniupnpd_sdn.Redirect.LeaseFile.Lines.{file_of}
use miniupnpd_sdn.Config.{
  upnpport, upnpext_ifname, find_option, null, live, Store, Realloc, readoptionsfile, options_of,
}
use miniupnpd_sdn.Config.Spelled.{IsAssignment}
use miniupnpd_sdn.Config.Stored.{Item, nothing, assigned, ruled}
use miniupnpd_sdn.Config.ReadBack.{
  IsText, AllSpell, readoptionsfile-AllSpell, readoptionsfile-again,
}

abbrev enough : Realloc
enough = record { permlist = λ n. true; options = λ n. true; repo = λ n. true }

abbrev nothing_behind : ℕ → Bytes
nothing_behind n = []

abbrev port_text : Bytes
port_text = codes " http_port =\t8080  "

abbrev rule_text : Bytes
rule_text = lan_text ++ codes " "

abbrev texts : List Bytes
texts = codes "# ports" ∷ (port_text ∷ ([] ∷ (rule_text ∷ (codes "ext_ifname=" ∷ []))))

abbrev items : List Item
items =
    nothing
    ∷ (assigned upnpport (codes "8080")
        ∷ (nothing ∷ (ruled lan_rule ∷ (assigned upnpext_ifname [] ∷ []))))

port-IsAssignment : IsAssignment upnpport (codes "8080") port_text
unfolding find_option
port-IsAssignment = record {
  indent = codes " ";
  letter = b'h';
  name = codes "ttp_port";
  before = codes " ";
  after = 9 ∷ [];
  trail = codes "  ";
  indent_blank = ground arith;
  before_blank = ground arith;
  after_blank = ground arith;
  trail_blank = ground arith;
  named = refl;
  tight = ground arith;
  text_is = refl;
}

port_line : IsText port_text
port_line = record { one_line = ground arith; no_nul = ground arith; fits = omega arith }

abbrev no_options : Store
no_options = record { ary_options = null; string_repo = []; upnppermlist = [] }

texts-AllSpell : AllSpell only_lan texts items
unfolding find_option
texts-AllSpell = (
  record { one_line = ground arith; no_nul = ground arith; fits = omega arith },
  inr (record { indent = []; remark = codes " ports"; indent_blank = tt; text_is = refl }),
  (
    port_line,
    port-IsAssignment,
    (
      record { one_line = tt; no_nul = tt; fits = omega arith },
      inl tt,
      (
        record { one_line = ground arith; no_nul = ground arith; fits = omega arith },
        record {
          indent = [];
          rule = lan_text;
          trail = codes " ";
          indent_blank = tt;
          trail_blank = ground arith;
          is_line = lan-IsLine;
          text_is = refl;
        },
        (
          record { one_line = ground arith; no_nul = ground arith; fits = omega arith },
          record {
            indent = [];
            letter = b'e';
            name = codes "xt_ifname";
            before = [];
            after = [];
            trail = [];
            indent_blank = tt;
            before_blank = tt;
            after_blank = tt;
            trail_blank = tt;
            named = refl;
            tight = tt;
            text_is = refl;
          },
          tt,
        ),
      ),
    ),
  ),
)

readoptionsfile-AllSpell_example :
    (s : Store) × (readoptionsfile only_lan enough nothing_behind
        (codes "conf")
        (some (file_of texts))
        no_options
      ≡ some (pos 0, s))
    × (options_of s ≡ (upnpport, codes "8080") ∷ ((upnpext_ifname, []) ∷ []))
    × (s.upnppermlist ≡ lan_rule ∷ [])
readoptionsfile-AllSpell_example =
    readoptionsfile-AllSpell only_lan enough nothing_behind b'c' (codes "onf") texts items [] []
      (record { permlist = λ n. refl; options = λ n. refl; repo = λ n. refl }) texts-AllSpell

readoptionsfile-again_example :
    readoptionsfile only_lan enough nothing_behind
      (codes "conf")
      (some (port_text ++ (10 ∷ codes "uuid=1")))
      (record { ary_options = live []; string_repo = []; upnppermlist = [] })
    ≡ none
readoptionsfile-again_example =
    readoptionsfile-again only_lan enough nothing_behind b'c' (codes "onf") [] upnpport
      (codes "8080") port_text (codes "uuid=1") [] [] port_line port-IsAssignment
