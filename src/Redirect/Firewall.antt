-- ===== src/Redirect/Firewall.antt =====
-- The firewall back end that miniupnpd/upnpredirect.c and natpmp.c call (commonrdr.h, and the functions
-- of netfilter/iptcrdr.c by these names), as an interface: its operations, and the laws that the
-- theorems use, over the list of the rules as it tells them.
use miniupnpd_sdn.Base.{
  ℕ, ◌<◌, ◌≡◌, ◌⊎◌, codes, Bool, ◌&&◌, List, [], ◌∷◌, ◌++◌, Option, none, some, Bytes, ◌==◌,
  if◌then◌else◌, get_elem?,
}
use miniupnpd_sdn.Base.Decimal.{decimal}
use miniupnpd_sdn.Base.Ints.{ℤ}

pub record Rule : Type 0 where
  pub eport : ℕ
  pub proto : ℕ
  pub iaddr : Bytes
  pub iport : ℕ
  pub desc : Bytes
  pub rhost : Bytes
  pub timestamp : ℕ
  pub packets : ℕ
  pub bytes : ℕ

-- A search that finds nothing, or an addition that fails, is none: a result below 0. A deletion tells
-- whether it succeeded; an update returns its result.
pub record Firewall : Type 1 where
  pub State : Type 0
  pub get_redirect_rule : State → ℕ → ℕ → Option Rule
  pub get_redirect_rule_by_index : State → ℕ → Option Rule
  pub add_redirect_rule2 : State → Rule → Option State
  pub add_filter_rule2 : State → Rule → Option State
  pub delete_redirect_and_filter_rules : State → ℕ → ℕ → Bool × State
  pub update_portmapping : State → ℕ → ℕ → ℕ → Bytes → ℕ → ℤ × State
  pub update_portmapping_desc_timestamp : State → ℕ → ℕ → Bytes → ℕ → ℤ × State

abbrev pub is_for : ℕ → ℕ → Rule → Bool
is_for eport proto r = r.eport == eport && r.proto == proto

abbrev pub first_rule : List Rule → ℕ → ℕ → Option Rule
first_rule [] eport proto = none
first_rule (r ∷ rs) eport proto =
    let more = first_rule rs eport proto in if is_for eport proto r then some r else more

abbrev pub without_first : List Rule → ℕ → ℕ → List Rule
without_first [] eport proto = []
without_first (r ∷ rs) eport proto =
    let more = without_first rs eport proto in if is_for eport proto r then rs else r ∷ more

-- The text of an IPv4 address as `inet_ntoa` prints it.
abbrev pub dotted : ℕ → ℕ → ℕ → ℕ → Bytes
dotted a b c d = decimal a ++ (b'.' ∷ decimal b ++ (b'.' ∷ decimal c ++ (b'.' ∷ decimal d)))

-- What the back end tells of a rule that it was given. The ports and the protocol are the same; an
-- internal address in the common notation is; any remote host, `*` or none, is told as an empty one.
-- The timestamp is 0 where there was no memory for it. Of the description, of the counters and of
-- another remote host nothing is said: the first may be cut or lost, and a back end may not keep the last.
pub record IsListed (r l : Rule) : Type 0 where
  pub eport_same : l.eport ≡ r.eport
  pub proto_same : l.proto ≡ r.proto
  pub iport_same : l.iport ≡ r.iport
  pub iaddr_same :
      (a b c d : ℕ)
      → a < 256
      → b < 256
      → c < 256
      → d < 256
      → r.iaddr ≡ dotted a b c d
      → l.iaddr ≡ r.iaddr
  pub any_host : (r.rhost ≡ codes "*") ⊎ (r.rhost ≡ []) → l.rhost ≡ []
  pub timestamp_kept : (l.timestamp ≡ r.timestamp) ⊎ (l.timestamp ≡ 0)

-- The rules are told in the order of their indices, and a search tells the first one for the port and
-- the protocol; an addition that succeeds with its filter rule puts a rule at the end, and where there
-- was none for its port and protocol (so that it takes no other's description) the rest stays. In
-- netfilter/iptcrdr.c the rules are those of the chain of the table nat, each with its first
-- description in the list; the laws are about a system that can open its tables.
pub record IsFirewall (fw : Firewall) : Type 0 where
  pub rules : fw.State → List Rule
  pub by_index : (s : fw.State) (i : ℕ) → fw.get_redirect_rule_by_index s i ≡ get_elem? (rules s) i
  pub first :
      (s : fw.State) (eport proto : ℕ)
      → fw.get_redirect_rule s eport proto ≡ first_rule (rules s) eport proto
  pub added :
      (s s' s'' : fw.State) (r : Rule)
      → fw.add_redirect_rule2 s r ≡ some s'
      → fw.add_filter_rule2 s' r ≡ some s''
      → (before : List Rule) × (l : Rule) × (rules s'' ≡ before ++ (l ∷ [])) × IsListed r l
  pub added_free :
      (s s' s'' : fw.State) (r : Rule)
      → fw.add_redirect_rule2 s r ≡ some s'
      → fw.add_filter_rule2 s' r ≡ some s''
      → first_rule (rules s) r.eport r.proto ≡ none
      → (l : Rule) × (rules s'' ≡ rules s ++ (l ∷ [])) × IsListed r l
