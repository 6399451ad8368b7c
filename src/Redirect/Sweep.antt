-- ===== src/Redirect/Sweep.antt =====
-- miniupnpd/upnpredirect.c: the lists of rules for the removal of expired and of unused ones, in the
-- build without PCP_PEER.
pub mod Unexpired
use miniupnpd_sdn.Base.{
  ℕ, zero, suc, ◌+◌, ◌-◌, ◌%◌, ◌^◌, Bool, true, false, not, ◌&&◌, ◌||◌, List, [], ◌∷◌, Option, none,
  some, ltb, leb, ◌==◌, if◌then◌else◌,
}
use miniupnpd_sdn.Base.Options.{◌>>=◌}
use miniupnpd_sdn.Redirect.LeaseFile.{Env}
use miniupnpd_sdn.Redirect.Firewall.{Rule, Firewall}
use miniupnpd_sdn.Redirect.Facade.{Globals, upnp_delete_redir}

pub record RuleState : Type 0 where
  pub eport : ℕ
  pub proto : ℕ
  pub packets : ℕ
  pub bytes : ℕ
  pub to_remove : Bool

abbrev pub is_expired : ℕ → ℕ → Bool
is_expired now timestamp = ltb 0 timestamp && leb timestamp now

-- The state of `nextruletoclean_timestamp` behind a rule.
abbrev pub next_to_clean : ℕ → ℕ → ℕ → ℕ
next_to_clean now clean timestamp =
    if not (ltb 0 timestamp)
    then clean
    else if leb timestamp now
    then clean
    else if leb clean now || ltb timestamp clean
    then timestamp
    else clean

abbrev pub rule_state : ℕ → Rule → RuleState
rule_state now r = record {
  eport = r.eport;
  proto = r.proto;
  packets = r.packets;
  bytes = r.bytes;
  to_remove = is_expired now r.timestamp;
}

module _ (fw : Firewall) (env : Env) (malloc : ℕ → Bool) where
  abbrev pub now : ℕ
  now = env.upnp_time % 2 ^ 32

  -- A round of the first loop, on what get_redirect_rule_by_index finds, and the rounds behind it.
  abbrev pub scan_rule :
      (List RuleState → ℕ → Option (List RuleState × ℕ × ℕ))
      → ℕ
      → List RuleState
      → ℕ
      → Option Rule
      → Option (List RuleState × ℕ × ℕ)
  scan_rule more i list clean none = some (list, i, clean)
  scan_rule more i list clean (some r) =
      let list' = rule_state now r ∷ list in
      let clean' = next_to_clean now clean r.timestamp in
      let rest = more list' clean' in if malloc (suc i) then rest else some (list', suc i, clean')

  -- The list, newest first, the number of rules read and the next time; none without fuel.
  unfoldable pub scan : ℕ → fw.State → ℕ → List RuleState → ℕ → Option (List RuleState × ℕ × ℕ)
  scan zero s i list clean = none
  scan (suc fuel) s i list clean =
      scan_rule (λ list' clean'. scan fuel s (suc i) list' clean') i list clean
        (fw.get_redirect_rule_by_index s i)

  -- The removal of the marked ones, whatever the deletion returns; the list and the number that stay.
  unfoldable pub remove_expired :
      Globals fw → List RuleState → ℕ → Option (List RuleState × ℕ × Globals fw)
  remove_expired g [] i = some ([], i, g)
  remove_expired g (t ∷ list) i =
      let removed = (do
        d ← upnp_delete_redir fw env g t.eport t.proto
        remove_expired d.1 list (i - 1)) in
      let others = (do r ← remove_expired g list i; some (t ∷ r.0, r.1, r.2)) in
      if t.to_remove then removed else others

  -- The list is empty where at most `max_rules_number_target` rules are left.
  unfoldable pub get_upnp_rules_state_list :
      ℕ → Globals fw → ℕ → Option (List RuleState × Globals fw)
  get_upnp_rules_state_list fuel g max_rules_number_target =
      let swept = (do
        s ← scan fuel g.firewall 0 [] 0
        r ← remove_expired (record g { nextruletoclean_timestamp = s.2 }) s.0 s.1
        some (if leb r.1 max_rules_number_target then [] else r.0, r.2)) in
      if malloc 0 then swept else some ([], g)

  -- The rule is as it was when it was listed.
  abbrev unused : RuleState → Option Rule → Bool
  unused t none = false
  unused t (some r) = r.packets == t.packets && r.bytes == t.bytes

  -- The deletion is for the port of `tmp`, which is the pointer's last value: none at first, and then
  -- a node that has been freed.
  unfoldable pub remove_unused_rules :
      Globals fw → List RuleState → (ℕ → ℕ) → ℕ → Option (Globals fw × ℕ)
  remove_unused_rules g [] freed n = some (g, n)
  remove_unused_rules g (t ∷ list) freed n =
      let deleted = (do
        d ← upnp_delete_redir fw env g (freed n) t.proto
        remove_unused_rules d.1 list freed (n + 1)) in
      let kept = remove_unused_rules g list freed n in
      if unused t (fw.get_redirect_rule g.firewall t.eport t.proto) then deleted else kept
