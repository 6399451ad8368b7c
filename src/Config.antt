-- ===== src/Config.antt =====
-- miniupnpd/options.c: the configuration file, in the build for Netfilter with IPv6, NAT-PMP, PCP, the lease file,
-- IGD_V2 and the manufacturer's options, without HTTPS and SDN. The file is its bytes, or none where it is not
-- opened. A result none is a fault: a use of freed memory, or a read behind the buffer.
pub mod Lines
pub mod Spelled
pub mod Rules
pub mod Stored
pub mod ReadBack
mod Tests
use miniupnpd_sdn.Base.{
  ℕ, zero, suc, ◌+◌, Bool, true, false, ◌&&◌, ◌||◌, List, [], ◌∷◌, ◌++◌, Option, none, some, Bytes,
  codes, ltb, ◌==◌, if◌then◌else◌, length, drop, bytes_eq, c_string,
}
use miniupnpd_sdn.Base.Options.{◌>>=◌}
use miniupnpd_sdn.Base.Ints.{ℤ, pos, negsuc}
use miniupnpd_sdn.Base.Decimal.{skip_blanks}
use miniupnpd_sdn.Permissions.{UpnpPerm}
use miniupnpd_sdn.Permissions.Line.{Outcome, done, rejected, fault, read_permission_line}
use miniupnpd_sdn.Redirect.LeaseFile.{fgets_from, starts_with, trim_end}

pub data UpnpConfigOption : Type 0 where
  upnpext_ifname upnpext_ifname6 upnpext_ip upnpext_perform_stun upnpext_stun_host
        upnpext_stun_port :
      UpnpConfigOption
  upnplistening_ip upnpipv6_listening_ip upnpipv6_disable upnpport : UpnpConfigOption
  upnpbitrate_up upnpbitrate_down upnppresentationurl : UpnpConfigOption
  upnpfriendly_name upnpmanufacturer_name upnpmanufacturer_url : UpnpConfigOption
  upnpmodel_name upnpmodel_description upnpmodel_url : UpnpConfigOption
  upnpnotify_interval upnpsystem_uptime upnppacket_log upnpuuid upnpserial upnpmodel_number :
      UpnpConfigOption
  upnpcleanthreshold upnpcleaninterval : UpnpConfigOption
  upnpforwardchain upnpnatchain upnpnatpostchain : UpnpConfigOption
  upnpenablenatpmp upnppcpminlifetime upnppcpmaxlifetime upnppcpallowthirdparty : UpnpConfigOption
  upnpenable upnpleasefile upnpforceigddescv1 upnpminissdpdsocket upnpsecuremode : UpnpConfigOption

abbrev pub optionids : List (UpnpConfigOption × Bytes)
optionids =
    (upnpext_ifname, codes "ext_ifname")
    ∷ (upnpext_ifname6, codes "ext_ifname6")
    ∷ (upnpext_ip, codes "ext_ip")
    ∷ (upnpext_perform_stun, codes "ext_perform_stun")
    ∷ (upnpext_stun_host, codes "ext_stun_host")
    ∷ (upnpext_stun_port, codes "ext_stun_port")
    ∷ (upnplistening_ip, codes "listening_ip")
    ∷ (upnpipv6_listening_ip, codes "ipv6_listening_ip")
    ∷ (upnpipv6_disable, codes "ipv6_disable")
    ∷ (upnpport, codes "port")
    ∷ (upnpport, codes "http_port")
    ∷ (upnpbitrate_up, codes "bitrate_up")
    ∷ (upnpbitrate_down, codes "bitrate_down")
    ∷ (upnppresentationurl, codes "presentation_url")
    ∷ (upnpfriendly_name, codes "friendly_name")
    ∷ (upnpmanufacturer_name, codes "manufacturer_name")
    ∷ (upnpmanufacturer_url, codes "manufacturer_url")
    ∷ (upnpmodel_name, codes "model_name")
    ∷ (upnpmodel_description, codes "model_description")
    ∷ (upnpmodel_url, codes "model_url")
    ∷ (upnpnotify_interval, codes "notify_interval")
    ∷ (upnpsystem_uptime, codes "system_uptime")
    ∷ (upnppacket_log, codes "packet_log")
    ∷ (upnpuuid, codes "uuid")
    ∷ (upnpserial, codes "serial")
    ∷ (upnpmodel_number, codes "model_number")
    ∷ (upnpcleanthreshold, codes "clean_ruleset_threshold")
    ∷ (upnpcleaninterval, codes "clean_ruleset_interval")
    ∷ (upnpforwardchain, codes "upnp_forward_chain")
    ∷ (upnpnatchain, codes "upnp_nat_chain")
    ∷ (upnpnatpostchain, codes "upnp_nat_postrouting_chain")
    ∷ (upnpenablenatpmp, codes "enable_natpmp")
    ∷ (upnppcpminlifetime, codes "min_lifetime")
    ∷ (upnppcpmaxlifetime, codes "max_lifetime")
    ∷ (upnppcpallowthirdparty, codes "pcp_allow_thirdparty")
    ∷ (upnpenable, codes "enable_upnp")
    ∷ (upnpleasefile, codes "lease_file")
    ∷ (upnpforceigddescv1, codes "force_igd_desc_v1")
    ∷ (upnpminissdpdsocket, codes "minissdpdsocket")
    ∷ (upnpsecuremode, codes "secure_mode")
    ∷ []

-- The first entry with the name; none is UPNP_INVALID.
unfoldable pub find_option : Bytes → List (UpnpConfigOption × Bytes) → Option UpnpConfigOption
find_option name [] = none
find_option name ((id, n) ∷ ids) =
    let more = find_option name ids in if bytes_eq name n then some id else more

-- `ary_options`, with the offset in `string_repo` of each value.
pub data Array : Type 0 where
  null : Array
  live : List (UpnpConfigOption × ℕ) → Array
  freed : Array

-- `string_repo` is its bytes in use, `string_repo_len` of them.
pub record Store : Type 0 where
  pub ary_options : Array
  pub string_repo : Bytes
  pub upnppermlist : List UpnpPerm

-- What the calls of realloc return in the line of that number, for the three arrays.
pub record Realloc : Type 0 where
  pub permlist : ℕ → Bool
  pub options : ℕ → Bool
  pub repo : ℕ → Bool

-- `strchr(s, b)`, with the bytes before it and those behind it.
unfoldable pub strchr : ℕ → Bytes → Option (Bytes × Bytes)
strchr b [] = none
strchr b (c ∷ s) =
    let more = strchr b s in if c == b then some ([], s) else (do r ← more; some (c ∷ r.0, r.1))

-- The line's newline is cut off with the blanks in front of it, if it has one.
abbrev pub line_text : Bytes → Option (Bytes × Bytes) → Bytes
line_text buffer none = buffer
line_text buffer (some r) = trim_end r.0

-- `for(t=equals-1; t>name && isspace(*t); t--)` leaves the first byte.
abbrev pub trim_name : Bytes → Bytes
trim_name [] = []
trim_name (c ∷ s) = c ∷ trim_end s

-- What a line is.
pub data Line : Type 0 where
  skipped : Line
  permission : Bytes → Line
  setting : UpnpConfigOption → Bytes → Line
  invalid : Line

abbrev pub is_permission : Bytes → Bool
is_permission name =
    ltb 6 (length name) && (starts_with (codes "allow") name || starts_with (codes "deny") name)

abbrev pub with_id : Bytes → Option UpnpConfigOption → Line
with_id value none = invalid
with_id value (some id) = setting id value

abbrev pub split_option : Option (Bytes × Bytes) → Line
split_option none = invalid
split_option (some r) = with_id (skip_blanks r.1) (find_option (trim_name r.0) optionids)

-- From behind the blanks in front.
unfoldable pub classify : Bytes → Line
classify [] = skipped
classify (c ∷ s) =
    if c == b'#'
    then skipped
    else if is_permission (c ∷ s)
    then permission (c ∷ s)
    else split_option (strchr b'=' (c ∷ s))

-- The buffer holds what fgets has read.
unfoldable pub read_line : Bytes → Line
read_line line =
    let buffer = c_string line in classify (skip_blanks (line_text buffer (strchr 10 buffer)))

abbrev pub add_rule : Store → Outcome UpnpPerm → Option Store
add_rule s (done perm) = some (record s { upnppermlist = s.upnppermlist ++ (perm ∷ []) })
add_rule s rejected = some s
add_rule s fault = none

-- The array is made larger, which frees the old one.
abbrev pub enlarge : Bool → Array → Option (Option (List (UpnpConfigOption × ℕ)))
enlarge ok null = some (if ok then some [] else none)
enlarge ok (live options) = some (if ok then some options else none)
enlarge ok freed = none

-- The value's bytes go behind the others.
abbrev pub add_setting :
    Bool → UpnpConfigOption → Bytes → Store → Option (List (UpnpConfigOption × ℕ)) → Store
add_setting ok id value s none = s
add_setting ok id value s (some options) =
    if ok
    then record s {
      ary_options = live (options ++ ((id, length s.string_repo) ∷ []));
      string_repo = s.string_repo ++ (value ++ (0 ∷ []));
    }
    else record s { ary_options = live options }

-- The array holds `stale` behind the line's end.
unfoldable pub store_line :
    (Bytes → Option ℕ) → Realloc → (ℕ → Bytes) → ℕ → Line → Store → Option Store
store_line inet_aton r stale linenum skipped s = some s
store_line inet_aton r stale linenum invalid s = some s
store_line inet_aton r stale linenum (permission name) s =
    if r.permlist linenum
    then add_rule s (read_permission_line inet_aton (name ++ (0 ∷ stale linenum)))
    else some s
store_line inet_aton r stale linenum (setting id value) s = (do
  options ← enlarge (r.options linenum) s.ary_options
  some (add_setting (r.repo linenum) id value s options))

-- `while(fgets(buffer, sizeof(buffer), hfile))`, with a byte of fuel for each of the file's; none without fuel.
unfoldable pub read_lines :
    ℕ → (Bytes → Option ℕ) → Realloc → (ℕ → Bytes) → ℕ → Bytes → Store → Option Store
read_lines fuel inet_aton r stale linenum [] s = some s
read_lines zero inet_aton r stale linenum (c ∷ file) s = none
read_lines (suc fuel) inet_aton r stale linenum (c ∷ file) s =
    let (line, rest) = fgets_from 1023 (c ∷ file) in
    (do
      s' ← store_line inet_aton r stale linenum (read_line line) s
      read_lines fuel inet_aton r stale (suc linenum) rest s')

-- `free(ary_options)`, which is not set to NULL.
abbrev pub release : Array → Array
release null = null
release (live options) = freed
release freed = freed

abbrev pub returned : Option Store → Option (ℤ × Store)
returned none = none
returned (some s) = some (pos 0, s)

-- `free` of freed memory is a fault too.
abbrev pub is_freed : Array → Bool
is_freed null = false
is_freed (live options) = false
is_freed freed = true

unfoldable pub readoptionsfile :
    (Bytes → Option ℕ) → Realloc → (ℕ → Bytes) → Bytes → Option Bytes → Store → Option (ℤ × Store)
readoptionsfile inet_aton r stale [] file s = some (negsuc 0, s)
readoptionsfile inet_aton r stale (c ∷ fname) none s = some (negsuc 0, s)
readoptionsfile inet_aton r stale (c ∷ fname) (some file) s =
    if is_freed s.ary_options
    then none
    else returned (
        read_lines (length file) inet_aton r stale 1 file
          (record s { ary_options = release s.ary_options; string_repo = [] }))

unfoldable pub freeoptions : Store → Option Store
freeoptions s =
    if is_freed s.ary_options
    then none
    else some (record { ary_options = null; string_repo = []; upnppermlist = [] })

-- The value of each option: `string_repo` from its offset on.
abbrev pub values_at : Bytes → List (UpnpConfigOption × ℕ) → List (UpnpConfigOption × Bytes)
values_at repo [] = []
values_at repo ((id, offset) ∷ options) = (id, c_string (drop offset repo)) ∷ values_at repo options

abbrev pub values_of : Bytes → Array → List (UpnpConfigOption × Bytes)
values_of repo null = []
values_of repo (live options) = values_at repo options
values_of repo freed = []

unfoldable pub options_of : Store → List (UpnpConfigOption × Bytes)
options_of s = values_of s.string_repo s.ary_options
