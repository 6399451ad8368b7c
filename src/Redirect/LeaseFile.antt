-- ===== src/Redirect/LeaseFile.antt =====
-- miniupnpd/upnpredirect.c: the protocols' names and the lease file, in the build that stores times as
-- Unix times. The file is its bytes, or none where none is configured. What the system answers to
-- the opening of files, and the clocks, are in the record Env.
pub mod Lines
pub mod ReadBack
use miniupnpd_sdn.Base.{
  ℕ, zero, suc, ◌+◌, ◌-◌, ◌*◌, ◌%◌, ◌^◌, Bool, true, false, not, ◌&&◌, ◌||◌, List, [], ◌∷◌, ◌++◌,
  Option, none, some, Bytes, codes, ltb, leb, ◌==◌, if◌then◌else◌, length, take, bytes_eq, c_string,
}
use miniupnpd_sdn.Base.Decimal.{decimal, is_blank, skip_blanks, atoi_ushort, strtoul_uint}
use miniupnpd_sdn.Base.Options.{◌>>=◌}
use miniupnpd_sdn.Base.Ints.{ℤ, pos, negsuc}

abbrev pub ipproto_tcp : ℕ
ipproto_tcp = 6

abbrev pub ipproto_udp : ℕ
ipproto_udp = 17

abbrev pub ipproto_udplite : ℕ
ipproto_udplite = 136

abbrev to_lower : ℕ → ℕ
to_lower c = if leb b'A' c && leb c b'Z' then c + 32 else c

-- `strcasecmp(a, b) == 0`
abbrev pub same_nocase : Bytes → Bytes → Bool
same_nocase [] [] = true
same_nocase (x ∷ a) (y ∷ b) = to_lower x == to_lower y && same_nocase a b
same_nocase _ _ = false

unfoldable pub proto_atoi : Bytes → ℕ
proto_atoi protocol =
    if same_nocase protocol (codes "UDP")
    then ipproto_udp
    else if same_nocase protocol (codes "UDPLITE")
    then ipproto_udplite
    else ipproto_tcp

unfoldable pub proto_itoa : ℕ → Bytes
proto_itoa proto =
    if proto == ipproto_udp
    then codes "UDP"
    else if proto == ipproto_tcp
    then codes "TCP"
    else if proto == ipproto_udplite
    then codes "UDPLITE"
    else codes "*UNKNOWN*"

-- `upnp_time()` and `time(NULL)`; whether the file opens, and for a
-- removal whether the temporary file does and can be renamed.
pub record Env : Type 0 where
  pub upnp_time : ℕ
  pub unix_time : ℕ
  pub opens : Bool
  pub temp_opens : Bool
  pub renames : Bool

-- `timestamp -= upnp_time(); timestamp += time(NULL);` in 32 bits, unless it is 0.
abbrev pub stored_time : Env → ℕ → ℕ
stored_time env timestamp =
    if timestamp == 0
    then 0
    else (timestamp + (2 ^ 32 - env.upnp_time % 2 ^ 32) + env.unix_time) % 2 ^ 32

abbrev pub field : Bytes → Bytes → Bytes
field s rest = s ++ (b':' ∷ rest)

-- "%s:%hu:%s:%hu:%u:%s\n"
unfoldable pub lease_line : ℕ → ℕ → Bytes → ℕ → ℕ → Bytes → Bytes
lease_line proto eport iaddr iport timestamp desc = field (proto_itoa proto) (
    field (decimal eport)
      (field iaddr (field (decimal iport) (field (decimal timestamp) (desc ++ (10 ∷ []))))))

unfoldable pub lease_file_add :
    Env → ℕ → Bytes → ℕ → ℕ → Bytes → ℕ → Option Bytes → ℤ × Option Bytes
lease_file_add env eport iaddr iport proto desc timestamp none = (pos 0, none)
lease_file_add env eport iaddr iport proto desc timestamp (some file) =
    if env.opens
    then (pos 0, some (file ++ lease_line proto eport iaddr iport (stored_time env timestamp) desc))
    else (negsuc 0, some file)

-- At most `k` bytes, up to a newline.
unfoldable pub fgets_from : ℕ → Bytes → Bytes × Bytes
fgets_from zero file = ([], file)
fgets_from (suc k) [] = ([], [])
fgets_from (suc k) (c ∷ file) =
    let (line, rest) = fgets_from k file in if c == 10 then (c ∷ [], file) else (c ∷ line, rest)

-- `strncmp(str, buf, str_size) == 0` for a `buf` that is long enough, together with that test.
abbrev pub starts_with : Bytes → Bytes → Bool
starts_with [] buf = true
starts_with (x ∷ str) [] = false
starts_with (x ∷ str) (y ∷ buf) = x == y && starts_with str buf

-- `while(fgets(buf, sizeof(buf)-1, fd) != NULL)`, with `buf` of 512 bytes; none without fuel.
unfoldable pub copy_others : ℕ → Bytes → Bytes → Option Bytes
copy_others zero str [] = some []
copy_others zero str (c ∷ file) = none
copy_others (suc fuel) str [] = some []
copy_others (suc fuel) str (c ∷ file) =
    let (line, rest) = fgets_from 510 (c ∷ file) in
    let buf = c_string line in
    (do
      others ← copy_others fuel str rest
      some (if starts_with str buf then others else buf ++ others))

-- What the new file holds: each round takes a byte at least.
abbrev pub others_of : Bytes → Bytes → Option Bytes
others_of str file = copy_others (length file) str file

-- `snprintf(str, sizeof(str), "%s:%u", proto_itoa(proto), eport)`, which fits its 32 bytes.
unfoldable pub lease_prefix : ℕ → ℕ → Bytes
lease_prefix eport proto = proto_itoa proto ++ (b':' ∷ decimal eport)

-- The name of the lease file is short enough for that of the temporary file. When the file is not
-- opened there is nothing to remove.
unfoldable pub lease_file_remove : Env → ℕ → ℕ → Option Bytes → Option (ℤ × Option Bytes)
lease_file_remove env eport proto none = some (pos 0, none)
lease_file_remove env eport proto (some file) = (do
  others ← others_of (lease_prefix eport proto) file
  some (
      if not env.opens
      then (pos 0, some file)
      else if not env.temp_opens
      then (negsuc 0, some file)
      else if env.renames
      then (pos 0, some others)
      else (pos 0, some file)))

pub record Lease : Type 0 where
  pub proto : Bytes
  pub eport : ℕ
  pub iaddr : Bytes
  pub iport : ℕ
  pub timestamp : ℕ
  pub desc : Bytes

-- What a line of the file gives: a lease, "unrecognized data", or a read behind the array.
pub data Reading : Type 0 where
  lease : Lease → Reading
  unrecognized fault : Reading

-- `strchr(p, ':')`, with the bytes before it and those behind it.
unfoldable pub split : Bytes → Option (Bytes × Bytes)
split [] = none
split (c ∷ s) =
    let more = split s in if c == b':' then some ([], s) else (do r ← more; some (c ∷ r.0, r.1))

-- The blanks at the end are cut off, but not the first byte.
unfoldable pub trim_end : Bytes → Bytes
trim_end [] = []
trim_end (c ∷ s) = elim (trim_end s) [ [] ↦ if is_blank c then [] else c ∷ [] | d ∷ t ↦ c ∷ d ∷ t ]

-- Whether there is a NUL.
abbrev pub has_nul : Bytes → Bool
has_nul [] = false
has_nul (c ∷ s) = c == 0 || has_nul s

-- The trimming of the description; `p = desc; while(*(p+1)) p++;` runs behind an empty description
-- over the bytes that the array holds there, `stale`.
unfoldable pub trimmed : Bytes → Lease → Bytes → Reading
trimmed stale l [] = if has_nul stale then lease (record l { desc = [] }) else fault
trimmed stale l (c ∷ s) = lease (record l { desc = c ∷ trim_end s })

-- Where a colon is missing the line is passed over.
abbrev pub found : Option (Bytes × Bytes) → (Bytes × Bytes → Reading) → Reading
found none k = unrecognized
found (some r) k = k r

-- The loop's body up to the description's end.
unfoldable pub read_lease_line : Bytes → Bytes → Reading
read_lease_line stale line = found (split line) (λ a. found (split a.1) (λ b.
    found (split b.1) (λ c. found (split c.1) (λ d. found (split d.1) (λ e.
      trimmed stale
        (record {
          proto = a.0;
          eport = atoi_ushort b.0;
          iaddr = c.0;
          iport = atoi_ushort d.0;
          timestamp = strtoul_uint e.0;
          desc = [];
        })
        (skip_blanks e.1))))))
