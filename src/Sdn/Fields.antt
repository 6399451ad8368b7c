-- ===== src/Sdn/Fields.antt =====
-- miniupnpd/sdn/iptcrdr.c: the readers of the fields of a response, and cmpCaseInsensitive. A false
-- result is `none`; an `int` that a failed call leaves as it was is the argument `stale`.
pub mod Ports
pub mod PortRead
pub mod Letters
use miniupnpd_sdn.Base.{
  ℕ, zero, suc, ◌+◌, ◌-◌, Bool, true, false, not, ◌&&◌, ◌||◌, List, [], ◌∷◌, Option, none, some,
  Bytes, codes, ltb, leb, ◌==◌, if◌then◌else◌, length, set, replicate,
}
use miniupnpd_sdn.Base.Ints.{ℤ, pos, negsuc, isvalid_ushort, to_ushort}
use miniupnpd_sdn.Base.Options.{◌>>=◌}
use miniupnpd_sdn.Sdn.Json.{JsonC, JsonType, type_int, type_string, type_array}

-- A pointer is `none` where it is null, as calloc leaves it.
pub record PortmappingEntry : Type 0 where
  pub rhost : Option Bytes
  pub eport : ℕ
  pub proto : Option Bytes
  pub iaddr : Option Bytes
  pub iport : ℕ
  pub leaseduration : ℕ

abbrev pub zero_entry : PortmappingEntry
zero_entry = record {
  rhost = none;
  eport = 0;
  proto = none;
  iaddr = none;
  iport = 0;
  leaseduration = 0;
}

abbrev pub is_int : JsonType → Bool
is_int type_int = true
is_int _ = false

abbrev is_string : JsonType → Bool
is_string type_string = true
is_string _ = false

abbrev is_array : JsonType → Bool
is_array type_array = true
is_array _ = false

-- The condition is `!retrieveInt(...) && ISVALID_USHORT(json_int)`.
unfoldable pub port_of_int : ℤ → Option ℤ → Option ℕ
port_of_int stale none = if isvalid_ushort stale then none else some (to_ushort stale)
port_of_int stale (some json_int) = some (to_ushort json_int)

-- `array[index++] = ...`, for an entry that is kept.
abbrev pub store {ℓ} : {A : Type ℓ} → Option A → List A × ℕ → List A × ℕ
store none s = s
store (some a) s = (set s.0 s.1 a, suc s.1)

-- The condition of the loop on the entries and the entry that it stores, from what the six readers
-- return.
abbrev pub entry_of :
    Option Bytes
    → Option ℕ
    → Option Bytes
    → Option Bytes
    → Option ℕ
    → Option ℕ
    → Option PortmappingEntry
entry_of rhost? eport? proto? iaddr? iport? lease? = (do
  rhost ← rhost?
  eport ← eport?
  proto ← proto?
  iaddr ← iaddr?
  iport ← iport?
  leaseduration ← lease?
  some (record {
    rhost = some rhost;
    eport = eport;
    proto = some proto;
    iaddr = some iaddr;
    iport = iport;
    leaseduration = leaseduration;
  }))

module _ (json : JsonC) where
  unfoldable pub retrieve_string_from_json_obj : json.Object → Bytes → Option Bytes
  retrieve_string_from_json_obj jobj key = (do
    tmp ← json.object_get_ex jobj key
    if is_string (json.get_type tmp) then some (json.get_string tmp) else none)

  unfoldable pub retrieve_int_from_json_obj : json.Object → Bytes → Option ℤ
  retrieve_int_from_json_obj jobj key = (do
    tmp ← json.object_get_ex jobj key
    if is_int (json.get_type tmp) then some (json.get_int tmp) else none)

  unfoldable pub retrieve_unsigned_int_from_json_obj : json.Object → Bytes → Option ℕ
  retrieve_unsigned_int_from_json_obj jobj key = (do
    tmp ← json.object_get_ex jobj key
    let ret_64 = json.get_uint64 tmp in
        if is_int (json.get_type tmp)
        then (if ltb 4294967295 ret_64 then none else some ret_64)
        else none)

  unfoldable pub retrieve_port_number_from_json_obj : ℤ → json.Object → Bytes → Option ℕ
  retrieve_port_number_from_json_obj stale jobj key =
      port_of_int stale (retrieve_int_from_json_obj jobj key)

  unfoldable pub retrieve_json_array_from_json_obj : json.Object → Bytes → Option json.Object
  retrieve_json_array_from_json_obj jobj key = (do
    tmp ← json.object_get_ex jobj key
    if is_array (json.get_type tmp) then some tmp else none)

  -- An entry that is a port number.
  unfoldable pub port_entry : json.Object → Option ℕ
  port_entry entry =
      let json_int = json.get_int entry in
      if is_int (json.get_type entry)
      then (if isvalid_ushort json_int then some (to_ushort json_int) else none)
      else none

  -- The loop from `i` on, with `n` entries to go.
  abbrev pub fill {ℓ} :
      {A : Type ℓ} → (ℕ → json.Object → Option A) → json.Object → ℕ → ℕ → List A × ℕ → List A × ℕ
  fill read tmp i zero s = s
  fill read tmp i (suc n) s = fill read tmp (suc i) n (store (read i (json.array_get_idx tmp i)) s)

  unfoldable pub retrieve_port_number_array_from_json_obj :
      json.Object → Bytes → Option (List ℕ × ℕ)
  retrieve_port_number_array_from_json_obj jobj key = (do
    tmp ← retrieve_json_array_from_json_obj jobj key
    let arr_len = json.array_length tmp in
        some (fill (λ i entry. port_entry entry) tmp 0 arr_len (replicate arr_len 0, 0)))

  unfoldable pub mapping_entry : ℤ → ℤ → json.Object → Option PortmappingEntry
  mapping_entry stale stale' entry =
      entry_of (retrieve_string_from_json_obj entry (codes "rhost"))
        (retrieve_port_number_from_json_obj stale entry (codes "eport"))
        (retrieve_string_from_json_obj entry (codes "proto"))
        (retrieve_string_from_json_obj entry (codes "iaddr"))
        (retrieve_port_number_from_json_obj stale' entry (codes "iport"))
        (retrieve_unsigned_int_from_json_obj entry (codes "duration"))

  -- `stale i` and `stale' i` are what the two calls of the turn `i` find.
  unfoldable pub retrieve_portmapping_array_from_json_obj :
      (ℕ → ℤ) → (ℕ → ℤ) → json.Object → Bytes → Option (List PortmappingEntry × ℕ)
  retrieve_portmapping_array_from_json_obj stale stale' jobj key = (do
    tmp ← retrieve_json_array_from_json_obj jobj key
    let arr_len = json.array_length tmp in
        some (
          fill (λ i entry. mapping_entry (stale i) (stale' i) entry) tmp 0 arr_len
            (replicate arr_len zero_entry, 0)))

-- `a[i] != b[i] && (b[i] < 91 && a[i] != b[i]+32 || b[i] > 91 && a[i] != b[i]-32)`, of bytes
-- below 128, which a signed char holds. `x != b - 32` is `x + 32 != b`.
unfoldable pub differs : ℕ → ℕ → Bool
differs a b = not (a == b) && (ltb b 91 && not (a == b + 32) || ltb 91 b && not (a + 32 == b))

abbrev pub compare_from : Bytes → Bytes → ℤ
compare_from (x ∷ a) (y ∷ b) = let more = compare_from a b in if differs x y then negsuc 0 else more
compare_from _ _ = pos 0

unfoldable pub cmp_case_insensitive : Bytes → Bytes → ℤ
cmp_case_insensitive a b = if not (length a == length b) then negsuc 0 else compare_from a b
