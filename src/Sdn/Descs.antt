-- ===== src/Sdn/Descs.antt =====
-- miniupnpd/sdn/iptcrdr.c: the list of descriptions `rdr_desc_list`, head first.
pub mod Newest
use miniupnpd_sdn.Base.{
  ℕ, zero, suc, ◌+◌, ◌≡◌, ◌≢◌, refl, ap, ◌⊎◌, inl, inr, Bool, true, false, not, ◌&&◌, ◌||◌, List,
  [], ◌∷◌, ◌++◌, Option, none, some, Bytes, codes, ltb, leb, ◌==◌, if◌then◌else◌, length, take,
  drop, replicate, Bool-cases, arith,
}
use miniupnpd_sdn.Base.Ints.{ℤ, pos, negsuc, int_eq}

pub record RdrDesc : Type 0 where
  pub timestamp : ℕ
  pub eport : ℕ
  pub proto : ℤ
  pub str : Bytes

-- `strncpy(dst, src, n)` into a buffer: the copy is cut at `n` and filled up to `n` with zeros.
unfoldable pub strncpy : Bytes → Bytes → ℕ → Bytes
strncpy dst src n = take n (src ++ replicate n 0) ++ drop n dst

abbrev pub or_default : Option Bytes → Bytes
or_default none = codes "miniupnpd"
or_default (some desc) = desc

-- `malloc` is whether the allocation succeeds. The protocols are small numbers, which a short holds.
unfoldable pub add_redirect_desc : Bool → List RdrDesc → ℕ → ℤ → Option Bytes → ℕ → List RdrDesc
add_redirect_desc malloc list eport proto desc timestamp =
    if malloc
    then (record { timestamp = timestamp; eport = eport; proto = proto; str = or_default desc }
        ∷ list)
    else list

abbrev pub is_at : ℕ → ℤ → RdrDesc → Bool
is_at eport proto p = p.eport == eport && int_eq p.proto proto

unfoldable pub del_redirect_desc : List RdrDesc → ℕ → ℤ → List RdrDesc
del_redirect_desc [] eport proto = []
del_redirect_desc (p ∷ list) eport proto =
    let rest = del_redirect_desc list eport proto in if is_at eport proto p then list else p ∷ rest

-- What is written to `desc` and `timestamp`, both given.
unfoldable pub get_redirect_desc : List RdrDesc → ℕ → ℤ → Bytes → ℕ → Bytes × ℕ
get_redirect_desc [] eport proto desc desclen = (strncpy desc (codes "miniupnpd") desclen, 0)
get_redirect_desc (p ∷ list) eport proto desc desclen =
    let rest = get_redirect_desc list eport proto desc desclen in
    if is_at eport proto p then (strncpy desc p.str desclen, p.timestamp) else rest
