-- ===== src/CodeLength.antt =====
-- miniupnpd/codelength.h: lengths in groups of seven bits, the first byte the highest. `unsigned` is
-- 32 bits. A pointer is the list of the bytes from it on.
pub mod RoundTrip
mod Tests
use Prim.Native.Nat.{bit_and, bit_or}
use miniupnpd_sdn.Base.{
  ℕ, ◌*◌, ◌/◌, ◌%◌, ◌^◌, Bool, true, false, not, ◌&&◌, List, [], ◌∷◌, ◌++◌, Option, none, some,
  Bytes, ltb, leb, ◌==◌, if◌then◌else◌,
}

-- `if(n >= limit) *(p++) = (n >> shift) | 0x80;`
abbrev pub high_group : ℕ → ℕ → ℕ → Bytes
high_group limit shift n = if leb limit n then bit_or (n / 2 ^ shift) 0x80 % 256 ∷ [] else []

unfoldable pub code_length : ℕ → Bytes
code_length n =
    high_group 268435456 28 n
    ++ (high_group 2097152 21 n
        ++ (high_group 16384 14 n ++ (high_group 128 7 n ++ (bit_and n 0x7f ∷ []))))

abbrev pub add_group : ℕ → ℕ → ℕ
add_group n c = bit_or (n * 2 ^ 7 % 2 ^ 32) (bit_and c 0x7f)

-- `(c & 0x80) && (n < (1 << 25))`
abbrev pub goes_on : ℕ → ℕ → Bool
goes_on c n = not (bit_and c 0x80 == 0) && ltb n (2 ^ 25)

-- DECODELENGTH: none where it reads behind the buffer.
unfoldable pub decode_from : ℕ → Bytes → Option (ℕ × Bytes)
decode_from n [] = none
decode_from n (c ∷ p) =
    let n' = add_group n c in
    let more = decode_from n' p in if goes_on c n' then more else some (n', p)

abbrev pub decode_length : Bytes → Option (ℕ × Bytes)
decode_length p = decode_from 0 p

-- DECODELENGTH_READ leaves by `break` where the byte is the last one; `READ` takes the next byte.
unfoldable pub decode_read_from : ℕ → Bytes → Option (ℕ × Bytes)
decode_read_from n [] = none
decode_read_from n (c ∷ p) =
    let n' = add_group n c in
    let more = decode_read_from n' p in
    if bit_and c 0x80 == 0 then some (n', p) else if ltb n' (2 ^ 25) then more else some (n', p)

-- DECODELENGTH_CHECKLIMIT: the list ends at `p_limit`.
unfoldable pub decode_checked_from : ℕ → Bytes → ℕ × Bytes
decode_checked_from n [] = (n, [])
decode_checked_from n (c ∷ p) =
    let n' = add_group n c in
    let more = decode_checked_from n' p in if goes_on c n' then more else (n', p)

abbrev pub decode_length_checklimit : Bytes → ℕ × Bytes
decode_length_checklimit p = decode_checked_from 0 p
