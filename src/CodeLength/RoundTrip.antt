-- ===== src/CodeLength/RoundTrip.antt =====
-- miniupnpd/codelength.h: each of the three decoders reads back what CODELENGTH writes.
use Prim.Native.Nat.{bit_and, bit_or}
use miniupnpd_sdn.Base.{
  append_assoc, ℕ, ◌+◌, ◌*◌, ◌/◌, ◌%◌, ◌^◌, ◌<◌, ◌≤◌, ◌≡◌, refl, ap, ◌∙◌, inl, inr, true, [], ◌∷◌,
  ◌++◌, Option, none, some, Bytes, leb, ◌==◌, Bool-cases, arith,
}
use miniupnpd_sdn.Base.Masks.{or_shift, set_top_bit, low_bits, top_bit}
use miniupnpd_sdn.Base.Options.{none-some}
use miniupnpd_sdn.CodeLength.{
  high_group, code_length, add_group, goes_on, decode_from, decode_length, decode_read_from,
  decode_checked_from, decode_length_checklimit,
}

add_group_value : (n c : ℕ) → n < 2 ^ 25 → add_group n c ≡ n * 128 + c % 128
add_group_value n c h =
    let low : n * 2 ^ 7 % 2 ^ 32 ≡ n * 2 ^ 7 = omega arith in
    rw (low, low_bits c) (or_shift 7 n (c % 128) (omega arith))

-- A byte with the top bit adds its group, and the loop goes on.
more_goes_on : (n v : ℕ) → n < 2 ^ 18 → goes_on (128 + v % 128) (n * 128 + v % 128) ≡ true
more_goes_on n v h =
    let top : bit_and (128 + v % 128) 128 ≡ 128 =
      omega (arith, top_bit (128 + v % 128) (omega arith)) in
    rw top (ground arith)

step_on :
    (n v : ℕ) (p : Bytes)
    → n < 2 ^ 18
    → decode_from n (bit_or v 0x80 % 256 ∷ p) ≡ decode_from (n * 128 + v % 128) p
unfolding decode_from
step_on n v p h =
    let group : add_group n (128 + v % 128) ≡ n * 128 + v % 128 =
      add_group_value n (128 + v % 128) (omega arith) ∙ omega arith in
    rw (set_top_bit v, group, more_goes_on n v h) refl

-- The byte without it is the last one.
last_group :
    (n v : ℕ) (p : Bytes)
    → n < 2 ^ 25
    → decode_from n (bit_and v 0x7f ∷ p) ≡ some (n * 128 + v % 128, p)
unfolding decode_from
last_group n v p h =
    let top : bit_and (v % 128) 128 ≡ 0 = omega (arith, top_bit (v % 128) (omega arith)) in
    let group : add_group n (v % 128) ≡ n * 128 + v % 128 =
      add_group_value n (v % 128) h ∙ omega arith in
    rw (low_bits v, group, top) refl

-- A group that is written where the number reaches its limit: read after the groups above it.
read_group :
    (limit shift n m above : ℕ) (p : Bytes)
    → above < 2 ^ 18
    → (limit ≤ n → above * 128 + n / 2 ^ shift % 128 ≡ m)
    → (n < limit → above ≡ m)
    → decode_from above (high_group limit shift n ++ p) ≡ decode_from m p
read_group limit shift n m above p h there not_there = elim (Bool-cases (leb limit n)) [
  | inl e ↦
      rw e
        (step_on above (n / 2 ^ shift) p h ∙ ap (λ (t : ℕ). decode_from t p) (there (ground arith)))
  | inr e ↦ rw e (ap (λ (t : ℕ). decode_from t p) (not_there (ground arith)))
]

code_length_rest :
    (n : ℕ) (p : Bytes)
    → code_length n ++ p
      ≡ high_group 268435456 28 n
        ++ (high_group 2097152 21 n
            ++ (high_group 16384 14 n ++ (high_group 128 7 n ++ (bit_and n 0x7f ∷ p))))
unfolding code_length
code_length_rest n p =
    append_assoc (high_group 268435456 28 n) _ p
    ∙ ap (λ w. high_group 268435456 28 n ++ w)
        (append_assoc (high_group 2097152 21 n) _ p
          ∙ ap (λ w. high_group 2097152 21 n ++ w)
              (append_assoc (high_group 16384 14 n) _ p
                ∙ ap (λ w. high_group 16384 14 n ++ w) (append_assoc (high_group 128 7 n) _ p)))

decode_code : (n : ℕ) (p : Bytes) → n < 2 ^ 32 → decode_length (code_length n ++ p) ≡ some (n, p)
decode_code n p h =
    ap decode_length (code_length_rest n p)
    ∙ read_group 268435456 28 n (n / 2 ^ 28) 0 _ (omega arith) (λ k. omega arith) (λ k. omega arith)
    ∙ read_group 2097152 21 n (n / 2 ^ 21) (n / 2 ^ 28) _ (omega arith) (λ k. omega arith)
        (λ k. omega arith)
    ∙ read_group 16384 14 n (n / 2 ^ 14) (n / 2 ^ 21) _ (omega arith) (λ k. omega arith)
        (λ k. omega arith)
    ∙ read_group 128 7 n (n / 2 ^ 7) (n / 2 ^ 14) _ (omega arith) (λ k. omega arith)
        (λ k. omega arith)
    ∙ last_group (n / 2 ^ 7) n p (omega arith)
    ∙ ap (λ (t : ℕ). some (t, p)) (omega arith)

-- The other two decoders.
read_same : (n : ℕ) (p : Bytes) → decode_read_from n p ≡ decode_from n p
unfolding decode_read_from decode_from
read_same n [] = refl
read_same n (c ∷ p) =
    let rest = read_same (add_group n c) p in
    elim (Bool-cases (bit_and c 0x80 == 0)) [ inl e ↦ rw e refl | inr e ↦ rw (e, rest) refl ]

abbrev or_nothing : ℕ × Bytes → Option (ℕ × Bytes) → ℕ × Bytes
or_nothing d none = d
or_nothing d (some r) = r

checked_same :
    (n : ℕ) (p : Bytes) (r : ℕ × Bytes) → decode_from n p ≡ some r → decode_checked_from n p ≡ r
unfolding decode_checked_from decode_from
checked_same n [] r h = absurd (none-some r h)
checked_same n (c ∷ p) r h = elim (Bool-cases (goes_on c (add_group n c))) [
  | inl e ↦ rw e (checked_same (add_group n c) p r (rw e at h))
  | inr e ↦ rw e (ap (or_nothing r) (rw e at h))
]

-- A length of 32 bits that CODELENGTH writes is read back by each of the three decoders, which stop
-- right behind it.
pub decode_length-code_length :
    (n : ℕ) (p : Bytes)
    → n < 2 ^ 32
    → (decode_length (code_length n ++ p) ≡ some (n, p))
      × (decode_read_from 0 (code_length n ++ p) ≡ some (n, p))
      × (decode_length_checklimit (code_length n ++ p) ≡ (n, p))
decode_length-code_length n p h = (
  decode_code n p h,
  read_same 0 (code_length n ++ p) ∙ decode_code n p h,
  checked_same 0 (code_length n ++ p) (n, p) (decode_code n p h),
)
