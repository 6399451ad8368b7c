-- ===== src/CodeLength/Tests.antt =====
-- A length of two groups.
use miniupnpd_sdn.Base.{◌≡◌, refl, [], ◌∷◌, ◌++◌, some, arith}
use miniupnpd_sdn.CodeLength.{
  code_length, decode_length, decode_read_from, decode_length_checklimit,
}
use miniupnpd_sdn.CodeLength.RoundTrip.{decode_length-code_length}

code_length_300 : code_length 300 ≡ 130 ∷ 44 ∷ []
unfolding code_length
code_length_300 = refl

decode_length-code_length_example :
    (decode_length (code_length 300 ++ (7 ∷ [])) ≡ some (300, 7 ∷ []))
    × (decode_read_from 0 (code_length 300 ++ (7 ∷ [])) ≡ some (300, 7 ∷ []))
    × (decode_length_checklimit (code_length 300 ++ (7 ∷ [])) ≡ (300, 7 ∷ []))
decode_length-code_length_example = decode_length-code_length 300 (7 ∷ []) (omega arith)
