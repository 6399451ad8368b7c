-- ===== src/Sdn/Json.antt =====
-- What the SDN back end calls of json-c (miniupnpd/json), as parameters. `null` is the null pointer.
use miniupnpd_sdn.Base.{ℕ, Option, Bytes}
use miniupnpd_sdn.Base.Ints.{ℤ}

-- json_type
pub data JsonType : Type 0 where
  type_null type_boolean type_double type_int type_object type_array type_string : JsonType

-- An operation that fails, with an `int` below 0 or with a false result, answers `none`.
pub record JsonC : Type 1 where
  pub Object : Type 0
  pub null : Object
  pub object_get_ex : Object → Bytes → Option Object
  pub get_type : Object → JsonType
  pub get_string : Object → Bytes
  pub get_int : Object → ℤ
  pub get_uint64 : Object → ℕ
  pub array_length : Object → ℕ
  pub array_get_idx : Object → ℕ → Object
  pub new_object : Object
  pub new_string : Bytes → Object
  pub new_int : ℤ → Object
  pub new_uint64 : ℕ → Object
  pub new_array_ext : ℕ → Object
  pub object_add : Object → Bytes → Object → Option Object
  pub array_add : Object → Object → Option Object
  pub to_json_string : Object → Bytes
  pub tokener_parse_ex : Bytes → Object
