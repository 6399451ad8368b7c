-- ===== src/Sdn/Fields/PortRead.antt =====
-- miniupnpd/sdn/iptcrdr.c: the ports that retrievePortNumberFromJsonObj reads in the fields of an object.
use miniupnpd_sdn.Base.{
  ℕ, ◌%◌, ◌<◌, ◌≡◌, ◌≢◌, ◌⊎◌, refl, ap, inl, inr, true, false, Option, none, some, Bytes,
  if◌then◌else◌, leb, Bool-cases, Option-cases, arith,
}
use miniupnpd_sdn.Base.Ints.{ℤ, pos, negsuc, isvalid_ushort, to_ushort}
use miniupnpd_sdn.Base.Options.{none-some}
use miniupnpd_sdn.Sdn.Json.{
  JsonC, JsonType, type_null, type_boolean, type_double, type_int, type_object, type_array,
  type_string,
}
use miniupnpd_sdn.Sdn.Fields.{
  is_int, port_of_int, retrieve_int_from_json_obj, retrieve_port_number_from_json_obj,
}

pub is_int-cases :
    (t : JsonType) → ((is_int t ≡ true) × (t ≡ type_int)) ⊎ ((is_int t ≡ false) × (t ≢ type_int))
is_int-cases type_int = inl (refl, refl)
is_int-cases type_null = inr (refl, λ e. cc)
is_int-cases type_boolean = inr (refl, λ e. cc)
is_int-cases type_double = inr (refl, λ e. cc)
is_int-cases type_object = inr (refl, λ e. cc)
is_int-cases type_array = inr (refl, λ e. cc)
is_int-cases type_string = inr (refl, λ e. cc)

-- The numbers that are no ports.
pub data NoPort : ℤ → Type 0 where
  below : (n : ℕ) → NoPort (negsuc n)
  above : (n : ℕ) → 65535 < n → NoPort (pos n)

invalid-NoPort : (x : ℤ) → isvalid_ushort x ≡ false → NoPort x
unfolding isvalid_ushort
invalid-NoPort (pos n) e = above n (ground arith)
invalid-NoPort (negsuc n) e = below n

-- A valid one is not cut.
pub ushort-cases :
    (x : ℤ)
    → ((n : ℕ) × (x ≡ pos n) × (isvalid_ushort x ≡ true) × (to_ushort x ≡ n) × (n < 65536))
      ⊎ ((isvalid_ushort x ≡ false) × NoPort x)
unfolding isvalid_ushort to_ushort
ushort-cases (negsuc n) = inr (refl, below n)
ushort-cases (pos n) = elim (Bool-cases (leb n 65535)) [
  | inl e ↦ inl (n, refl, e, ground arith, ground arith)
  | inr e ↦ inr (e, above n (ground arith))
]

abbrev or_zero : Option ℕ → ℕ
or_zero none = 0
or_zero (some n) = n

module _ (json : JsonC) (stale : ℤ) (jobj : json.Object) (key : Bytes) where
  -- The field is there, and is this integer.
  abbrev pub HasInt : ℤ → Type 0
  HasInt x =
      (v : json.Object) × (json.object_get_ex jobj key ≡ some v)
      × (json.get_type v ≡ type_int)
      × (json.get_int v ≡ x)

  -- There is no field, or it is no integer.
  abbrev pub NoInt : Type 0
  NoInt =
      (json.object_get_ex jobj key ≡ none)
      ⊎ ((v : json.Object) × (json.object_get_ex jobj key ≡ some v) × (json.get_type v ≢ type_int))

  -- The field's number where it is a port; else the number, or the variable's old value, in 16 bits.
  pub data PortRead : ℕ → Type 0 where
    number : (n : ℕ) → HasInt (pos n) → n < 65536 → PortRead n
    cut : (x : ℤ) → HasInt x → NoPort x → PortRead (to_ushort x)
    stale_cut : NoInt → NoPort stale → PortRead (to_ushort stale)

  int-cases :
      ((x : ℤ) × (retrieve_int_from_json_obj json jobj key ≡ some x) × HasInt x)
      ⊎ ((retrieve_int_from_json_obj json jobj key ≡ none) × NoInt)
  unfolding retrieve_int_from_json_obj
  int-cases = elim (Option-cases (json.object_get_ex jobj key)) [
    | inl e ↦ inr (rw e refl, inl e)
    | inr (v, e) ↦ elim (is_int-cases (json.get_type v)) [
      | inl (i, t) ↦ inl (json.get_int v, rw (e, i) refl, (v, e, t, refl))
      | inr (i, t) ↦ inr (rw (e, i) refl, inr (v, e, t))
    ]
  ]

  of_int : (x : ℤ) → HasInt x → PortRead (to_ushort x)
  unfolding to_ushort
  of_int (negsuc n) h = cut (negsuc n) h (below n)
  of_int (pos n) h = elim (Bool-cases (leb n 65535)) [
    | inl e ↦ let same : n % 65536 ≡ n = ground arith in rw same (number n h (ground arith))
    | inr e ↦ cut (pos n) h (above n (ground arith))
  ]

  of_stale :
      (port : ℕ)
      → NoInt
      → (if isvalid_ushort stale then none else some (to_ushort stale)) ≡ some port
      → PortRead port
  of_stale port none_there h = elim (Bool-cases (isvalid_ushort stale)) [
    | inl e ↦ absurd (none-some port (rw e at h))
    | inr e ↦
        let same : to_ushort stale ≡ port = ap or_zero (rw e at h) in
        rw same at (stale_cut none_there (invalid-NoPort stale e))
  ]

  -- A port that the reader gives is the field's, or one that is cut.
  pub retrieve_port_number-PortRead :
      (port : ℕ)
      → retrieve_port_number_from_json_obj json stale jobj key ≡ some port
      → PortRead port
  unfolding retrieve_port_number_from_json_obj port_of_int
  retrieve_port_number-PortRead port h = elim int-cases [
    | inl (x, e, there) ↦
        let same : to_ushort x ≡ port = ap or_zero (rw e at h) in rw same at (of_int x there)
    | inr (e, none_there) ↦ of_stale port none_there (rw e at h)
  ]
