-- ===== src/Sdn/Fields/Ports.antt =====
-- miniupnpd/sdn/iptcrdr.c: the loops that fill an array from a JSON array keep the good entries, in
-- order, and never write behind the array.
use miniupnpd_sdn.Base.{
  append_assoc, ℕ, zero, suc, ◌+◌, ◌≤◌, ◌<◌, ◌≡◌, ◌≢◌, ◌⊎◌, inl, inr, refl, ap, ◌∙◌, List, [], ◌∷◌,
  ◌++◌, Option, none, some, Bytes, length, take, set, replicate, length-set, length-replicate,
  arith,
}
use miniupnpd_sdn.Base.Ints.{pos}
use miniupnpd_sdn.Sdn.Json.{JsonC, type_int}
use miniupnpd_sdn.Sdn.Fields.PortRead.{NoPort, is_int-cases, ushort-cases}
use miniupnpd_sdn.Sdn.Fields.{
  fill, store, port_entry, retrieve_json_array_from_json_obj,
  retrieve_port_number_array_from_json_obj,
}

take-set_next :
    {A : Type 0} (xs : List A) (i : ℕ) (v : A)
    → i < length xs
    → take (suc i) (set xs i v) ≡ take i xs ++ (v ∷ [])
take-set_next [] i v h = absurd (omega arith)
take-set_next (x ∷ xs) zero v h = refl
take-set_next (x ∷ xs) (suc i) v h = ap (λ t. x ∷ t) (take-set_next xs i v (omega arith))

append_nil : {A : Type 0} (xs : List A) → xs ≡ xs ++ []
append_nil [] = refl
append_nil (x ∷ xs) = ap (λ t. x ∷ t) (append_nil xs)

-- Put in front where there is one.
abbrev pub cons_some : {A : Type 0} → Option A → List A → List A
cons_some none xs = xs
cons_some (some a) xs = a ∷ xs

module _ (json : JsonC) where
  -- What `read` accepts of the `n` entries from `i` on.
  abbrev pub accepted : {A : Type 0} → (ℕ → json.Object → Option A) → json.Object → ℕ → ℕ → List A
  accepted read tmp i zero = []
  accepted read tmp i (suc n) =
      cons_some (read i (json.array_get_idx tmp i)) (accepted read tmp (suc i) n)

  -- The array keeps its length, and its part up to the index is the old one and what was accepted.
  record IsFilled {A : Type 0} (before : List A) (index : ℕ) (kept : List A) (s : List A × ℕ)
      : Type 0 where
    pub size : length s.0 ≡ length before
    pub index_is : s.1 ≡ index + length kept
    pub index_fits : s.1 ≤ length s.0
    pub front : take s.1 s.0 ≡ take index before ++ kept

  -- From the rest of the loop, one more entry.
  fill-step :
      {A : Type 0} (read : ℕ → json.Object → Option A) (tmp : json.Object) (n i : ℕ) (xs : List A)
      (k : ℕ) (o : Option A)
      → ((ys : List A) (l : ℕ)
          → l + n ≤ length ys
          → IsFilled ys l (accepted read tmp (suc i) n) (fill json read tmp (suc i) n (ys, l)))
      → k + suc n ≤ length xs
      → IsFilled xs k
          (cons_some o (accepted read tmp (suc i) n))
          (fill json read tmp (suc i) n (store o (xs, k)))
  fill-step read tmp n i xs k none rest h = rest xs k (omega arith)
  fill-step read tmp n i xs k (some a) rest h =
      let more = rest (set xs k a) (suc k) (omega (arith, length-set xs k a)) in
      record {
        size = more.size ∙ length-set xs k a;
        index_is = omega (arith, more.index_is);
        index_fits = more.index_fits;
        front =
            more.front
            ∙ ap (λ t. t ++ accepted read tmp (suc i) n) (take-set_next xs k a (omega arith))
            ∙ append_assoc (take k xs) (a ∷ []) (accepted read tmp (suc i) n);
      }

  fill-accepted :
      {A : Type 0} (read : ℕ → json.Object → Option A) (tmp : json.Object) (n i : ℕ) (xs : List A)
      (k : ℕ)
      → k + n ≤ length xs
      → IsFilled xs k (accepted read tmp i n) (fill json read tmp i n (xs, k))
  fill-accepted read tmp zero i xs k h = record {
    size = refl;
    index_is = omega arith;
    index_fits = omega arith;
    front = append_nil (take k xs);
  }
  fill-accepted read tmp (suc n) i xs k h =
      fill-step read tmp n i xs k (read i (json.array_get_idx tmp i))
        (λ ys l e. fill-accepted read tmp n (suc i) ys l e) h

  -- Of an array's slots the index counts the ones in use, which hold what was accepted in order.
  pub record Holds {A : Type 0} (kept : List A) (s : List A × ℕ) : Type 0 where
    pub count_is : s.1 ≡ length kept
    pub count_fits : s.1 ≤ length s.0
    pub used : take s.1 s.0 ≡ kept

  IsFilled-Holds :
      {A : Type 0} (xs kept : List A) (s : List A × ℕ) → IsFilled xs 0 kept s → Holds kept s
  IsFilled-Holds xs kept s f = record {
    count_is = omega (arith, f.index_is);
    count_fits = f.index_fits;
    used = f.front;
  }

  -- The array that calloc clears has room for all.
  pub fill-Holds :
      {A : Type 0} (read : ℕ → json.Object → Option A) (tmp : json.Object) (a : A)
      → Holds
          (accepted read tmp 0 (json.array_length tmp))
          (fill json read tmp 0 (json.array_length tmp) (replicate (json.array_length tmp) a, 0))
  fill-Holds read tmp a =
      let n = json.array_length tmp in
      IsFilled-Holds (replicate n a) (accepted read tmp 0 n)
        (fill json read tmp 0 n (replicate n a, 0))
        (fill-accepted read tmp n 0 (replicate n a) 0 (omega (arith, length-replicate n a)))

  -- An integer from 0 to 65535.
  abbrev pub IsPort : json.Object → ℕ → Type 0
  IsPort v port = (json.get_type v ≡ type_int) × (json.get_int v ≡ pos port) × (port < 65536)

  -- It is none: something else, or out of that range.
  abbrev pub IsNone : json.Object → Type 0
  IsNone v = (json.get_type v ≢ type_int) ⊎ NoPort (json.get_int v)

  -- The ports among the `n` entries from `i` on, in order.
  pub data KeptPorts (tmp : json.Object) : ℕ → ℕ → List ℕ → Type 0 where
    at_end : (i : ℕ) → KeptPorts tmp i 0 []
    kept :
        (i n port : ℕ) (ports : List ℕ)
        → IsPort (json.array_get_idx tmp i) port
        → KeptPorts tmp (suc i) n ports
        → KeptPorts tmp i (suc n) (port ∷ ports)
    skipped :
        (i n : ℕ) (ports : List ℕ)
        → IsNone (json.array_get_idx tmp i)
        → KeptPorts tmp (suc i) n ports
        → KeptPorts tmp i (suc n) ports

  port_entry-cases :
      (v : json.Object)
      → ((port : ℕ) × (port_entry json v ≡ some port) × IsPort v port)
        ⊎ ((port_entry json v ≡ none) × IsNone v)
  unfolding port_entry
  port_entry-cases v = elim (is_int-cases (json.get_type v)) [
    | inr (i, t) ↦ inr (rw i refl, inl t)
    | inl (i, t) ↦ elim (ushort-cases (json.get_int v)) [
      | inl (n, e, valid, same, lt) ↦ inl (n, rw (i, valid, same) refl, (t, e, lt))
      | inr (valid, none_there) ↦ inr (rw (i, valid) refl, inr none_there)
    ]
  ]

  accepted-KeptPorts :
      (tmp : json.Object) (i n : ℕ)
      → KeptPorts tmp i n (accepted (λ i entry. port_entry json entry) tmp i n)
  accepted-KeptPorts tmp i zero = at_end i
  accepted-KeptPorts tmp i (suc n) =
      let rest = accepted-KeptPorts tmp (suc i) n in
      elim (port_entry-cases (json.array_get_idx tmp i)) [
        | inl (port, e, is) ↦ rw e (kept i n port _ is rest)
        | inr (e, none_there) ↦ rw e (skipped i n _ none_there rest)
      ]

  -- With the JSON array at hand the reader succeeds, and the part in use of the array that it returns
  -- holds the entries that are integers from 0 to 65535, all of them and in order; it has room for them.
  pub retrieve_port_number_array_from_json_obj-KeptPorts :
      (jobj tmp : json.Object) (key : Bytes)
      → retrieve_json_array_from_json_obj json jobj key ≡ some tmp
      → (s : List ℕ × ℕ) × (retrieve_port_number_array_from_json_obj json jobj key ≡ some s)
        × KeptPorts tmp 0 (json.array_length tmp) (take s.1 s.0)
        × (s.1 ≤ length s.0)
  unfolding retrieve_port_number_array_from_json_obj
  retrieve_port_number_array_from_json_obj-KeptPorts jobj tmp key h =
      let holds = fill-Holds (λ i entry. port_entry json entry) tmp 0 in
      (
        _,
        rw h refl,
        rw holds.used (accepted-KeptPorts tmp 0 (json.array_length tmp)),
        holds.count_fits,
      )
