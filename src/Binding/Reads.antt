-- ===== src/Binding/Reads.antt =====
-- rust/sensorwatch/src/lib.rs: what is read under the contract of the C library.
use sensorwatch.Prelude.{
  ℕ, ◌+◌, ◌-◌, ◌≤◌, ◌≡◌, ap, refl, true, false, some, List, [], ◌∷◌, ◌++◌, arith, ltb, ◌==◌, take,
  length, map,
}
use sensorwatch.Prelude.Int.{ℤ}
use sensorwatch.Prelude.Text.{Text}
use sensorwatch.Binding.{
  acquired, snapshot_handle, Core, Utf8, Reading, Snapshot, StringAccessor, ok, check, from_code,
  code, index_out_of_range, sw_ok, sw_err_buffer_too_small, max_string_bytes, copy_string,
  query_string, scalar, from_raw_type, build_reading, collect, to_vec, from_raw, take_snapshot,
  new_session, check_abi_compatibility, collect_live,
}

-- a string of the library, as its bytes without the final NUL, and the text that they encode
pub record Name : Type 0 where
  pub bytes : List ℕ
  pub chars : Text

pub record Entry (W : Type 0) : Type 0 where
  pub sensor : Name
  pub reading : Name
  pub unit : Name
  pub raw_type : ℤ
  pub value : W
  pub minimum : W
  pub maximum : W
  pub average : W

-- the documented contract of a string accessor: a length query, then a copy with the final NUL
abbrev pub Tells : ⦃u : Utf8⦄ → StringAccessor → ℕ → ℕ → Name → Type 0
Tells ⦃u⦄ accessor ptr index n =
    let size = length n.bytes + 1 in
    (u.from_utf8 n.bytes ≡ some n.chars)
    × (size ≤ max_string_bytes)
    × ((accessor ptr index 0).code ≡ sw_err_buffer_too_small)
    × ((accessor ptr index 0).needed ≡ size)
    × ((accessor ptr index size).code ≡ sw_ok)
    × ((accessor ptr index size).needed ≡ size)
    × ((accessor ptr index size).buffer ≡ n.bytes ++ (0 ∷ []))

take-length_append : {A : Type 0} (xs ys : List A) → take (length xs) (xs ++ ys) ≡ xs
take-length_append [] ys = refl
take-length_append (x ∷ xs) ys = ap (λ zs. x ∷ zs) (take-length_append xs ys)

abbrev first : {A B : Type 0} → A × B → A
first p = p.0

abbrev second : {A B : Type 0} → A × B → B
second p = p.1

module _ {W : Type 0} ⦃u : Utf8⦄ (core : Core W) where
  query_string-Tells :
      (accessor : StringAccessor) (ptr index : ℕ) (n : Name)
      → Tells accessor ptr index n
      → query_string core accessor ptr index ≡ ok n.chars
  unfolding query_string copy_string check from_code
  query_string-Tells accessor ptr index n (decodes, small, c0, n0, c1, n1, b1) =
      let size_sub : length n.bytes + 1 - 1 ≡ length n.bytes = omega arith in
      let nonzero : (length n.bytes + 1 == 0) ≡ false = ground arith in
      let bounded : ltb max_string_bytes (length n.bytes + 1) ≡ false = ground arith in
      rw
        (
          c0,
          n0,
          nonzero,
          bounded,
          copy_string,
          c1,
          n1,
          b1,
          size_sub,
          take-length_append n.bytes (0 ∷ []),
          decodes,
        )
        refl

  -- what the accessors tell of one entry
  abbrev pub Describes : ℕ → ℕ → Entry W → Type 0
  Describes ptr i e =
      ((core.reading_type ptr i) ≡ (sw_ok, e.raw_type))
      × (core.value ptr i ≡ (sw_ok, e.value))
      × (core.minimum ptr i ≡ (sw_ok, e.minimum))
      × (core.maximum ptr i ≡ (sw_ok, e.maximum))
      × (core.average ptr i ≡ (sw_ok, e.average))
      × Tells core.sensor_name ptr i e.sensor
      × Tells core.reading_name ptr i e.reading
      × Tells core.unit ptr i e.unit

  -- and of the entries from an index on
  abbrev pub DescribesAll : ℕ → ℕ → List (Entry W) → Type 0
  DescribesAll ptr i [] = Unit
  DescribesAll ptr i (e ∷ es) = Describes ptr i e × DescribesAll ptr (i + 1) es

  -- The name of the source is asked for at the first entry, and that index is out of range where there
  -- are none.
  abbrev pub TellsSource : ℕ → Name → List (Entry W) → Type 0
  TellsSource ptr source [] =
      (capacity : ℕ) → (core.source_name ptr 0 capacity).code ≡ code index_out_of_range
  TellsSource ptr source (e ∷ es) = Tells core.source_name ptr 0 source

  -- an open session over a source with these entries
  abbrev pub Serves : ℕ → ℕ → Name → List (Entry W) → Type 0
  Serves handle ptr source entries =
      (check_abi_compatibility core.api_version ≡ ok tt)
      × (core.session_open ≡ (sw_ok, handle))
      × (core.snapshot_take handle ≡ (sw_ok, ptr))
      × (core.entry_count ptr ≡ (sw_ok, length entries))
      × TellsSource ptr source entries
      × DescribesAll ptr 0 entries

  abbrev pub reading_of : Text → Entry W → Reading W
  reading_of source e = record {
    source = source;
    sensor = e.sensor.chars;
    reading = e.reading.chars;
    unit = e.unit.chars;
    kind = from_raw_type e.raw_type;
    value = e.value;
    minimum = e.minimum;
    maximum = e.maximum;
    average = e.average;
  }

  build_reading-Describes :
      (s : Snapshot) (i : ℕ) (e : Entry W)
      → Describes s.ptr i e
      → build_reading core s i ≡ ok (reading_of s.source e)
  unfolding build_reading scalar check from_code
  build_reading-Describes s i e (t, v, lo, hi, av, sn, rn, un) =
      rw
        (
          t,
          v,
          lo,
          hi,
          av,
          query_string-Tells core.sensor_name s.ptr i e.sensor sn,
          query_string-Tells core.reading_name s.ptr i e.reading rn,
          query_string-Tells core.unit s.ptr i e.unit un,
        )
        refl

  collect-DescribesAll :
      (s : Snapshot) (i : ℕ) (es : List (Entry W))
      → DescribesAll s.ptr i es
      → collect core s i (length es) ≡ ok (map (reading_of s.source) es)
  unfolding collect
  collect-DescribesAll s i [] h = refl
  collect-DescribesAll s i (e ∷ es) (h, hs) =
      rw (build_reading-Describes s i e h, collect-DescribesAll s (i + 1) es hs) refl

  snapshot_of : ℕ → Name → List (Entry W) → Snapshot
  snapshot_of ptr source [] = record { ptr = ptr; len = 0; source = [] }
  snapshot_of ptr source (e ∷ es) = record {
    ptr = ptr;
    len = length (e ∷ es);
    source = source.chars;
  }

  from_raw-Tells :
      (ptr : ℕ) (source : Name) (entries : List (Entry W))
      → core.entry_count ptr ≡ (sw_ok, length entries)
      → TellsSource ptr source entries
      → from_raw core ptr ≡ (ok (snapshot_of ptr source entries), [])
  unfolding from_raw from_code snapshot_of
  from_raw-Tells ptr source [] c t = rw (from_raw, ap first c, ap second c) refl
  from_raw-Tells ptr source (e ∷ es) c t =
      let some_left : ltb 0 (length (e ∷ es)) ≡ true = ground arith in
      rw
        (
          from_raw,
          ap first c,
          ap second c,
          some_left,
          query_string-Tells core.source_name ptr 0 source t,
        )
        refl

  to_vec-DescribesAll :
      (ptr : ℕ) (source : Name) (entries : List (Entry W))
      → DescribesAll ptr 0 entries
      → to_vec core (snapshot_of ptr source entries) ≡ ok (map (reading_of source.chars) entries)
  unfolding to_vec snapshot_of collect
  to_vec-DescribesAll ptr source [] d = refl
  to_vec-DescribesAll ptr source (e ∷ es) d =
      collect-DescribesAll (snapshot_of ptr source (e ∷ es)) 0 (e ∷ es) d

  take_snapshot-Serves :
      (handle ptr : ℕ) (source : Name) (entries : List (Entry W))
      → Serves handle ptr source entries
      → (take_snapshot core handle)
        ≡ (ok (snapshot_of ptr source entries), acquired (snapshot_handle ptr) ∷ [])
  unfolding take_snapshot check from_code
  take_snapshot-Serves handle ptr source entries (a, o, t, c, n, d) =
      rw (t, from_raw-Tells ptr source entries c n) refl

  -- When the library is compatible and keeps its documented contract, a poll gives the reading of every
  -- entry of the source, in order, with its texts decoded and its category folded, and none for a source
  -- without entries, whose name cannot be asked for.
  pub collect_live-reads :
      (handle ptr : ℕ) (source : Name) (entries : List (Entry W))
      → Serves handle ptr source entries
      → (collect_live core).0 ≡ ok (map (reading_of source.chars) entries)
  unfolding collect_live new_session check from_code
  collect_live-reads handle ptr source entries h =
      let (a, o, t, c, n, d) = h in
      rw (new_session, a, ap first o, ap second o, take_snapshot-Serves handle ptr source entries h)
        (to_vec-DescribesAll ptr source entries d)
