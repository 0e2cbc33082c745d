-- ===== src/Binding.antt =====
-- rust/sensorwatch/src/lib.rs: the safe wrapper of the C library, whose functions are a parameter
-- (`Core`). A handle is a number, and what a call leaves behind is the trace of the handles that it
-- acquired and released.
pub mod Codes
pub mod Handles
pub mod Reads
use sensorwatch.Prelude.{
  ℕ, zero, suc, ◌+◌, ◌-◌, ◌/◌, ◌%◌, Bool, true, false, not, ◌&&◌, ◌||◌, Option, none, some, List,
  [], ◌∷◌, ◌++◌, if◌then◌else◌, ltb, leb, ◌==◌, take,
}
use sensorwatch.Prelude.Int.{ℤ, pos, negsuc}
use sensorwatch.Prelude.Text.{Text}
use sensorwatch.Prelude.Words.{u32_mod}
use sensorwatch.Labels.{ReadingType}

-- the constants of rust/sensorwatch-sys/src/bindings.rs
abbrev pub sw_api_version_major : ℕ
sw_api_version_major = 0

abbrev pub sw_api_version_minor : ℕ
sw_api_version_minor = 2

abbrev pub sw_ok : ℤ
sw_ok = pos 0

abbrev pub sw_err_buffer_too_small : ℤ
sw_err_buffer_too_small = negsuc 9

abbrev pub max_string_bytes : ℕ
max_string_bytes = 65_536

abbrev pub eq_ℤ : ℤ → ℤ → Bool
eq_ℤ (pos a) (pos b) = a == b
eq_ℤ (negsuc a) (negsuc b) = a == b
eq_ℤ _ _ = false

-- `ReadingType::from_raw`; the C enumeration may be signed
unfoldable pub from_raw_type : ℤ → ReadingType
from_raw_type (negsuc n) = ReadingType.unknown
from_raw_type (pos raw) =
    if raw == 0
    then ReadingType.nothing
    else if raw == 1
    then ReadingType.temperature
    else if raw == 2
    then ReadingType.voltage
    else if raw == 3
    then ReadingType.fan
    else if raw == 4
    then ReadingType.current
    else if raw == 5
    then ReadingType.power
    else if raw == 6
    then ReadingType.clock
    else if raw == 7
    then ReadingType.usage
    else if raw == 8
    then ReadingType.other
    else ReadingType.unknown

pub data Error : Type 0 where
  null_pointer invalid_argument unsupported_platform source_unavailable map_failed bad_magic : Error
  corrupt_data out_of_memory index_out_of_range buffer_too_small version_mismatch internal : Error
  other : ℤ → Error

pub data Result {ℓ} (A : Type ℓ) : Type ℓ where
  ok : A → Result A
  err : Error → Result A

infixl 5 ◌>>=◌
abbrev pub ◌>>=◌ {ℓ κ} : {A : Type ℓ} {B : Type κ} → Result A → (A → Result B) → Result B
ok a >>= f = f a
err e >>= f = err e

-- `Error::from_code`: the named codes run from -1 to -12
unfoldable pub from_code : ℤ → Option Error
from_code (pos n) = if n == 0 then none else some (other (pos n))
from_code (negsuc n) =
    if n == 0
    then some null_pointer
    else if n == 1
    then some invalid_argument
    else if n == 2
    then some unsupported_platform
    else if n == 3
    then some source_unavailable
    else if n == 4
    then some map_failed
    else if n == 5
    then some bad_magic
    else if n == 6
    then some corrupt_data
    else if n == 7
    then some out_of_memory
    else if n == 8
    then some index_out_of_range
    else if n == 9
    then some buffer_too_small
    else if n == 10
    then some version_mismatch
    else if n == 11
    then some internal
    else some (other (negsuc n))

unfoldable pub code : Error → ℤ
code null_pointer = negsuc 0
code invalid_argument = negsuc 1
code unsupported_platform = negsuc 2
code source_unavailable = negsuc 3
code map_failed = negsuc 4
code bad_magic = negsuc 5
code corrupt_data = negsuc 6
code out_of_memory = negsuc 7
code index_out_of_range = negsuc 8
code buffer_too_small = sw_err_buffer_too_small
code version_mismatch = negsuc 10
code internal = negsuc 11
code (other c) = c

-- `check`
unfoldable pub check : ℤ → Result (Unit {0})
unfolding from_code
check c = elim (from_code c) [ none ↦ ok tt | some e ↦ err e ]

pub record Reading (W : Type 0) : Type 0 where
  pub source : Text
  pub sensor : Text
  pub reading : Text
  pub unit : Text
  pub kind : ReadingType
  pub value : W
  pub minimum : W
  pub maximum : W
  pub average : W

-- what a call of a string accessor returns and leaves in `needed` and in the buffer
pub record Copied : Type 0 where
  pub code : ℤ
  pub needed : ℕ
  pub buffer : List ℕ

-- The snapshot, the index and the capacity, where 0 is the call with a null buffer.
abbrev pub StringAccessor : Type 0
StringAccessor = ℕ → ℕ → ℕ → Copied

-- The functions of the C library, each with the code it returns and its out parameter. An open
-- snapshot is immutable, so its accessors are functions of it.
pub record Core (W : Type 0) : Type 0 where
  pub api_version : ℕ
  pub session_open : ℤ × ℕ
  pub snapshot_take : ℕ → ℤ × ℕ
  pub snapshot_from_buffer : List ℕ → ℤ × ℕ
  pub entry_count : ℕ → ℤ × ℕ
  pub reading_type : ℕ → ℕ → ℤ × ℤ
  pub value : ℕ → ℕ → ℤ × W
  pub minimum : ℕ → ℕ → ℤ × W
  pub maximum : ℕ → ℕ → ℤ × W
  pub average : ℕ → ℕ → ℤ × W
  pub source_name : StringAccessor
  pub sensor_name : StringAccessor
  pub reading_name : StringAccessor
  pub unit : StringAccessor

-- `String::from_utf8`, where `none` is an error
pub record Utf8 : Type 0 where
  pub from_utf8 : List ℕ → Option Text

pub record Snapshot : Type 0 where
  pub ptr : ℕ
  pub len : ℕ
  pub source : Text

pub data Handle : Type 0 where
  session_handle snapshot_handle : ℕ → Handle

pub data Call : Type 0 where
  acquired released : Handle → Call

-- a result with the handles that were acquired and released on the way to it
abbrev pub Traced : Type 0 → Type 0
Traced A = Result A × List Call

-- `major >= 1` or the minor version is the one the crate was built against
unfoldable pub check_abi_compatibility : ℕ → Result (Unit {0})
check_abi_compatibility runtime =
    let major = runtime / 10_000 in
    let minor = (runtime / 100) % 100 in
    if (major == sw_api_version_major) && (leb 1 major || (minor == sw_api_version_minor))
    then ok tt
    else err version_mismatch

module _ {W : Type 0} ⦃u : Utf8⦄ (core : Core W) where
  abbrev decoded : Option Text → Result Text
  decoded none = err corrupt_data
  decoded (some s) = ok s

  -- the second call, into a buffer of `needed` bytes
  unfoldable pub copy_string : StringAccessor → ℕ → ℕ → ℕ → Result Text
  unfolding check
  copy_string accessor snapshot index needed =
      let copied = accessor snapshot index needed in
      check copied.code >>= λ _. decoded (u.from_utf8 (take (copied.needed - 1) copied.buffer))

  unfoldable pub query_string : StringAccessor → ℕ → ℕ → Result Text
  unfolding check copy_string
  query_string accessor snapshot index =
      let asked = accessor snapshot index 0 in
      if not (eq_ℤ asked.code sw_err_buffer_too_small)
      then (check asked.code >>= λ _. err internal)
      else if (asked.needed == 0) || ltb max_string_bytes asked.needed
      then err corrupt_data
      else copy_string accessor snapshot index asked.needed

  -- `Snapshot::from_raw`, which frees the snapshot where it fails
  abbrev pub adopt : ℕ → ℕ → Result Text → Traced Snapshot
  adopt ptr count (ok source) = (ok (record { ptr = ptr; len = count; source = source }), [])
  adopt ptr count (err e) = (err e, released (snapshot_handle ptr) ∷ [])

  unfoldable pub from_raw : ℕ → Traced Snapshot
  unfolding from_code query_string
  from_raw ptr =
      let (c, count) = core.entry_count ptr in
      elim (from_code c) [
        | some e ↦ (err e, released (snapshot_handle ptr) ∷ [])
        | none ↦
            adopt ptr count (if ltb 0 count then query_string core.source_name ptr 0 else ok [])
      ]

  -- the snapshot that a call has handed over, if it succeeded
  abbrev pub owned_snapshot : Result (Unit {0}) → ℕ → Traced Snapshot
  owned_snapshot (err e) ptr = (err e, [])
  owned_snapshot (ok _) ptr =
      let (r, calls) = from_raw ptr in (r, acquired (snapshot_handle ptr) ∷ calls)

  unfoldable pub from_buffer : List ℕ → Traced Snapshot
  unfolding check from_raw
  from_buffer buf = let (c, ptr) = core.snapshot_from_buffer buf in owned_snapshot (check c) ptr

  -- `Session::snapshot`
  unfoldable pub take_snapshot : ℕ → Traced Snapshot
  unfolding check from_raw
  take_snapshot handle = let (c, ptr) = core.snapshot_take handle in owned_snapshot (check c) ptr

  abbrev owned_session : Result (Unit {0}) → ℕ → Traced ℕ
  owned_session (err e) ptr = (err e, [])
  owned_session (ok _) ptr = (ok ptr, acquired (session_handle ptr) ∷ [])

  abbrev open_session : Result (Unit {0}) → ℤ × ℕ → Traced ℕ
  open_session (err e) opened = (err e, [])
  open_session (ok _) (c, ptr) = owned_session (check c) ptr

  -- `Session::new`
  unfoldable pub new_session : Traced ℕ
  unfolding check_abi_compatibility check
  new_session = open_session (check_abi_compatibility core.api_version) core.session_open

  -- `Snapshot::scalar`
  unfoldable pub scalar : ℤ × W → Result W
  unfolding check
  scalar (c, out) = check c >>= λ _. ok out

  unfoldable pub build_reading : Snapshot → ℕ → Result (Reading W)
  unfolding check scalar query_string
  build_reading s index =
      let (c, raw_type) = core.reading_type s.ptr index in
      do
        _ ← check c
        value ← scalar (core.value s.ptr index)
        minimum ← scalar (core.minimum s.ptr index)
        maximum ← scalar (core.maximum s.ptr index)
        average ← scalar (core.average s.ptr index)
        sensor ← query_string core.sensor_name s.ptr index
        reading ← query_string core.reading_name s.ptr index
        unit ← query_string core.unit s.ptr index
        ok record {
          source = s.source;
          sensor = sensor;
          reading = reading;
          unit = unit;
          kind = from_raw_type raw_type;
          value = value;
          minimum = minimum;
          maximum = maximum;
          average = average;
        }

  -- `Snapshot::get`
  unfoldable pub get : Snapshot → ℕ → Result (Reading W)
  unfolding build_reading
  get s index = if ltb index u32_mod then build_reading s index else err index_out_of_range

  -- `Readings::next` with `index` items behind it and `left` to go, collected up to the first error
  unfoldable pub collect : Snapshot → ℕ → ℕ → Result (List (Reading W))
  unfolding build_reading
  collect s index zero = ok []
  collect s index (suc left) = do
    r ← build_reading s index
    rs ← collect s (index + 1) left
    ok (r ∷ rs)

  unfoldable pub to_vec : Snapshot → Result (List (Reading W))
  unfolding collect
  to_vec s = collect s 0 s.len

  -- logger.rs, `collect_live`: the locals are dropped in reverse order
  abbrev pub read_out : Traced Snapshot → Traced (List (Reading W))
  read_out (err e, calls) = (err e, calls)
  read_out (ok s, calls) = (to_vec s, calls ++ (released (snapshot_handle s.ptr) ∷ []))

  abbrev pub with_session : Traced ℕ → Traced (List (Reading W))
  with_session (err e, calls) = (err e, calls)
  with_session (ok handle, calls) =
      let (r, inner) = read_out (take_snapshot handle) in
      (r, calls ++ inner ++ (released (session_handle handle) ∷ []))

  unfoldable pub collect_live : Traced (List (Reading W))
  unfolding new_session take_snapshot to_vec
  collect_live = with_session new_session
