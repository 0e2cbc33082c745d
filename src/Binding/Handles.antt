-- ===== src/Binding/Handles.antt =====
-- rust/sensorwatch/src/lib.rs: every handle is released once.
use sensorwatch.Prelude.{
  ℕ, ◌≡◌, ◌⊎◌, ◌∙◌, ap, ltb, refl, Bool, true, false, Option, none, some, List, [], ◌∷◌, ◌++◌, inl,
  inr, arith, Option-cases, if◌then◌else◌, ◌==◌,
}
use mathlib.Core.Option.{some-injective}
use sensorwatch.Binding.{
  Core, Utf8, Error, Result, query_string, Handle, Call, Snapshot, ok, err, acquired, released,
  session_handle, snapshot_handle, from_code, from_raw, owned_snapshot, take_snapshot, from_buffer,
  check, new_session, collect_live, check_abi_compatibility,
}

abbrev pub same_handle : Handle → Handle → Bool
same_handle (session_handle a) (session_handle b) = a == b
same_handle (snapshot_handle a) (snapshot_handle b) = a == b
same_handle _ _ = false

-- The handles held after the calls, the latest first. It is an error to release another than that.
unfoldable pub held_after : List Handle → List Call → Option (List Handle)
held_after held [] = some held
held_after held (acquired h ∷ calls) = held_after (h ∷ held) calls
held_after [] (released h ∷ calls) = none
held_after (g ∷ held) (released h ∷ calls) =
    let rest = held_after held calls in if same_handle g h then rest else none

same_handle_self : (h : Handle) → same_handle h h ≡ true
same_handle_self (session_handle n) = ground arith
same_handle_self (snapshot_handle n) = ground arith

-- Calls that give back all that they acquired.
abbrev pub Balanced : List Call → Type 0
Balanced calls = (held : List Handle) → held_after held calls ≡ some held

nil-Balanced : Balanced []
unfolding held_after
nil-Balanced held = refl

-- a handle that is acquired and given back
used-Balanced : (h : Handle) → Balanced (acquired h ∷ released h ∷ [])
unfolding held_after
used-Balanced h held = rw (same_handle_self h) refl

held_after-append :
    (held mid : List Handle) (xs ys : List Call)
    → held_after held xs ≡ some mid
    → held_after held (xs ++ ys) ≡ held_after mid ys
unfolding held_after
held_after-append held mid [] ys e = ap (λ h. held_after h ys) (some-injective _ _ e)
held_after-append held mid (acquired h ∷ xs) ys e = held_after-append (h ∷ held) mid xs ys e
held_after-append [] mid (released h ∷ xs) ys e = cc
held_after-append (g ∷ held) mid (released h ∷ xs) ys e =
    ground (arith, held_after-append held mid xs ys)

-- a handle that is held during calls that give back what they acquire
around-Balanced :
    (h : Handle) (calls : List Call)
    → Balanced calls
    → Balanced (acquired h ∷ (calls ++ (released h ∷ [])))
unfolding held_after
around-Balanced h calls b held =
    held_after-append (h ∷ held) (h ∷ held) calls (released h ∷ []) (b (h ∷ held))
    ∙ rw (same_handle_self h) refl

Result-cases : {A : Type 0} (r : Result A) → ((a : A) × (r ≡ ok a)) ⊎ ((e : Error) × (r ≡ err e))
Result-cases (ok a) = inl (a, refl)
Result-cases (err e) = inr (e, refl)

module _ {W : Type 0} ⦃u : Utf8⦄ (core : Core W) where
  -- Adopting a snapshot frees it or owns it.
  from_raw-cases :
      (ptr : ℕ)
      → ((e : Error) × (from_raw core ptr ≡ (err e, released (snapshot_handle ptr) ∷ [])))
        ⊎ ((s : Snapshot) × (s.ptr ≡ ptr) × (from_raw core ptr ≡ (ok s, [])))
  unfolding from_raw
  from_raw-cases ptr = elim (Option-cases (from_code (core.entry_count ptr).0)) [
    | inr (e, p) ↦ inl (e, rw (from_raw, p) refl)
    | inl p ↦
        elim (Result-cases (
          if ltb 0 (core.entry_count ptr).1
          then query_string core core.source_name ptr 0
          else ok [])) [
            | inl (t, q) ↦ inr (
              record { ptr = ptr; len = (core.entry_count ptr).1; source = t },
              refl,
              rw (from_raw, p, q) refl,
            )
            | inr (e, q) ↦ inl (e, rw (from_raw, p, q) refl)
          ]
  ]

  owned_snapshot-cases :
      (r : Result (Unit {0})) (ptr : ℕ)
      → ((s : Snapshot) × (owned_snapshot core r ptr
            ≡ (ok s, acquired (snapshot_handle s.ptr) ∷ [])))
        ⊎ ((e : Error) × (calls : List Call) × Balanced calls
            × (owned_snapshot core r ptr ≡ (err e, calls)))
  owned_snapshot-cases (err e) ptr = inr (e, [], nil-Balanced, refl)
  owned_snapshot-cases (ok _) ptr = elim (from_raw-cases ptr) [
    | inl (e, p) ↦ inr (e, _, used-Balanced (snapshot_handle ptr), rw p refl)
    | inr (s, q, p) ↦ inl (s, rw (p, q) refl)
  ]

  take_snapshot-cases :
      (handle : ℕ)
      → ((s : Snapshot) × (take_snapshot core handle
            ≡ (ok s, acquired (snapshot_handle s.ptr) ∷ [])))
        ⊎ ((e : Error) × (calls : List Call) × Balanced calls
            × (take_snapshot core handle ≡ (err e, calls)))
  unfolding take_snapshot
  take_snapshot-cases handle =
      let (c, ptr) = core.snapshot_take handle in owned_snapshot-cases (check c) ptr

  -- A call that makes a snapshot from a buffer holds it if it succeeds, and nothing if it fails.
  pub from_buffer-Balanced :
      (buf : List ℕ)
      → ((s : Snapshot) × (from_buffer core buf ≡ (ok s, acquired (snapshot_handle s.ptr) ∷ [])))
        ⊎ ((e : Error) × (calls : List Call) × Balanced calls
            × (from_buffer core buf ≡ (err e, calls)))
  unfolding from_buffer
  from_buffer-Balanced buf =
      let (c, ptr) = core.snapshot_from_buffer buf in owned_snapshot-cases (check c) ptr

  new_session-cases :
      ((handle : ℕ) × (new_session core ≡ (ok handle, acquired (session_handle handle) ∷ [])))
      ⊎ ((e : Error) × (new_session core ≡ (err e, [])))
  unfolding new_session
  new_session-cases = elim (Result-cases (check_abi_compatibility core.api_version)) [
    | inr (e, p) ↦ inr (e, rw p refl)
    | inl (_, p) ↦ elim (Result-cases (check core.session_open.0)) [
      | inl (_, q) ↦ inl (core.session_open.1, rw (p, q) refl)
      | inr (e, q) ↦ inr (e, rw (p, q) refl)
    ]
  ]

  -- However the C library answers, a poll releases every handle that it acquired, once, and in the
  -- reverse order: the snapshot is freed before its session is closed, on every error path too.
  pub collect_live-Balanced : Balanced (collect_live core).1
  unfolding collect_live
  collect_live-Balanced = elim new_session-cases [
    | inr (e, p) ↦ rw p nil-Balanced
    | inl (handle, p) ↦ elim (take_snapshot-cases handle) [
      | inl (s, q) ↦
          rw (p, q)
            (around-Balanced (session_handle handle) _ (used-Balanced (snapshot_handle s.ptr)))
      | inr (e, calls, b, q) ↦ rw (p, q) (around-Balanced (session_handle handle) calls b)
    ]
  ]
