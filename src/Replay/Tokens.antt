-- ===== src/Replay/Tokens.antt =====
-- replay.rs: `fixup_python_tokens`, on bytes.
use sensorwatch.Prelude.{
  ℕ, zero, suc, ◌-◌, Bool, true, false, ◌||◌, Option, none, some, List, [], ◌∷◌, ◌++◌, ◌==◌,
  if◌then◌else◌, length,
}
use sensorwatch.Prelude.Text.{Text, text, starts_with}

-- the first of the tokens that the bytes start with
unfoldable pub find_token : Text → List Text → Option Text
unfolding starts_with
find_token bytes [] = none
find_token bytes (t ∷ ts) =
    let rest = find_token bytes ts in if starts_with bytes t then some t else rest

abbrev pub tokens : List Text
tokens = text "-Infinity" ∷ text "Infinity" ∷ text "NaN" ∷ []

abbrev pub emit_bytes : Text → Bool → Text × Bool → Text × Bool
emit_bytes out changed (rest, later) = (out ++ rest, changed || later)

-- The loop over the bytes: its output and `changed`. `skip` is how much is left of a token that was
-- replaced, which is what `i += token.len()` passes over.
unfoldable pub scan_bytes : Bool → Bool → ℕ → Text → Text × Bool
unfolding find_token
scan_bytes in_string escaped skip [] = ([], false)
scan_bytes in_string escaped (suc skip) (b ∷ bytes) = scan_bytes in_string escaped skip bytes
scan_bytes true true zero (b ∷ bytes) = emit_bytes (b ∷ []) false (scan_bytes true false zero bytes)
scan_bytes true false zero (b ∷ bytes) =
    let after_escape = scan_bytes true true zero bytes in
    let outside = scan_bytes false false zero bytes in
    let inside = scan_bytes true false zero bytes in
    emit_bytes (b ∷ []) false
      (if b == b'\\' then after_escape else if b == b'"' then outside else inside)
scan_bytes false escaped zero (b ∷ bytes) =
    let opened = scan_bytes true escaped zero bytes in
    let plain = scan_bytes false escaped zero bytes in
    let token = find_token (b ∷ bytes) tokens in
    let replaced =
      scan_bytes false escaped (elim token [ none ↦ 0 | some t ↦ length t - 1 ]) bytes in
    if b == b'"' then emit_bytes (b ∷ []) false opened else elim token [
      | some t ↦ emit_bytes (text "null") true replaced
      | none ↦ emit_bytes (b ∷ []) false plain
    ]

-- `changed.then_some(out)`
unfoldable pub fixup_python_tokens : Text → Option Text
unfolding scan_bytes
fixup_python_tokens bytes =
    let (out, changed) = scan_bytes false false 0 bytes in if changed then some out else none
