-- ===== src/Replay/Pieces.antt =====
-- What `fixup_python_tokens` makes of a line given as strings, tokens and other bytes.
use sensorwatch.Prelude.{
  ℕ, ◌≡◌, ◌≢◌, refl, ap, ◌∙◌, Bool, true, false, none, some, List, [], ◌∷◌, ◌++◌, ◌==◌,
  if◌then◌else◌, All, any, arith,
}
use mathlib.Core.List.{append_assoc}
use sensorwatch.Prelude.Text.{Text, text, starts_with}
use sensorwatch.Replay.Tokens.{find_token, tokens, emit_bytes, scan_bytes, fixup_python_tokens}

-- a byte of a string, or two
pub data StringPart : Type 0 where
  plain escaped : ℕ → StringPart

pub data Piece : Type 0 where
  quoted : List StringPart → Piece
  nan infinity neg_infinity : Piece
  other : ℕ → Piece
  negative : ℕ → Piece  -- a minus sign and the byte after it

unfoldable pub written_parts : List StringPart → Text
written_parts [] = []
written_parts (plain b ∷ ps) = b ∷ written_parts ps
written_parts (escaped b ∷ ps) = b'\\' ∷ b ∷ written_parts ps

unfoldable pub written_piece : Piece → Text
unfolding written_parts
written_piece (quoted ps) = b'"' ∷ written_parts ps ++ b'"' ∷ []
written_piece nan = text "NaN"
written_piece infinity = text "Infinity"
written_piece neg_infinity = text "-Infinity"
written_piece (other b) = b ∷ []
written_piece (negative b) = b'-' ∷ b ∷ []

unfoldable pub written : List Piece → Text
unfolding written_piece
written [] = []
written (p ∷ ps) = written_piece p ++ written ps

-- the tokens replaced by `null`, and all else as it is
unfoldable pub nulled : List Piece → Text
unfolding written_piece
nulled [] = []
nulled (nan ∷ ps) = text "null" ++ nulled ps
nulled (infinity ∷ ps) = text "null" ++ nulled ps
nulled (neg_infinity ∷ ps) = text "null" ++ nulled ps
nulled (p ∷ ps) = written_piece p ++ nulled ps

abbrev pub is_token : Piece → Bool
is_token nan = true
is_token infinity = true
is_token neg_infinity = true
is_token _ = false

-- a byte that starts neither a string nor a token
abbrev pub IsOther : ℕ → Type 0
IsOther b = (b ≢ b'"') × (b ≢ b'-') × (b ≢ b'I') × (b ≢ b'N')

abbrev pub IsPart : StringPart → Type 0
IsPart (plain b) = (b ≢ b'"') × (b ≢ b'\\')
IsPart (escaped b) = Unit {0}

abbrev pub IsPiece : Piece → Type 0
IsPiece (quoted ps) = All IsPart ps
IsPiece (other b) = IsOther b
IsPiece (negative b) = IsOther b
IsPiece _ = Unit {0}

scan-parts :
    (ps : List StringPart) (rest : Text)
    → All IsPart ps
    → scan_bytes true false 0 (written_parts ps ++ b'"' ∷ rest)
      ≡ emit_bytes (written_parts ps ++ b'"' ∷ []) false (scan_bytes false false 0 rest)
unfolding scan_bytes written_parts
scan-parts [] rest h = refl
scan-parts (plain b ∷ ps) rest (h, hs) = ground (arith, scan-parts ps rest hs)
scan-parts (escaped b ∷ ps) rest (h, hs) = ground (arith, scan-parts ps rest hs)

not_same : (a b : ℕ) → a ≢ b → (a == b) ≡ false
not_same a b h = ground arith

find_token-other : (b : ℕ) (rest : Text) → IsOther b → find_token (b ∷ rest) tokens ≡ none
unfolding find_token starts_with
find_token-other b rest (q, m, i, n) =
    rw (not_same b b'-' m, not_same b b'I' i, not_same b b'N' n) refl

find_token-negative : (b : ℕ) (rest : Text) → IsOther b → find_token (b'-' ∷ b ∷ rest) tokens ≡ none
unfolding find_token starts_with
find_token-negative b rest (q, m, i, n) = rw (not_same b b'I' i) refl

scan-other :
    (b : ℕ) (rest : Text)
    → IsOther b
    → scan_bytes false false 0 (b ∷ rest)
      ≡ emit_bytes (b ∷ []) false (scan_bytes false false 0 rest)
unfolding scan_bytes
scan-other b rest (q, m, i, n) = rw (not_same b b'"' q, find_token-other b rest (q, m, i, n)) refl

scan-negative :
    (b : ℕ) (rest : Text)
    → IsOther b
    → scan_bytes false false 0 (b'-' ∷ b ∷ rest)
      ≡ emit_bytes (b'-' ∷ []) false (scan_bytes false false 0 (b ∷ rest))
unfolding scan_bytes
scan-negative b rest h = rw (find_token-negative b rest h) refl

scan-quoted :
    (qs : List StringPart) (rest : Text)
    → All IsPart qs
    → scan_bytes false false 0 (written_piece (quoted qs) ++ rest)
      ≡ emit_bytes (written_piece (quoted qs)) false (scan_bytes false false 0 rest)
unfolding scan_bytes written_piece
scan-quoted qs rest h = ap (emit_bytes (b'"' ∷ []) false) (
    ap (scan_bytes true false 0) (append_assoc (written_parts qs) (b'"' ∷ []) rest)
    ∙ scan-parts qs rest h)

scan-pieces :
    (ps : List Piece)
    → All IsPiece ps
    → scan_bytes false false 0 (written ps) ≡ (nulled ps, any is_token ps)
unfolding scan_bytes written written_piece nulled find_token starts_with
scan-pieces [] h = refl
scan-pieces (quoted qs ∷ ps) (h, hs) =
    scan-quoted qs (written ps) h
    ∙ ap (emit_bytes (written_piece (quoted qs)) false) (scan-pieces ps hs)
scan-pieces (nan ∷ ps) (h, hs) = ap (emit_bytes (text "null") true) (scan-pieces ps hs)
scan-pieces (infinity ∷ ps) (h, hs) = ap (emit_bytes (text "null") true) (scan-pieces ps hs)
scan-pieces (neg_infinity ∷ ps) (h, hs) = ap (emit_bytes (text "null") true) (scan-pieces ps hs)
scan-pieces (other b ∷ ps) (h, hs) =
    scan-other b (written ps) h ∙ ap (emit_bytes (b ∷ []) false) (scan-pieces ps hs)
scan-pieces (negative b ∷ ps) (h, hs) =
    scan-negative b (written ps) h
    ∙ ap (emit_bytes (b'-' ∷ []) false) (scan-other b (written ps) h)
    ∙ ap (λ x. emit_bytes (b'-' ∷ []) false (emit_bytes (b ∷ []) false x)) (scan-pieces ps hs)

-- For a line made of strings, tokens and other bytes, the tokens outside strings become `null` and
-- nothing else changes, strings that spell a token included; without such a token there is no output.
pub fixup-written :
    (ps : List Piece)
    → All IsPiece ps
    → fixup_python_tokens (written ps) ≡ (if any is_token ps then some (nulled ps) else none)
unfolding fixup_python_tokens
fixup-written ps h = rw (scan-pieces ps h) refl
