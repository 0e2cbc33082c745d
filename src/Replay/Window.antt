-- ===== src/Replay/Window.antt =====
-- replay.rs: the window of a source drops no sample of the window.
use mathlib.Core.Option.{some-injective}
use mathlib.Core.List.{append_assoc}
use sensorwatch.Prelude.{
  ℕ, zero, suc, ◌≡◌, ◌⊎◌, ◌∙◌, ap, sym, refl, true, false, none, some, List, [], ◌∷◌, ◌++◌, ◌==◌,
  ==_iff, Bool-cases, Option-cases, inl, inr, All, any, take, drop, map,
}
use sensorwatch.Prelude.Text.{Text, strip_prefix}
use sensorwatch.Float.{Float}
use sensorwatch.Source.{Timestamp, Sample}
use sensorwatch.Logger.Names.{strip_prefix-eq-some}
use sensorwatch.Replay.Tokens.{fixup_python_tokens}
use sensorwatch.Replay.Pieces.{Piece, IsPiece, is_token, written, fixup-written}
use sensorwatch.Replay.Parse.{
  RawRecord, Readers, timestamp_prefix, max_timestamp_bytes, before_quote, decoded_instant,
  leading_in, leading_timestamp, sample_of, reading_of_entry, parse_line,
}

-- What is used of serde_json and jiff. A text that it accepts is made of strings and other bytes, with no
-- bare token outside a string; and where a line begins with the timestamp key and an instant, a record
-- that is read from the line has that instant as its timestamp, since a repeated key is an error.
pub record IsReaders {W : Type 0} (readers : Readers W) : Type 0 where
  pub json-pieces :
      (line : Text)
      → readers.is_json line ≡ true
      → (ps : List Piece) × All IsPiece ps × (any is_token ps ≡ false) × (line ≡ written ps)
  pub leading-record :
      (front tail : Text) (ts : Timestamp) (r : RawRecord W)
      → decoded_instant readers (some front) ≡ some ts
      → readers.raw_record (timestamp_prefix ++ (front ++ (b'"' ∷ tail))) ≡ some r
      → readers.parse_timestamp r.timestamp ≡ some ts

before_quote-split :
    (bytes front : Text)
    → before_quote bytes ≡ some front
    → (tail : Text) × (bytes ≡ front ++ (b'"' ∷ tail))
unfolding before_quote
before_quote-split [] front h = cc
before_quote-split (b ∷ bytes) front h = elim (Bool-cases (b == b'"')) [
  | inl e ↦
      let p : some [] ≡ some front = rw e at h in
      (
        bytes,
        ap (λ x. x ∷ bytes) ((==_iff b b'"').0 e)
            ∙ ap (λ x. x ++ (b'"' ∷ bytes)) (some-injective _ _ p),
      )
  | inr e ↦ elim (Option-cases (before_quote bytes)) [
    | inl n ↦ let x = rw (before_quote, e, n) at h in cc
    | inr (g, n) ↦
        let x : some (b ∷ g) ≡ some front = rw (before_quote, e, n) at h in
        let (tail, q) = before_quote-split bytes g n in
        (tail, ap (λ y. b ∷ y) q ∙ ap (λ y. y ++ (b'"' ∷ tail)) (some-injective _ _ x))
  ]
]

take-drop : {A : Type 0} (n : ℕ) (xs : List A) → take n xs ++ drop n xs ≡ xs
take-drop zero xs = refl
take-drop (suc n) [] = refl
take-drop (suc n) (x ∷ xs) = ap (λ ys. x ∷ ys) (take-drop n xs)

module _ {W : Type 0} ⦃f : Float W⦄ (readers : Readers W) (laws : IsReaders readers) where
  -- what a leading instant says of the line
  leading_timestamp-split :
      (line : Text) (ts : Timestamp)
      → leading_timestamp readers line ≡ some ts
      → (front tail : Text) × (decoded_instant readers (some front) ≡ some ts)
        × (line ≡ timestamp_prefix ++ (front ++ (b'"' ∷ tail)))
  unfolding leading_timestamp
  leading_timestamp-split line ts h = elim (Option-cases (strip_prefix line timestamp_prefix)) [
    | inl n ↦ let x = rw (leading_timestamp, n) at h in cc
    | inr (rest, p) ↦
        let x : leading_in readers (some rest) ≡ some ts = rw (leading_timestamp, p) at h in
        elim (Option-cases (before_quote (take max_timestamp_bytes rest))) [
          | inl n ↦ let y = rw n at x in cc
          | inr (front, q) ↦
              let y : decoded_instant readers (some front) ≡ some ts = rw q at x in
              let (tail, s) = before_quote-split (take max_timestamp_bytes rest) front q in
              let more = drop max_timestamp_bytes rest in
              let whole : rest ≡ front ++ (b'"' ∷ (tail ++ more)) =
                sym (take-drop max_timestamp_bytes rest)
                ∙ ap (λ z. z ++ more) s
                ∙ append_assoc front (b'"' ∷ tail) more in
              (
                front,
                tail ++ more,
                y,
                strip_prefix-eq-some line timestamp_prefix rest p
                    ∙ ap (λ z. timestamp_prefix ++ z) whole,
              )
        ]
  ]

  -- A valid line with a leading instant is skipped, or read as a sample of that instant.
  pub parse_line-leading :
      (line : Text) (ts : Timestamp)
      → leading_timestamp readers line ≡ some ts
      → readers.is_json line ≡ true
      → (parse_line readers line ≡ none)
        ⊎ ((x : Sample W) × (parse_line readers line ≡ some x) × (x.timestamp ≡ ts))
  unfolding parse_line
  parse_line-leading line ts h j = elim (Option-cases (readers.raw_record line)) [
    | inl n ↦
        let (ps, good, none_, w) = laws.json-pieces line j in
        let unfixed : fixup_python_tokens line ≡ none =
          ap fixup_python_tokens w ∙ fixup-written ps good ∙ rw none_ refl in
        inl (rw (parse_line, n, unfixed) refl)
    | inr (r, e) ↦
        let (front, tail, d, s) = leading_timestamp-split line ts h in
        let t = laws.leading-record front tail ts r d (ap readers.raw_record (sym s) ∙ e) in
        let x : Sample W = record {
          timestamp = ts;
          raw_timestamp = r.timestamp;
          readings = map (reading_of_entry readers) r.sensors;
        } in
        inr (x, rw (parse_line, e, sample_of, t) refl, refl)
  ]
