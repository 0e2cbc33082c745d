-- ===== src/Event/Restart.antt =====
-- The sequence numbers of `SeqStore` over failed writes and restarts.
use sensorwatch.Prelude.{
  ℕ, ◌+◌, ◌<◌, ◌≡◌, refl, sym, ap, ◌∙◌, ◌≢◌, true, false, Option, none, some, List, [], ◌∷◌, ◌++◌,
  arith, ltb, ◌==◌, Bool-cases, inl, inr,
}
use mathlib.Core.List.{reverse, append-nil, reverse-append, reverse-cons, reverse-reverse}
use sensorwatch.Prelude.Text.{Text, trim, trim_start, is_whitespace, is_ascii_digit}
use sensorwatch.Prelude.Decimal.{
  print, IsDigits, digits_value-print, print-IsDigits, print-ne-nil, is_empty_of_ne, all_digits,
}
use sensorwatch.Prelude.Words.{u64_mod}
use sensorwatch.Event.Sequence.{
  Directory, SeqStore, parse_digits, parse_u64, readable, open_store, Io, done, write_fails,
  rename_fails, line, persist, next,
}

is_whitespace_digit : (c : ℕ) → is_ascii_digit c ≡ true → is_whitespace c ≡ false
unfolding is_ascii_digit is_whitespace
is_whitespace_digit c h = ground arith

trim_start-digits : (s t : Text) → s ≢ [] → IsDigits s → trim_start (s ++ t) ≡ s ++ t
unfolding trim_start
trim_start-digits [] t n h = absurd (n refl)
trim_start-digits (c ∷ s) t n h = rw (is_whitespace_digit c h.0)

IsDigits-snoc : (s : Text) (c : ℕ) → IsDigits s → is_ascii_digit c ≡ true → IsDigits (s ++ c ∷ [])
IsDigits-snoc [] c h e = (e, tt)
IsDigits-snoc (d ∷ s) c h e = (h.0, IsDigits-snoc s c h.1 e)

IsDigits-reverse : (s : Text) → IsDigits s → IsDigits (reverse s)
IsDigits-reverse [] h = tt
IsDigits-reverse (c ∷ s) h =
    rw (reverse-cons c s) (IsDigits-snoc (reverse s) c (IsDigits-reverse s h.1) h.0)

reverse-ne-nil : (s : Text) → s ≢ [] → reverse s ≢ []
reverse-ne-nil s n e = n (sym (reverse-reverse s) ∙ ap reverse e)

trim_start-line : (s : Text) → s ≢ [] → IsDigits s → trim_start (b'\n' ∷ s) ≡ s
unfolding trim_start is_whitespace
trim_start-line s n h =
    ap trim_start (sym (append-nil s)) ∙ trim_start-digits s [] n h ∙ append-nil s

trim-line : (s : Text) → s ≢ [] → IsDigits s → trim (s ++ b'\n' ∷ []) ≡ s
unfolding trim
trim-line s n h =
    ap (λ x. reverse (trim_start (reverse x))) (trim_start-digits s (b'\n' ∷ []) n h)
    ∙ ap (λ x. reverse (trim_start x)) (reverse-append s (b'\n' ∷ []))
    ∙ ap reverse (trim_start-line (reverse s) (reverse-ne-nil s n) (IsDigits-reverse s h))
    ∙ reverse-reverse s

parse_digits-print : (n : ℕ) → n < u64_mod → parse_digits (print n) ≡ some n
parse_digits-print n h =
    rw
      (
        is_empty_of_ne (print n) (print-ne-nil n),
        all_digits (print n) (print-IsDigits n),
        digits_value-print n,
      )
      (ground arith)

digit_not_plus : (c : ℕ) → is_ascii_digit c ≡ true → (c == b'+') ≡ false
unfolding is_ascii_digit
digit_not_plus c h = ground arith

parse_u64-digits : (s : Text) → s ≢ [] → IsDigits s → parse_u64 s ≡ parse_digits s
unfolding parse_u64
parse_u64-digits [] n h = absurd (n refl)
parse_u64-digits (c ∷ s) n h = rw (digit_not_plus c h.0)

-- What `next` wrote is read back by `open`.
parse_line : (n : ℕ) → n < u64_mod → parse_u64 (trim (line n)) ≡ some n
unfolding line
parse_line n h =
    rw
      (
        trim-line (print n) (print-ne-nil n) (print-IsDigits n),
        parse_u64-digits (print n) (print-ne-nil n) (print-IsDigits n),
      )
      (parse_digits-print n h)

-- what happens to a watcher's counter: it reserves a number, or the process is started again
pub data Action : Type 0 where
  reserve : Io → Action
  restart : Action

abbrev pub add_number : Option ℕ → Option (List ℕ) → Option (List ℕ)
add_number o none = none
add_number none (some ns) = some ns
add_number (some n) (some ns) = some (n ∷ ns)

-- The numbers handed out, or `none` when a start finds the file corrupt. A start that cannot reach the
-- directory or read the file hands out none, and is left out.
unfoldable pub life : Directory → SeqStore → List Action → Option (List ℕ)
unfolding open_store next
life d s [] = some []
life d s (reserve io ∷ rest) = let (d', s', n) = next d s io in add_number n (life d' s' rest)
life d s (restart ∷ rest) = elim (open_store readable d) [ none ↦ none | some s' ↦ life d s' rest ]

abbrev pub AscendsFrom : ℕ → List ℕ → Type 0
AscendsFrom b [] = Unit
AscendsFrom b (n ∷ ns) = (b < n) × (n < u64_mod) × AscendsFrom n ns

-- what one reservation does to the counter
abbrev Emits : SeqStore → SeqStore → Option ℕ → Type 0
Emits s s' none = s' ≡ s
Emits s s' (some n) = (n ≡ s.last + 1) × (n < u64_mod) × (s'.last ≡ n)

persist_keeps :
    (d : Directory) (s : SeqStore) (io : Io)
    → open_store readable d ≡ some s
    → s.last + 1 < u64_mod
    → (open_store readable (persist d s io).0 ≡ some (persist d s io).1)
      × Emits s (persist d s io).1 (persist d s io).2
unfolding open_store
persist_keeps d s done h l = (rw (parse_line (s.last + 1) l) refl, (refl, l, refl))
persist_keeps d s (write_fails left) h l = (h, refl)
persist_keeps d s rename_fails h l = (h, refl)

next_keeps :
    (d : Directory) (s : SeqStore) (io : Io)
    → open_store readable d ≡ some s
    → (open_store readable (next d s io).0 ≡ some (next d s io).1)
      × Emits s (next d s io).1 (next d s io).2
unfolding next
next_keeps d s io h = elim (Bool-cases (ltb (s.last + 1) u64_mod)) [
  | inl e ↦ rw e (persist_keeps d s io h (ground arith))
  | inr e ↦ rw e (h, refl)
]

add_number-Ascends :
    (s s' : SeqStore) (o : Option ℕ) (ns : List ℕ)
    → Emits s s' o
    → AscendsFrom s'.last ns
    → (out : List ℕ) × (add_number o (some ns) ≡ some out) × AscendsFrom s.last out
add_number-Ascends s s' none ns em a = (ns, refl, rw (← em) a)
add_number-Ascends s s' (some n) ns (e, l, e') a = (n ∷ ns, refl, (omega arith, l, rw (← e') a))

-- Numbers handed out over failed writes and restarts are above the one in the file, strictly
-- increasing and below 2^64, and no start finds a corrupt file.
pub life-Ascends :
    (d : Directory) (s : SeqStore) (acts : List Action)
    → open_store readable d ≡ some s
    → (ns : List ℕ) × (life d s acts ≡ some ns) × AscendsFrom s.last ns
unfolding life
life-Ascends d s [] h = ([], refl, tt)
life-Ascends d s (restart ∷ rest) h =
    let (ns, e, a) = life-Ascends d s rest h in (ns, rw (life, h) e, a)
life-Ascends d s (reserve io ∷ rest) h =
    let (k, em) = next_keeps d s io h in
    let (ns, e, a) = life-Ascends (next d s io).0 (next d s io).1 rest k in
    let (out, eo, ao) = add_number-Ascends s (next d s io).1 (next d s io).2 ns em a in
    (out, rw e eo, ao)
