-- ===== src/Digest/Resolved.antt =====
-- rust/sensorwatch-cli/src/digest.rs and report.rs: the window that `--since`, `--until` and `--last` resolve
-- to.
use sensorwatch.Prelude.{
  ℕ, ◌+◌, ◌<◌, ◌≡◌, ◌↔◌, ◌⊎◌, ap, ap₂, refl, sym, ◌∙◌, Bool, true, false, Option, none, some, ◌==◌,
  ◌||◌, any, leb, Bool-cases, Option-cases, inl, inr, if◌then◌else◌, arith,
}
use mathlib.Core.Option.{some-injective}
use sensorwatch.Prelude.Panic.{◌>>=◌, >>=-eq-some, bind_some}
use sensorwatch.Prelude.Int.{ltb_ℤ}
use sensorwatch.Prelude.Text.{Text}
use sensorwatch.Source.{Timestamp}
use sensorwatch.Digest.Duration.{Parsed, ok, err, parse_duration_secs}
use sensorwatch.Digest.When.{
  Zone, DayEdge, start, end, tomorrow, edge_of_day, parse_when, before_until, until_of, since_of,
  resolve_window,
}

-- Is there a `T`, a `t` or a blank in the text?
abbrev pub has_time : Text → Bool
has_time s = any (λ b. b == b'T' || b == b't' || b == b' ') s

module _ {T : Type 0} (zone : Zone T) where
  -- the first midnight of a date, or the last nanosecond before that of the next date
  abbrev pub EdgeOf : DayEdge → ℕ → Timestamp → Type 0
  EdgeOf start d t = zone.date_to_zoned d ≡ some t
  EdgeOf end d t =
      (d < zone.ceiling)
      × ((m : Timestamp) × (zone.date_to_zoned (d + 1) ≡ some m) × (zone.sub_nanos m 1 ≡ some t))

  -- An instant; or else, with a time, a civil one in the zone; or else an edge of a date.
  abbrev pub IsWhen : DayEdge → Text → Timestamp → Type 0
  IsWhen edge s t =
      (zone.parse_timestamp s ≡ some t)
      ⊎ ((zone.parse_timestamp s ≡ none)
          × (((has_time s ≡ true)
                × ((z : T) × (zone.parse_date_time s ≡ some z)
                    × (zone.date_time_to_zoned z ≡ some t)))
              ⊎ ((has_time s ≡ false)
                  × ((d : ℕ) × (zone.parse_date s ≡ some d) × EdgeOf edge d t))))

  -- `--until`, or now
  abbrev pub EndsAt : Option Text → Timestamp → Timestamp → Type 0
  EndsAt none now until = until ≡ now
  EndsAt (some s) now until = IsWhen end s until

  -- `--since`, or the duration of `--last` before the end
  abbrev pub StartsAt : Option Text → Text → Timestamp → Timestamp → Type 0
  StartsAt none last until since =
      (secs : ℕ) × (parse_duration_secs last ≡ ok secs) × (zone.sub_secs until secs ≡ some since)
  StartsAt (some s) last until since = IsWhen start s since

  edge_of_day_iff :
      (edge : DayEdge) (d : ℕ) (t : Timestamp)
      → (edge_of_day zone edge d ≡ some t) ↔ EdgeOf edge d t
  unfolding tomorrow
  edge_of_day_iff start d t = (λ h. h, λ h. h)
  edge_of_day_iff end d t = elim (Bool-cases (leb zone.ceiling d)) [
    | inl e ↦ (λ h. let x = rw e at h in absurd cc, λ (l, _). absurd (ground (arith, e, l)))
    | inr e ↦ (
      λ h.
          let x : (zone.date_to_zoned (d + 1) >>= λ m. zone.sub_nanos m 1) ≡ some t = rw e at h in
          (ground (arith, e), >>=-eq-some (zone.date_to_zoned (d + 1)) _ x),
      λ (l, (m, p, q)). rw e (bind_some (zone.date_to_zoned (d + 1)) (λ k. zone.sub_nanos k 1) p q),
    )
  ]

  parse_when_iff :
      (edge : DayEdge) (s : Text) (t : Timestamp)
      → (parse_when zone s edge ≡ some t) ↔ IsWhen edge s t
  unfolding parse_when
  parse_when_iff edge s t = elim (Option-cases (zone.parse_timestamp s)) [
    | inr (u, e) ↦
        let found : parse_when zone s edge ≡ some u = rw (parse_when, e) refl in
        (
          λ h. inl (e ∙ sym found ∙ h),
          λ h. elim h [ inl p ↦ found ∙ sym e ∙ p | inr (n, _) ↦ absurd cc ],
        )
    | inl n ↦ elim (Bool-cases (has_time s)) [
      | inl b ↦
          let local : parse_when zone s edge
              ≡ (zone.parse_date_time s >>= zone.date_time_to_zoned) =
            rw (parse_when, n, b) refl in
          (
            λ h. inr (n, inl (b, >>=-eq-some (zone.parse_date_time s) _ (sym local ∙ h))),
            λ h. elim h [
              | inl p ↦ absurd cc
              | inr (_, w) ↦ elim w [
                | inl (_, (z, p, q)) ↦
                    local ∙ bind_some (zone.parse_date_time s) zone.date_time_to_zoned p q
                | inr (b', _) ↦ absurd cc
              ]
            ],
          )
      | inr b ↦
          let local : parse_when zone s edge ≡ (zone.parse_date s >>= edge_of_day zone edge) =
            rw (parse_when, n, b) refl in
          (
            λ h.
                let (d, p, q) = >>=-eq-some (zone.parse_date s) _ (sym local ∙ h) in
                inr (n, inr (b, (d, p, (edge_of_day_iff edge d t).0 q))),
            λ h. elim h [
              | inl p ↦ absurd cc
              | inr (_, w) ↦ elim w [
                | inl (b', _) ↦ absurd cc
                | inr (_, (d, p, q)) ↦
                    local
                    ∙ bind_some (zone.parse_date s) (edge_of_day zone edge) p
                        ((edge_of_day_iff edge d t).1 q)
              ]
            ],
          )
    ]
  ]

  until_of_iff :
      (arg : Option Text) (now until : Timestamp)
      → (until_of zone arg now ≡ some until) ↔ EndsAt arg now until
  until_of_iff none now until = (λ h. sym (some-injective _ _ h), λ h. ap some (sym h))
  until_of_iff (some s) now until = parse_when_iff end s until

  before_until_iff :
      (p : Parsed ℕ) (until since : Timestamp)
      → (before_until zone p until ≡ some since)
        ↔ ((secs : ℕ) × (p ≡ ok secs) × (zone.sub_secs until secs ≡ some since))
  before_until_iff (ok secs) until since =
      (λ h. (secs, refl, h), λ (n, e, h). ap (λ q. before_until zone q until) e ∙ h)
  before_until_iff (err x) until since = (λ h. absurd cc, λ (n, e, h). absurd cc)

  since_of_iff :
      (arg : Option Text) (last : Text) (until since : Timestamp)
      → (since_of zone arg last until ≡ some since) ↔ StartsAt arg last until since
  since_of_iff none last until since = before_until_iff (parse_duration_secs last) until since
  since_of_iff (some s) last until since = parse_when_iff start s since

  if_none_iff :
      {A : Type 0} (b : Bool) (a c : A)
      → ((if b then none else some a) ≡ some c) ↔ ((b ≡ false) × (a ≡ c))
  if_none_iff true a c = (λ h. absurd cc, λ (b, _). absurd cc)
  if_none_iff false a c = (λ h. (refl, some-injective _ _ h), λ (_, p). ap some p)

  -- The flags resolve to a window exactly when it ends at `--until`, or now, starts at `--since`, or the
  -- duration of `--last` before its end, and does not start after its end. A flag is read as an instant, or
  -- as a civil time if it has a `T`, a `t` or a blank, or as a date: for a start its first midnight, and for
  -- an end the last nanosecond before the midnight of the next date, which the calendar must have.
  pub resolve_window_iff :
      (until_arg since_arg : Option Text) (last : Text) (now since until : Timestamp)
      → (resolve_window zone until_arg since_arg last now ≡ some (since, until)) ↔ (
          EndsAt until_arg now until
          × StartsAt since_arg last until since
          × (ltb_ℤ until since ≡ false))
  unfolding resolve_window
  resolve_window_iff until_arg since_arg last now since until = (
    λ h.
        let (u, p, h1) = >>=-eq-some (until_of zone until_arg now) _ h in
        let (s, q, h2) = >>=-eq-some (since_of zone since_arg last u) _ h1 in
        let (ordered, e) = (if_none_iff (ltb_ℤ u s) (s, u) (since, until)).0 h2 in
        let eu : u ≡ until = ap (λ (w : Timestamp × Timestamp). w.1) e in
        let es : s ≡ since = ap (λ (w : Timestamp × Timestamp). w.0) e in
        (
          (until_of_iff until_arg now until).0 (p ∙ ap some eu),
          (since_of_iff since_arg last until since).0
              (ap (since_of zone since_arg last) (sym eu) ∙ q ∙ ap some es),
          ap₂ (λ a b. ltb_ℤ a b) (sym eu) (sym es) ∙ ordered,
        ),
    λ (p, q, ordered).
        bind_some (until_of zone until_arg now) _ ((until_of_iff until_arg now until).1 p) (
          bind_some (since_of zone since_arg last until) _
            ((since_of_iff since_arg last until since).1 q)
            ((if_none_iff (ltb_ℤ until since) (since, until) (since, until)).1 (ordered, refl))),
  )
