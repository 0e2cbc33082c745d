-- ===== src/Logger/Retention.antt =====
-- rust/sensorwatch-cli/src/logger.rs: which files a cleanup deletes.
use sensorwatch.Prelude.{
  ◌≡◌, ◌⊎◌, ◌↔◌, ◌∙◌, ap, refl, Bool, true, false, not, ◌&&◌, none, some, [], ◌∷◌, if◌then◌else◌,
  Bool-cases, Option-cases, inl, inr, arith, keep,
}
use sensorwatch.Prelude.Int.{pos, ltb_ℤ, ◌<ℤ◌}
use sensorwatch.Prelude.Order.{list_ord, nat_ord, same, same_iff}
use sensorwatch.Prelude.Text.{Text}
use sensorwatch.Logger.{
  Calendar, LogWriter, Files, Io, contents, is_expired, prune, log_path, cleanup_old_files,
}
use sensorwatch.Logger.Names.{IsCalendar, Expired, is_expired_iff, is_expired-daily_file_path}

contents-keep :
    (stays : Text → Bool) (files : Files) (name : Text)
    → contents (keep (λ (f : Text × Text). stays f.0) files) name
      ≡ (if stays name then contents files name else none)
unfolding contents
contents-keep stays [] name = elim (Bool-cases (stays name)) [
  | inl e ↦ rw e refl
  | inr e ↦ rw e refl
]
contents-keep stays ((n, bytes) ∷ files) name =
    let rest = contents-keep stays files name in
    elim (Bool-cases (same n name)) [
      | inl e ↦
          let p : stays n ≡ stays name = ap stays ((same_iff n name).0 e) in
          elim (Bool-cases (stays name)) [
            | inl s ↦ rw (p, s, e) refl
            | inr s ↦ rw (p, s) (rw s at rest)
          ]
      | inr e ↦ elim (Bool-cases (stays n)) [ inl s ↦ rw (s, e) rest | inr s ↦ rw (s, e) rest ]
    ]

if_not : {A : Type 0} (b : Bool) (x y : A) → (if not b then y else x) ≡ (if b then x else y)
if_not true x y = refl
if_not false x y = refl

and_false : (a b : Bool) → (a && b && false) ≡ false
and_false a b = ground arith

module _ {D Z : Type 0} (calendar : Calendar D Z) where
  -- what a cleanup deletes, where the file system lets it
  abbrev pub Deletes : LogWriter D → D → Io → Text → Type 0
  Deletes w today io name =
      (pos 0 <ℤ w.retention_days)
      × (io.scans ≡ true)
      × (io.removes name ≡ true)
      × (cutoff : D) × (calendar.sub_days today w.retention_days ≡ some cutoff)
      × Expired calendar w cutoff name

  module _ (w : LogWriter D) (today : D) (io : Io) (files : Files) (name : Text) where
    -- the code's tests on one name, as one
    abbrev deletes : Bool
    deletes =
        ltb_ℤ (pos 0) w.retention_days
        && io.scans
        && elim (calendar.sub_days today w.retention_days) [
          | none ↦ false
          | some cutoff ↦ is_expired calendar w cutoff name && io.removes name
        ]

    contents-cleanup :
        contents (cleanup_old_files calendar w today io files) name
        ≡ (if deletes then none else contents files name)
    unfolding cleanup_old_files prune
    contents-cleanup = elim (Bool-cases (ltb_ℤ (pos 0) w.retention_days)) [
      | inr e ↦ rw (cleanup_old_files, e) refl
      | inl e ↦ elim (Option-cases (calendar.sub_days today w.retention_days)) [
        | inl p ↦ elim (Bool-cases io.scans) [
          | inr b ↦ rw (cleanup_old_files, e, p, b) refl
          | inl b ↦ rw (cleanup_old_files, e, p, b) refl
        ]
        | inr (cutoff, p) ↦ elim (Bool-cases io.scans) [
          | inr b ↦ rw (cleanup_old_files, e, p, b) refl
          | inl b ↦
              let gone = is_expired calendar w cutoff name && io.removes name in
              rw (cleanup_old_files, e, p, b, prune)
                (contents-keep (λ n. not (is_expired calendar w cutoff n && io.removes n)) files
                    name
                  ∙ if_not gone none (contents files name))
        ]
      ]
    ]

    deletes→Deletes : deletes ≡ true → Deletes w today io name
    deletes→Deletes h = elim (Option-cases (calendar.sub_days today w.retention_days)) [
      | inl p ↦
          let g : ltb_ℤ (pos 0) w.retention_days && io.scans && false ≡ true = rw p at h in
          ground arith
      | inr (cutoff, p) ↦
          let g : ltb_ℤ (pos 0) w.retention_days
                && io.scans
                && (is_expired calendar w cutoff name && io.removes name)
              ≡ true =
            rw p at h in
          (
            ground arith,
            ground arith,
            ground arith,
            cutoff,
            p,
            (is_expired_iff calendar w cutoff name).0 (ground arith),
          )
    ]

    Deletes→deletes : Deletes w today io name → deletes ≡ true
    Deletes→deletes (r, s, m, cutoff, p, x) =
        let y = (is_expired_iff calendar w cutoff name).1 x in
        let positive : ltb_ℤ (pos 0) w.retention_days ≡ true = ground arith in
        rw (positive, s, p, y) m

    -- A cleanup leaves every file as it was or deletes it, and it deletes just the files of the writer's
    -- own pattern whose date is before the cutoff, if retention is on, the cutoff can be computed, the
    -- directory can be read and the file can be removed.
    pub cleanup_old_files_iff :
        {bytes : Text}
        → contents files name ≡ some bytes
        → ((contents (cleanup_old_files calendar w today io files) name ≡ none)
            ⊎ (contents (cleanup_old_files calendar w today io files) name ≡ some bytes))
          × ((contents (cleanup_old_files calendar w today io files) name ≡ none)
              ↔ Deletes w today io name)
    cleanup_old_files_iff {bytes} h = elim (Bool-cases deletes) [
      | inl e ↦
          let gone : contents (cleanup_old_files calendar w today io files) name ≡ none =
            contents-cleanup ∙ rw e refl in
          (inl gone, (λ _. deletes→Deletes e, λ _. gone))
      | inr e ↦
          let kept : contents (cleanup_old_files calendar w today io files) name ≡ some bytes =
            contents-cleanup ∙ rw e h in
          (inr kept, (λ n. cc, λ d. let y = Deletes→deletes d in cc))
    ]

  -- No cleanup of that day takes the file of `d`.
  abbrev pub Retains : LogWriter D → D → D → Type 0
  Retains w today d =
      (cutoff : D)
      → calendar.sub_days today w.retention_days ≡ some cutoff
      → calendar.before d cutoff ≡ false

  pub cleanup_old_files-Retains :
      IsCalendar calendar
      → (w : LogWriter D) (today d : D) (io : Io) (files : Files) → Retains w today d
      → contents (cleanup_old_files calendar w today io files) (log_path calendar w d)
        ≡ contents files (log_path calendar w d)
  unfolding log_path
  cleanup_old_files-Retains laws w today d io files keeps =
      let name = log_path calendar w d in
      let on = ltb_ℤ (pos 0) w.retention_days in
      let e : deletes w today io files name ≡ false =
        elim (Option-cases (calendar.sub_days today w.retention_days)) [
          | inl p ↦ rw p (and_false on io.scans)
          | inr (cutoff, p) ↦
              let x : is_expired calendar w cutoff name ≡ false =
                is_expired-daily_file_path calendar laws w cutoff d ∙ keeps cutoff p in
              rw (p, x) (and_false on io.scans)
        ] in
      contents-cleanup w today io files name ∙ rw e refl
