-- ===== src/Watch/Followed.antt =====
-- watch.rs: what following a replay writes.
use sensorwatch.Prelude.{
  ℕ, ◌+◌, ◌<◌, ◌≡◌, refl, sym, ap, ap₂, ◌∙◌, Bool, true, false, Option, none, some, List, [], ◌∷◌,
  zero, suc, drop, Bool-cases, inl, inr, ◌++◌, arith, if◌then◌else◌, length, lt→ltb, length-append,
}
use mathlib.Core.List.{append-nil, append_assoc}
use mathlib.Core.Path.{subst}
use mathlib.Core.Option.{some-injective}
use sensorwatch.Prelude.Panic.{>>=-eq-some, bind_some}
use sensorwatch.Prelude.Text.{CaseFold}
use sensorwatch.Prelude.Words.{u64_mod}
use sensorwatch.Float.{Float}
use sensorwatch.Source.{Tick}
use sensorwatch.Engine.Observe.{Engine, Transition, observe, run}
use sensorwatch.Event.{Event, from_transition}
use sensorwatch.Event.Sequence.{next, line}
use sensorwatch.Watch.{Args, World, exited, success, spool_if_configured, reserve}
use sensorwatch.Watch.OneShot.{replayed, replaying}
use sensorwatch.Watch.Follow.{written_next, write_numbered, write_events, follow_loop, run_follow}

-- the events of transitions, numbered from the one after `n`
unfoldable pub numbered_after : {W : Type 0} → ℕ → List (Transition W) → List (Event W)
numbered_after n [] = []
numbered_after n (t ∷ ts) = from_transition t (n + 1) ∷ numbered_after (n + 1) ts

numbered_after-append :
    {W : Type 0} (n : ℕ) (xs ys : List (Transition W))
    → numbered_after n (xs ++ ys) ≡ numbered_after n xs ++ numbered_after (n + length xs) ys
unfolding numbered_after
numbered_after-append n [] ys = ap (λ k. numbered_after k ys) (omega arith)
numbered_after-append n (x ∷ xs) ys =
    ap (λ k. from_transition x (n + 1) ∷ k)
      (numbered_after-append (n + 1) xs ys
        ∙ ap (λ k. numbered_after (n + 1) xs ++ numbered_after k ys) (omega arith))

length-numbered_after :
    {W : Type 0} (n : ℕ) (xs : List (Transition W)) → length (numbered_after n xs) ≡ length xs
unfolding numbered_after
length-numbered_after n [] = refl
length-numbered_after n (x ∷ xs) = omega (arith, length-numbered_after (n + 1) xs)

-- the items whose write gets out whole
abbrev pub kept {ℓ} : {A : Type ℓ} → List Bool → List A → List A
kept [] xs = xs
kept (b ∷ bs) [] = []
kept (b ∷ bs) (x ∷ xs) = let rest = kept bs xs in if b then x ∷ rest else rest

module _ {ℓ} {A : Type ℓ} where
  kept-nil : (bs : List Bool) → kept {A = A} bs [] ≡ []
  kept-nil [] = refl
  kept-nil (b ∷ bs) = refl

  kept-append :
      (bs : List Bool) (xs ys : List A)
      → kept bs (xs ++ ys) ≡ kept bs xs ++ kept (drop (length xs) bs) ys
  kept-append bs [] ys = rw (kept-nil bs) refl
  kept-append [] (x ∷ xs) ys = refl
  kept-append (true ∷ bs) (x ∷ xs) ys = ap (λ zs. x ∷ zs) (kept-append bs xs ys)
  kept-append (false ∷ bs) (x ∷ xs) ys = kept-append bs xs ys

  kept-one :
      (bs : List Bool) (d : List A) (x : A)
      → (if written_next bs then d ++ (x ∷ []) else d) ≡ d ++ kept bs (x ∷ [])
  kept-one [] d x = refl
  kept-one (true ∷ bs) d x = rw (kept-nil bs) refl
  kept-one (false ∷ bs) d x = rw (kept-nil bs) (sym (append-nil d))

drop-nil {ℓ} : {A : Type ℓ} (n : ℕ) → drop {A = A} n [] ≡ []
drop-nil zero = refl
drop-nil (suc n) = refl

drop-drop {ℓ} : {A : Type ℓ} (m n : ℕ) (xs : List A) → drop n (drop m xs) ≡ drop (m + n) xs
drop-drop zero n xs = ap (λ k. drop k xs) (omega arith)
drop-drop (suc m) n [] = drop-nil n ∙ sym (drop-nil (suc m + n))
drop-drop (suc m) n (x ∷ xs) =
    drop-drop m n xs
    ∙ ap (λ k. drop k (x ∷ xs)) (let e : suc (m + n) ≡ suc m + n = omega arith in e)

module _ {W : Type 0} (args : Args) where
  -- What writing the events of `out` from `w` leaves, if no persist fails.
  pub record Wrote (w w' : World W) (out : List (Transition W)) : Type 0 where
    pub counted : w'.store.last ≡ w.store.last + length out
    pub filed : w'.daily ≡ w.daily ++ kept w.daily_io (numbered_after w.store.last out)
    pub left : w'.daily_io ≡ drop (length out) w.daily_io
    pub working : w'.io ≡ []

  Wrote-trans :
      (w w' w'' : World W) (xs ys : List (Transition W))
      → Wrote w w' xs
      → Wrote w' w'' ys
      → Wrote w w'' (xs ++ ys)
  Wrote-trans w w' w'' xs ys a b =
      let firsts = numbered_after w.store.last xs in
      let lasts = numbered_after (w.store.last + length xs) ys in
      let later = kept (drop (length xs) w.daily_io) lasts in
      record {
        counted = omega (arith, a.counted, b.counted, length-append xs ys);
        filed =
            b.filed
            ∙ ap₂ (λ io k. w'.daily ++ kept io (numbered_after k ys)) a.left a.counted
            ∙ ap (λ d. d ++ later) a.filed
            ∙ append_assoc w.daily (kept w.daily_io firsts) later
            ∙ ap (λ n. w.daily ++ (kept w.daily_io firsts ++ kept (drop n w.daily_io) lasts))
                (sym (length-numbered_after w.store.last xs))
            ∙ ap (λ k. w.daily ++ k) (sym (kept-append w.daily_io firsts lasts))
            ∙ ap (λ k. w.daily ++ kept w.daily_io k)
                (sym (numbered_after-append w.store.last xs ys));
        left =
            b.left
            ∙ ap (λ io. drop (length ys) io) a.left
            ∙ drop-drop (length xs) (length ys) w.daily_io
            ∙ ap (λ n. drop n w.daily_io) (sym (length-append xs ys));
        working = b.working;
      }

  -- after one reservation, and after its event
  abbrev reserved : World W → World W
  reserved w = record w {
    directory = record { seq_file = some (line (w.store.last + 1)); staging = none };
    store = record { last = w.store.last + 1 };
    io = [];
  }

  abbrev advanced : World W → Transition W → World W
  advanced w t = write_numbered args (reserved w) t (w.store.last + 1)

  reserve-reserved :
      (w : World W)
      → w.io ≡ []
      → w.store.last + 1 < u64_mod
      → reserve args w ≡ (reserved w, some (w.store.last + 1))
  unfolding reserve next
  reserve-reserved w e l = rw (e, lt→ltb _ _ l) refl

  write_events-cons :
      (w : World W) (t : Transition W) (ts : List (Transition W))
      → w.io ≡ []
      → w.store.last + 1 < u64_mod
      → write_events args w (t ∷ ts) ≡ write_events args (advanced w t) ts
  unfolding write_events reserve next
  write_events-cons w t ts e l =
      let b = lt→ltb _ _ l in
      rw (write_events, reserve, next, e, b)
        (ap
          (λ (v : World W × Option ℕ).
            write_events args (write_numbered args v.0 t (w.store.last + 1)) ts)
          (reserve-reserved w e l))

  spool_keeps :
      (w : World W) (e : Event W)
      → ((spool_if_configured args w e).daily ≡ w.daily)
        × ((spool_if_configured args w e).daily_io ≡ w.daily_io)
  unfolding spool_if_configured
  spool_keeps w e = elim (Bool-cases args.spooling) [
    | inl q ↦ rw q (refl, refl)
    | inr q ↦ rw q (refl, refl)
  ]

  advanced-Wrote : (w : World W) (t : Transition W) → Wrote w (advanced w t) (t ∷ [])
  unfolding spool_if_configured numbered_after
  advanced-Wrote w t = record {
    counted = ground arith;
    filed =
        (spool_keeps _ _).0 ∙ kept-one w.daily_io w.daily (from_transition t (w.store.last + 1));
    left = (spool_keeps _ _).1;
    working = ground arith;
  }

  write_events-Wrote :
      (w : World W) (out : List (Transition W))
      → w.io ≡ []
      → w.store.last + length out < u64_mod
      → (w' : World W) × (write_events args w out ≡ (w', false)) × Wrote w w' out
  unfolding write_events numbered_after
  write_events-Wrote w [] e l = (
    w,
    refl,
    record {
      counted = omega arith;
      filed = sym (append-nil w.daily) ∙ ap (λ k. w.daily ++ k) (sym (kept-nil w.daily_io));
      left = refl;
      working = e;
    },
  )
  write_events-Wrote w (t ∷ out) e l =
      let first = advanced-Wrote w t in
      let (w', e', rest) =
        write_events-Wrote (advanced w t) out first.working (omega (arith, first.counted)) in
      (
        w',
        write_events-cons w t out e (omega arith) ∙ e',
        Wrote-trans w (advanced w t) w' (t ∷ []) out first rest,
      )

module _ {W : Type 0} ⦃f : Float W⦄ ⦃c : CaseFold⦄ (args : Args) where
  follow_loop-writes :
      (w : World W) (e : Engine W) (ts : List (Tick W)) {e' : Engine W} {out : List (Transition W)}
      → run e ts ≡ some (e', out)
      → w.io ≡ []
      → w.store.last + length out < u64_mod
      → (w' : World W) × (follow_loop (replaying args) w e (replayed ts)
          ≡ some (w', exited success))
        × Wrote (replaying args) w w' out
  unfolding follow_loop run numbered_after
  follow_loop-writes w e [] {e'} {out} r i l =
      let p : [] ≡ out = ap (λ (x : Engine W × List (Transition W)). x.1) (some-injective _ _ r) in
      (
        w,
        refl,
        record {
          counted = omega (arith, ap length p);
          filed =
              sym (append-nil w.daily)
              ∙ ap (λ k. w.daily ++ k) (sym (kept-nil w.daily_io))
              ∙ ap (λ o. w.daily ++ kept w.daily_io (numbered_after w.store.last o)) p;
          left = ap (λ o. drop (length o) w.daily_io) p;
          working = i;
        },
      )
  follow_loop-writes w e (t ∷ ts) {e'} {out} r i l =
      let (p1, e1, h1) = >>=-eq-some (observe e t) _ r in
      let (p2, e2, h2) = >>=-eq-some (run p1.0 ts) _ h1 in
      let q : p1.1 ++ p2.1 ≡ out =
        ap (λ (x : Engine W × List (Transition W)). x.1) (some-injective _ _ h2) in
      let total : length p1.1 + length p2.1 ≡ length out =
        sym (length-append p1.1 p2.1) ∙ ap length q in
      let (w1, k1, wrote1) = write_events-Wrote (replaying args) w p1.1 i (omega arith) in
      let (w2, k2, wrote2) =
        follow_loop-writes w1 p1.0 ts e2 wrote1.working (omega (arith, wrote1.counted)) in
      (
        w2,
        bind_some _ _ e1 (rw k1 k2),
        subst (λ o. Wrote (replaying args) w w2 o) q
            (Wrote-trans (replaying args) w w1 w2 p1.1 p2.1 wrote1 wrote2),
      )

  -- If the engine runs over the ticks without a panic, sequence numbers last and persisting them works, and
  -- the event writer can be made, following their replay numbers every transition of that run
  -- consecutively, adds to the daily file, in order, just the events whose write gets out whole, whichever
  -- of the writes those are, and exits with 0.
  pub run_follow-replay :
      (sensor_writer : Bool) (w : World W) (e : Engine W) (ts : List (Tick W)) {e' : Engine W}
      {out : List (Transition W)}
      → run e ts ≡ some (e', out)
      → w.io ≡ []
      → w.store.last + length out < u64_mod
      → (w' : World W) × (run_follow (replaying args) true sensor_writer w e (replayed ts)
          ≡ some (w', exited success))
        × Wrote (replaying args) w w' out
  unfolding run_follow
  run_follow-replay sensor_writer w e ts r i l = follow_loop-writes w e ts r i l
