-- ===== src/Daemon/Backoff.antt =====
-- How the daemon meets reads that fail in a row, and when its flag is set.
use ocp_canopy_open_bmc.Common.{
  ℕ, zero, suc, ◌+◌, ◌*◌, ◌^◌, ◌-◌, ◌≤◌, ◌<◌, subst, ◌≡◌, min, inl, inr, refl, ap, ap₂, sym, ◌∙◌,
  Bool, true, false, ltb, leb, ◌==◌, if◌then◌else◌, Bool-cases, ltb→lt, ltb→le, lt→ltb, le→ltb,
  none, some, List, [], ◌∷◌, ◌++◌, arith, replicate,
}
use native.Mathlib.Omega.{pow_step}
use ocp_canopy_open_bmc.Daemon.{
  Event, signal, ReadResult, read, read_error, Output, slept, undefined_pause, ChifDaemon, eintr,
  int_pow2, pause_of, delay, on_error, step, stop, loop, run,
}

-- The pause of each retry: 1, 2, 4, 8 and 16 seconds, then 30 seconds each time. From the 32nd
-- retry on the code does not define it.
abbrev pub schedule : ℕ → Output
schedule k = if ltb k 5 then slept (2 ^ k) else if ltb k 31 then slept 30 else undefined_pause

-- The pauses of n retries from the k-th on.
unfoldable pub pauses_from : ℕ → ℕ → List Output
pauses_from k zero = []
pauses_from k (suc n) = schedule k ∷ pauses_from (k + 1) n

two_pow_mono : (k j : ℕ) → 2 ^ k ≤ 2 ^ (k + j)
two_pow_mono k zero = subst (λ i. 2 ^ k ≤ 2 ^ i) {x = k} {y = k + 0} (omega arith) (omega arith)
two_pow_mono k (suc j) =
    subst (λ i. 2 ^ k ≤ 2 ^ i) {x = suc (k + j)} {y = k + suc j} (omega arith)
      (omega (arith, two_pow_mono k j, pow_step 2 (k + j)))

two_pow_le : (k m : ℕ) → k ≤ m → 2 ^ k ≤ 2 ^ m
two_pow_le k m h =
    subst (λ i. 2 ^ k ≤ 2 ^ i) {x = k + (m - k)} {y = m} (omega (arith, h)) (two_pow_mono k (m - k))

int_pow2-schedule : (k : ℕ) → int_pow2 k ≡ (if ltb k 31 then some (2 ^ k) else none)
unfolding int_pow2
int_pow2-schedule k = elim (Bool-cases (ltb k 31)) [
  | inl small ↦
      let double : 2 ^ (k + 1) ≡ 2 * 2 ^ k =
        subst (λ i. 2 ^ i ≡ 2 * 2 ^ k) {x = suc k} (omega arith) (pow_step 2 k) in
      let fits : ltb (2 ^ k) 2147483648 ≡ true = lt→ltb (2 ^ k) 2147483648 (
        omega (
          arith,
          two_pow_le (k + 1) 31 (omega (arith, ltb→lt k 31 small)),
          double,
          two_pow_le 0 k (omega arith),
        )) in
      rw (fits, small)
  | inr large ↦
      let over : ltb (2 ^ k) 2147483648 ≡ false =
        le→ltb (2 ^ k) 2147483648 (two_pow_le 31 k (ltb→le k 31 large)) in
      rw (over, large)
]

delay-schedule : (k : ℕ) → delay k ≡ schedule k
unfolding delay pause_of
delay-schedule k = ap pause_of (int_pow2-schedule k) ∙ scheduled k
  where
    scheduled : (k : ℕ) → pause_of (if ltb k 31 then some (2 ^ k) else none) ≡ schedule k
    scheduled zero = refl
    scheduled (suc zero) = refl
    scheduled (suc (suc zero)) = refl
    scheduled (suc (suc (suc zero))) = refl
    scheduled (suc (suc (suc (suc zero)))) = refl
    scheduled (suc (suc (suc (suc (suc k))))) =
        let n : ℕ = suc (suc (suc (suc (suc k)))) in
        let late : ltb n 5 ≡ false = le→ltb n 5 (omega arith) in
        elim (Bool-cases (ltb n 31)) [
          | inl small ↦
              let capped : min 30 (1 * 2 ^ n) ≡ 30 = grind (arith, two_pow_le 5 n (omega arith)) in
              rw (small, late, capped)
          | inr large ↦ rw (large, late)
        ]

-- Reads that fail in a row.
abbrev failures : ℕ → ℕ → List Event
failures errno n = replicate n (read (read_error errno))

module _ {World : Type 0} where
  loop-read :
      (r : ReadResult) (es : List Event) (d : ChifDaemon World)
      (after : ChifDaemon World × List Output)
      → d.running ≡ true
      → step r d ≡ after
      → (loop (read r ∷ es) d).1 ≡ after.1 ++ (loop es after.0).1
  unfolding loop
  loop-read r es d after up stepped =
      ap (λ on. (branch on).1) up
      ∙ ap (λ (now : ChifDaemon World × List Output). now.1 ++ (loop es now.0).1) stepped
    where
      branch : Bool → ChifDaemon World × List Output
      branch on =
          if on
          then ((loop es (step r d).0).0, (step r d).1 ++ (loop es (step r d).0).1)
          else (d, [])

module _ {World : Type 0} (errno : ℕ) (fails : (errno == eintr) ≡ false) where
  on_error-early :
      (d : ChifDaemon World)
      → d.consecutive_errors < 9
      → on_error errno d ≡ (record d { consecutive_errors = d.consecutive_errors + 1 }, [])
  unfolding on_error
  on_error-early d early =
      let few : leb 10 (d.consecutive_errors + 1) ≡ false = ground arith in rw (fails, few)

  on_error-late :
      (d : ChifDaemon World)
      → 9 ≤ d.consecutive_errors
      → on_error errno d ≡ (
        record d {
          consecutive_errors = d.consecutive_errors + 1;
          error_retry_counter = d.error_retry_counter + 1;
        },
        delay d.error_retry_counter ∷ [],
      )
  unfolding on_error
  on_error-late d late =
      let many : leb 10 (d.consecutive_errors + 1) ≡ true = ground arith in rw (fails, many)

  loop-late :
      (n : ℕ) (d : ChifDaemon World)
      → d.running ≡ true
      → 9 ≤ d.consecutive_errors
      → (loop (failures errno n) d).1 ≡ pauses_from d.error_retry_counter n
  unfolding loop step pauses_from
  loop-late zero d up late = refl
  loop-late (suc n) d up late =
      let next : ChifDaemon World = record d {
        consecutive_errors = d.consecutive_errors + 1;
        error_retry_counter = d.error_retry_counter + 1;
      } in
      let rest = loop-late n next up (omega (arith, late)) in
      loop-read (read_error errno) (failures errno n) d (next, delay d.error_retry_counter ∷ []) up
        (on_error-late d late)
      ∙ ap₂ ◌∷◌ (delay-schedule d.error_retry_counter) rest

  loop-early :
      (m n : ℕ) (d : ChifDaemon World)
      → d.running ≡ true
      → d.consecutive_errors + m ≡ 9
      → (loop (failures errno m ++ failures errno n) d).1 ≡ pauses_from d.error_retry_counter n
  unfolding step
  loop-early zero n d up at = loop-late n d up (omega (arith, at))
  loop-early (suc m) n d up at =
      let next : ChifDaemon World = record d { consecutive_errors = d.consecutive_errors + 1 } in
      loop-read (read_error errno) (failures errno m ++ failures errno n) d (next, []) up
        (on_error-early d (omega (arith, at)))
      ∙ loop-early m n next up (omega (arith, at))

  -- Where all reads fail with one errno that is not EINTR: the first nine do not make the daemon
  -- pause. Each later one does, for 1, 2, 4, 8 and 16 seconds and then for 30 seconds each time, up
  -- to the 31st pause. The length of the pauses after that is undefined.
  pub run-pauses :
      (n : ℕ) (d : ChifDaemon World)
      → (run (failures errno 9 ++ failures errno n) d).1 ≡ pauses_from 0 n
  unfolding run
  run-pauses n d =
      loop-early 9 n (record d { running = true; consecutive_errors = 0; error_retry_counter = 0 })
        refl refl

module _ {World : Type 0} where
  loop-down : (es : List Event) (d : ChifDaemon World) → d.running ≡ false → (loop es d).1 ≡ []
  unfolding loop stop
  loop-down [] d down = refl
  loop-down (signal ∷ es) d down = loop-down es (stop d) refl
  loop-down (read r ∷ es) d down = ap (λ on. (branch on).1) down
    where
      branch : Bool → ChifDaemon World × List Output
      branch on =
          if on
          then ((loop es (step r d).0).0, (step r d).1 ++ (loop es (step r d).0).1)
          else (d, [])

  -- A `stop` during the loop ends it: the daemon writes what it writes for the events before.
  loop-stop :
      (es fs : List Event) (d : ChifDaemon World) → (loop (es ++ (signal ∷ fs)) d).1 ≡ (loop es d).1
  unfolding loop stop
  loop-stop [] fs d = loop-down fs (stop d) refl
  loop-stop (signal ∷ es) fs d = loop-stop es fs (stop d)
  loop-stop (read r ∷ es) fs d = elim (Bool-cases d.running) [
    | inl up ↦
        loop-read r (es ++ (signal ∷ fs)) d (step r d) up refl
        ∙ (ap (λ (os : List Output). (step r d).1 ++ os) (loop-stop es fs (step r d).0)
            ∙ sym (loop-read r es d (step r d) up refl))
    | inr down ↦
        loop-down (read r ∷ (es ++ (signal ∷ fs))) d down ∙ sym (loop-down (read r ∷ es) d down)
  ]
