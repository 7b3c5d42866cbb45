-- ===== src/Producer/Sleep.antt =====
-- The sleep between two turns.
use pub_sub_crawl.Base.{
  ℕ, zero, suc, ◌+◌, ◌-◌, ◌*◌, ◌/◌, ◌%◌, ◌≤◌, ◌<◌, ◌≡◌, ◌≢◌, inl, inr, refl, subst, Bool, true,
  false, some, List, [], ◌∷◌, arith, ltb, Bool-cases, length, All, u32_mod, ◌&&◌, not,
}
use pub_sub_crawl.Producer.{sleep_from, producer_sleep, slice_of, sleep_slice_ms}

abbrev pub total_of : List ℕ → ℕ
total_of [] = 0
total_of (x ∷ xs) = x + total_of xs

abbrev pub IsSlice : ℕ → Type 0
IsSlice x = (0 < x) × (x ≤ sleep_slice_ms)

-- The slices of a sleep of `total_ms`, asked from the `i`-th time on.
pub record Slept (asked : ℕ → Bool) (i total_ms : ℕ) (slices : List ℕ) : Type 0 where
  pub short : All IsSlice slices
  pub bounded : total_of slices ≤ total_ms
  pub whole : ((j : ℕ) → asked j ≡ false) → total_of slices ≡ total_ms
  pub prompt : (j : ℕ) → i ≤ j → asked j ≡ true → length slices + i ≤ j

sleep_from-Slept :
    (fuel : ℕ) (asked : ℕ → Bool) (i total slept : ℕ)
    → slept ≤ total
    → total < u32_mod
    → total - slept + 100 ≤ 100 * fuel
    → (slices : List ℕ) × (sleep_from fuel asked i total slept ≡ some slices)
      × Slept asked i (total - slept) slices
unfolding sleep_from
sleep_from-Slept zero asked i total slept le small enough = absurd (omega arith)
sleep_from-Slept (suc fuel) asked i total slept le small enough =
    elim (Bool-cases (ltb slept total && not (asked i))) [
      | inr stop ↦ (
        [],
        rw (stop, sleep_from) refl,
        record {
          short = tt;
          bounded = omega arith;
          whole = λ h. let quiet = h i in ground arith;
          prompt = λ j h k. omega arith;
        },
      )
      | inl on ↦
          let x : ℕ = slice_of total slept in
          let fits : (0 < x)
              × (x ≤ 100)
              × (slept + x ≤ total)
              × (total - (slept + x) + 100 ≤ 100 * fuel) =
            ground arith in
          let at : (slept + x) % u32_mod ≡ slept + x = omega (arith, fits, small) in
          let (slices, run, d) =
            sleep_from-Slept fuel asked (i + 1) total ((slept + x) % u32_mod) (omega (arith, fits))
              small (omega (arith, fits)) in
          (
            x ∷ slices,
            rw (on, run, sleep_from) refl,
            record {
              short = ((fits.0, fits.1), d.short);
              bounded = omega (arith, d.bounded, at, fits);
              whole = λ h. omega (arith, d.whole h, at, fits);
              prompt = λ j h k.
                  let later : i ≢ j = λ e. ground arith in
                  omega (arith, d.prompt j (omega arith) k);
            },
          )
    ]

-- A sleep always ends. Each slice is of 1 to 100 ms and together they are not longer than asked for;
-- with no shutdown they are exactly that long, and if `shutdown_requested()` is true the `j`-th time
-- it is asked, at most `j` slices are slept.
pub producer_sleep-Slept :
    (asked : ℕ → Bool) (total_ms : ℕ)
    → total_ms < u32_mod
    → (slices : List ℕ) × (producer_sleep asked total_ms ≡ some slices)
      × Slept asked 0 total_ms slices
unfolding producer_sleep
producer_sleep-Slept asked total small =
    subst
      (λ k.
        (slices : List ℕ) × (sleep_from (total / 100 + 2) asked 0 total 0 ≡ some slices)
        × Slept asked 0 k slices)
      {x = total - 0} (omega arith)
      (sleep_from-Slept (total / 100 + 2) asked 0 total 0 (omega arith) small (omega arith))
