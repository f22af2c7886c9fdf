-- ===== src/Bridge/Retry.antt =====
-- src/smart-contracts/use-cases/bridge/guardian/vaa.ts: `fetchWithRetry`. What each call of the
-- fetched function returns, how long it takes and how long each timer really sleeps are parameters.
use kalvora_js.Common.{
  ℕ, zero, suc, ◌+◌, ◌≤◌, ◌<◌, ◌≡◌, ◌⊎◌, inl, inr, refl, ap, ◌∙◌, false, Option, none, some, arith,
  Result, ok, err, Result-cases, Bool-cases, if◌then◌else◌,
}
use kalvora_js.Common.Int.{ℤ, pos, ◌+ℤ◌, ◌-ℤ◌, ◌≤ℤ◌, pos_part, neg_part, ltb_ℤ, +ℤ_parts, -ℤ_parts}

abbrev or_default : ℕ → Option ℕ → ℕ
or_default d none = d
or_default d (some n) = n

abbrev min_ℤ : ℤ → ℤ → ℤ
min_ℤ a b = if ltb_ℤ b a then b else a

-- `options.maxElapsedMs` and `options.initialDelayMs`, in whole milliseconds.
pub record RetryOptions : Type 0 where
  pub max_elapsed_ms : Option ℕ
  pub initial_delay_ms : Option ℕ

-- The environment of a run, by the number of the attempt, counted from 1.
pub record Attempts (E A : Type 0) : Type 0 where
  -- What `fn()` returns, and the milliseconds on the clock until it has returned.
  pub outcome : ℕ → Result E A
  pub takes : ℕ → ℕ
  -- The milliseconds on the clock for the timer behind the attempt, set to a delay.
  pub sleeps : ℕ → ℤ → ℕ

Nat-cases : (m k : ℕ) → m ≤ k → (k ≡ m) ⊎ (suc m ≤ k)
Nat-cases m k h = ground arith

-- A round that goes on leaves enough fuel for the next one.
enough_left :
    (max elapsed failed woken fuel : ℕ)
    → ((max < elapsed) ⊎ (max + 2 ≤ suc fuel + elapsed))
    → elapsed < failed
    → failed ≤ max
    → failed ≤ woken
    → (0 < fuel) × ((max < woken) ⊎ (max + 2 ≤ fuel + woken))
enough_left max elapsed failed woken fuel left later in_time slept = ground arith

module _ {E A : Type 0} (env : Attempts E A) where
  open env use {outcome, takes, sleeps}

  -- The loop, on fuel; `elapsed` is the time on the clock at the start of the round. The result has
  -- the number of the last attempt; `none` is a run that the fuel does not finish.
  unfoldable pub retry_loop : ℕ → ℕ → ℕ → ℕ → ℤ → Option (ℕ × Result E A)
  retry_loop zero max attempt elapsed delay = none
  retry_loop (suc fuel) max attempt elapsed delay =
      let failed = elapsed + takes attempt in
      let woken = failed + sleeps attempt delay in
      let again =
        retry_loop fuel max (suc attempt) woken (min_ℤ (delay +ℤ delay) (pos max -ℤ pos woken)) in
      elim (outcome attempt) [
        | ok result ↦ some (attempt, ok result)
        | err error ↦
            if ltb_ℤ (pos max) (pos failed +ℤ delay) then some (attempt, err error) else again
      ]

  unfoldable pub fetch_with_retry : ℕ → RetryOptions → Option (ℕ × Result E A)
  fetch_with_retry fuel options =
      retry_loop fuel (or_default 120_000 options.max_elapsed_ms) 1 0
        (pos (or_default 1_000 options.initial_delay_ms))

  -- Every attempt from the first up to the last (not included) failed.
  abbrev pub AllFailed : ℕ → ℕ → Type 0
  AllFailed first last = (k : ℕ) → first ≤ k → k < last → (e : E) × (outcome k ≡ err e)

  -- A delay is not negative, or it is the time that is left.
  abbrev Paced : ℕ → ℕ → ℤ → Type 0
  Paced max elapsed delay = (pos 0 ≤ℤ delay) ⊎ (delay ≡ pos max -ℤ pos elapsed)

  next-Paced :
      (max woken : ℕ) (delay : ℤ)
      → pos 0 ≤ℤ delay
      → Paced max woken (min_ℤ (delay +ℤ delay) (pos max -ℤ pos woken))
  next-Paced max woken delay h = elim (Bool-cases (ltb_ℤ (pos max -ℤ pos woken) (delay +ℤ delay))) [
    | inl less ↦ inr (rw less refl)
    | inr more ↦ inl (rw more (omega (arith, +ℤ_parts delay delay)))
  ]

  -- A round that goes on has a delay that is not negative, and failed in time.
  goes_on :
      (max elapsed failed : ℕ) (delay : ℤ)
      → elapsed < failed
      → Paced max elapsed delay
      → ltb_ℤ (pos max) (pos failed +ℤ delay) ≡ false
      → (pos 0 ≤ℤ delay) × (failed ≤ max)
  goes_on max elapsed failed delay later (inl h) within =
      (h, ground (arith, +ℤ_parts (pos failed) delay))
  goes_on max elapsed failed delay later (inr e) within = absurd (
      ground (
        arith,
        +ℤ_parts (pos failed) delay,
        -ℤ_parts (pos max) (pos elapsed),
        ap pos_part e,
        ap neg_part e,
      ))

  -- The fuel that a round has: some, and more than the time that is left.
  abbrev Enough : ℕ → ℕ → ℕ → Type 0
  Enough fuel max elapsed = (0 < fuel) × ((max < elapsed) ⊎ (max + 2 ≤ fuel + elapsed))

  -- The run ends with what some attempt returned, all earlier ones having failed.
  abbrev pub Ends : ℕ → ℕ → Option (ℕ × Result E A) → Type 0
  Ends first fuel run =
      (last : ℕ) × (run ≡ some (last, outcome last))
      × (first ≤ last)
      × (last < first + fuel)
      × AllFailed first last

  one_more :
      (first last : ℕ) (e : E)
      → outcome first ≡ err e
      → AllFailed (suc first) last
      → AllFailed first last
  one_more first last e h failed k low high = elim (Nat-cases first k low) [
    | inl same ↦ (e, ap outcome same ∙ h)
    | inr later ↦ failed k later high
  ]

  retry_loop-Ends :
      ((k : ℕ) → 0 < takes k)
      → (fuel max attempt elapsed : ℕ) (delay : ℤ) → Enough fuel max elapsed
      → Paced max elapsed delay
      → Ends attempt fuel (retry_loop fuel max attempt elapsed delay)
  unfolding retry_loop
  retry_loop-Ends slow zero max attempt elapsed delay (some_left, _) paced = absurd (omega arith)
  retry_loop-Ends slow (suc fuel) max attempt elapsed delay (some_left, left) paced =
      elim (Result-cases (outcome attempt)) [
        | inl (a, found) ↦ (
          attempt,
          rw (found, retry_loop) refl,
          omega arith,
          omega arith,
          λ k low high. absurd (omega arith),
        )
        | inr (e, missed) ↦
            elim (Bool-cases (ltb_ℤ (pos max) (pos (elapsed + takes attempt) +ℤ delay))) [
              | inl over ↦ (
                attempt,
                rw (missed, retry_loop, over) refl,
                omega arith,
                omega arith,
                λ k low high. absurd (omega arith),
              )
              | inr within ↦
                  let failed = elapsed + takes attempt in
                  let woken = failed + sleeps attempt delay in
                  let (ahead, in_time) =
                    goes_on max elapsed failed delay (omega (arith, slow attempt)) paced within in
                  let (last, run, low, high, missed_all) =
                    retry_loop-Ends slow fuel max (suc attempt) woken
                      (min_ℤ (delay +ℤ delay) (pos max -ℤ pos woken))
                      (enough_left max elapsed failed woken fuel left (omega (arith, slow attempt))
                        in_time (omega arith))
                      (next-Paced max woken delay ahead) in
                  (
                    last,
                    rw (missed, retry_loop, within) run,
                    omega arith,
                    omega arith,
                    one_more attempt last e missed missed_all,
                  )
            ]
      ]

  -- Where every attempt takes a millisecond or more, the loop ends before one attempt more than the
  -- limit has milliseconds, and two: it returns what the last attempt gave, and all before it failed.
  pub fetch_with_retry-ends :
      ((k : ℕ) → 0 < takes k)
      → (options : RetryOptions)
      → (last : ℕ) × (fetch_with_retry (or_default 120_000 options.max_elapsed_ms + 2) options
          ≡ some (last, outcome last))
        × (1 ≤ last)
        × (last < 1 + (or_default 120_000 options.max_elapsed_ms + 2))
        × AllFailed 1 last
  unfolding fetch_with_retry
  fetch_with_retry-ends slow options =
      retry_loop-Ends slow (or_default 120_000 options.max_elapsed_ms + 2)
        (or_default 120_000 options.max_elapsed_ms) 1 0
        (pos (or_default 1_000 options.initial_delay_ms)) (omega arith, inr (omega arith))
        (inl (omega arith))

  -- The next delay never passes the limit.
  fits_next :
      (max woken : ℕ) (doubled : ℤ) → pos woken +ℤ min_ℤ doubled (pos max -ℤ pos woken) ≤ℤ pos max
  fits_next max woken doubled = ground (
    arith,
    +ℤ_parts (pos woken) (min_ℤ doubled (pos max -ℤ pos woken)),
    -ℤ_parts (pos max) (pos woken),
  )

  retry_loop-endless :
      ((k : ℕ) → takes k ≡ 0)
      → ((k : ℕ) → (e : E) × (outcome k ≡ err e))
      → (fuel max attempt elapsed : ℕ) (delay : ℤ) → pos elapsed +ℤ delay ≤ℤ pos max
      → retry_loop fuel max attempt elapsed delay ≡ none
  unfolding retry_loop
  retry_loop-endless instant failing zero max attempt elapsed delay h = refl
  retry_loop-endless instant failing (suc fuel) max attempt elapsed delay h =
      let (e, missed) = failing attempt in
      let woken = elapsed + takes attempt + sleeps attempt delay in
      let within : ltb_ℤ (pos max) (pos (elapsed + takes attempt) +ℤ delay) ≡ false = ground (
        arith,
        instant attempt,
        +ℤ_parts (pos (elapsed + takes attempt)) delay,
        +ℤ_parts (pos elapsed) delay,
      ) in
      rw (missed, retry_loop, within)
        (retry_loop-endless instant failing fuel max (suc attempt) woken
          (min_ℤ (delay +ℤ delay) (pos max -ℤ pos woken)) (fits_next max woken (delay +ℤ delay)))

  -- Where every attempt fails in less than a millisecond on the clock and the first delay is within
  -- the limit, no number of rounds ends the loop, however far the time is past the limit.
  pub fetch_with_retry-endless :
      ((k : ℕ) → takes k ≡ 0)
      → ((k : ℕ) → (e : E) × (outcome k ≡ err e))
      → (fuel : ℕ) (options : RetryOptions)
      → or_default 1_000 options.initial_delay_ms ≤ or_default 120_000 options.max_elapsed_ms
      → fetch_with_retry fuel options ≡ none
  unfolding fetch_with_retry
  fetch_with_retry-endless instant failing fuel options h =
      retry_loop-endless instant failing fuel (or_default 120_000 options.max_elapsed_ms) 1 0
        (pos (or_default 1_000 options.initial_delay_ms))
        (omega (arith, +ℤ_parts (pos 0) (pos (or_default 1_000 options.initial_delay_ms))))
