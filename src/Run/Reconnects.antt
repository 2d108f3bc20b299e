-- ===== src/Run/Reconnects.antt =====
-- How often src/main.rs reconnects.
use openfortivpn_rs.Common.{
  ℕ, zero, suc, ◌+◌, ◌≤◌, ◌<◌, true, false, Option, some, ◌==◌, ==_iff, Bool-cases, inl, inr, ◌≡◌,
  ◌≢◌, ◌⊎◌, Bool, none, leb, subst, sym, refl, ap, ◌∙◌, arith,
}
use openfortivpn_rs.Common.Error.{Result}
use openfortivpn_rs.Config.Settings.{Config}
use openfortivpn_rs.Run.{Attempt, ends_with, stops_waiting, reconnect_loop, run_with_persistence}

-- A stop is seen in one of the seconds of the wait.
abbrev pub StopsIn : (ℕ → Bool) → ℕ → Type 0
StopsIn stop seconds = (second : ℕ) × (second < seconds) × (stop second ≡ true)

-- The wait behind an attempt, in seconds.
abbrev pub delay : Config → ℕ
delay config = elim config.reconnect_delay [ none ↦ 0 | some seconds ↦ seconds ]

-- Why no attempt follows: a stop was requested when it ended, no reconnect is left, or a stop is seen in
-- the wait.
abbrev pub IsLast : Config → Attempt → ℕ → Type 0
IsLast config attempt reconnects =
    (attempt.stop_requested ≡ true)
    ⊎ ((config.max_reconnects ≡ reconnects) ⊎ StopsIn attempt.stop_in_wait (delay config))

-- No reason of those.
abbrev pub GoesOn : Config → Attempt → ℕ → Type 0
GoesOn config attempt reconnects =
    (attempt.stop_requested ≡ false)
    × (reconnects < config.max_reconnects)
    × ((second : ℕ) → second < delay config → attempt.stop_in_wait second ≡ false)

-- The loop returns the result of attempt `last`, the first that no other follows.
pub record Returns (runs : ℕ → Attempt) (config : Config) (from : ℕ)
    (returned : Option (Result (Unit {0}) × ℕ)) : Type 0 where
  pub last : ℕ
  pub returns : returned ≡ some ((runs last).result, last)
  pub after : from ≤ last
  pub bounded : last ≤ config.max_reconnects
  pub is_last : IsLast config (runs last) last
  pub earlier_go_on : (n : ℕ) → from ≤ n → n < last → GoesOn config (runs n) n

stops_waiting-true :
    (seconds : ℕ) (stop : ℕ → Bool) → stops_waiting seconds stop ≡ true → StopsIn stop seconds
unfolding stops_waiting
stops_waiting-true zero stop h = absurd (cc h)
stops_waiting-true (suc seconds) stop h = elim (Bool-cases (stops_waiting seconds stop)) [
  | inl e ↦
      let (second, below, seen) = stops_waiting-true seconds stop e in
      (second, omega (arith, below), seen)
  | inr e ↦ (seconds, omega arith, rw e at h)
]

stops_waiting-false :
    (seconds : ℕ) (stop : ℕ → Bool)
    → stops_waiting seconds stop ≡ false
    → (second : ℕ) → second < seconds
    → stop second ≡ false
unfolding stops_waiting
stops_waiting-false zero stop h second below = absurd (omega (arith, below))
stops_waiting-false (suc seconds) stop h second below =
    elim (Bool-cases (stops_waiting seconds stop)) [
      | inl e ↦ absurd (cc (rw e at h))
      | inr e ↦ elim (Bool-cases (second == seconds)) [
        | inl same ↦ ap stop ((==_iff second seconds).0 same) ∙ (rw e at h)
        | inr other ↦
            let apart : second ≢ seconds = λ q. cc ((==_iff second seconds).1 q, other) in
            stops_waiting-false seconds stop e second (omega (arith, below, apart))
      ]
    ]

ends_with-IsLast :
    (config : Config) (attempt : Attempt) (n : ℕ)
    → n ≤ config.max_reconnects
    → ends_with config attempt n ≡ true
    → IsLast config attempt n
unfolding ends_with
ends_with-IsLast config attempt n bound h = elim (Bool-cases attempt.stop_requested) [
  | inl e ↦ inl e
  | inr e ↦ elim (Bool-cases (leb config.max_reconnects n)) [
    | inl reached ↦ inr (inl ground arith)
    | inr left ↦ inr (inr (stops_waiting-true (delay config) attempt.stop_in_wait (ground arith)))
  ]
]

ends_with-GoesOn :
    (config : Config) (attempt : Attempt) (n : ℕ)
    → ends_with config attempt n ≡ false
    → GoesOn config attempt n
unfolding ends_with
ends_with-GoesOn config attempt n h = (
  ground arith,
  ground arith,
  stops_waiting-false (delay config) attempt.stop_in_wait (ground arith),
)

ends_at_most :
    (config : Config) (attempt : Attempt) → ends_with config attempt config.max_reconnects ≡ true
unfolding ends_with
ends_at_most config attempt = ground arith

first-GoesOn :
    (runs : ℕ → Attempt) (config : Config) (from last : ℕ)
    → ends_with config (runs from) from ≡ false
    → ((n : ℕ) → from + 1 ≤ n → n < last → GoesOn config (runs n) n)
    → (n : ℕ) → from ≤ n
    → n < last
    → GoesOn config (runs n) n
first-GoesOn runs config from last e later n a b = elim (Bool-cases (n == from)) [
  | inl q ↦
      let same : n ≡ from = (==_iff n from).0 q in
      subst (λ m. GoesOn config (runs m) m) (sym same) (ends_with-GoesOn config (runs from) from e)
  | inr q ↦
      let apart : n ≢ from = λ p. cc ((==_iff n from).1 p, q) in later n (omega (arith, apart)) b
]

reconnect_loop-Returns :
    (fuel : ℕ) (runs : ℕ → Attempt) (config : Config) (from : ℕ)
    → from ≤ config.max_reconnects
    → config.max_reconnects < from + fuel
    → Returns runs config from (reconnect_loop fuel runs config from)
unfolding reconnect_loop
reconnect_loop-Returns zero runs config from h f = absurd (omega arith)
reconnect_loop-Returns (suc fuel) runs config from h f =
    elim (Bool-cases (ends_with config (runs from) from)) [
      | inl e ↦ record {
        last = from;
        returns = rw e refl;
        after = omega arith;
        bounded = h;
        is_last = ends_with-IsLast config (runs from) from h e;
        earlier_go_on = λ n a b. absurd (omega (arith, a, b));
      }
      | inr e ↦
          let apart : from ≢ config.max_reconnects =
            λ q. cc (ends_at_most config (runs from), q, e) in
          let below : from < config.max_reconnects = omega (arith, apart) in
          let rest =
            reconnect_loop-Returns fuel runs config (from + 1) (omega arith) (omega arith) in
          record {
            last = rest.last;
            returns = rw e (rest.returns);
            after = omega (arith, rest.after);
            bounded = rest.bounded;
            is_last = rest.is_last;
            earlier_go_on = first-GoesOn runs config from rest.last e rest.earlier_go_on;
          }
    ]

-- The loop over the reconnects ends, with the result of the first attempt that a stop was requested in,
-- that was the last allowed, or that a stop is seen behind, in a second of the wait. Every earlier attempt,
-- failed or not, is followed by another; there are no more than one and `max_reconnects`.
pub run_with_persistence-Returns :
    (runs : ℕ → Attempt) (config : Config)
    → Returns runs config 0 (run_with_persistence runs config)
unfolding run_with_persistence
run_with_persistence-Returns runs config =
    reconnect_loop-Returns (suc config.max_reconnects) runs config 0 (omega arith) (omega arith)
