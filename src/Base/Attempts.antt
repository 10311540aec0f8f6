-- ===== src/Base/Attempts.antt =====
-- The reference for a loop that tries up to `n` rounds: the first round that gives something.
use Prim.Native.Nat.{ℕ, zero, suc, ◌+◌, ◌≤◌, ◌<◌}
use mathlib.Core.Path.{◌≡◌, refl}
use mathlib.Core.Logic.{◌⊎◌, inl, inr}
use mathlib.Core.Option.{Option, none, some}
use native.Mathlib.Omega.{arith}
use uber.Base.Tests.{Option-cases, Bool-cases, leb}

module _ {ℓ} {A : Type ℓ} (round : ℕ → Option A) where
  -- The rounds from `i` on, at most `n`.
  unfoldable pub first_round : (n i : ℕ) → Option (ℕ × A)
  first_round zero i = none
  first_round (suc n) i = elim (round i) [ some a ↦ some (i, a) | none ↦ first_round n (suc i) ]

  -- Round `k` is the first of those from `i` on that gives something.
  abbrev pub IsFirst : (i k : ℕ) → A → Type ℓ
  IsFirst i k a = (i ≤ k) × (round k ≡ some a) × ((j : ℕ) → i ≤ j → j < k → round j ≡ none)

  also_first :
      (i m : ℕ)
      → round i ≡ none
      → ((j : ℕ) → suc i ≤ j → j < m → round j ≡ none)
      → (j : ℕ) → i ≤ j
      → j < m
      → round j ≡ none
  also_first i m missed after j low high = elim (Bool-cases (leb (suc i) j)) [
    | inl later ↦ after j (ground arith) high
    | inr now ↦ let same : j ≡ i = ground arith in rw same missed
  ]

  pub first_round_cases :
      (n i : ℕ)
      → ((k : ℕ) × (a : A) × (k < i + n) × IsFirst i k a × (first_round n i ≡ some (k, a)))
        ⊎ (((j : ℕ) → i ≤ j → j < i + n → round j ≡ none) × (first_round n i ≡ none))
  unfolding first_round
  first_round_cases zero i = inr (λ j low high. absurd (omega arith), refl)
  first_round_cases (suc n) i = elim (Option-cases (round i)) [
    | inr (a, found) ↦ inl (
      i,
      a,
      omega arith,
      (omega arith, found, λ j low high. absurd (omega arith)),
      rw (found, first_round) refl,
    )
    | inl missed ↦ elim (first_round_cases n (suc i)) [
      | inl (k, a, bound, (low, found, before), same) ↦ inl (
        k,
        a,
        omega arith,
        (omega arith, found, also_first i k missed before),
        rw (missed, first_round) same,
      )
      | inr (all, same) ↦ inr (
        λ j low high. also_first i (suc i + n) missed all j low (omega arith),
        rw (missed, first_round) same,
      )
    ]
  ]
