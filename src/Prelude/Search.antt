-- ===== src/Prelude/Search.antt =====
-- `for` loops that leave by a `goto` at the first round that has an answer.
use Prim.Native.Nat.{ℕ, zero, suc, ◌+◌, ◌≤◌, ◌<◌}
use mathlib.Core.Path.{◌≡◌}
use mathlib.Core.Logic.{◌⊎◌, inl, inr}
use mathlib.Core.Option.{Option, none, some}
use native.Mathlib.Omega.{arith}
use fscc_linux.Prelude.Tests.{Option-cases}

module _ {ℓ} {A : Type ℓ} where
  abbrev pub or_else : Option A → Option A → Option A
  or_else (some a) other = some a
  or_else none other = other

  -- `for (i = start; i < start + count; i++)`: `none` is `continue`.
  unfoldable pub first_from : (ℕ → Option A) → ℕ → ℕ → Option A
  first_from f start zero = none
  first_from f start (suc count) = or_else (f start) (first_from f (start + 1) count)

-- The first of the rounds with an answer.
pub record IsFirst {ℓ} {A : Type ℓ} (f : ℕ → Option A) (start count : ℕ) (a : A) : Type ℓ where
  pub at : ℕ
  pub from : start ≤ at
  pub below : at < start + count
  pub answers : f at ≡ some a
  pub earlier : (i : ℕ) → start ≤ i → i < at → f i ≡ none

split : (start i : ℕ) → start ≤ i → (i ≡ start) ⊎ (start + 1 ≤ i)
split start i low = ground arith

module _ {ℓ} {A : Type ℓ} where
  pub first_from-some :
      (f : ℕ → Option A) (start count : ℕ) (a : A)
      → first_from f start count ≡ some a
      → IsFirst f start count a
  unfolding first_from
  first_from-some f start zero a e = absurd (cc)
  first_from-some f start (suc count) a e = elim (Option-cases (f start)) [
    | inl h ↦
        let found = first_from-some f (start + 1) count a (rw h at e) in
        record {
          at = found.at;
          from = omega (arith, found.from);
          below = omega (arith, found.below);
          answers = found.answers;
          earlier = λ i low high. elim (split start i low) [
            | inl same ↦ rw same h
            | inr above ↦ found.earlier i above high
          ];
        }
    | inr (b, h) ↦ record {
      at = start;
      from = omega arith;
      below = omega arith;
      answers = cc;
      earlier = λ i low high. absurd (omega arith);
    }
  ]

  pub first_from-none :
      (f : ℕ → Option A) (start count : ℕ)
      → first_from f start count ≡ none
      → (i : ℕ) → start ≤ i
      → i < start + count
      → f i ≡ none
  unfolding first_from
  first_from-none f start zero e i low high = absurd (omega arith)
  first_from-none f start (suc count) e i low high = elim (Option-cases (f start)) [
    | inl h ↦ elim (split start i low) [
      | inl same ↦ rw same h
      | inr above ↦ first_from-none f (start + 1) count (rw h at e) i above (omega arith)
    ]
    | inr (b, h) ↦ absurd (cc)
  ]
