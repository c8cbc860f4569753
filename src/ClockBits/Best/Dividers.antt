-- ===== src/ClockBits/Best/Dividers.antt =====
-- lib/raw/calculate-clock-bits.c: the loop over the output divider.
use fscc_linux.Prelude.{
  ℕ, zero, suc, ◌≤◌, ◌<◌, ◌≡◌, refl, ap, sym, ◌∙◌, arith, ◌⊎◌, inl, inr, true, Bool-cases, Option,
  none, some, Option-cases, ltb, or_else,
}
use fscc_linux.ClockBits.Search.{Solution, next_od, od_loop}
use fscc_linux.ClockBits.Settings.{IsOnGrid, IsVisited}

next_od-IsOnGrid : (od : ℕ) → IsOnGrid od → IsOnGrid (next_od od)
unfolding next_od
next_od-IsOnGrid od k = record {
  high = ground (arith, k.high);
  even = λ above. ground (arith, k.even, k.quads, k.octets);
  quads = λ above. ground (arith, k.quads, k.octets);
  octets = λ above. ground (arith, k.octets);
}

next_od-lt : (od : ℕ) → 1 < od → next_od od < od
unfolding next_od
next_od-lt od low = ground arith

-- No divider of the grid is passed over.
next_od-ge : (od next : ℕ) → IsOnGrid od → IsOnGrid next → next < od → next ≤ next_od od
unfolding next_od
next_od-ge od next k n below = ground (arith, k.even, k.quads, k.octets, n.even, n.quads, n.octets)

-- The loop from `from` on ends with the answer of the highest divider that has one.
pub record IsHighest (try : ℕ → Option Solution) (from : ℕ) (s : Solution) : Type 0 where
  pub od : ℕ
  pub visited : IsVisited od
  pub answers : try od ≡ some s
  pub higher : (other : ℕ) → IsVisited other → od < other → other ≤ from → try other ≡ none

same_or_lt : (other od : ℕ) → other ≤ od → (other ≡ od) ⊎ (other < od)
same_or_lt other od below = ground arith

module _ (try : ℕ → Option Solution) where
  pub od_loop-some :
      (rounds od : ℕ) (s : Solution)
      → IsOnGrid od
      → od_loop try rounds od ≡ some s
      → IsHighest try od s
  unfolding od_loop
  od_loop-some zero od s k e = absurd (cc)
  od_loop-some (suc rounds) od s k e = elim (Bool-cases (ltb 1 od)) [
    | inr stop ↦ absurd (ground arith)
    | inl go ↦ elim (Option-cases (try od)) [
      | inr (t, h) ↦ record {
        od = od;
        visited = record { low = ground arith; grid = k };
        answers = ground arith;
        higher = λ other v above below. absurd (omega arith);
      }
      | inl h ↦
          let rest = od_loop-some rounds (next_od od) s (next_od-IsOnGrid od k) (ground arith) in
          record {
            od = rest.od;
            visited = rest.visited;
            answers = rest.answers;
            higher = λ other v above below. elim (same_or_lt other od below) [
              | inl same ↦ rw same h
              | inr under ↦ rest.higher other v above (next_od-ge od other k v.grid under)
            ];
          }
    ]
  ]

  pub od_loop-none :
      (rounds od : ℕ)
      → od ≤ rounds
      → IsOnGrid od
      → od_loop try rounds od ≡ none
      → (other : ℕ) → IsVisited other
      → other ≤ od
      → try other ≡ none
  unfolding od_loop
  od_loop-none zero od enough k e other v below = absurd (omega (arith, v.low))
  od_loop-none (suc rounds) od enough k e other v below =
      let low : ltb 1 od ≡ true = ground (arith, v.low) in
      elim (Option-cases (try od)) [
        | inr (t, h) ↦ absurd (ground arith)
        | inl h ↦ elim (same_or_lt other od below) [
          | inl same ↦ rw same h
          | inr under ↦
              od_loop-none rounds (next_od od) (omega (arith, next_od-lt od (omega (arith, v.low))))
                (next_od-IsOnGrid od k) (ground arith) other v (next_od-ge od other k v.grid under)
        ]
      ]

  od_loop_stop : (rounds : ℕ) → od_loop try rounds 0 ≡ none
  unfolding od_loop
  od_loop_stop zero = refl
  od_loop_stop (suc rounds) = refl

  -- Rounds beyond the divider itself change nothing, so the fuel never ends the loop.
  od_loop_bounded :
      (bound rounds od : ℕ) → od ≤ bound → od ≤ rounds → od_loop try rounds od ≡ od_loop try od od
  unfolding od_loop
  od_loop_bounded zero rounds od below enough =
      let e : od ≡ 0 = omega arith in rw e (od_loop_stop rounds)
  od_loop_bounded (suc bound) zero od below enough = let e : od ≡ 0 = omega arith in rw e refl
  od_loop_bounded (suc bound) (suc rounds) zero below enough = refl
  od_loop_bounded (suc bound) (suc rounds) (suc od) below enough =
      elim (Bool-cases (ltb 1 (suc od))) [
        | inr stop ↦ rw stop refl
        | inl go ↦
            let next = next_od (suc od) in
            let less : next < suc od = next_od-lt (suc od) (ground arith) in
            rw go (
              ap (or_else (try (suc od))) (
                od_loop_bounded bound rounds next (omega arith) (omega arith)
                ∙ sym (od_loop_bounded bound od next (omega arith) (omega arith))))
      ]

  -- Each round of the loop over the output divider, which goes on above 1, makes the divider
  -- smaller, and so the loop ends: as many rounds as the divider that it starts from, or any number
  -- more, come to the same.
  pub od_loop-enough :
      (rounds od : ℕ)
      → 1 < od
      → od ≤ rounds
      → (next_od od < od) × (od_loop try rounds od ≡ od_loop try od od)
  od_loop-enough rounds od low enough =
      (next_od-lt od low, od_loop_bounded od rounds od (omega arith) enough)
