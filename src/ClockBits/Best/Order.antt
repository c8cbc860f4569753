-- ===== src/ClockBits/Best/Order.antt =====
-- lib/raw/calculate-clock-bits.c: the order in which the search goes through the choices.
use fscc_linux.Prelude.{
  ℕ, ◌+◌, ◌-◌, ◌≤◌, ◌≡◌, ◌≢◌, refl, arith, inl, inr, false, Bool-cases, none, some, Option-cases,
  ltb, first_from-some, first_from-none,
}
use fscc_linux.ClockBits.Search.{
  Solution, breaks_rule2, max_v, max_od, max_r, min_r, v_divstart, solution, try_v, try_od, try_r,
  try_ppm, search,
}
use fscc_linux.ClockBits.Settings.{IsOnGrid}
use fscc_linux.ClockBits.Best.{Choice, IsCandidate, HasNone, IsBestAt, IsBest, IsOutcome}
use fscc_linux.ClockBits.Best.Dividers.{IsHighest, od_loop-some, od_loop-none}
use fscc_linux.ClockBits.Best.Found.{
  IsFoundAt, try_v-some, try_v-none, v_divstart-le, v_divstart-ge, v_divstart-reached,
}

top-IsOnGrid : IsOnGrid max_od
top-IsOnGrid = record {
  high = omega arith;
  even = λ above. refl;
  quads = λ above. refl;
  octets = λ above. refl;
}

module _ (desired ppm : ℕ) where
  -- A candidate is not passed over by any of the loops around it.
  candidate-try_od : (c : Choice) → IsCandidate desired ppm c → try_od ppm desired c.r c.od ≢ none
  unfolding try_od
  candidate-try_od c candidate e =
      let k = candidate.choice in
      let from =
        v_divstart-reached ppm desired c.r c.od c.v candidate.positive candidate.reached k.v_low
          k.v_high in
      try_v-none ppm desired c.r c.od c.v
        (first_from-none (try_v ppm desired c.r c.od) (v_divstart ppm desired c.r c.od)
          (max_v + 1 - v_divstart ppm desired c.r c.od) e c.v from (omega (arith, from, k.v_high)))
        (solution desired c.r c.od c.v c.i c.j)
        (record {
          i = c.i;
          j = c.j;
          i_low = k.i_low;
          j_low = k.j_low;
          rule1 = k.rule1;
          accurate = k.accurate;
          filter = k.filter;
          stored = refl;
        })

  candidate-try_r : (c : Choice) → IsCandidate desired ppm c → try_r ppm desired c.r ≢ none
  unfolding try_r
  candidate-try_r c k e = candidate-try_od c k (
      od_loop-none (try_od ppm desired c.r) max_od max_od (omega arith) top-IsOnGrid
        (rw k.choice.rule2 at e) c.od k.choice.visited k.choice.visited.grid.high)

  candidate-try_ppm : (c : Choice) → IsCandidate desired ppm c → try_ppm desired ppm ≢ none
  unfolding try_ppm
  candidate-try_ppm c k e = candidate-try_r c k (
      first_from-none (try_r ppm desired) min_r (max_r + 1 - min_r) e c.r k.choice.r_low
        (omega (arith, k.choice.r_high)))

  try_r-some :
      (r : ℕ) (s : Solution)
      → try_r ppm desired r ≡ some s
      → (breaks_rule2 r ≡ false) × IsHighest (try_od ppm desired r) max_od s
  unfolding try_r
  try_r-some r s e = elim (Bool-cases (breaks_rule2 r)) [
    | inl bad ↦ absurd (ground arith)
    | inr good ↦
        (good, od_loop-some (try_od ppm desired r) max_od max_od s top-IsOnGrid (rw good at e))
  ]

  try_od-some :
      (r od : ℕ) (s : Solution)
      → try_od ppm desired r od ≡ some s
      → (v : ℕ) × (v_divstart ppm desired r od ≤ v) × (v ≤ 2055) × IsFoundAt ppm desired r od v s
  unfolding try_od
  try_od-some r od s e =
      let start = v_divstart ppm desired r od in
      let found = first_from-some (try_v ppm desired r od) start (max_v + 1 - start) s e in
      (
        found.at,
        found.from,
        omega (arith, found.below, v_divstart-le ppm desired r od),
        try_v-some ppm desired r od found.at s found.answers,
      )

  try_ppm-some : (s : Solution) → try_ppm desired ppm ≡ some s → IsBestAt desired ppm s
  unfolding try_ppm
  try_ppm-some s e =
      let by_r = first_from-some (try_r ppm desired) min_r (max_r + 1 - min_r) s e in
      let (rule2, by_od) = try_r-some by_r.at s by_r.answers in
      let (v, from, to, found) = try_od-some by_r.at by_od.od s by_od.answers in
      record {
        choice = record { r = by_r.at; od = by_od.od; v = v; i = found.i; j = found.j };
        is_choice = record {
          r_low = by_r.from;
          r_high = omega (arith, by_r.below);
          rule2 = rule2;
          visited = by_od.visited;
          v_low = omega (arith, from, v_divstart-ge ppm desired by_r.at by_od.od);
          v_high = to;
          rule1 = found.rule1;
          accurate = found.accurate;
          i_low = found.i_low;
          j_low = found.j_low;
          filter = found.filter;
        };
        stored = found.stored;
        least_r = λ c k. elim (Bool-cases (ltb c.r by_r.at)) [
          | inl before ↦
              absurd (candidate-try_r c k (by_r.earlier c.r k.choice.r_low (ground arith)))
          | inr after ↦ ground arith
        ];
        greatest_od = λ c k same. elim (Bool-cases (ltb by_od.od c.od)) [
          | inl above ↦ absurd (
              candidate-try_od c k (
                rw same
                  (by_od.higher c.od k.choice.visited (ground arith) k.choice.visited.grid.high)))
          | inr below ↦ ground arith
        ];
      }

module _ (desired requestedppm : ℕ) where
  search-some :
      (s : Solution) → search desired requestedppm ≡ some s → IsBest desired requestedppm s
  unfolding search
  search-some s e =
      let found = first_from-some (try_ppm desired) 0 (requestedppm + 1) s e in
      record {
        ppm = found.at;
        ppm_high = omega (arith, found.below);
        best = try_ppm-some desired found.at s found.answers;
        least_ppm = λ other below c k.
            candidate-try_ppm desired other c k (found.earlier other (omega arith) below);
      }

  search-none : search desired requestedppm ≡ none → HasNone desired requestedppm
  unfolding search
  search-none e ppm low c k =
      candidate-try_ppm desired ppm c k
        (first_from-none (try_ppm desired) 0 (requestedppm + 1) e ppm (omega arith) (omega arith))

-- What the search finds keeps the rules of the clock generator and is as accurate as an accuracy up
-- to the requested one asks. No candidate, that is, no choice of all that keep the rules, are as
-- accurate as asked and do not lie below the lowest frequency allowed, is better: none has a better
-- accuracy in parts per million, none at the same accuracy a smaller input divider, and none with
-- the same input divider a greater output divider. It finds nothing only if there is no candidate.
pub search_lem :
    (desired requestedppm : ℕ) → IsOutcome desired requestedppm (search desired requestedppm)
search_lem desired requestedppm = elim (Option-cases (search desired requestedppm)) [
  | inl e ↦ rw e (search-none desired requestedppm e)
  | inr (s, e) ↦ rw e (search-some desired requestedppm s e)
]
