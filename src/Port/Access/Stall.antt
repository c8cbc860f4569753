-- ===== src/Port/Access/Stall.antt =====
-- fscc_port_timed_out and the commands that it holds back.
use fscc_linux.Prelude.{
  Bool-cases, ap, inl, inr, leb, ◌&&◌, ℕ, zero, suc, ◌/◌, ◌≤◌, ◌<◌, ◌≡◌, ◌≢◌, refl, arith, ◌⊎◌, ◌∷◌,
  true, false, bit_and, set, if◌then◌else◌, ◌==◌,
}
use fscc_linux.Kernel.{Env, Trace, read32, write32, ok, err, etimedout, u32}
use fscc_linux.Offsets.{cmdr_offset, star_offset, ce_bit, fcr_offset}
use fscc_linux.State.{Port}
use fscc_linux.Utils.{port_offset}
use fscc_linux.Card
use fscc_linux.Port.Access.{
  get_register, poll_star, timed_out, write_through, set_register, fcr_index,
}

-- The trace after `n` more reads of the port's STAR.
abbrev pub polled : ℕ → ℕ → Trace → Trace
polled channel zero t = t
polled channel (suc n) t = polled channel n (read32 0 (port_offset channel 0 star_offset) ∷ t)

-- What the next read of STAR would say: a command is still executing.
abbrev pub IsBusy : Env → ℕ → Trace → Type 0
IsBusy e channel t = bit_and (u32 (e.ioread32 t 0 (port_offset channel 0 star_offset))) ce_bit ≢ 0

poll_star-busy :
    (e : Env) (n : ℕ) (p : Port)
    → ((i : ℕ) → i < n → IsBusy e p.channel (polled p.channel i p.trace))
    → poll_star e n p ≡ (true, record p { trace = polled p.channel n p.trace })
unfolding poll_star get_register Card.get_register
poll_star-busy e zero p busy = refl
poll_star-busy e (suc n) p busy = ground (
  arith,
  busy 0 (omega arith),
  poll_star-busy e n (record p { trace = read32 0 (port_offset p.channel 0 star_offset) ∷ p.trace })
      (λ i h. busy (suc i) (omega arith)),
)

poll_star-done :
    (e : Env) (n k : ℕ) (p : Port)
    → k < n
    → ((i : ℕ) → i < k → IsBusy e p.channel (polled p.channel i p.trace))
    → ¬ IsBusy e p.channel (polled p.channel k p.trace)
    → poll_star e n p ≡ (false, record p { trace = polled p.channel (suc k) p.trace })
unfolding poll_star get_register Card.get_register
poll_star-done e zero k p h busy idle = absurd (omega arith)
poll_star-done e (suc n) zero p h busy idle = ground arith
poll_star-done e (suc n) (suc k) p h busy idle = ground (
  arith,
  busy 0 (omega arith),
  poll_star-done e n k
      (record p { trace = read32 0 (port_offset p.channel 0 star_offset) ∷ p.trace }) (omega arith)
      (λ i h. busy (suc i) (omega arith)) idle,
)

-- With timeouts on, a command to CMDR is held back when fifty reads in a row of STAR show CE: the
-- result is ETIMEDOUT, nothing is written, and only the fifty reads are made.
pub set_register-stalled :
    (e : Env) (bar v : ℕ) (p : Port)
    → bar ≤ 2
    → p.ignore_timeout ≡ 0
    → ((i : ℕ) → i < 50 → IsBusy e p.channel (polled p.channel i p.trace))
    → set_register e bar cmdr_offset v p
      ≡ (err etimedout, record p { trace = polled p.channel 50 p.trace })
unfolding set_register timed_out
set_register-stalled e bar v p le on busy = ground (arith, poll_star-busy e 50 p busy)

-- With timeouts on, if one of at most fifty reads of STAR shows CE clear, the polling of a command
-- to CMDR ends with the first such read, and the command is then written and recorded.
pub set_register-command :
    (e : Env) (bar v k : ℕ) (p : Port)
    → bar ≤ 2
    → p.ignore_timeout ≡ 0
    → k < 50
    → ((i : ℕ) → i < k → IsBusy e p.channel (polled p.channel i p.trace))
    → ¬ IsBusy e p.channel (polled p.channel k p.trace)
    → set_register e bar cmdr_offset v p ≡ (
      ok 1,
      write_through bar cmdr_offset v (record p { trace = polled p.channel (suc k) p.trace }),
    )
unfolding set_register timed_out
set_register-command e bar v k p le on lt busy idle =
    ground (arith, poll_star-done e 50 k p lt busy idle)

-- Any other register, or any register with timeouts ignored, is written at once: one write to the
-- port's own offset, and the value in `register_storage`: at its word for BAR 0, at FCR for the
-- register of BAR 2 that is FCR. Nothing else of the port changes.
pub set_register-plain :
    (e : Env) (bar offset v : ℕ) (p : Port)
    → (bar ≡ 0) ⊎ (bar ≡ 2)
    → (offset ≢ cmdr_offset) ⊎ (p.ignore_timeout ≢ 0)
    → set_register e bar offset v p ≡ (
      ok 1,
      record p {
        trace = write32 bar (port_offset p.channel bar offset) v ∷ p.trace;
        register_storage =
            if bar == 0
            then set p.register_storage (offset / 4) v
            else if offset == fcr_offset
            then set p.register_storage fcr_index v
            else p.register_storage;
      },
    )
unfolding set_register write_through Card.set_register
set_register-plain e bar offset v p b o = ground arith

-- The polling makes some reads of STAR, all that it may if it ends without an idle one.
poll_star-polled :
    (e : Env) (left : ℕ) (p : Port)
    → (n : ℕ) × (n ≤ left)
      × ((poll_star e left p).1 ≡ record p { trace = polled p.channel n p.trace })
      × ((poll_star e left p).0 ≡ true → n ≡ left)
unfolding poll_star get_register Card.get_register
poll_star-polled e zero p = (0, omega arith, refl, λ h. refl)
poll_star-polled e (suc left) p =
    let p1 : Port = record p { trace = read32 0 (port_offset p.channel 0 star_offset) ∷ p.trace } in
    let (n, few, state, all) = poll_star-polled e left p1 in
    elim (Bool-cases
      (bit_and (u32 (e.ioread32 p.trace 0 (port_offset p.channel 0 star_offset))) ce_bit == 0)) [
        | inl idle ↦ (1, omega arith, rw idle refl, λ h. absurd (ground (arith, idle, h)))
        | inr busy ↦ (suc n, omega (arith, few), rw busy state, λ h. ap suc (all (rw busy at h)))
      ]

-- Whatever the card answers, a write of a register ends after `n` reads of STAR, at most fifty:
-- with one write of the value to the port's own offset and result 1; or, after all fifty reads,
-- with ETIMEDOUT and no write; or, for a BAR that is none, at once, with no write and result 0.
pub set_register-ends :
    (e : Env) (bar offset value : ℕ) (p : Port)
    → (let (result, q) = set_register e bar offset value p in
        (n : ℕ) × (n ≤ 50)
        × (((result ≡ ok 1)
              × (q.trace
                  ≡ write32 bar (port_offset p.channel bar offset) value
                    ∷ polled p.channel n p.trace))
            ⊎ (((result ≡ err etimedout) × (n ≡ 50) × (q.trace ≡ polled p.channel n p.trace))
                ⊎ ((result ≡ ok 0) × (2 < bar) × (q.trace ≡ p.trace)))))
unfolding set_register timed_out write_through Card.set_register
set_register-ends e bar offset value p = elim (Bool-cases (leb bar 2)) [
  | inr beyond ↦ (0, omega arith, inr (inr (rw beyond refl, ground arith, rw beyond refl)))
  | inl valid ↦ elim (Bool-cases (offset == cmdr_offset && p.ignore_timeout == 0)) [
    | inr plain ↦ (0, omega arith, inl (rw (valid, plain) refl, rw (valid, plain) refl))
    | inl command ↦
        let (n, few, state, all) = poll_star-polled e 50 p in
        elim (Bool-cases (poll_star e 50 p).0) [
          | inl stalled ↦ (
            n,
            few,
            inr (
                inl (
                  rw (valid, command, stalled) refl,
                  all stalled,
                  rw (valid, command, stalled, state) refl,
                )),
          )
          | inr done ↦
              (n, few, inl (rw (valid, command, done) refl, rw (valid, command, done, state) refl))
        ]
  ]
]
