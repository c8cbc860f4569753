-- ===== src/Port/Registers/Stored.antt =====
-- What fscc_port_set_registers leaves in `register_storage`.
use fscc_linux.Prelude.{
  ℕ, zero, suc, ◌+◌, ◌*◌, ◌≤◌, ◌<◌, ◌≡◌, ◌≢◌, refl, sym, ap, ◌∙◌, arith, inl, inr, List, [], ◌∷◌,
  Bool, false, ◌||◌, leb, length, get_or, set, drop, get_or-set_self, get_or-set_ne, length-set,
  if◌then◌else◌,
}
use fscc_linux.Kernel.{Env, u32, ok}
use fscc_linux.Offsets.{max_offset}
use fscc_linux.State.{Port}
use fscc_linux.Utils.{is_read_only_register}
use fscc_linux.Port.Access.{fcr_index}
use fscc_linux.Port.Access.Stall.{set_register-plain}
use fscc_linux.Port.Registers.{negative, set_one, set_from, set_registers}

-- The registers that a round passes over: the read-only ones, and those with a negative value.
abbrev pub skips : ℕ → ℕ → Bool
skips i value = is_read_only_register (i * 4) || negative value

-- The storage after one round, without timeouts.
abbrev pub stored_one : ℕ → ℕ → List ℕ → List ℕ
stored_one i value storage =
    if skips i value
    then storage
    else if leb (i * 4) max_offset
    then set storage i (u32 value)
    else set storage fcr_index (u32 value)

set_one_lem :
    (e : Env) (i value : ℕ) (p : Port)
    → p.ignore_timeout ≢ 0
    → ((set_one e i value p).1.register_storage ≡ stored_one i value p.register_storage)
      × ((set_one e i value p).1.ignore_timeout ≡ p.ignore_timeout)
      × ((set_one e i value p).0 ≡ false)
unfolding set_one
set_one_lem e i value p on = ground (
  arith,
  set_register-plain e 0 (i * 4) (u32 value) p (inl refl) (inr on),
  set_register-plain e 2 0 (u32 value) p (inr refl) (inr on),
)

-- The storage after the loop from index `k` on.
stored_from : ℕ → List ℕ → List ℕ → List ℕ
stored_from k [] storage = storage
stored_from k (v ∷ regs) storage = stored_from (k + 1) regs (stored_one k v storage)

set_from_lem :
    (e : Env) (k : ℕ) (regs : List ℕ) (stalled : Bool) (p : Port)
    → p.ignore_timeout ≢ 0
    → ((set_from e k regs stalled p).1.register_storage ≡ stored_from k regs p.register_storage)
      × ((set_from e k regs stalled p).0 ≡ stalled)
unfolding set_from stored_from
set_from_lem e k [] stalled p on = (refl, refl)
set_from_lem e k (v ∷ regs) stalled p on =
    let (stores, ignores, quick) = set_one_lem e k v p on in
    let rest =
      set_from_lem e (k + 1) regs ((set_one e k v p).0 || stalled) (set_one e k v p).1
        (λ z. on (sym ignores ∙ z)) in
    (rest.0 ∙ ap (stored_from (k + 1) regs) stores, rest.1 ∙ ap (λ b. b || stalled) quick)

length-stored_one : (k v : ℕ) (s : List ℕ) → length (stored_one k v s) ≡ length s
length-stored_one k v s = ground (arith, length-set s k (u32 v), length-set s fcr_index (u32 v))

stored_one-ne :
    (k v j : ℕ) (s : List ℕ) → j ≢ k → j ≢ fcr_index → get_or (stored_one k v s) j 0 ≡ get_or s j 0
stored_one-ne k v j s ne nf = ground (
  arith,
  get_or-set_ne s k j (u32 v) 0 (λ q. ne (sym q)),
  get_or-set_ne s fcr_index j (u32 v) 0 (λ q. nf (sym q)),
)

stored_from-before :
    (k : ℕ) (regs s : List ℕ) (j : ℕ)
    → j < k
    → j < fcr_index
    → get_or (stored_from k regs s) j 0 ≡ get_or s j 0
unfolding stored_from
stored_from-before k [] s j h f = refl
stored_from-before k (v ∷ regs) s j h f =
    stored_from-before (k + 1) regs (stored_one k v s) j (omega arith) f
    ∙ stored_one-ne k v j s (omega arith) (omega arith)

-- A register of BAR 0, at its own round.
stored_from-at :
    (k : ℕ) (regs s : List ℕ) (i : ℕ)
    → i < length regs
    → k + i < fcr_index
    → length s ≡ 30
    → get_or (stored_from k regs s) (k + i) 0
      ≡ (if skips (k + i) (get_or regs i 0) then get_or s (k + i) 0 else u32 (get_or regs i 0))
unfolding stored_from
stored_from-at k [] s i h f len = absurd (omega arith)
stored_from-at k (v ∷ regs) s zero h f len =
    let e : k + 0 ≡ k = omega arith in
    rw e (
      stored_from-before (k + 1) regs (stored_one k v s) k (omega arith) (omega arith)
      ∙ ground (arith, get_or-set_self s k (u32 v) 0 (omega arith)))
stored_from-at k (v ∷ regs) s (suc i) h f len =
    let e : k + suc i ≡ k + 1 + i = omega arith in
    rw e (
      stored_from-at (k + 1) regs (stored_one k v s) i (omega arith) (omega arith)
        (length-stored_one k v s ∙ len)
      ∙ ap (λ old. if skips (k + 1 + i) (get_or regs i 0) then old else u32 (get_or regs i 0))
          (stored_one-ne k v (k + 1 + i) s (omega arith) (omega arith)))

-- The last of some values that is not negative, or else the old one.
abbrev pub last_set : ℕ → List ℕ → ℕ
last_set old [] = old
last_set old (v ∷ vs) = last_set (if negative v then old else u32 v) vs

stored_one-fcr :
    (k v : ℕ) (s : List ℕ)
    → fcr_index ≤ k
    → length s ≡ 30
    → get_or (stored_one k v s) fcr_index 0 ≡ (if negative v then get_or s fcr_index 0 else u32 v)
unfolding is_read_only_register
stored_one-fcr k v s h len = ground (arith, get_or-set_self s fcr_index (u32 v) 0 (omega arith))

stored_from-fcr :
    (k : ℕ) (regs s : List ℕ)
    → fcr_index ≤ k
    → length s ≡ 30
    → get_or (stored_from k regs s) fcr_index 0 ≡ last_set (get_or s fcr_index 0) regs
unfolding stored_from
stored_from-fcr k [] s h len = refl
stored_from-fcr k (v ∷ regs) s h len =
    stored_from-fcr (k + 1) regs (stored_one k v s) (omega arith) (length-stored_one k v s ∙ len)
    ∙ ap (λ old. last_set old regs) (stored_one-fcr k v s h len)

stored_from-fcr_below :
    (n k : ℕ) (regs s : List ℕ)
    → k + n ≡ fcr_index
    → length s ≡ 30
    → get_or (stored_from k regs s) fcr_index 0 ≡ last_set (get_or s fcr_index 0) (drop n regs)
unfolding stored_from
stored_from-fcr_below zero k regs s e len = stored_from-fcr k regs s (omega arith) len
stored_from-fcr_below (suc n) k [] s e len = refl
stored_from-fcr_below (suc n) k (v ∷ regs) s e len =
    stored_from-fcr_below n (k + 1) regs (stored_one k v s) (omega arith)
      (length-stored_one k v s ∙ len)
    ∙ ap (λ old. last_set old (drop n regs))
        (ground (arith, get_or-set_ne s k fcr_index (u32 v) 0 (omega arith)))

-- With timeouts ignored, setting registers succeeds, and leaves in a `register_storage` of 30 words: of each
-- register of BAR 0 that is given, the low 32 bits of the value, unless it is negative or the register
-- is read-only, when the old value stays; and for FCR the last of the values from FCR's own on that
-- is not negative, those of DMACCR and DSTAR included, since every one of them is written to FCR.
pub set_registers_lem :
    (e : Env) (regs : List ℕ) (p : Port) (i : ℕ)
    → p.ignore_timeout ≢ 0
    → length p.register_storage ≡ 30
    → i < length regs
    → i < fcr_index
    → ((set_registers e regs p).0 ≡ ok 1)
      × (get_or (set_registers e regs p).1.register_storage i 0 ≡ (
          if skips i (get_or regs i 0)
          then get_or p.register_storage i 0
          else u32 (get_or regs i 0)))
      × (get_or (set_registers e regs p).1.register_storage fcr_index 0
          ≡ last_set (get_or p.register_storage fcr_index 0) (drop fcr_index regs))
unfolding set_registers
set_registers_lem e regs p i on len h f =
    let (stores, quick) = set_from_lem e 0 regs false p on in
    let z : 0 + i ≡ i = omega arith in
    (
      rw quick,
      ap (λ s. get_or s i 0) stores
          ∙ (rw z at (stored_from-at 0 regs p.register_storage i h (omega arith) len)),
      ap (λ s. get_or s fcr_index 0) stores
          ∙ stored_from-fcr_below fcr_index 0 regs p.register_storage refl len,
    )
