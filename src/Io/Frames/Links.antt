-- ===== src/Io/Frames/Links.antt =====
-- io.c: the links that fscc_io_link_descriptors makes.
use native.Mathlib.Nat.{mod-eq_of_lt, mod-eq-sub-mod}
use native.Mathlib.Decide.{dec_lt}
use fscc_linux.Prelude.{
  ℕ, zero, suc, ◌+◌, ◌-◌, ◌%◌, ◌<◌, ◌≡◌, refl, ap, ◌∙◌, arith, List, [], ◌∷◌, length, ltb,
  if◌then◌else◌,
}
use fscc_linux.State.{IoFrame, frame_at}
use fscc_linux.Io.Frames.{link_from, link_descriptors}

link_from-at :
    (k : ℕ) (all : List IoFrame) (amount : ℕ) (frames : List IoFrame) (i : ℕ)
    → i < length frames
    → frame_at (link_from k all amount frames) i ≡ record (frame_at frames i) {
      desc = record ((frame_at frames i).desc) {
        next_descriptor =
            (frame_at all
              (if ltb (k + i) (amount - 1) then k + i + 1 else 0)).desc_physical_address;
      };
    }
unfolding link_from
link_from-at k all amount [] i h = absurd (omega arith)
link_from-at k all amount (frame ∷ frames) zero h = let e : k + 0 ≡ k = omega arith in rw e refl
link_from-at k all amount (frame ∷ frames) (suc i) h =
    let e : k + 1 + i ≡ k + suc i = omega arith in
    rw e at (link_from-at (k + 1) all amount frames i (omega arith))

length-link_from :
    (k : ℕ) (all : List IoFrame) (amount : ℕ) (frames : List IoFrame)
    → length (link_from k all amount frames) ≡ length frames
unfolding link_from
length-link_from k all amount [] = refl
length-link_from k all amount (frame ∷ frames) = ap suc (length-link_from (k + 1) all amount frames)

pub length-link_descriptors :
    (frames : List IoFrame) → length (link_descriptors frames) ≡ length frames
unfolding link_descriptors
length-link_descriptors frames = length-link_from 0 frames (length frames) frames

next_index : (i n : ℕ) → i < n → (if ltb (0 + i) (n - 1) then 0 + i + 1 else 0) ≡ (i + 1) % n
next_index i n h = elim (dec_lt (i + 1) n) [
  | yes p ↦ ground (arith, mod-eq_of_lt p)
  | no p ↦ ground (
    arith,
    mod-eq-sub-mod {n = i + 1} {m = n} (omega arith),
    mod-eq_of_lt {n = i + 1 - n} {m = n} (omega arith),
  )
]

-- Linking the descriptors of a ring keeps their number and, of each frame, everything but the link,
-- which becomes the physical address of the descriptor after it, the first one's behind the last.
pub link_descriptors_lem :
    (frames : List IoFrame) (i : ℕ)
    → i < length frames
    → (length (link_descriptors frames) ≡ length frames)
      × (frame_at (link_descriptors frames) i ≡ record (frame_at frames i) {
        desc = record ((frame_at frames i).desc) {
          next_descriptor = (frame_at frames ((i + 1) % length frames)).desc_physical_address;
        };
      })
unfolding link_descriptors
link_descriptors_lem frames i h = (
  length-link_from 0 frames (length frames) frames,
  link_from-at 0 frames (length frames) frames i h
      ∙ ap
          (λ (j : ℕ). record (frame_at frames i) {
            desc = record ((frame_at frames i).desc) {
              next_descriptor = (frame_at frames j).desc_physical_address;
            };
          })
          (next_index i (length frames) h),
)
