-- ===== src/Runsim/Image.antt =====
-- The initial state is well formed.
use systems_projects.Prelude.{ℕ, zero, suc, ◌^◌, ◌<◌, List, [], ◌∷◌, All, arith}
use systems_projects.Cpu.Keeps.{IsWf}
use systems_projects.Runsim.{image, boot}

image-bytes : (file : List ℕ) (i : ℕ) → All (λ c. c < 2 ^ 8) file → image file i < 2 ^ 8
image-bytes [] i h = omega arith
image-bytes (b ∷ file) zero h = h.0
image-bytes (b ∷ file) (suc i) h = image-bytes file i h.1

pub boot-IsWf :
    (file input : List ℕ)
    → All (λ c. c < 2 ^ 8) file
    → All (λ c. c < 2 ^ 8) input
    → IsWf (boot file input)
boot-IsWf file input hf hi = record {
  bytes = λ i. image-bytes file i hf;
  words = λ i. omega arith;
  pc_fits = omega arith;
  sp_fits = omega arith;
  z_flag = omega arith;
  n_flag = omega arith;
  flags = omega arith;
  input_bytes = hi;
  output_bytes = tt;
}
