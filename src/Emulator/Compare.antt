-- ===== src/Emulator/Compare.antt =====
-- CMP followed by a conditional jump compares two registers as signed 16-bit numbers.
use systems_projects.Prelude.{
  ℕ, ◌+◌, ◌%◌, ◌^◌, ◌≤◌, ◌<◌, ◌≡◌, ◌≢◌, ◌↔◌, ◌∙◌, true, false, arith, bit_and, not, ◌==◌,
  if◌then◌else◌, Bool-cases, inl, inr,
}
use systems_projects.Prelude.Bits.{bit_and_0x8000}
use systems_projects.Cpu.{Cpu, ok, sub16, u16, operand}
use systems_projects.Cpu.Keeps.{IsWf}
use systems_projects.Emulator.Alu.{set_flags}
use systems_projects.Emulator.Isa
use systems_projects.Emulator.Isa.{Insn, Cond, holds, perform}
use systems_projects.Emulator.Step.{emulate}
use systems_projects.Emulator.Decode.{emulate-perform}
use systems_projects.Emulator.Stack.{Fetches, two_steps, get_r_ok}

-- A 16-bit word read as a signed number, moved up by 2 ^ 15 so that it is not negative.
abbrev pub biased : ℕ → ℕ
biased x = (x + 2 ^ 15) % 2 ^ 16

-- The difference of the signed numbers fits 16 bits.
abbrev pub NoOverflow : ℕ → ℕ → Type 0
NoOverflow x y = (biased y ≤ biased x + 2 ^ 15) × (biased x < biased y + 2 ^ 15)

abbrev pub Compares : Cond → ℕ → ℕ → Type 0
Compares Isa.always x y = Unit
Compares Isa.zero x y = x ≡ y
Compares Isa.not_zero x y = x ≢ y
Compares Isa.less x y = biased x < biased y
Compares Isa.greater x y = biased y < biased x
Compares Isa.less_equal x y = biased x ≤ biased y
Compares Isa.greater_equal x y = biased y ≤ biased x

-- What `set_flags` leaves for a result.
abbrev pub flagged : Cpu → ℕ → Cpu
flagged s d = record s {
  z = if d == 0 then 1 else 0;
  n = if not (bit_and d 0x8000 == 0) then 1 else 0;
}

flagged_z :
    (s : Cpu) (x y : ℕ) → x < 2 ^ 16 → y < 2 ^ 16 → ((flagged s (sub16 x y)).z ≡ 1) ↔ (x ≡ y)
flagged_z s x y hx hy = ground arith

flagged_n :
    (s : Cpu) (x y : ℕ)
    → x < 2 ^ 16
    → y < 2 ^ 16
    → NoOverflow x y
    → ((flagged s (sub16 x y)).n ≡ 1) ↔ (biased x < biased y)
flagged_n s x y hx hy fits = ground (arith, bit_and_0x8000 (sub16 x y))

biased_injective : (x y : ℕ) → x < 2 ^ 16 → y < 2 ^ 16 → biased x ≡ biased y → x ≡ y
biased_injective x y hx hy e = omega arith

-- The conditions, given what the two flags say.
holds-Compares :
    (k : Cond) (t : Cpu) (x y : ℕ)
    → x < 2 ^ 16
    → y < 2 ^ 16
    → t.z ≤ 1
    → t.n ≤ 1
    → (t.z ≡ 1) ↔ (x ≡ y)
    → (t.n ≡ 1) ↔ (biased x < biased y)
    → (holds k t ≡ true) ↔ Compares k x y
unfolding holds
holds-Compares Isa.always t x y hx hy zs ns z n = ground arith
holds-Compares Isa.zero t x y hx hy zs ns z n = ground (arith, z.0, z.1)
holds-Compares Isa.not_zero t x y hx hy zs ns z n = ground (arith, z.0, z.1)
holds-Compares Isa.less t x y hx hy zs ns z n = ground (arith, n.0, n.1)
holds-Compares Isa.greater t x y hx hy zs ns z n = ground (arith, z.0, z.1, n.0, n.1)
holds-Compares Isa.less_equal t x y hx hy zs ns z n = ground (arith, z.0, z.1, n.0, n.1)
holds-Compares Isa.greater_equal t x y hx hy zs ns z n = ground (arith, z.0, z.1, n.0, n.1)

-- The state after CMP Ra - Rb.
abbrev pub compared : Cpu → (a b : ℕ) → Cpu
compared s a b = record (flagged s (sub16 (s.regs a) (s.regs b))) { pc = u16 (s.pc + 2) }

module _ (s : Cpu) (h : IsWf s) (a b : ℕ) (ha : a < 8) (hb : b < 8) where
  cmp_lem : Fetches s (Insn.cmp a b) → emulate s ≡ ok false (compared s a b)
  unfolding perform set_flags
  cmp_lem fetched =
      emulate-perform s (Insn.cmp a b) (ha, hb) tt fetched ∙ rw (get_r_ok s a ha, get_r_ok s b hb)

  compared-Compares :
      (k : Cond)
      → NoOverflow (s.regs a) (s.regs b)
      → (holds k (compared s a b) ≡ true) ↔ Compares k (s.regs a) (s.regs b)
  compared-Compares k fits =
      holds-Compares k (compared s a b) (s.regs a) (s.regs b) (h.words a) (h.words b) (ground arith)
        (ground arith) (flagged_z s (s.regs a) (s.regs b) (h.words a) (h.words b))
        (flagged_n s (s.regs a) (s.regs b) (h.words a) (h.words b) fits)

  -- From a well-formed state, CMP Ra - Rb and then a conditional jump go to the jump's target if the
  -- signed values of Ra and Rb compare as the condition says, and past both instructions if not,
  -- whenever the signed difference fits 16 bits. Only Z, N and PC change.
  pub cmp-jump :
      (k : Cond) (target : ℕ)
      → target < 2 ^ 16
      → NoOverflow (s.regs a) (s.regs b)
      → Fetches s (Insn.cmp a b)
      → Fetches (compared s a b) (Insn.jump k)
      → operand (compared s a b) ≡ ok target (compared s a b)
      → (Compares k (s.regs a) (s.regs b)
          → two_steps s ≡ ok false (record (compared s a b) { pc = target }))
        × (¬ (Compares k (s.regs a) (s.regs b))
            → two_steps s ≡ ok false (record (compared s a b) { pc = u16 (s.pc + 6) }))
  unfolding perform
  cmp-jump k target small fits first second reads =
      let e : u16 target ≡ target = omega arith in
      let f : u16 (u16 (s.pc + 2) + 4) ≡ u16 (s.pc + 6) = omega arith in
      let jumps : emulate (compared s a b) ≡ perform (Insn.jump k) (compared s a b) =
        emulate-perform (compared s a b) (Insn.jump k) tt tt second in
      let iff = compared-Compares k fits in
      (
        λ c. rw (cmp_lem first, jumps, iff.1 c, reads, e),
        λ c. elim (Bool-cases (holds k (compared s a b))) [
          | inl t ↦ absurd (c (iff.0 t))
          | inr n ↦ rw (cmp_lem first, jumps, n, f)
        ],
      )
