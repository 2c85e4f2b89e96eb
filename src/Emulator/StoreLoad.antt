-- ===== src/Emulator/StoreLoad.antt =====
-- A store to an absolute address and a load from it: words come back, bytes do not.
use systems_projects.Prelude.{
  ℕ, ◌+◌, ◌*◌, ◌%◌, ◌^◌, ◌<◌, ◌≡◌, ◌∙◌, true, false, bit_and, arith, ltb, lt→ltb,
}
use systems_projects.Prelude.Bits.{bit_and_0xff, bit_and_0xff00}
use systems_projects.Cpu.{Cpu, ok, u16, mem_size, update, read_byte, write_byte, operand}
use systems_projects.Cpu.Keeps.{IsWf}
use systems_projects.Cpu.Memory.{word_at, with_word, load2_word, store2_word}
use systems_projects.Emulator.Fields.{field_a}
use systems_projects.Emulator.Data.{exec_store}
use systems_projects.Emulator.Step.{emulate, select}
use systems_projects.Emulator.Format.{field_a_lem}
use systems_projects.Emulator.Isa.{Insn, encode, perform, read, write}
use systems_projects.Emulator.Decode.{emulate-perform, emulate_branch}
use systems_projects.Emulator.Stack.{Fetches, two_steps, get_r_ok, set_r_ok}

-- The state after STORE Ra to an address, and after STORE.B: there the byte goes to the address
-- after the one that the instruction names.
abbrev pub word_stored : Cpu → (a addr : ℕ) → Cpu
word_stored s a addr = record (with_word s addr (s.regs a)) { pc = u16 (s.pc + 4) }

abbrev pub byte_stored : Cpu → (a addr : ℕ) → Cpu
byte_stored s a addr = record s {
  memory = update s.memory (addr + 1) (s.regs a % 2 ^ 8);
  pc = u16 (s.pc + 4);
}

module _ (s : Cpu) (h : IsWf s) (a b addr : ℕ) (ha : a < 8) (hb : b < 8)
    (fits : addr + 1 < mem_size) (reads : operand s ≡ ok addr s) where
  store_lem : Fetches s (Insn.store_abs false a) → emulate s ≡ ok false (word_stored s a addr)
  unfolding perform write
  store_lem fetched =
      let f : u16 (s.regs a) ≡ s.regs a = omega (arith, h.words a) in
      emulate-perform s (Insn.store_abs false a) ha tt fetched
      ∙ rw (reads, get_r_ok s a ha, store2_word s addr (s.regs a) fits, f)

  write_byte_ok :
      (i v : ℕ)
      → i < mem_size
      → write_byte i v s ≡ ok tt (record s { memory = update s.memory i (v % 2 ^ 8) })
  unfolding write_byte
  write_byte_ok i v k = rw (lt→ltb i mem_size k)

  store_byte_lem : Fetches s (Insn.store_abs true a) → emulate s ≡ ok false (byte_stored s a addr)
  unfolding encode exec_store select
  store_byte_lem fetched =
      let w : ℕ = 0x3000 + 1 * 0x400 + a in
      let e : field_a w ≡ a = omega (arith, field_a_lem w) in
      let k : bit_and w 0xFF00 ≡ 0x3400 = omega (arith, bit_and_0xff00 w) in
      let f : bit_and (s.regs a) 0xFF % 2 ^ 8 ≡ s.regs a % 2 ^ 8 =
        omega (arith, bit_and_0xff (s.regs a)) in
      emulate_branch s _ 3 fetched (omega arith)
      ∙ rw
          (k, reads, e, get_r_ok s a ha, write_byte_ok (addr + 1) (bit_and (s.regs a) 0xFF) fits, f)

  word_stored-IsWf : IsWf (word_stored s a addr)
  word_stored-IsWf = grind (arith, h.words a)

  -- From a well-formed state, STORE Ra to an absolute address inside memory and then LOAD Rb from
  -- it leave Ra's value in Rb; only those two bytes of memory, Rb and PC change.
  pub store-load :
      Fetches s (Insn.store_abs false a)
      → Fetches (word_stored s a addr) (Insn.load_abs false b)
      → operand (word_stored s a addr) ≡ ok addr (word_stored s a addr)
      → two_steps s
        ≡ ok false (record (word_stored s a addr) {
          regs = update s.regs b (s.regs a);
          pc = u16 (s.pc + 8);
        })
  unfolding perform read
  store-load first second again =
      let f : u16 (u16 (s.pc + 4) + 4) ≡ u16 (s.pc + 8) = omega arith in
      let w : word_at (word_stored s a addr) addr ≡ s.regs a = ground arith in
      let l = load2_word (word_stored s a addr) addr word_stored-IsWf fits in
      rw (store_lem first) (
        emulate-perform (word_stored s a addr) (Insn.load_abs false b) hb tt second
        ∙ rw (again, l, w, set_r_ok (word_stored s a addr) b (s.regs a) hb (h.words a), f))

  -- The same with STORE.B and LOAD.B, where the address and the one after it are inside memory: Rb gets
  -- the byte that was at the address before, and Ra's low byte is at the address after it.
  pub store_byte-load_byte :
      Fetches s (Insn.store_abs true a)
      → Fetches (byte_stored s a addr) (Insn.load_abs true b)
      → operand (byte_stored s a addr) ≡ ok addr (byte_stored s a addr)
      → two_steps s
        ≡ ok false (record (byte_stored s a addr) {
          regs = update s.regs b (s.memory addr);
          pc = u16 (s.pc + 8);
        })
  unfolding perform read read_byte
  store_byte-load_byte first second again =
      let f : u16 (u16 (s.pc + 4) + 4) ≡ u16 (s.pc + 8) = omega arith in
      let m : ltb addr mem_size ≡ true = lt→ltb addr mem_size (omega arith) in
      let o : (byte_stored s a addr).memory addr ≡ s.memory addr = ground arith in
      let small : s.memory addr < 2 ^ 16 = omega (arith, h.bytes addr) in
      rw (store_byte_lem first) (
        emulate-perform (byte_stored s a addr) (Insn.load_abs true b) hb tt second
        ∙ rw (again, m, o, set_r_ok (byte_stored s a addr) b (s.memory addr) hb small, f))
