-- ===== src/Emulator/Stack.antt =====
-- The stack instructions undo one another: PUSH and POP, CALL and RET.
use systems_projects.Prelude.{ℕ, ◌+◌, ◌%◌, ◌^◌, ◌<◌, ◌≡◌, ◌∙◌, Bool, false, arith, lt→ltb}
use systems_projects.Cpu.{
  Cpu, Cmd, ok, ◌>>=◌, sub16, u16, mem_size, update, get_r, set_r, load2, operand,
}
use systems_projects.Cpu.Keeps.{IsWf}
use systems_projects.Cpu.Memory.{word_at, with_word, load2_word, store2_word}
use systems_projects.Emulator.Step.{emulate}
use systems_projects.Emulator.Isa.{Insn, encode, perform, push_word, pop_word}
use systems_projects.Emulator.Decode.{emulate-perform}

-- The word at PC encodes the instruction.
abbrev pub Fetches : Cpu → Insn → Type 0
Fetches s i = load2 s.pc s ≡ ok (encode i) s

-- Two instructions in a row.
abbrev pub two_steps : Cmd Bool
two_steps = emulate >>= λ _. emulate

pub get_r_ok : (s : Cpu) (a : ℕ) → a < 8 → get_r a s ≡ ok (s.regs a) s
unfolding get_r
get_r_ok s a h = rw (lt→ltb a 8 h)

pub set_r_ok :
    (s : Cpu) (a v : ℕ)
    → a < 8
    → v < 2 ^ 16
    → set_r a v s ≡ ok tt (record s { regs = update s.regs a v })
unfolding set_r
set_r_ok s a v h small = let e : v % 2 ^ 16 ≡ v = omega arith in rw (lt→ltb a 8 h, e)

-- The state after a push of `v`, with PC as it was.
abbrev pub pushed : Cpu → ℕ → Cpu
pushed s v = with_word (record s { sp = sub16 s.sp 2 }) (sub16 s.sp 2) v

-- Both bytes of the new stack slot lie in memory.
abbrev pub HasRoom : Cpu → Type 0
HasRoom s = sub16 s.sp 2 + 1 < mem_size

push_word_ok : (s : Cpu) (v : ℕ) → HasRoom s → push_word v s ≡ ok tt (pushed s (u16 v))
unfolding push_word
push_word_ok s v room =
    let t : Cpu = record s { sp = sub16 s.sp 2 } in
    let e : u16 (sub16 s.sp 2) ≡ sub16 s.sp 2 = omega arith in
    rw e (store2_word t (sub16 s.sp 2) v room)

pop_word_ok :
    (s : Cpu)
    → IsWf s
    → s.sp + 1 < mem_size
    → pop_word s ≡ ok (word_at s s.sp) (record s { sp = u16 (s.sp + 2) })
unfolding pop_word
pop_word_ok s h room = rw (load2_word s s.sp h room)

module _ (s : Cpu) (h : IsWf s) where
  pub push_lem :
      (a : ℕ)
      → a < 8
      → HasRoom s
      → Fetches s (Insn.push a)
      → emulate s ≡ ok false (record (pushed s (s.regs a)) { pc = u16 (s.pc + 2) })
  unfolding perform
  push_lem a ha room fetched =
      let t : Cpu = record s { sp = sub16 s.sp 2 } in
      let e : u16 (sub16 s.sp 2) ≡ sub16 s.sp 2 = omega arith in
      let f : u16 (s.regs a) ≡ s.regs a = omega (arith, h.words a) in
      emulate-perform s (Insn.push a) ha tt fetched
      ∙ rw (e, get_r_ok t a ha, store2_word t (sub16 s.sp 2) (s.regs a) room, f)

  pub pop_lem :
      (a : ℕ)
      → a < 8
      → s.sp + 1 < mem_size
      → Fetches s (Insn.pop a)
      → emulate s
        ≡ ok false (record s {
          regs = update s.regs a (word_at s s.sp);
          sp = u16 (s.sp + 2);
          pc = u16 (s.pc + 2);
        })
  unfolding perform
  pop_lem a ha room fetched =
      let small : word_at s s.sp < 2 ^ 16 = omega (arith, h.bytes s.sp, h.bytes (s.sp + 1)) in
      emulate-perform s (Insn.pop a) ha tt fetched
      ∙ rw (load2_word s s.sp h room, set_r_ok s a (word_at s s.sp) ha small)

  pub call_lem :
      (target : ℕ)
      → target < 2 ^ 16
      → HasRoom s
      → Fetches s Insn.call
      → let t = pushed s (u16 (s.pc + 4)) in
        operand t ≡ ok target t → emulate s ≡ ok false (record t { pc = target })
  unfolding perform
  call_lem target small room fetched reads =
      let e : u16 target ≡ target = omega arith in
      emulate-perform s Insn.call tt tt fetched ∙ rw (push_word_ok s (s.pc + 4) room, reads, e)

  pub call_reg_lem :
      (a : ℕ)
      → a < 8
      → HasRoom s
      → Fetches s (Insn.call_reg a)
      → emulate s ≡ ok false (record (pushed s (u16 (s.pc + 2))) { pc = s.regs a })
  unfolding perform
  call_reg_lem a ha room fetched =
      let e : u16 (s.regs a) ≡ s.regs a = omega (arith, h.words a) in
      emulate-perform s (Insn.call_reg a) ha tt fetched
      ∙ rw (push_word_ok s (s.pc + 2) room, get_r_ok (pushed s (u16 (s.pc + 2))) a ha, e)

  pub ret_lem :
      s.sp + 1 < mem_size
      → Fetches s Insn.ret
      → emulate s ≡ ok false (record s { sp = u16 (s.sp + 2); pc = word_at s s.sp })
  unfolding perform
  ret_lem room fetched =
      let e : u16 (word_at s s.sp) ≡ word_at s s.sp =
        omega (arith, h.bytes s.sp, h.bytes (s.sp + 1)) in
      emulate-perform s Insn.ret tt tt fetched ∙ rw (pop_word_ok s h room, e)

-- The slot just pushed holds the word, and memory stays bytes.
word_at-pushed : (s : Cpu) (v : ℕ) → word_at (pushed s v) (sub16 s.sp 2) ≡ v
word_at-pushed s v = ground arith

pushed-IsWf :
    (s : Cpu) (v p : ℕ) → IsWf s → v < 2 ^ 16 → p < 2 ^ 16 → IsWf (record (pushed s v) { pc = p })
pushed-IsWf s v p h small fits = grind arith

module _ (s : Cpu) (h : IsWf s) (room : HasRoom s) where
  -- From a well-formed state with room on the stack, PUSH Ra and then POP Rb leave Ra's value in Rb and SP as it
  -- was. Memory differs in the two bytes below the stack pointer only, and no other field but PC.
  pub push-pop :
      (a b : ℕ)
      → a < 8
      → b < 8
      → Fetches s (Insn.push a)
      → let t = record (pushed s (s.regs a)) { pc = u16 (s.pc + 2) } in
        Fetches t (Insn.pop b)
        → two_steps s
          ≡ ok false (record (pushed s (s.regs a)) {
            regs = update s.regs b (s.regs a);
            sp = s.sp;
            pc = u16 (s.pc + 4);
          })
  push-pop a b ha hb first second =
      let t : Cpu = record (pushed s (s.regs a)) { pc = u16 (s.pc + 2) } in
      let th = pushed-IsWf s (s.regs a) (u16 (s.pc + 2)) h (h.words a) (omega arith) in
      let e : word_at t t.sp ≡ s.regs a = word_at-pushed s (s.regs a) in
      let f : u16 (t.sp + 2) ≡ s.sp = omega (arith, h.sp_fits) in
      let g : u16 (t.pc + 2) ≡ u16 (s.pc + 4) = omega arith in
      rw (push_lem s h a ha room first, pop_lem t th b hb room second) (rw (e, f, g))

  -- From a well-formed state with room on the stack, CALL to a subroutine that is a RET comes back
  -- to the instruction after the CALL with SP as it was. `target` is the operand as it reads once
  -- the return address has been pushed.
  pub call-ret :
      (target : ℕ)
      → target < 2 ^ 16
      → Fetches s Insn.call
      → let t = pushed s (u16 (s.pc + 4)) in
        operand t ≡ ok target t
        → Fetches (record t { pc = target }) Insn.ret
        → two_steps s ≡ ok false (record t { sp = s.sp; pc = u16 (s.pc + 4) })
  call-ret target small first reads second =
      let t : Cpu = pushed s (u16 (s.pc + 4)) in
      let u : Cpu = record t { pc = target } in
      let uh = pushed-IsWf s (u16 (s.pc + 4)) target h (omega arith) small in
      let e : word_at u u.sp ≡ u16 (s.pc + 4) = word_at-pushed s (u16 (s.pc + 4)) in
      let f : u16 (u.sp + 2) ≡ s.sp = omega (arith, h.sp_fits) in
      rw (call_lem s h target small room first reads, ret_lem u uh room second) (rw (e, f))
