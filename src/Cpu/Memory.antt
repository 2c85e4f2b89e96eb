-- ===== src/Cpu/Memory.antt =====
-- What `load2` and `store2` do: words lie in memory with the low byte first.
use systems_projects.Prelude.{ℕ, ◌+◌, ◌*◌, ◌/◌, ◌%◌, ◌^◌, ◌<◌, ◌-◌, ◌≡◌, refl, arith}
use systems_projects.Prelude.Bits.{bit_and_0xff, bit_or_byte}
use systems_projects.Cpu.{
  Cpu, ok, fault, bad_address, mem_size, update, read_byte, write_byte, load2, store2,
}
use systems_projects.Cpu.Keeps.{IsWf}

-- The word at an address, read from the two bytes.
abbrev pub word_at : Cpu → ℕ → ℕ
word_at s addr = s.memory (addr + 1) * 2 ^ 8 + s.memory addr

-- The state with a word written at an address.
abbrev pub with_word : Cpu → ℕ → ℕ → Cpu
with_word s addr w = record s {
  memory = update (update s.memory addr (w % 2 ^ 8)) (addr + 1) (w / 2 ^ 8);
}

-- Inside the array `load2` returns the word and changes nothing.
pub load2_word :
    (s : Cpu) (addr : ℕ) → IsWf s → addr + 1 < mem_size → load2 addr s ≡ ok (word_at s addr) s
unfolding load2 read_byte
load2_word s addr h fits =
    ground
      (arith, h.bytes addr, h.bytes (addr + 1), bit_or_byte (s.memory addr) (s.memory (addr + 1)))

-- At the last address its second byte is outside the array.
pub load2_last : (s : Cpu) → load2 (mem_size - 1) s ≡ fault bad_address
unfolding load2 read_byte
load2_last s = refl

pub store2_word :
    (s : Cpu) (addr w : ℕ)
    → addr + 1 < mem_size
    → store2 w addr s ≡ ok tt (with_word s addr (w % 2 ^ 16))
unfolding store2 write_byte
store2_word s addr w fits =
    ground (arith, bit_and_0xff (w % 2 ^ 16), bit_and_0xff (w % 2 ^ 16 / 2 ^ 8))
