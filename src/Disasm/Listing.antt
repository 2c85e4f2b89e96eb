-- ===== src/Disasm/Listing.antt =====
-- The program of bare-metal-16bit/disasm.c, its `main`: the listing of a file. What `isprint` says of a
-- char is a parameter. The formats of its calls of `printf` are left out: a row is what they print.
pub mod Covers
use systems_projects.Prelude.{
  ℕ, zero, suc, ◌+◌, ◌*◌, ◌%◌, ◌^◌, bit_or, Bool, true, false, ltb, ◌==◌, if◌then◌else◌, Option,
  none, some, List, [], ◌∷◌, length, ◌>>=◌,
}
use systems_projects.Disasm.{disasm}

-- `word2` is `none` where it is blank, and `text` where `disasm` has left `buf` as it was, which no one
-- has set.
pub data Row : Type 0 where
  code : (offset insn : ℕ) (word2 : Option ℕ) (text : Option (List ℕ)) → Row
  data_bytes : (offset : ℕ) (bytes : List ℕ) (text : List ℕ) → Row

-- `_mem` is what the file leaves in it. There is no result for what is behind it.
unfoldable pub byte_at : (ℕ → ℕ) → ℕ → Option ℕ
byte_at mem i = if ltb i 65536 then some (mem i) else none

-- `load2` of disasm.c: `addr` is a uint16_t, and `addr+1` an int.
unfoldable pub fetch : (ℕ → ℕ) → (addr : ℕ) → Option ℕ
unfolding byte_at
fetch mem addr = do
  lo ← byte_at mem (addr % 2 ^ 16)
  hi ← byte_at mem (addr % 2 ^ 16 + 1)
  some (bit_or lo (hi * 2 ^ 8) % 2 ^ 16)

-- The first loop, and the offset behind it; `none` also where the fuel runs out.
unfoldable pub code_rows : (fuel : ℕ) → (ℕ → ℕ) → (len offset : ℕ) → Option (List Row × ℕ)
unfolding fetch
code_rows zero mem len offset = none
code_rows (suc fuel) mem len offset = elim (ltb offset len) [
  | false ↦ some ([], offset)
  | true ↦ (do
    insn ← fetch mem offset
    next ← fetch mem (offset + 2)
    let l = disasm insn next
    let row = code offset insn (if l.bytes == 4 then some next else none) l.text
    elim (insn == 0xF000) [
      | true ↦ some (row ∷ [], offset + l.bytes)
      | false ↦ (do (rows, end) ← code_rows fuel mem len (offset + l.bytes); some (row ∷ rows, end))
    ])
]

-- The bytes of a row of data.
unfoldable pub row_bytes : (rounds : ℕ) → (ℕ → ℕ) → (len offset : ℕ) → List ℕ
row_bytes zero mem len offset = []
row_bytes (suc n) mem len offset =
    let rest = row_bytes n mem len (offset + 1) in if offset == len then [] else mem offset ∷ rest

module _ (is_print : ℕ → Bool) where
  unfoldable pub printed : List ℕ → List ℕ
  printed [] = []
  printed (b ∷ bytes) = (if is_print b then b else b'?') ∷ printed bytes

  -- The second loop.
  unfoldable pub data_rows : (fuel : ℕ) → (ℕ → ℕ) → (len offset : ℕ) → Option (List Row)
  unfolding row_bytes printed
  data_rows zero mem len offset = none
  data_rows (suc fuel) mem len offset = elim (ltb offset len) [
    | false ↦ some []
    | true ↦ (do
      let bytes = row_bytes 16 mem len offset
      rows ← data_rows fuel mem len (offset + length bytes)
      some (data_bytes offset bytes (printed bytes) ∷ rows))
  ]

  -- The rows of a file of `len` bytes.
  unfoldable pub listing : (ℕ → ℕ) → (len : ℕ) → Option (List Row × List Row)
  unfolding code_rows data_rows
  listing mem len = do
    (rows, offset) ← code_rows (len + 1) mem len 0
    rest ← data_rows (len + 1) mem len offset
    some (rows, rest)
