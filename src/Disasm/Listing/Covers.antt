-- ===== src/Disasm/Listing/Covers.antt =====
-- The rows of a listing follow each other to the end of the file.
use mathlib.Core.Path.{subst}
use systems_projects.Prelude.{
  ℕ, zero, suc, ◌+◌, ◌*◌, ◌%◌, ◌^◌, ◌≤◌, ◌<◌, ◌≡◌, refl, sym, ap, ◌∙◌, ◌||◌, ◌⊎◌, bit_or, bit_and,
  Bool, true, false, ltb, ◌==◌, if◌then◌else◌, Option, none, some, List, [], ◌∷◌, length, arith,
  Bool-cases, inl, inr,
}
use systems_projects.Prelude.Bits.{shr}
use systems_projects.Disasm.{disasm, disasm_op, disasm_load, disasm_store, disasm_move}
use systems_projects.Disasm.Listing.{
  Row, code, data_bytes, byte_at, fetch, code_rows, row_bytes, printed, data_rows, listing,
}

-- An instruction has two bytes or four.
bytes_op :
    (high insn next ra rb rc : ℕ)
    → ((disasm_op high insn next ra rb rc).bytes == 2)
        || ((disasm_op high insn next ra rb rc).bytes == 4)
      ≡ true
unfolding disasm_op disasm_load disasm_store disasm_move
bytes_op high insn next ra rb rc = ground arith

fetched : (mem : ℕ → ℕ) (k : ℕ) → (v : ℕ) × (fetch mem (k + k) ≡ some v)
unfolding fetch byte_at
fetched mem k =
    let a : ltb ((k + k) % 2 ^ 16) 65536 ≡ true = ground arith in
    let b : ltb ((k + k) % 2 ^ 16 + 1) 65536 ≡ true = ground arith in
    (bit_or (mem ((k + k) % 2 ^ 16)) (mem ((k + k) % 2 ^ 16 + 1) * 2 ^ 8) % 2 ^ 16, rw (a, b) refl)

abbrev pub slice : (ℕ → ℕ) → (offset n : ℕ) → List ℕ
slice mem offset zero = []
slice mem offset (suc n) = mem offset ∷ slice mem (offset + 1) n

abbrev pub code_size : Option ℕ → ℕ
code_size none = 2
code_size (some word2) = 4

-- Rows of the memory from an offset to another one, with nothing between two of them.
abbrev pub Follow : (ℕ → ℕ) → (offset end : ℕ) → List Row → Type 0
Follow mem offset end [] = offset ≡ end
Follow mem offset end (code at insn word2 text ∷ rows) =
    (at ≡ offset) × (fetch mem offset ≡ some insn) × Follow mem (offset + code_size word2) end rows
Follow mem offset end (data_bytes at bytes text ∷ rows) =
    (at ≡ offset)
    × (bytes ≡ slice mem offset (length bytes))
    × Follow mem (offset + length bytes) end rows

-- The size that a row shows is that of the instruction.
row_size :
    (insn next : ℕ)
    → (k : ℕ) × ((disasm insn next).bytes ≡ suc k + suc k)
      × (code_size (if (disasm insn next).bytes == 4 then some next else none) ≡ suc k + suc k)
unfolding disasm
row_size insn next =
    let size =
      bytes_op (bit_and insn 0xF000) insn next (bit_and insn 7) (shr (bit_and insn 0x38) 3)
        (shr (bit_and insn 0x1C0) 6) in
    elim (Bool-cases ((disasm insn next).bytes == 4)) [
      | inl four ↦ (1, ground (arith, four), rw four refl)
      | inr two ↦ (0, ground (arith, two, size), rw two refl)
    ]

module _ (fuel : ℕ) (mem : ℕ → ℕ) (len offset : ℕ) where
  past_end : ltb offset len ≡ false → code_rows (suc fuel) mem len offset ≡ some ([], offset)
  unfolding code_rows
  past_end past = ground (arith, past)

  module _ (insn next : ℕ) (inside : ltb offset len ≡ true) (is : fetch mem offset ≡ some insn)
      (is2 : fetch mem (offset + 2) ≡ some next) where
    abbrev row : Row
    row =
        code offset insn (if (disasm insn next).bytes == 4 then some next else none)
          (disasm insn next).text

    halts :
        (insn == 0xF000) ≡ true
        → code_rows (suc fuel) mem len offset ≡ some (row ∷ [], offset + (disasm insn next).bytes)
    unfolding code_rows
    halts halt = ground (arith, inside, is, is2, halt)

    goes_on :
        (rows : List Row) (end : ℕ)
        → (insn == 0xF000) ≡ false
        → code_rows fuel mem len (offset + (disasm insn next).bytes) ≡ some (rows, end)
        → code_rows (suc fuel) mem len offset ≡ some (row ∷ rows, end)
    unfolding code_rows
    goes_on rows end more rest = ground (arith, inside, is, is2, more, rest)

row_bytes_lem :
    (n : ℕ) (mem : ℕ → ℕ) (len offset : ℕ)
    → offset ≤ len
    → (row_bytes n mem len offset ≡ slice mem offset (length (row_bytes n mem len offset)))
      × (offset + length (row_bytes n mem len offset) ≤ len)
unfolding row_bytes
row_bytes_lem zero mem len offset small = (refl, omega arith)
row_bytes_lem (suc n) mem len offset small = elim (Bool-cases (offset == len)) [
  | inl last ↦ (rw last refl, rw last (omega arith))
  | inr inside ↦
      let (same, bound) = row_bytes_lem n mem len (offset + 1) (ground arith) in
      (rw inside (ap (λ (l : List ℕ). mem offset ∷ l) same), rw inside (omega (arith, bound)))
]

-- Instructions up to a HALT, or to the end of the file.
abbrev pub Until : (len end : ℕ) → List Row → Type 0
Until len end [] = len ≤ end
Until len end (code at insn word2 text ∷ rows) =
    (((insn == 0xF000) ≡ true) × (rows ≡ [])) ⊎ (((insn == 0xF000) ≡ false) × Until len end rows)
Until len end (data_bytes at bytes text ∷ rows) = ⊥

code_rows-Follow :
    (fuel : ℕ) (mem : ℕ → ℕ) (len k : ℕ)
    → len < k + k + fuel
    → 0 < fuel
    → (rows : List Row) × (end : ℕ) × (code_rows fuel mem len (k + k) ≡ some (rows, end))
      × Follow mem (k + k) end rows
      × Until len end rows
code_rows-Follow zero mem len k enough some_fuel = absurd (omega arith)
code_rows-Follow (suc fuel) mem len k enough some_fuel = elim (Bool-cases (ltb (k + k) len)) [
  | inr past ↦ ([], k + k, past_end fuel mem len (k + k) past, refl, ground arith)
  | inl inside ↦
      let (insn, is) = fetched mem k in
      let (next, is') = fetched mem (k + 1) in
      let number : k + 1 + (k + 1) ≡ k + k + 2 = omega arith in
      let is2 : fetch mem (k + k + 2) ≡ some next = ap (fetch mem) (sym number) ∙ is' in
      let (j, size, shown) = row_size insn next in
      let k' = k + suc j in
      let on : k' + k' ≡ k + k + (disasm insn next).bytes = omega (arith, size) in
      let on' : k' + k'
          ≡ k + k + code_size (if (disasm insn next).bytes == 4 then some next else none) =
        omega (arith, shown) in
      elim (Bool-cases (insn == 0xF000)) [
        | inl halt ↦ (
          row fuel mem len (k + k) insn next inside is is2 ∷ [],
          k + k + (disasm insn next).bytes,
          halts fuel mem len (k + k) insn next inside is is2 halt,
          (refl, is, sym on' ∙ on),
          inl (halt, refl),
        )
        | inr more ↦
            let (rows, end, runs, follow, until) =
              code_rows-Follow fuel mem len k' (ground arith) (ground arith) in
            (
              row fuel mem len (k + k) insn next inside is is2 ∷ rows,
              end,
              goes_on fuel mem len (k + k) insn next inside is is2 rows end more
                  (ap (code_rows fuel mem len) (sym on) ∙ runs),
              (refl, is, subst (λ o. Follow mem o end rows) on' follow),
              inr (more, until),
            )
      ]
]

module _ (is_print : ℕ → Bool) (fuel : ℕ) (mem : ℕ → ℕ) (len offset : ℕ) where
  data_past : ltb offset len ≡ false → data_rows is_print (suc fuel) mem len offset ≡ some []
  unfolding data_rows
  data_past past = ground (arith, past)

  data_on :
      (rows : List Row)
      → ltb offset len ≡ true
      → data_rows is_print fuel mem len (offset + length (row_bytes 16 mem len offset)) ≡ some rows
      → data_rows is_print (suc fuel) mem len offset
        ≡ some (
            data_bytes offset
              (row_bytes 16 mem len offset)
              (printed is_print (row_bytes 16 mem len offset))
            ∷ rows)
  unfolding data_rows
  data_on rows inside rest = ground (arith, inside, rest)

some_bytes :
    (n : ℕ) (mem : ℕ → ℕ) (len offset : ℕ)
    → offset < len
    → 0 < length (row_bytes (suc n) mem len offset)
unfolding row_bytes
some_bytes n mem len offset inside = ground arith

-- Where the data ends: at the end of the file, unless the code went on behind it.
abbrev pub data_end : (len offset : ℕ) → ℕ
data_end len offset = if ltb offset len then len else offset

data_rows-Follow :
    (is_print : ℕ → Bool) (fuel : ℕ) (mem : ℕ → ℕ) (len offset : ℕ)
    → len < offset + fuel
    → 0 < fuel
    → (rows : List Row) × (data_rows is_print fuel mem len offset ≡ some rows)
      × Follow mem offset (data_end len offset) rows
data_rows-Follow is_print zero mem len offset enough some_fuel = absurd (omega arith)
data_rows-Follow is_print (suc fuel) mem len offset enough some_fuel =
    elim (Bool-cases (ltb offset len)) [
      | inr past ↦ ([], data_past is_print fuel mem len offset past, rw past refl)
      | inl inside ↦
          let bytes = row_bytes 16 mem len offset in
          let (same, bound) = row_bytes_lem 16 mem len offset (ground arith) in
          let progress = some_bytes 15 mem len offset (ground arith) in
          let (rows, runs, follow) =
            data_rows-Follow is_print fuel mem len (offset + length bytes) (omega (arith, progress))
              (ground (arith)) in
          let end : data_end len (offset + length bytes) ≡ data_end len offset =
            ground (arith, bound, inside) in
          (
            data_bytes offset bytes (printed is_print bytes) ∷ rows,
            data_on is_print fuel mem len offset rows inside runs,
            (refl, same, subst (λ e. Follow mem (offset + length bytes) e rows) end follow),
          )
    ]

-- The listing of a file ends, and its loop over the instructions reads nothing behind the memory: rows
-- of instructions follow each other from the beginning to the first HALT, or to the end of the file or
-- beyond, each with the word that stands there, of two bytes or of the four that it shows; and behind
-- them rows of the bytes of the file follow each other to its end, each byte once and in order.
pub listing-Follow :
    (is_print : ℕ → Bool) (mem : ℕ → ℕ) (len : ℕ)
    → (rows rest : List Row) × (middle : ℕ) × (listing is_print mem len ≡ some (rows, rest))
      × Follow mem 0 middle rows
      × Until len middle rows
      × Follow mem middle (data_end len middle) rest
unfolding listing
listing-Follow is_print mem len =
    let (rows, middle, runs, follow, until) =
      code_rows-Follow (len + 1) mem len 0 (omega arith) (omega arith) in
    let (rest, runs', follow') =
      data_rows-Follow is_print (len + 1) mem len middle (omega arith) (omega arith) in
    (rows, rest, middle, rw (runs, runs') refl, follow, until, follow')
