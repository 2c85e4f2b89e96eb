-- ===== src/Cpu/Keeps.antt =====
-- The invariant of the machine's state, and rules by which a command keeps it.
use systems_projects.Prelude.{
  ℕ, ◌+◌, ◌%◌, ◌^◌, ◌≤◌, ◌<◌, Bool, true, false, ◌++◌, List, [], ◌∷◌, All, arith, if◌then◌else◌,
}
use systems_projects.Cpu.{
  Cpu, Fault, Outcome, ok, fault, Cmd, pure, raise, and_then, ◌>>=◌, gets, set_pc, set_sp, advance,
  operand, read_byte, write_byte, get_r, set_r, load2, store2, after_char, get_char, put_char,
}

-- Every field holds a value of its C type; the flags are 0 or 1, and a zero result is not negative.
pub record IsWf (s : Cpu) : Type 0 where
  pub bytes : (i : ℕ) → s.memory i < 2 ^ 8
  pub words : (i : ℕ) → s.regs i < 2 ^ 16
  pub pc_fits : s.pc < 2 ^ 16
  pub sp_fits : s.sp < 2 ^ 16
  pub z_flag : s.z ≤ 1
  pub n_flag : s.n ≤ 1
  pub flags : s.z + s.n ≤ 1
  pub input_bytes : All (λ c. c < 2 ^ 8) s.input
  pub output_bytes : All (λ c. c < 2 ^ 8) s.output

-- What a command has done: a fault, or a state with the invariant.
pub data Kept {A : Type 0} : Outcome A → Type 0 where
  kept : {a : A} {s : Cpu} → IsWf s → Kept (ok a s)
  faulted : {e : Fault} → Kept (fault e)

pub record Keeps {A : Type 0} (m : Cmd A) : Type 0 where
  pub at : (s : Cpu) → IsWf s → Kept (m s)

module _ {A B : Type 0} where
  Kept-and_then :
      {r : Outcome A} (k : A → Cmd B) → Kept r → ((a : A) → Keeps (k a)) → Kept (and_then r k)
  Kept-and_then k (kept {a} {s} h) next = (next a).at s h
  Kept-and_then k faulted next = faulted

  pub Keeps-bind : {m : Cmd A} {k : A → Cmd B} → Keeps m → ((a : A) → Keeps (k a)) → Keeps (m >>= k)
  Keeps-bind {k} first next = record { at = λ s h. Kept-and_then k (first.at s h) next }

module _ {A : Type 0} where
  pub Keeps-pure : (a : A) → Keeps (pure a)
  Keeps-pure a = record { at = λ s h. kept h }

  pub Keeps-raise : (e : Fault) → Keeps {A = A} (raise e)
  Keeps-raise e = record { at = λ s h. faulted }

  pub Keeps-if : (b : Bool) {m k : Cmd A} → Keeps m → Keeps k → Keeps (if b then m else k)
  Keeps-if true hm hk = hm
  Keeps-if false hm hk = hk

  pub Kept-if : (b : Bool) {r t : Outcome A} → Kept r → Kept t → Kept (if b then r else t)
  Kept-if true hr ht = hr
  Kept-if false hr ht = ht

pub Keeps-gets : (f : Cpu → ℕ) → Keeps (gets f)
Keeps-gets f = record { at = λ s h. kept h }

pub Keeps-set_pc : (v : ℕ) → Keeps (set_pc v)
Keeps-set_pc v = record { at = λ s h. kept (ground arith) }

pub Keeps-set_sp : (v : ℕ) → Keeps (set_sp v)
Keeps-set_sp v = record { at = λ s h. kept (ground arith) }

pub Keeps-advance : (k : ℕ) → Keeps (advance k)
Keeps-advance k = record { at = λ s h. kept (ground arith) }

pub Keeps-read_byte : (i : ℕ) → Keeps (read_byte i)
unfolding read_byte
Keeps-read_byte i = record { at = λ s h. Kept-if _ (kept h) faulted }

pub Keeps-get_r : (i : ℕ) → Keeps (get_r i)
unfolding get_r
Keeps-get_r i = record { at = λ s h. Kept-if _ (kept h) faulted }

pub Keeps-set_r : (i v : ℕ) → Keeps (set_r i v)
unfolding set_r
Keeps-set_r i v = record { at = λ s h. Kept-if _ (kept (grind arith)) faulted }

pub Keeps-write_byte : (i v : ℕ) → Keeps (write_byte i v)
unfolding write_byte
Keeps-write_byte i v = record { at = λ s h. Kept-if _ (kept (grind arith)) faulted }

ruleset memory_rules = (Keeps-bind, Keeps-pure, Keeps-read_byte, Keeps-write_byte)

pub Keeps-load2 : (addr : ℕ) → Keeps (load2 addr)
unfolding load2
Keeps-load2 addr = search memory_rules

pub Keeps-store2 : (word addr : ℕ) → Keeps (store2 word addr)
unfolding store2
Keeps-store2 word addr = search memory_rules

pub Keeps-operand : Keeps operand
unfolding operand
Keeps-operand = record { at = λ s h. (Keeps-load2 _).at s h }

after_char-bytes : (l : List ℕ) → All (λ c. c < 2 ^ 8) l → All (λ c. c < 2 ^ 8) (after_char l)
unfolding after_char
after_char-bytes [] h = h
after_char-bytes (c ∷ l) h = h.1

All-append_one :
    (l : List ℕ) (c : ℕ) → c < 2 ^ 8 → All (λ c. c < 2 ^ 8) l → All (λ c. c < 2 ^ 8) (l ++ (c ∷ []))
All-append_one [] c fits h = (fits, tt)
All-append_one (x ∷ l) c fits h = (h.0, All-append_one l c fits h.1)

pub Keeps-get_char : Keeps get_char
unfolding get_char
Keeps-get_char = record {
  at = λ s h. kept (record {
    bytes = h.bytes;
    words = h.words;
    pc_fits = h.pc_fits;
    sp_fits = h.sp_fits;
    z_flag = h.z_flag;
    n_flag = h.n_flag;
    flags = h.flags;
    input_bytes = after_char-bytes s.input h.input_bytes;
    output_bytes = h.output_bytes;
  });
}

pub Keeps-put_char : (c : ℕ) → Keeps (put_char c)
unfolding put_char
Keeps-put_char c = record {
  at = λ s h. kept (record {
    bytes = h.bytes;
    words = h.words;
    pc_fits = h.pc_fits;
    sp_fits = h.sp_fits;
    z_flag = h.z_flag;
    n_flag = h.n_flag;
    flags = h.flags;
    input_bytes = h.input_bytes;
    output_bytes = All-append_one s.output (c % 2 ^ 8) (omega arith) h.output_bytes;
  });
}

pub ruleset keeps_rules = (
  Keeps-bind, Keeps-pure, Keeps-raise, Keeps-if, Keeps-gets, Keeps-set_pc, Keeps-set_sp,
  Keeps-advance, Keeps-operand, Keeps-read_byte, Keeps-write_byte, Keeps-get_r, Keeps-set_r,
  Keeps-load2, Keeps-store2, Keeps-get_char, Keeps-put_char,
)
