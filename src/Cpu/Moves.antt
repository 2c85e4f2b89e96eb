-- ===== src/Cpu/Moves.antt =====
-- Where a command leaves PC.
use systems_projects.Prelude.{ℕ, ◌+◌, ◌≡◌, refl, sym, Bool, true, false, if◌then◌else◌}
use systems_projects.Cpu.{
  Cpu, Fault, Outcome, ok, fault, Cmd, pure, raise, and_then, ◌>>=◌, u16, gets, set_sp, advance,
  operand, read_byte, write_byte, get_r, set_r, load2, store2, get_char, put_char,
}

-- What a command has done: a fault, or a state with this PC.
pub data Moved {A : Type 0} (p : ℕ) : Outcome A → Type 0 where
  moved : {a : A} {s : Cpu} → s.pc ≡ p → Moved p (ok a s)
  faulted : {e : Fault} → Moved p (fault e)

pub record Stays {A : Type 0} (m : Cmd A) : Type 0 where
  pub at : (s : Cpu) → Moved s.pc (m s)

-- PC goes on by `len`.
pub record Moves {A : Type 0} (len : ℕ) (m : Cmd A) : Type 0 where
  pub at : (s : Cpu) → Moved (u16 (s.pc + len)) (m s)

module _ {A B : Type 0} where
  Moved-stays :
      {p : ℕ} {r : Outcome A} (k : A → Cmd B)
      → Moved p r
      → ((a : A) → Stays (k a))
      → Moved p (and_then r k)
  Moved-stays {p} k (moved {a} {s} e) next = rw (sym e) ((next a).at s)
  Moved-stays k faulted next = faulted

  Moved-moves :
      {p len : ℕ} {r : Outcome A} (k : A → Cmd B)
      → Moved p r
      → ((a : A) → Moves len (k a))
      → Moved (u16 (p + len)) (and_then r k)
  Moved-moves {p} {len} k (moved {a} {s} e) next = rw (sym e) ((next a).at s)
  Moved-moves k faulted next = faulted

  pub Stays-bind : {m : Cmd A} {k : A → Cmd B} → Stays m → ((a : A) → Stays (k a)) → Stays (m >>= k)
  Stays-bind {k} first next = record { at = λ s. Moved-stays k (first.at s) next }

  -- The move is the last step but steps that leave PC as it is.
  pub Moves-after :
      {len : ℕ} {m : Cmd A} {k : A → Cmd B}
      → Stays m
      → ((a : A) → Moves len (k a))
      → Moves len (m >>= k)
  Moves-after {k} first next = record { at = λ s. Moved-moves k (first.at s) next }

  pub Moves-before :
      {len : ℕ} {m : Cmd A} {k : A → Cmd B}
      → Moves len m
      → ((a : A) → Stays (k a))
      → Moves len (m >>= k)
  Moves-before {k} first next = record { at = λ s. Moved-stays k (first.at s) next }

module _ {A : Type 0} where
  pub Stays-pure : (a : A) → Stays (pure a)
  Stays-pure a = record { at = λ s. moved refl }

  pub Stays-raise : (e : Fault) → Stays {A = A} (raise e)
  Stays-raise e = record { at = λ s. faulted }

  pub Stays-if : (b : Bool) {m k : Cmd A} → Stays m → Stays k → Stays (if b then m else k)
  Stays-if true hm hk = hm
  Stays-if false hm hk = hk

  Moved-if :
      (b : Bool) {p : ℕ} {r t : Outcome A} → Moved p r → Moved p t → Moved p (if b then r else t)
  Moved-if true hr ht = hr
  Moved-if false hr ht = ht

pub Moves-advance : (len : ℕ) → Moves len (advance len)
Moves-advance len = record { at = λ s. moved refl }

pub Stays-gets : (f : Cpu → ℕ) → Stays (gets f)
Stays-gets f = record { at = λ s. moved refl }

pub Stays-set_sp : (v : ℕ) → Stays (set_sp v)
Stays-set_sp v = record { at = λ s. moved refl }

pub Stays-read_byte : (i : ℕ) → Stays (read_byte i)
unfolding read_byte
Stays-read_byte i = record { at = λ s. Moved-if _ (moved refl) faulted }

pub Stays-write_byte : (i v : ℕ) → Stays (write_byte i v)
unfolding write_byte
Stays-write_byte i v = record { at = λ s. Moved-if _ (moved refl) faulted }

pub Stays-get_r : (i : ℕ) → Stays (get_r i)
unfolding get_r
Stays-get_r i = record { at = λ s. Moved-if _ (moved refl) faulted }

pub Stays-set_r : (i v : ℕ) → Stays (set_r i v)
unfolding set_r
Stays-set_r i v = record { at = λ s. Moved-if _ (moved refl) faulted }

ruleset byte_rules = (Stays-bind, Stays-pure, Stays-read_byte, Stays-write_byte)

pub Stays-load2 : (addr : ℕ) → Stays (load2 addr)
unfolding load2
Stays-load2 addr = search byte_rules

pub Stays-store2 : (word addr : ℕ) → Stays (store2 word addr)
unfolding store2
Stays-store2 word addr = search byte_rules

pub Stays-operand : Stays operand
unfolding operand
Stays-operand = record { at = λ s. (Stays-load2 _).at s }

pub Stays-get_char : Stays get_char
unfolding get_char
Stays-get_char = record { at = λ s. moved refl }

pub Stays-put_char : (c : ℕ) → Stays (put_char c)
unfolding put_char
Stays-put_char c = record { at = λ s. moved refl }

pub ruleset stays_rules = (
  Stays-bind, Stays-pure, Stays-raise, Stays-if, Stays-gets, Stays-set_sp, Stays-operand,
  Stays-read_byte, Stays-write_byte, Stays-get_r, Stays-set_r, Stays-load2, Stays-store2,
  Stays-get_char, Stays-put_char,
)
