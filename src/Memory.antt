-- ===== src/Memory.antt =====
-- Bytes at addresses, as the C code reads and writes them, and the outcome of a routine.
-- An object of the program (a buffer, an array of `char`) is the memory from its start on;
-- a pointer into it is an index. An access outside it, undefined in C, is a `fault`.
pub mod Text
pub mod Holds
use minlinux.Base.{ℕ, Option, none, some, List, get_elem?, set}

abbrev pub Memory : Type 0
Memory = List ℕ

pub data Run {ℓ} (A : Type ℓ) : Type ℓ where
  ok : A → Run A
  fault out_of_fuel : Run A

infixl 5 ◌>>=◌
abbrev pub ◌>>=◌ {ℓ κ} : {A : Type ℓ} {B : Type κ} → Run A → (A → Run B) → Run B
ok a >>= k = k a
fault >>= k = fault
out_of_fuel >>= k = out_of_fuel

abbrev pub read_cell {ℓ} : {A : Type ℓ} → Option A → Run A
read_cell none = fault
read_cell (some v) = ok v

abbrev pub write_cell {ℓ κ} : {A : Type ℓ} {B : Type κ} → Option A → B → Run B
write_cell none m = fault
write_cell (some _) m = ok m

-- Reads and writes of an array, of bytes or of anything else.
abbrev pub load {ℓ} : {A : Type ℓ} → List A → ℕ → Run A
load m p = read_cell (get_elem? m p)

abbrev pub store {ℓ} : {A : Type ℓ} → List A → ℕ → A → Run (List A)
store m p v = write_cell (get_elem? m p) (set m p v)
