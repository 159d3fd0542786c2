-- ===== src/Memory/Holds.antt =====
-- What holds of the value that a routine over memory returns, if it returns one.
use minlinux.Base.{◌≡◌, ℕ, length, length-set, set, Option, none, some, get_elem?}
use minlinux.Memory.{Run, ok, fault, out_of_fuel, ◌>>=◌, Memory, store, write_cell}

abbrev pub Holds : {A : Type 0} → (A → Type 0) → Run A → Type 0
Holds P (ok a) = P a
Holds P fault = Unit
Holds P out_of_fuel = Unit

module _ {A B : Type 0} (Q : B → Type 0) (f : A → Run B) where
  pub >>=-Holds :
      (P : A → Type 0) (r : Run A) → Holds P r → ((a : A) → P a → Holds Q (f a)) → Holds Q (r >>= f)
  >>=-Holds P (ok a) h next = next a h
  >>=-Holds P fault h next = tt
  >>=-Holds P out_of_fuel h next = tt

  pub after-Holds : (r : Run A) → ((a : A) → Holds Q (f a)) → Holds Q (r >>= f)
  after-Holds (ok a) next = next a
  after-Holds fault next = tt
  after-Holds out_of_fuel next = tt

-- A store keeps the size of the object.
pub store-Holds : (m : Memory) (p v : ℕ) → Holds (λ m'. length m' ≡ length m) (store m p v)
store-Holds m p v = written (get_elem? m p)
  where
    written : (cell : Option ℕ) → Holds (λ m'. length m' ≡ length m) (write_cell cell (set m p v))
    written none = tt
    written (some _) = length-set m p v
