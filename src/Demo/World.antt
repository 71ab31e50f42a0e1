-- ===== src/Demo/World.antt =====
-- What a session works on: the two memory files, the adapters' dispatches and the clock. A call
-- that raises leaves what it has written, so the world comes back beside an error too.
pub mod Keeps
use dogos_memory.Base.{List, Result, Text, err, ok, ℕ}
use dogos_memory.Demo.Models.{DemoConfig, DemoError, DogConfig, store_error}
use dogos_memory.Demo.Session.{ActionCommand, ActionReceipt}
use dogos_memory.Memory.Database.{Database, Store}

-- `StoreBinding` of persistence.py: the dog, and the owner of the store that is bound to it
pub record StoreBinding : Type 0 where
  pub dog : DogConfig
  pub owner_id : Text

-- An `ActionAdapter` of adapters.py. Its answer may depend on every command dispatched before, and it
-- may raise.
pub record ActionAdapter : Type 0 where
  pub adapter_id : Text
  pub respond : List ActionCommand → ActionCommand → Result DemoError ActionReceipt

-- The parts that a `DemoRuntime` wires together, and the clock as its successive readings.
pub record Runtime : Type 0 where
  pub config : DemoConfig
  pub binding_0 : StoreBinding
  pub binding_1 : StoreBinding
  pub adapter_0 : ActionAdapter
  pub adapter_1 : ActionAdapter
  pub clock : ℕ → ℕ

pub record World : Type 0 where
  pub db_0 : Database
  pub db_1 : Database
  -- the commands handed to adapters, the last one first
  pub dispatched : List ActionCommand
  -- how often the clock was read
  pub readings : ℕ

abbrev pub Action : Type 0 → Type 0
Action A = World → Result DemoError A × World

module _ {A : Type 0} where
  abbrev pub pure : A → Action A
  pure a w = (ok a, w)

  abbrev pub raise : DemoError → Action A
  raise e w = (err e, w)

  abbrev pub lift : Result DemoError A → Action A
  lift r w = (r, w)

-- the rest of an action, after what its first part came to
abbrev pub go_on :
    {A B : Type 0} → (A → Action B) → Result DemoError A × World → Result DemoError B × World
go_on f (ok a, w) = f a w
go_on f (err e, w) = (err e, w)

infixl 5 ◌>>=◌ ◌>>◌
abbrev pub ◌>>=◌ : {A B : Type 0} → Action A → (A → Action B) → Action B
◌>>=◌ m f w = go_on f (m w)

abbrev pub ◌>>◌ : {B : Type 0} → Action Unit → Action B → Action B
m >> k = m >>= λ _. k

-- a `StoreError` that no handler catches
abbrev pub from_store : {A : Type 0} → Store A → Result DemoError A
from_store (ok a) = ok a
from_store (err e) = err (store_error e)
