-- ===== src/Store/Abieos.antt =====
-- The ABI library behind the receiver, as an interface: a context holds decoded ABIs by contract.
use fio_chronicle.Prelude.{ℕ, Bool, List, Option}

pub record Abieos (C : Type 0) : Type 0 where
  -- `abieos_create`
  pub empty_context : C
  -- `abieos_set_abi_bin` on a context pointer: whether the ABI was accepted, and the context.
  pub set_abi_bin : Option C → ℕ → List ℕ → Bool × Option C
  -- Whether `from_bin` reads the bytes as an `abi_def`.
  pub decodes_abi : List ℕ → Bool
