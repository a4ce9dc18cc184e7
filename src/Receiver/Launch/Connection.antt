-- ===== src/Receiver/Launch/Connection.antt =====
-- The connection to the node (chronicle-receiver/receiver_plugin.cpp: start): what the three
-- operations lead to.
use fio_chronicle.Prelude.{
  Bool, true, List, [], ◌∷◌, any, length, ◌==◌, ◌-◌, if◌then◌else◌, ℕ, zero, suc,
}
use fio_chronicle.Store.Chainbase.{Chainbase}
use fio_chronicle.Store.Abieos.{Abieos}
use fio_chronicle.Receiver.State.{Config}
use fio_chronicle.Receiver.Flow.{on_fail}
use fio_chronicle.Receiver.Startup.{start_read}
use fio_chronicle.Receiver.Launch.{
  Launch, Pending, nothing, resolve, connect, handshake, messages, Callback, timer, completed,
  open_stream,
}

-- The results of at most so many operations.
abbrev pub results : ℕ → List Callback → List Bool
results zero calls = []
results (suc n) [] = []
results (suc n) (timer started ∷ rest) = results (suc n) rest
results (suc n) (completed failed ∷ rest) = failed ∷ results n rest

-- The operation that has so many to go, itself included.
abbrev pub operation : ℕ → Pending
operation n = if n == 3 then resolve else if n == 2 then connect else handshake

module _ {D C : Type 0} ⦃cb : Chainbase D⦄ ⦃ab : Abieos C⦄ where
  abbrev with_pending : Pending → Launch D C → Launch D C
  with_pending x l = record l { pending = x }

  -- What the results of the next n operations lead to.
  abbrev pub outcome : Config → ℕ → List Bool → Launch D C → Launch D C
  outcome c n rs l =
      if any (λ failed. failed) rs
      then record l { pending = nothing; state = on_fail l.state }
      else if length rs == n
      then record l { pending = messages; state = start_read c (open_stream true l.state) }
      else record l { pending = operation (n - length rs) }
