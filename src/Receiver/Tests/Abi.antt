-- ===== src/Receiver/Tests/Abi.antt =====
-- The theorems on the history of contract ABIs at concrete inputs.
use fio_chronicle.Prelude.{ℕ, ◌<◌, ◌≡◌, refl, true, List, [], ◌∷◌, some, arith, Has, inl, inr}
use fio_chronicle.Prelude.Action.{ok}
use fio_chronicle.Store.Tables.{AbiHistory, no_rows}
use fio_chronicle.Store.Sample.{SampleDb, sample_chainbase, sample_abieos}
use fio_chronicle.Receiver.State.{World}
use fio_chronicle.Receiver.Samples.{state_at_12, Context}
use fio_chronicle.Receiver.Abi.{Now, get_contract_abi_ready, save_contract_abi_history, abi_in_db}
use fio_chronicle.Receiver.Abi.Saved.{save_contract_abi_history-abi_in_db}
use fio_chronicle.Receiver.Abi.History.{history, get_contract_abi_ready-other}

abbrev row : ℕ → ℕ → AbiHistory
row account n = record { account = account; block_index = n; abi = account ∷ n ∷ [] }

-- As the index has them: by account, and each account's blocks downwards.
abbrev rows : List AbiHistory
rows = row 4 20 ∷ row 4 8 ∷ row 4 3 ∷ row 6 9 ∷ []

abbrev with_history : World SampleDb Context
with_history = record state_at_12.world {
  db = record { current = record no_rows { abi_history = rows }; stack = []; base = 12 };
}

-- Contract 5 has no ABI; the next name's is taken.
get_contract_abi_ready-other_example :
    (o : AbiHistory) × Has o (history with_history)
    × (5 < o.account)
    × ((get_contract_abi_ready true 12 5 with_history).0 ≡ ok true)
    × ((get_contract_abi_ready true 12 5 with_history).1.abi_ctxt
        ≡ (sample_abieos.set_abi_bin with_history.abi_ctxt 5 o.abi).1)
get_contract_abi_ready-other_example =
    get_contract_abi_ready-other 5 12 with_history (row 6 9) refl
      (
        λ e. absurd (omega arith),
        (λ e. absurd (omega arith), (λ e. absurd (omega arith), (λ e. absurd (omega arith), tt))),
      )
      (inr (inr (inr (inl refl)))) (omega arith)

-- At block 10 a new ABI is saved for contract 4; at block 15 it is found.
abbrev at_10 : Now
at_10 = record { head = 10; timestamp = 7 }

save_contract_abi_history-abi_in_db_example :
    (u : World SampleDb Context) × (save_contract_abi_history at_10 4 (1 ∷ 2 ∷ []) with_history
      ≡ (ok tt, u))
    × (abi_in_db true 15 4 (sample_chainbase.contents u.db) ≡ some (1 ∷ 2 ∷ []))
save_contract_abi_history-abi_in_db_example =
    save_contract_abi_history-abi_in_db at_10 4 15 (1 ∷ 2 ∷ []) with_history
      (
        λ e. absurd (ground arith),
        (
          λ e. absurd (ground arith),
          (λ e. absurd (ground arith), (λ e. absurd (ground arith), tt)),
        ),
      )
      (omega arith)
      (
        λ e. inr (omega arith),
        (λ e. inl (omega arith), (λ e. inl (omega arith), (λ e. inl (omega arith), tt))),
      )
