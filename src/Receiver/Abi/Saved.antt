-- ===== src/Receiver/Abi/Saved.antt =====
-- What saving an ABI in the history does to the lookup of interactive mode
-- (chronicle-receiver/receiver_plugin.cpp: save_contract_abi_history, get_contract_abi_ready).
use fio_chronicle.Prelude.{
  ℕ, ◌<◌, ◌≤◌, ◌≡◌, ◌⊎◌, refl, ap, sym, ◌∙◌, true, false, ◌||◌, List, [], ◌∷◌, some, arith, All,
  Has, All-Has, Option-cases, inl, inr,
}
use fio_chronicle.Prelude.Action.{ok, ◌>>=◌}
use fio_chronicle.Store.Index.{find, modify_row}
use fio_chronicle.Store.Index.Rows.{create-free, find-none, find-some, modify_row-found, AtMostOne}
use fio_chronicle.Store.Tables.{AbiHistory, by_name_and_block}
use fio_chronicle.Store.Chainbase.{Chainbase}
use fio_chronicle.Store.Abieos.{Abieos}
use fio_chronicle.Receiver.State.{World}
use fio_chronicle.Receiver.Abi.{Now, has_account_and_block, save_contract_abi_history, abi_in_db}
use fio_chronicle.Receiver.Abi.History.{in_history-latest, history}

-- The history after the saving: the row is in it, alone with its key, and all else was there.
record IsSaved (account block : ℕ) (abi : List ℕ) (rows rows' : List AbiHistory) : Type 0 where
  saved : AbiHistory
  is_in : Has saved rows'
  of_account : saved.account ≡ account
  at_block : saved.block_index ≡ block
  with_abi : saved.abi ≡ abi
  others :
      (o : AbiHistory)
      → Has o rows'
      → (saved ≡ o) ⊎ (Has o rows × (has_account_and_block account block o ≡ false))

free_key :
    (account block : ℕ) (abi : List ℕ) (rows : List AbiHistory)
    → All (λ y. has_account_and_block account block y ≡ false) rows
    → All
        (λ y.
          by_name_and_block (record { account = account; block_index = block; abi = abi }) y
            || by_name_and_block y (record { account = account; block_index = block; abi = abi })
          ≡ true)
        rows
free_key account block abi [] all = tt
free_key account block abi (y ∷ ys) (h, all) = (ground arith, free_key account block abi ys all)

IsSaved-latest :
    (account block b : ℕ) (abi : List ℕ) (rows rows' : List AbiHistory) (o : AbiHistory)
    → IsSaved account block abi rows rows'
    → All (λ x. x.account ≡ account → (x.block_index ≤ block) ⊎ (b < x.block_index)) rows
    → Has o rows'
    → o.account ≡ account
    → o.block_index ≤ b
    → block ≤ o.block_index
    → o.abi ≡ abi
IsSaved-latest account block b abi rows rows' o s no_later has acc le ge = elim (s.others o has) [
  | inl q ↦ ap (λ z. z.abi) (sym q) ∙ s.with_abi
  | inr (t, key) ↦
      let apart =
        All-Has (λ x. x.account ≡ account → (x.block_index ≤ block) ⊎ (b < x.block_index)) o rows
          no_later t acc in
      absurd (elim apart [ inl below ↦ ground arith | inr above ↦ omega arith ])
]

module _ {D C : Type 0} ⦃cb : Chainbase D⦄ ⦃ab : Abieos C⦄ where
  abbrev with_history : List AbiHistory → World D C → World D C
  with_history rows w = record w {
    db = cb.write (record (cb.contents w.db) { abi_history = rows }) w.db;
  }

  save_contract_abi_history-IsSaved :
      (now : Now) (account : ℕ) (abi : List ℕ) (w : World D C)
      → AtMostOne (has_account_and_block account now.head) (history w)
      → (rows : List AbiHistory) × (save_contract_abi_history now account abi w
          ≡ (ok tt, with_history rows w))
        × IsSaved account now.head abi (history w) rows
  unfolding save_contract_abi_history ◌>>=◌
  save_contract_abi_history-IsSaved now account abi w one =
      elim (Option-cases (find (has_account_and_block account now.head) (history w))) [
        | inl e ↦
            let absent = find-none (has_account_and_block account now.head) (history w) e in
            let new : AbiHistory = record {
              account = account;
              block_index = now.head;
              abi = abi;
            } in
            let (rows, k, m, others) =
              create-free by_name_and_block new (history w)
                (free_key account now.head abi (history w) absent) in
            (
              rows,
              rw (e, k) refl,
              record {
                saved = new;
                is_in = m;
                of_account = refl;
                at_block = refl;
                with_abi = refl;
                others = λ o n. elim (others o n) [
                  | inl q ↦ inl q
                  | inr t ↦ inr (
                    t,
                    All-Has (λ z. has_account_and_block account now.head z ≡ false) o (history w)
                        absent t,
                  )
                ];
              },
            )
        | inr (y, e) ↦
            let key = find-some (has_account_and_block account now.head) (history w) y e in
            let (m, others) =
              modify_row-found (has_account_and_block account now.head)
                (λ o. record o { abi = abi }) (history w) y e one in
            (
              modify_row (has_account_and_block account now.head) (λ o. record o { abi = abi })
                  (history w),
              rw e refl,
              record {
                saved = record y { abi = abi };
                is_in = m;
                of_account = ground arith;
                at_block = ground arith;
                with_abi = refl;
                others = others;
              },
            )
      ]

  -- An ABI of a contract that is saved at the head is the one that interactive mode finds for the
  -- contract at any block from there on, the block itself included, up to its next row, where the
  -- history has a contract and a block at most once; the saving returns.
  pub save_contract_abi_history-abi_in_db :
      (now : Now) (account b : ℕ) (abi : List ℕ) (w : World D C)
      → AtMostOne (has_account_and_block account now.head) (history w)
      → now.head ≤ b
      → All
          (λ x. x.account ≡ account → (x.block_index ≤ now.head) ⊎ (b < x.block_index))
          (history w)
      → (u : World D C) × (save_contract_abi_history now account abi w ≡ (ok tt, u))
        × (abi_in_db true b account (cb.contents u.db) ≡ some abi)
  unfolding abi_in_db
  save_contract_abi_history-abi_in_db now account b abi w one from no_later =
      let (rows, k, s) = save_contract_abi_history-IsSaved now account abi w one in
      let block = s.at_block in
      let (o, e, has, acc, le, ge) =
        in_history-latest account b rows s.saved s.is_in s.of_account (omega arith) in
      (
        with_history rows w,
        k,
        rw (cb.contents-write (record (cb.contents w.db) { abi_history = rows }) w.db, e)
            (ap some (
              IsSaved-latest account now.head b abi (history w) rows o s no_later has acc le
                (omega arith))),
      )
