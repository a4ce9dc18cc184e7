-- ===== src/Receiver/Abi/Session.antt =====
-- Keeping the contract ABIs touches the database by writes only, so an open undo session stays
-- open, and its undoing restores what was there before it.
use fio_chronicle.Prelude.{Bool, Option, List, ℕ, arith}
use fio_chronicle.Prelude.Action.{modify}
use fio_chronicle.Prelude.Keeps.{Keeps, Keeps-modify, keeps_rules}
use fio_chronicle.Store.Tables.{Tables}
use fio_chronicle.Store.Chainbase.{Chainbase}
use fio_chronicle.Store.Abieos.{Abieos}
use fio_chronicle.Store.Chainbase.Session.{InSession, write-InSession}
use fio_chronicle.Receiver.State.{World, Output, Subscribers, publish, update_tables}
use fio_chronicle.Receiver.Abi.{
  Now, init_contract_abi_ctxt, forget_if_imported, save_contract_abi_history, clear_contract_abi,
  set_abi, mark_imported, store_contract_abi, import_contract_abi, save_contract_abi,
  get_contract_abi_ready,
}

-- The session that was opened on `before` is still open.
pub record Kept {D C : Type 0} ⦃cb : Chainbase D⦄ (before : D) (w : World D C) : Type 0 where
  pub session : InSession before w.db

module _ {D C : Type 0} ⦃cb : Chainbase D⦄ {before : D} where
  pub Keeps-update_tables :
      (f : Tables → Tables) → Keeps (Kept {C = C} before) (modify (update_tables f))
  Keeps-update_tables f =
      Keeps-modify (update_tables f)
        λ w h. record { session = write-InSession before w.db (f (cb.contents w.db)) h.session }

  pub Keeps-publish : (e : Output) → Keeps (Kept {C = C} before) (publish e)
  Keeps-publish e = Keeps-modify _ λ w h. record { session = h.session }

pub ruleset session_rules = (keeps_rules, Keeps-update_tables, Keeps-publish)

module _ {D C : Type 0} ⦃cb : Chainbase D⦄ ⦃ab : Abieos C⦄ {before : D} where
  Keeps-forget : (account : ℕ) → Keeps (Kept {C = C} before) (modify (forget_if_imported account))
  unfolding forget_if_imported init_contract_abi_ctxt
  Keeps-forget account = Keeps-modify _ λ w h. record { session = ground arith }

  pub Keeps-save_contract_abi_history :
      (now : Now) (account : ℕ) (abi : List ℕ)
      → Keeps (Kept {C = C} before) (save_contract_abi_history now account abi)
  unfolding save_contract_abi_history
  Keeps-save_contract_abi_history now account abi = search session_rules depth 9

  pub Keeps-clear_contract_abi :
      (now : Now) (account : ℕ) → Keeps (Kept {C = C} before) (clear_contract_abi now account)
  unfolding clear_contract_abi
  Keeps-clear_contract_abi now account =
      search (session_rules, Keeps-forget, Keeps-save_contract_abi_history) depth 9

  Keeps-write_ctxt :
      (f : World D C → Option C) → Keeps (Kept before) (modify (λ w. record w { abi_ctxt = f w }))
  Keeps-write_ctxt f = Keeps-modify _ λ w h. record { session = h.session }

  Keeps-mark : (account : ℕ) → Keeps (Kept {C = C} before) (modify (mark_imported account))
  Keeps-mark account = Keeps-modify _ λ w h. record { session = h.session }

  Keeps-set_abi : (account : ℕ) (abi : List ℕ) → Keeps (Kept {C = C} before) (set_abi account abi)
  unfolding set_abi
  Keeps-set_abi account abi = search (session_rules, Keeps-write_ctxt) depth 9

  Keeps-store :
      (account : ℕ) (abi : List ℕ) → Keeps (Kept {C = C} before) (store_contract_abi account abi)
  unfolding store_contract_abi
  Keeps-store account abi = search session_rules depth 9

  Keeps-import :
      (subs : Subscribers) (now : Now) (account : ℕ) (abi : List ℕ)
      → Keeps (Kept {C = C} before) (import_contract_abi subs now account abi)
  unfolding import_contract_abi
  Keeps-import subs now account abi =
      search (session_rules, Keeps-set_abi, Keeps-store, Keeps-mark) depth 9

  pub Keeps-save_contract_abi :
      (subs : Subscribers) (now : Now) (account : ℕ) (abi : List ℕ)
      → Keeps (Kept {C = C} before) (save_contract_abi subs now account abi)
  unfolding save_contract_abi
  Keeps-save_contract_abi subs now account abi =
      search (session_rules, Keeps-forget, Keeps-import, Keeps-save_contract_abi_history) depth 9

  pub Keeps-get_contract_abi_ready :
      (interactive : Bool) (head account : ℕ)
      → Keeps (Kept {C = C} before) (get_contract_abi_ready interactive head account)
  unfolding get_contract_abi_ready
  Keeps-get_contract_abi_ready interactive head account =
      search (session_rules, Keeps-set_abi, Keeps-mark) depth 9
