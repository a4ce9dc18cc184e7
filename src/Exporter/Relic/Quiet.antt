-- ===== src/Exporter/Relic/Quiet.antt =====
-- What the statements of the exporter to the relic database leave alone: the acknowledgements, the
-- queue and its pauses.
pub mod Domains
pub mod Handles
pub mod Transfers
pub mod Traces
pub mod Blocks
use Prim.Native.String.{String}
use fio_chronicle.Prelude.{
  ℕ, ◌≡◌, refl, ap, sym, ◌∙◌, append_assoc, append-nil, Bool, true, false, List, [], ◌∷◌, ◌++◌,
  if◌then◌else◌, Bool-cases, inl, inr, Option, none, some,
}
use fio_chronicle.Prelude.Action.{Action, Result, modify}
use fio_chronicle.Prelude.Keeps.{Keeps, Keeps-modify, keeps_rules}
use fio_chronicle.Exporter.Text.{Text}
use fio_chronicle.Exporter.Json.{Json}
use fio_chronicle.Exporter.Relic.{
  Services, Relic, Context, Argument, Query, Pending, Answer, Effect, ran, acked, slowed,
  armed_timer, cancelled_timer, finished_connection, aborted, emit, change_pending, finish_if_lost,
  run, call, handle_activity, domain_activity, account_activity, insert_account, insert_pub_address,
  delete_nft_signatures, stored_key, resolve_owner, checked, render,
}

-- The acknowledged blocks, in their order.
abbrev pub acks_of : Effect → List ℕ
acks_of (acked n) = n ∷ []
acks_of (ran t) = []
acks_of (slowed b) = []
acks_of (armed_timer n) = []
acks_of cancelled_timer = []
acks_of finished_connection = []
acks_of aborted = []

unfoldable pub acks : List Effect → List ℕ
acks [] = []
acks (e ∷ es) = acks_of e ++ acks es

pub acks-append : (xs ys : List Effect) → acks (xs ++ ys) ≡ acks xs ++ acks ys
unfolding acks
acks-append [] ys = refl
acks-append (x ∷ xs) ys =
    ap (λ l. acks_of x ++ l) (acks-append xs ys)
    ∙ sym (append_assoc (acks_of x) (acks xs) (acks ys))

pub acks-silent : (xs ys : List Effect) → acks ys ≡ [] → acks (xs ++ ys) ≡ acks xs
acks-silent xs ys silent = acks-append xs ys ∙ ap (λ l. acks xs ++ l) silent ∙ append-nil (acks xs)

pub record View : Type 0 where
  pub acknowledged : List ℕ
  pub async_queue : List Json
  pub queue_hwm : ℕ
  pub queue_lwm : ℕ
  pub pause_time_msec : ℕ
  pub msg_report_counter : ℕ

abbrev pub view : {D : Type 0} → Relic D → View
view s = record {
  acknowledged = acks s.out;
  async_queue = s.async_queue;
  queue_hwm = s.queue_hwm;
  queue_lwm = s.queue_lwm;
  pause_time_msec = s.pause_time_msec;
  msg_report_counter = s.msg_report_counter;
}

abbrev pub Quiet : {D A : Type 0} → View → Action (Relic D) A → Type 0
Quiet v = Keeps (λ s. view s ≡ v)

acks-finished : acks (finished_connection ∷ []) ≡ []
unfolding acks
acks-finished = refl

module _ {D : Type 0} where
  -- Further effects without an acknowledgement.
  pub view-emit :
      (es : List Effect) (s : Relic D)
      → acks es ≡ []
      → view (record s { out = s.out ++ es }) ≡ view s
  view-emit es s silent =
      ap (λ l. record (view s) { acknowledged = l }) (acks-silent s.out es silent)

  pub Quiet-modify :
      (v : View) (f : Relic D → Relic D)
      → ((s : Relic D) → view (f s) ≡ view s)
      → Quiet v (modify f)
  Quiet-modify v f same = Keeps-modify f (λ s held. same s ∙ held)

  pub Quiet-change_pending : (v : View) (f : Pending → Pending) → Quiet {D = D} v (change_pending f)
  Quiet-change_pending v f = Quiet-modify v (λ s. record s { pending = f s.pending }) (λ s. refl)

  module _ (sv : Services D) where
    pub view-finish_if_lost : (s : Relic D) → view (finish_if_lost sv s) ≡ view s
    unfolding finish_if_lost
    view-finish_if_lost s = elim (Bool-cases (sv.connected s.db)) [
      | inl here ↦ rw here refl
      | inr lost ↦
          rw lost
            (view-emit (finished_connection ∷ []) (record s { db = sv.finish s.db }) acks-finished)
    ]

    acks-ran : (t : Text) → acks (ran t ∷ []) ≡ []
    unfolding acks
    acks-ran t = refl

    pub Quiet-finish : (v : View) → Quiet v (modify (finish_if_lost sv))
    Quiet-finish v = Quiet-modify v (finish_if_lost sv) view-finish_if_lost

    view-checked : (a : Answer) (s : Relic D) → view (checked sv a s).1 ≡ view s
    view-checked a s = elim (Bool-cases a.tuples_ok) [
      | inl fine ↦ rw fine refl
      | inr failed ↦ rw failed (view-finish_if_lost s)
    ]

    pub Quiet-run : (v : View) (q : Query) → Quiet v (run sv q)
    unfolding run
    Quiet-run v q = record {
      kept = λ s held.
          let (a, d) = sv.exec (render q) s.db in
          view-checked a (emit (ran (render q)) (record s { db = d }))
          ∙ view-emit (ran (render q) ∷ []) (record s { db = d }) (acks-ran (render q))
          ∙ held;
    }

    pub Quiet-call : (v : View) (f : String) (as' : List Argument) → Quiet v (call sv f as')
    unfolding call
    Quiet-call v f as' = search (keeps_rules, Quiet-run) depth 9

  module _ (sv : Services D) (c : Context) (v : View) where
    pub Quiet-handle_activity :
        (handle : Text) (type : String) → Quiet v (handle_activity sv c handle type)
    unfolding handle_activity
    Quiet-handle_activity handle type = search Quiet-call

    pub Quiet-domain_activity :
        (domain : Text) (type : String) → Quiet v (domain_activity sv c domain type)
    unfolding domain_activity
    Quiet-domain_activity domain type = search Quiet-call

    pub Quiet-account_activity :
        (account : Text) (role : String) → Quiet v (account_activity sv c account role)
    unfolding account_activity
    Quiet-account_activity account role = search Quiet-call

    pub Quiet-insert_account :
        (account pubkey : Text) (is_eosio : String)
        → Quiet v (insert_account sv c account pubkey is_eosio)
    unfolding insert_account
    Quiet-insert_account account pubkey is_eosio = search Quiet-call

    pub Quiet-insert_pub_address :
        (handle chaincode tokencode address : Text)
        → Quiet v (insert_pub_address sv c handle chaincode tokencode address)
    unfolding insert_pub_address
    Quiet-insert_pub_address handle chaincode tokencode address = search Quiet-call

    pub Quiet-delete_nft_signatures : (handle : Text) → Quiet v (delete_nft_signatures sv c handle)
    unfolding delete_nft_signatures
    Quiet-delete_nft_signatures handle = search Quiet-call

    pub Quiet-stored_key : (account : Text) → Quiet v (stored_key sv c account)
    unfolding stored_key
    Quiet-stored_key account = search (keeps_rules, Quiet-run, Quiet-finish) depth 12

    pub Quiet-resolve_owner : (actor pubkey : Text) → Quiet v (resolve_owner sv c actor pubkey)
    unfolding resolve_owner
    Quiet-resolve_owner actor pubkey =
        search (keeps_rules, Quiet-stored_key, Quiet-insert_account) depth 12

pub ruleset quiet_rules = (
  keeps_rules, Quiet-call, Quiet-run, Quiet-finish, Quiet-change_pending, Quiet-stored_key,
  Quiet-handle_activity, Quiet-domain_activity, Quiet-account_activity, Quiet-insert_account,
  Quiet-insert_pub_address, Quiet-delete_nft_signatures, Quiet-resolve_owner,
)
