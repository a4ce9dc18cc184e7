-- ===== src/Receiver/Interactive/Queue.antt =====
-- The queue of interactive requests (chronicle-receiver/receiver_plugin.cpp: on_block_req,
-- process_interactive_reqs).
use fio_chronicle.Prelude.{
  ℕ, ◌≡◌, ◌≢◌, refl, sym, ap, ◌∙◌, true, false, ◌&&◌, not, List, [], ◌∷◌, ◌++◌, append_assoc, arith,
  inl, inr, ◌⊎◌, Bool-cases,
}
use fio_chronicle.Store.Chainbase.{Chainbase}
use fio_chronicle.Store.Abieos.{Abieos}
use fio_chronicle.Receiver.State.{State, Config, Requests, Output, sent_request}
use fio_chronicle.Receiver.Abi.{init_contract_abi_ctxt}
use fio_chronicle.Receiver.Interactive.{
  accepts_request, send_next, process_interactive_reqs, enqueued, on_block_req,
}

-- No request waits while none is under way and the connection is ready.
pub record IsBusy (r : Requests) : Type 0 where
  pub busy :
      r.receiver_ready ≡ true → r.interactive_req_queue ≢ [] → r.interactive_req_pending ≡ true

-- The ranges of blocks that were requested from the node, in order.
pub sent_ranges : List Output → List (ℕ × ℕ)
sent_ranges [] = []
sent_ranges (sent_request r ∷ es) = (r.start_block_num, r.end_block_num) ∷ sent_ranges es
sent_ranges (e ∷ es) = sent_ranges es

sent_ranges-append :
    (es fs : List Output) → sent_ranges (es ++ fs) ≡ sent_ranges es ++ sent_ranges fs
unfolding sent_ranges
sent_ranges-append [] fs = refl
sent_ranges-append (sent_request r ∷ es) fs =
    ap (λ l. (r.start_block_num, r.end_block_num) ∷ l) (sent_ranges-append es fs)
sent_ranges-append (e ∷ es) fs = sent_ranges-append es fs

module _ {D C : Type 0} ⦃cb : Chainbase D⦄ ⦃ab : Abieos C⦄ (c : Config) where
  -- All requests that were accepted: those that were sent, and those that wait.
  abbrev pub accepted_requests : State D C → List (ℕ × ℕ)
  accepted_requests s = sent_ranges s.world.out ++ s.requests.interactive_req_queue

  send_next-IsBusy :
      (queue : List (ℕ × ℕ)) (s : State D C)
      → s.requests.interactive_req_queue ≡ queue
      → IsBusy (send_next c queue s).requests
  unfolding send_next
  send_next-IsBusy [] s e = record { busy = λ r q. absurd (q e) }
  send_next-IsBusy (req ∷ queue) s e = record { busy = λ r q. refl }

  -- Looking at the queue leaves no request waiting for nothing.
  pub process_interactive_reqs-IsBusy :
      (s : State D C) → IsBusy (process_interactive_reqs c s).requests
  unfolding process_interactive_reqs
  process_interactive_reqs-IsBusy s =
      elim (Bool-cases (s.requests.receiver_ready && not s.requests.interactive_req_pending)) [
        | inl free ↦ rw free (send_next-IsBusy s.requests.interactive_req_queue s refl)
        | inr not_free ↦ rw not_free (record { busy = λ r q. ground arith })
      ]

  send_next-order :
      (queue : List (ℕ × ℕ)) (s : State D C)
      → s.requests.interactive_req_queue ≡ queue
      → accepted_requests (send_next c queue s) ≡ accepted_requests s
  unfolding send_next init_contract_abi_ctxt sent_ranges
  send_next-order [] s e = refl
  send_next-order (req ∷ queue) s e =
      rw (sent_ranges-append s.world.out)
        (rw e (append_assoc (sent_ranges s.world.out) (req ∷ []) queue))

  -- It drops no request, sends none twice and keeps their order.
  pub process_interactive_reqs-order :
      (s : State D C) → accepted_requests (process_interactive_reqs c s) ≡ accepted_requests s
  unfolding process_interactive_reqs
  process_interactive_reqs-order s =
      elim (Bool-cases (s.requests.receiver_ready && not s.requests.interactive_req_pending)) [
        | inl free ↦ rw free (send_next-order s.requests.interactive_req_queue s refl)
        | inr not_free ↦ rw not_free refl
      ]

  -- A request within the blocks that were processed is put behind all earlier ones, to be sent in
  -- its turn; any other leaves the receiver as it is. In both cases no request waits while the
  -- connection is ready and none is under way, if this held before.
  pub on_block_req-order :
      (req : ℕ × ℕ) (s : State D C)
      → IsBusy s.requests
      → IsBusy (on_block_req c req s).requests
        × (((accepts_request (cb.contents s.world.db).state req ≡ true)
              × (accepted_requests (on_block_req c req s) ≡ accepted_requests s ++ req ∷ []))
            ⊎ ((accepts_request (cb.contents s.world.db).state req ≡ false)
                × (on_block_req c req s ≡ s)))
  unfolding on_block_req
  on_block_req-order req s h =
      elim (Bool-cases (accepts_request (cb.contents s.world.db).state req)) [
        | inl e ↦ (
          rw e (process_interactive_reqs-IsBusy (enqueued c req s)),
          inl (
            e,
            rw e (
                process_interactive_reqs-order (enqueued c req s)
                ∙ sym (
                    append_assoc (sent_ranges s.world.out) s.requests.interactive_req_queue
                      (req ∷ []))),
          ),
        )
        | inr e ↦ (rw e h, inr (e, rw e refl))
      ]
