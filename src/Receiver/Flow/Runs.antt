-- ===== src/Receiver/Flow/Runs.antt =====
-- Runs of acknowledgements (chronicle-receiver/receiver_plugin.cpp: ack_block).
use fio_chronicle.Prelude.{
  if◌then◌else◌, ℕ, ◌+◌, ◌<◌, ◌≡◌, ◌≢◌, ◌⊎◌, refl, ap, sym, ◌∙◌, Bool, true, false, ◌&&◌, List, [],
  ◌∷◌, ◌++◌, append-nil, append_assoc, arith, All, Has, inl, inr, leb, ltb, Bool-cases, not,
}
use fio_chronicle.Receiver.State.{State, Flow, Output, quit_app, closed_stream, set_flow}
use fio_chronicle.Receiver.Flow.{ack_flow, ack_block, abort_receiver, close}

-- No number is below the one before it, the first one being held against the last one taken.
abbrev pub ascends : ℕ → List ℕ → Bool
ascends from [] = true
ascends from (n ∷ ns) = leb from n && ascends n ns

abbrev pub last_of : ℕ → List ℕ → ℕ
last_of from [] = from
last_of from (n ∷ ns) = last_of n ns

Has-later : (o : Output) (xs ys : List Output) → Has o xs → Has o (xs ++ ys)
Has-later o [] ys m = absurd m
Has-later o (x ∷ xs) ys (inl e) = inl e
Has-later o (x ∷ xs) ys (inr m) = inr (Has-later o xs ys m)

free-up :
    (n : ℕ) (f : Flow)
    → f.forked_at_block ≡ 0
    → leb f.exporter_acked_block n ≡ true
    → ack_flow n f ≡ (record f { exporter_acked_block = n }, false)
unfolding ack_flow
free-up n f free up = ground arith

free-down :
    (n : ℕ) (f : Flow)
    → f.forked_at_block ≡ 0
    → leb f.exporter_acked_block n ≡ false
    → ack_flow n f ≡ (f, true)
unfolding ack_flow
free-down n f free down = ground arith

released :
    (n : ℕ) (f : Flow)
    → n + 1 ≡ f.forked_at_block
    → ack_flow n f ≡ (record f { forked_at_block = 0; exporter_acked_block = n }, false)
unfolding ack_flow
released n f next = ground arith

-- The numbers below this one.
abbrev pub keep_below : ℕ → List ℕ → List ℕ
keep_below n [] = []
keep_below n (k ∷ ks) = let rest = keep_below n ks in if ltb k n then k ∷ rest else rest

-- While a fork waits for another acknowledgement, one of a block before it is taken down ...
waiting-early :
    (n : ℕ) (f : Flow)
    → 0 < f.forked_at_block
    → n + 1 ≢ f.forked_at_block
    → ltb n f.forked_at_block ≡ true
    → ack_flow n f ≡ (record f { exporter_acked_block = n }, false)
unfolding ack_flow
waiting-early n f fork other early = ground arith

-- ... and a later one is ignored.
waiting-late :
    (n : ℕ) (f : Flow)
    → 0 < f.forked_at_block
    → ltb n f.forked_at_block ≡ false
    → ack_flow n f ≡ (f, false)
unfolding ack_flow
waiting-late n f fork late = ground arith

module _ {D C : Type 0} where
  -- A run of acknowledgements.
  unfoldable pub ack_blocks : List ℕ → State D C → State D C
  unfolding ack_block
  ack_blocks [] s = s
  ack_blocks (n ∷ ns) s = ack_blocks ns (ack_block n s)

  abbrev pub with_acked : ℕ → State D C → State D C
  with_acked n s = set_flow (record s.flow { exporter_acked_block = n }) s

  ack_block-sets :
      (n : ℕ) (f : Flow) (s : State D C)
      → ack_flow n s.flow ≡ (f, false)
      → ack_block n s ≡ set_flow f s
  unfolding ack_block
  ack_block-sets n f s e = rw e refl

  ack_block-aborts :
      (n : ℕ) (f : Flow) (s : State D C)
      → ack_flow n s.flow ≡ (f, true)
      → ack_block n s ≡ abort_receiver s
  unfolding ack_block
  ack_block-aborts n f s e = rw e refl

  -- What `t` has put out besides what `s` has.
  abbrev pub Adds : State D C → List Output → State D C → Type 0
  Adds s es t = t.world.out ≡ s.world.out ++ es

  abort_receiver-Adds :
      (s : State D C) → (es : List Output) × Adds s es (abort_receiver s) × Has quit_app es
  unfolding abort_receiver close
  abort_receiver-Adds s = elim (Bool-cases (not s.flow.aborting && s.flow.stream_open)) [
    | inl closes ↦ (
      closed_stream ∷ quit_app ∷ [],
      rw closes (append_assoc s.world.out (closed_stream ∷ []) (quit_app ∷ [])),
      inr (inl refl),
    )
    | inr closed ↦ (quit_app ∷ [], rw closed refl, inl refl)
  ]

  ack_block-Adds : (n : ℕ) (s : State D C) → (es : List Output) × Adds s es (ack_block n s)
  ack_block-Adds n s = elim (Bool-cases (ack_flow n s.flow).1) [
    | inl aborts ↦
        let (es, e, _) = abort_receiver-Adds s in
        (
          es,
          ap (λ t. t.world.out)
                (ack_block-aborts n (ack_flow n s.flow).0 s
                  (λ i. ((ack_flow n s.flow).0, aborts i)))
              ∙ e,
        )
    | inr sets ↦ (
      [],
      ap (λ t. t.world.out)
            (ack_block-sets n (ack_flow n s.flow).0 s (λ i. ((ack_flow n s.flow).0, sets i)))
          ∙ sym (append-nil s.world.out),
    )
  ]

  ack_blocks-Adds : (ns : List ℕ) (s : State D C) → (es : List Output) × Adds s es (ack_blocks ns s)
  unfolding ack_blocks
  ack_blocks-Adds [] s = ([], sym (append-nil s.world.out))
  ack_blocks-Adds (n ∷ ns) s =
      let (es, e) = ack_block-Adds n s in
      let (fs, k) = ack_blocks-Adds ns (ack_block n s) in
      (es ++ fs, k ∙ ap (λ l. l ++ fs) e ∙ append_assoc s.world.out es fs)

  -- While no fork waits, any run of acknowledgements: if none is below the one before it, the last
  -- one is taken down and nothing else changes, and otherwise the application is told to quit.
  pub ack_blocks-ascends :
      (ns : List ℕ) (s : State D C)
      → s.flow.forked_at_block ≡ 0
      → ((ascends s.flow.exporter_acked_block ns ≡ true)
          × (ack_blocks ns s ≡ with_acked (last_of s.flow.exporter_acked_block ns) s))
        ⊎ ((ascends s.flow.exporter_acked_block ns ≡ false)
            × ((es : List Output) × Adds s es (ack_blocks ns s) × Has quit_app es))
  unfolding ack_blocks
  ack_blocks-ascends [] s free = inl (refl, refl)
  ack_blocks-ascends (n ∷ ns) s free = elim (Bool-cases (leb s.flow.exporter_acked_block n)) [
    | inl up ↦
        let first =
          ack_block-sets n (record s.flow { exporter_acked_block = n }) s
            (free-up n s.flow free up) in
        elim (ack_blocks-ascends ns (with_acked n s) free) [
          | inl (ordered, same) ↦ inl (rw up ordered, ap (ack_blocks ns) first ∙ same)
          | inr (back, (es, adds, quits)) ↦
              inr (rw up back, (es, ap (λ t. (ack_blocks ns t).world.out) first ∙ adds, quits))
        ]
    | inr down ↦
        let first = ack_block-aborts n s.flow s (free-down n s.flow free down) in
        let (es, e, quits) = abort_receiver-Adds s in
        let (fs, k) = ack_blocks-Adds ns (abort_receiver s) in
        inr (
          rw down refl,
          (
            es ++ fs,
            ap (λ t. (ack_blocks ns t).world.out) first
                ∙ k
                ∙ ap (λ l. l ++ fs) e
                ∙ append_assoc s.world.out es fs,
            Has-later quit_app es fs quits,
          ),
        )
  ]

  waits_on :
      (ns : List ℕ) (s : State D C)
      → 0 < s.flow.forked_at_block
      → All (λ n. n + 1 ≢ s.flow.forked_at_block) ns
      → ack_blocks ns s
        ≡ with_acked (last_of s.flow.exporter_acked_block (keep_below s.flow.forked_at_block ns)) s
  unfolding ack_blocks
  waits_on [] s fork all = refl
  waits_on (n ∷ ns) s fork (other, all) = elim (Bool-cases (ltb n s.flow.forked_at_block)) [
    | inl early ↦ rw early (
        ap (ack_blocks ns) (
          ack_block-sets n (record s.flow { exporter_acked_block = n }) s
            (waiting-early n s.flow fork other early))
        ∙ waits_on ns (with_acked n s) fork all)
    | inr late ↦ rw late (
        ap (ack_blocks ns) (ack_block-sets n s.flow s (waiting-late n s.flow fork late))
        ∙ waits_on ns s fork all)
  ]

  ack_blocks-append :
      (ns ms : List ℕ) (s : State D C) → ack_blocks (ns ++ ms) s ≡ ack_blocks ms (ack_blocks ns s)
  unfolding ack_blocks
  ack_blocks-append [] ms s = refl
  ack_blocks-append (n ∷ ns) ms s = ack_blocks-append ns ms (ack_block n s)

  -- While a fork waits: any acknowledgements of other blocks than the one before the fork leave it
  -- waiting, and the last one of a block before the fork is taken down; then that of the block
  -- before the fork, and after it any that do not go back, end the waiting and leave the last one
  -- taken down. Nothing else changes, and none of them aborts the receiver.
  pub ack_blocks-released :
      (ns ms : List ℕ) (n : ℕ) (s : State D C)
      → All (λ k. k + 1 ≢ s.flow.forked_at_block) ns
      → n + 1 ≡ s.flow.forked_at_block
      → ascends n ms ≡ true
      → (ack_blocks ns s
          ≡ with_acked
              (last_of s.flow.exporter_acked_block (keep_below s.flow.forked_at_block ns))
              s)
        × (ack_blocks (ns ++ n ∷ ms) s
            ≡ set_flow
                (record s.flow { forked_at_block = 0; exporter_acked_block = last_of n ms })
                s)
  unfolding ack_blocks
  ack_blocks-released ns ms n s others next ordered =
      let x : ℕ = last_of s.flow.exporter_acked_block (keep_below s.flow.forked_at_block ns) in
      let e = waits_on ns s (omega (arith, next)) others in
      let u : State D C =
        set_flow (record s.flow { forked_at_block = 0; exporter_acked_block = n }) s in
      let first =
        ack_block-sets n u.flow (with_acked x s) (released n (with_acked x s).flow next) in
      let after = ack_blocks-ascends ms u refl in
      (
        e,
        ack_blocks-append ns (n ∷ ms) s
            ∙ ap (ack_blocks (n ∷ ms)) e
            ∙ ap (ack_blocks ms) first
            ∙ elim after [
              | inl (_, same) ↦ same
              | inr (back, _) ↦ absurd (ground (arith, back, ordered))
            ],
      )
