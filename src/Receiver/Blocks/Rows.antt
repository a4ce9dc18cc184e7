-- ===== src/Receiver/Blocks/Rows.antt =====
-- The table of received blocks (receive_result of chronicle-receiver/receiver_plugin.cpp: the new
-- row, and the truncation of old ones).
use fio_chronicle.Prelude.{
  ℕ, ◌<◌, ◌≤◌, ◌≡◌, ◌≢◌, ◌↔◌, ◌⊎◌, refl, ap, sym, subst, List, [], ◌∷◌, some, none, arith, All,
  All-Has, Has, inl, inr, Option-cases, Bool-cases, ltb, ltb→lt,
}
use fio_chronicle.Prelude.Action.{ok, err, uniqueness_violated, ◌>>=◌}
use fio_chronicle.Store.Index.{create}
use fio_chronicle.Store.Tables.{ReceivedBlock, by_blocknum}
use fio_chronicle.Store.Chainbase.{Chainbase}
use fio_chronicle.Store.Abieos.{Abieos}
use fio_chronicle.Receiver.State.{World, update_tables}
use fio_chronicle.Receiver.Message.{BlockPosition}
use fio_chronicle.Receiver.Blocks.{truncate, record_block}

abbrev pub IsAscending : List ReceivedBlock → Type 0
IsAscending [] = Unit
IsAscending (r ∷ rs) = All (λ x. r.block_index < x.block_index) rs × IsAscending rs

All-above :
    (m n : ℕ) (rs : List ReceivedBlock)
    → m < n
    → All (λ r. n < r.block_index) rs
    → All (λ r. m < r.block_index) rs
All-above m n [] h all = tt
All-above m n (r ∷ rs) h all = (omega (arith, all.0), All-above m n rs h all.1)

All-above-le :
    (m n : ℕ) (rs : List ReceivedBlock)
    → m ≤ n
    → All (λ r. n < r.block_index) rs
    → All (λ r. m ≤ r.block_index) rs
All-above-le m n [] h all = tt
All-above-le m n (r ∷ rs) h all = (omega (arith, all.0), All-above-le m n rs h all.1)

All-other :
    (m n : ℕ) (rs : List ReceivedBlock)
    → m < n
    → All (λ r. n < r.block_index) rs
    → All (λ r. r.block_index ≢ m) rs
All-other m n [] h all = tt
All-other m n (r ∷ rs) h all = (λ eq. omega (arith, eq, h, all.0), All-other m n rs h all.1)

All-create :
    (n : ℕ) (x : ReceivedBlock) (rs rs' : List ReceivedBlock)
    → n < x.block_index
    → All (λ r. n < r.block_index) rs
    → create by_blocknum x rs ≡ some rs'
    → All (λ r. n < r.block_index) rs'
unfolding create
All-create n x [] rs' h all e = ground arith
All-create n x (r ∷ rs) [] h all e = tt
All-create n x (r ∷ rs) (y ∷ ys) h all e = ground (arith, All-create n x rs ys h all.1)

create-IsAscending :
    (x : ReceivedBlock) (rs rs' : List ReceivedBlock)
    → IsAscending rs
    → create by_blocknum x rs ≡ some rs'
    → IsAscending rs' × Has x rs'
unfolding create
create-IsAscending x [] rs' h e =
    let same : x ∷ [] ≡ rs' = cc in subst (λ l. IsAscending l × Has x l) same ((tt, tt), inl refl)
create-IsAscending x (r ∷ rs) rs' h e = elim (Bool-cases (ltb x.block_index r.block_index)) [
  | inl first ↦
      let same : x ∷ r ∷ rs ≡ rs' = ground arith in
      subst (λ l. IsAscending l × Has x l) same
        (
          (
            (
              omega (arith, ltb→lt _ _ first),
              All-above x.block_index r.block_index rs (ltb→lt _ _ first) h.0,
            ),
            h,
          ),
          inl refl,
        )
  | inr later ↦ elim (Option-cases (create by_blocknum x rs)) [
    | inl taken ↦ absurd (ground arith)
    | inr (ys, made) ↦
        let same : r ∷ ys ≡ rs' = ground arith in
        let (asc, has) = create-IsAscending x rs ys h.1 made in
        subst (λ l. IsAscending l × Has x l) same
          ((All-create r.block_index x rs ys (ground arith) h.0 made, asc), inr has)
  ]
]

-- A row with this number.
abbrev pub Numbered : ℕ → List ReceivedBlock → Type 0
Numbered n rs = (r : ReceivedBlock) × Has r rs × (r.block_index ≡ n)

create-taken :
    (x : ReceivedBlock) (rs : List ReceivedBlock)
    → create by_blocknum x rs ≡ none
    → Numbered x.block_index rs
unfolding create
create-taken x [] e = absurd (ground arith)
create-taken x (r ∷ rs) e = elim (Bool-cases (ltb x.block_index r.block_index)) [
  | inl first ↦ absurd (ground arith)
  | inr later ↦ elim (Bool-cases (ltb r.block_index x.block_index)) [
    | inl after ↦ elim (Option-cases (create by_blocknum x rs)) [
      | inl taken ↦ let (y, has, same) = create-taken x rs taken in (y, inr has, same)
      | inr (ys, made) ↦ absurd (ground arith)
    ]
    | inr equal ↦ (r, inl refl, ground arith)
  ]
]

-- Where the row goes in, its number was free, and the rows are the old ones and the new one.
create-rows :
    (x : ReceivedBlock) (rs rs' : List ReceivedBlock)
    → IsAscending rs
    → create by_blocknum x rs ≡ some rs'
    → All (λ r. r.block_index ≢ x.block_index) rs
      × ((y : ReceivedBlock) → Has y rs' ↔ ((x ≡ y) ⊎ Has y rs))
unfolding create
create-rows x [] rs' h e =
    let same : x ∷ [] ≡ rs' = cc in
    (tt, λ y. subst (λ l. Has y l ↔ ((x ≡ y) ⊎ Has y [])) same (λ m. m, λ m. m))
create-rows x (r ∷ rs) rs' h e = elim (Bool-cases (ltb x.block_index r.block_index)) [
  | inl first ↦
      let same : x ∷ r ∷ rs ≡ rs' = ground arith in
      let below : x.block_index < r.block_index = ltb→lt _ _ first in
      (
        (
          λ eq. omega (arith, eq, below),
          All-other x.block_index r.block_index rs (omega arith) h.0,
        ),
        λ y. subst (λ l. Has y l ↔ ((x ≡ y) ⊎ Has y (r ∷ rs))) same (λ m. m, λ m. m),
      )
  | inr later ↦ elim (Option-cases (create by_blocknum x rs)) [
    | inl taken ↦ absurd (ground arith)
    | inr (ys, made) ↦
        let same : r ∷ ys ≡ rs' = ground arith in
        let below : r.block_index < x.block_index = ground arith in
        let (free, rows) = create-rows x rs ys h.1 made in
        (
          (λ eq. omega (arith, eq, below), free),
          λ y.
              subst (λ l. Has y l ↔ ((x ≡ y) ⊎ Has y (r ∷ rs))) same
                (
                  λ m. elim m [
                    | inl q ↦ inr (inl q)
                    | inr t ↦ elim ((rows y).0 t) [ inl q ↦ inl q | inr u ↦ inr (inr u) ]
                  ],
                  λ m. elim m [
                    | inl q ↦ inr ((rows y).1 (inl q))
                    | inr t ↦ elim t [ inl q ↦ inl q | inr u ↦ inr ((rows y).1 (inr u)) ]
                  ],
                ),
        )
  ]
]

-- The rows that stay are those that are not below the irreversible block.
truncate-kept :
    (irreversible : ℕ) (x : ReceivedBlock) (rs : List ReceivedBlock)
    → irreversible ≤ x.block_index
    → IsAscending rs
    → Has x rs
    → (kept : List ReceivedBlock) × (truncate irreversible rs ≡ some kept)
      × IsAscending kept
      × ((y : ReceivedBlock) → Has y kept ↔ (Has y rs × (irreversible ≤ y.block_index)))
unfolding truncate
truncate-kept irreversible x [] le h has = absurd has
truncate-kept irreversible x (r ∷ rs) le h has =
    elim (Bool-cases (ltb r.block_index irreversible)) [
      | inl old ↦
          let below : r.block_index < irreversible = ltb→lt _ _ old in
          let (kept, k, asc, rows) =
            truncate-kept irreversible x rs le h.1 (later-Has below x le has) in
          rw old (
            kept,
            k,
            asc,
            λ y. (
              λ m. (inr ((rows y).0 m).0, ((rows y).0 m).1),
              λ m. (rows y).1 (later-Has below y m.1 m.0, m.1),
            ),
          )
      | inr new ↦
          let all : All (λ z. irreversible ≤ z.block_index) (r ∷ rs) =
            (ground arith, All-above-le irreversible r.block_index rs (ground arith) h.0) in
          rw new (
            r ∷ rs,
            refl,
            h,
            λ y. (λ m. (m, All-Has (λ z. irreversible ≤ z.block_index) y (r ∷ rs) all m), λ m. m.0),
          )
    ]
  where
    later-Has :
        r.block_index < irreversible
        → (y : ReceivedBlock) → irreversible ≤ y.block_index
        → (r ≡ y) ⊎ Has y rs
        → Has y rs
    later-Has old y high (inl e) = absurd (omega (arith, old, high, ap (λ z. z.block_index) e))
    later-Has old y high (inr m) = m

-- The row of a block.
abbrev pub row_of : BlockPosition → ReceivedBlock
row_of b = record { block_index = b.block_num; block_id = b.block_id }

module _ {D C : Type 0} ⦃cb : Chainbase D⦄ ⦃ab : Abieos C⦄ where
  abbrev pub rows_of : World D C → List ReceivedBlock
  rows_of w = (cb.contents w.db).received_blocks

  -- Where the rows ascend, a reversible block is recorded unless its number is there already, and
  -- then an exception leaves all as it was. The loop that drops old rows stops before the end of
  -- the table. Afterwards the rows ascend again, and they are exactly the new block's row and those
  -- of before, less the ones below the irreversible block.
  pub record_block-rows :
      (irreversible : ℕ) (b : BlockPosition) (w : World D C)
      → irreversible < b.block_num
      → IsAscending (rows_of w)
      → (Numbered b.block_num (rows_of w)
          × (record_block irreversible b w ≡ (err uniqueness_violated, w)))
        ⊎ (All (λ r. r.block_index ≢ b.block_num) (rows_of w)
            × ((w' : World D C) × (record_block irreversible b w ≡ (ok tt, w'))
                × IsAscending (rows_of w')
                × ((r : ReceivedBlock)
                    → Has r (rows_of w')
                      ↔ (((row_of b ≡ r) ⊎ Has r (rows_of w)) × (irreversible ≤ r.block_index)))))
  unfolding record_block ◌>>=◌
  record_block-rows irreversible b w h asc =
      elim (Option-cases (create by_blocknum (row_of b) (rows_of w))) [
        | inl taken ↦ inl (create-taken (row_of b) (rows_of w) taken, rw taken refl)
        | inr (rows, made) ↦
            let (asc', has) = create-IsAscending (row_of b) (rows_of w) rows asc made in
            let (free, joined) = create-rows (row_of b) (rows_of w) rows asc made in
            let (kept, stays, asc'', left) =
              truncate-kept irreversible (row_of b) rows (omega arith) asc' has in
            let w' : World D C =
              update_tables (λ t. record t { received_blocks = kept })
                (update_tables (λ t. record t { received_blocks = rows }) w) in
            let same : kept ≡ rows_of w' =
              sym (ap (λ t. t.received_blocks) (cb.contents-write _ _)) in
            inr (
              free,
              (
                w',
                rw made (rw stays refl),
                subst IsAscending same asc'',
                λ r.
                    subst
                      (λ l.
                        Has r l
                        ↔ (((row_of b ≡ r) ⊎ Has r (rows_of w)) × (irreversible ≤ r.block_index)))
                      same
                      (
                        λ m. ((joined r).0 ((left r).0 m).0, ((left r).0 m).1),
                        λ m. (left r).1 ((joined r).1 m.0, m.1),
                      ),
              ),
            )
      ]
