-- ===== src/Exporter/Relic/Acks.antt =====
-- Which blocks the exporter to the relic database acknowledges (chronicle-receiver/
-- exp_relic_plugin.cpp, async_send_events).
use fio_chronicle.Prelude.{
  ℕ, ◌%◌, ◌≡◌, refl, ap, sym, subst, ◌∙◌, Bool, true, false, ◌&&◌, ◌||◌, List, [], ◌∷◌, ◌++◌,
  append-nil, if◌then◌else◌, Option, none, some, sub32, u32_mod, ◌==◌, ==_iff,
}
use mathlib.Core.Path.{ap₂}
use fio_chronicle.Prelude.Action.{
  Action, Result, ok, err, continue, or_throw, skip, bad_number, ◌>>=◌, modify,
}
use fio_chronicle.Prelude.Keeps.{Keeps-skip}
use fio_chronicle.Exporter.Text.{Text, text, same, is}
use fio_chronicle.Exporter.Text.Numbers.{stoul}
use fio_chronicle.Exporter.Json.{Json, field}
use fio_chronicle.Exporter.Relic.{Services, Relic, raw, get, acked}
use fio_chronicle.Exporter.Relic.Quiet.{
  View, Quiet, view, acks, acks-append, Quiet-call, Quiet-change_pending,
}
use fio_chronicle.Exporter.Relic.Quiet.Traces.{Quiet-on_trace}
use fio_chronicle.Exporter.Relic.Quiet.Blocks.{Quiet-burn_rows, Quiet-on_block, Quiet-on_table_row}
use fio_chronicle.Exporter.Relic.Blocks.{
  acknowledge_previous, on_block_completed, on_fork, dispatch, is_event, on_document,
}

abbrev pub also : List ℕ → View → View
also ns v = record v { acknowledged = v.acknowledged ++ ns }

-- What a call acknowledges if it returns.
abbrev pub if_returned : {A : Type 0} → Result A → List ℕ → List ℕ
if_returned (ok a) ns = ns
if_returned (err e) ns = []

-- A call that acknowledges these blocks if it returns, none if it throws, and changes nothing else
-- in the view.
pub record Acks {D A : Type 0} (ns : List ℕ) (m : Action (Relic D) A) : Type 0 where
  pub at : (s : Relic D) → view (m s).1 ≡ also (if_returned (m s).0 ns) (view s)

also-nothing : (v : View) → also [] v ≡ v
also-nothing v = ap (λ l. record v { acknowledged = l }) (append-nil v.acknowledged)

pub if_returned-nothing : {A : Type 0} (r : Result A) → if_returned r [] ≡ []
if_returned-nothing (ok a) = refl
if_returned-nothing (err e) = refl

module _ {D : Type 0} where
  Acks-Quiet : {A : Type 0} (m : Action (Relic D) A) → ((v : View) → Quiet v m) → Acks [] m
  Acks-Quiet m quiet = record {
    at = λ s.
        (quiet (view s)).kept s refl
        ∙ sym (ap (λ ns. also ns (view s)) (if_returned-nothing (m s).0) ∙ also-nothing (view s));
  }

  Acks-rest :
      {A B : Type 0} (ns : List ℕ) (f : A → Action (Relic D) B) (r : Result A) (s u : Relic D)
      → ((a : A) → Acks ns (f a))
      → view u ≡ view s
      → view (continue r f u).1 ≡ also (if_returned (continue r f u).0 ns) (view s)
  Acks-rest ns f (err e) s u next same_view = same_view ∙ sym (also-nothing (view s))
  Acks-rest ns f (ok a) s u next same_view =
      (next a).at u ∙ ap (λ w. also (if_returned (f a u).0 ns) w) same_view

  Acks-bind :
      {A B : Type 0} (ns : List ℕ) (m : Action (Relic D) A) (f : A → Action (Relic D) B)
      → ((v : View) → Quiet v m)
      → ((a : A) → Acks ns (f a))
      → Acks ns (m >>= f)
  unfolding ◌>>=◌
  Acks-bind ns m f quiet next = record {
    at = λ s. Acks-rest ns f (m s).0 s (m s).1 next ((quiet (view s)).kept s refl);
  }

  Acks-if :
      {A : Type 0} (b : Bool) (ns ks : List ℕ) (m n : Action (Relic D) A)
      → Acks ns m
      → Acks ks n
      → Acks (if b then ns else ks) (if b then m else n)
  Acks-if true ns ks m n yes_acks no_acks = yes_acks
  Acks-if false ns ks m n yes_acks no_acks = no_acks

  Acks-acknowledge_previous :
      (sv : Services D) (n : ℕ) → Acks (sub32 n 1 ∷ []) (acknowledge_previous sv n)
  unfolding acknowledge_previous modify acks
  Acks-acknowledge_previous sv n = record {
    at = λ s.
        ap (λ l. record (view s) { acknowledged = l }) (acks-append s.out (acked (sub32 n 1) ∷ []));
  }

-- The message types at whose end the previous block is acknowledged.
abbrev pub acknowledges : Text → Bool
acknowledges msgtype = is msgtype "BLOCK_COMPLETED" || is msgtype "FORK"

-- The previous block, if the number can be read.
abbrev pub previous_of : Option ℕ → List ℕ
previous_of none = []
previous_of (some n) = sub32 (n % u32_mod) 1 ∷ []

pub both_true : (x y : Bool) → (x && y) ≡ true → (x ≡ true) × (y ≡ true)
both_true true true h = (refl, refl)
both_true true false h = cc
both_true false y h = cc

pub same-eq : (t u : Text) → same t u ≡ true → t ≡ u
same-eq [] [] h = refl
same-eq [] (b ∷ bs) h = cc
same-eq (a ∷ tl) [] h = cc
same-eq (a ∷ tl) (b ∷ bs) h =
    let (e, k) = both_true (a == b) (same tl bs) h in
    ap₂ (λ x y. x ∷ y) ((==_iff a b).0 e) (same-eq tl bs k)

not_fork :
    (msgtype literal : Text)
    → same literal (text "FORK") ≡ false
    → same msgtype literal ≡ true
    → is msgtype "FORK" ≡ false
not_fork msgtype literal other h =
    subst (λ t. is t "FORK" ≡ false) (sym (same-eq msgtype literal h)) other

module _ {D A : Type 0} (ns : List ℕ) (m n : Action (Relic D) A) where
  Acks-or :
      (b f : Bool)
      → Acks ns m
      → Acks (if f then ns else []) n
      → Acks (if b || f then ns else []) (if b then m else n)
  Acks-or true f yes_acks no_acks = yes_acks
  Acks-or false f yes_acks no_acks = no_acks

  Acks-except :
      (b f : Bool)
      → (b ≡ true → f ≡ false)
      → Acks [] m
      → Acks (if f then ns else []) n
      → Acks (if f then ns else []) (if b then m else n)
  Acks-except true f other yes_acks no_acks =
      subst (λ g. Acks (if g then ns else []) m) (sym (other refl)) yes_acks
  Acks-except false f other yes_acks no_acks = no_acks

module _ {D : Type 0} (sv : Services D) where
  -- What a document makes the exporter acknowledge.
  unfoldable pub acknowledgement : Json → List ℕ
  acknowledgement document =
      if is_event document && acknowledges (get sv document "msgtype")
      then previous_of (stoul (get sv (field document "data") "block_num"))
      else []

  Acks-on_block_completed :
      (bnums : Text) (bnum : ℕ) (document : Json)
      → Acks (sub32 bnum 1 ∷ []) (on_block_completed sv bnums bnum document)
  unfolding on_block_completed
  Acks-on_block_completed bnums bnum document =
      Acks-bind _ _ _ (λ v. Quiet-burn_rows sv v bnums document)
        (λ _.
          Acks-bind _ _ _ (λ v. Quiet-change_pending v _) (λ _. Acks-acknowledge_previous sv bnum))

  Acks-on_fork : (bnums : Text) (bnum : ℕ) → Acks (sub32 bnum 1 ∷ []) (on_fork sv bnums bnum)
  unfolding on_fork
  Acks-on_fork bnums bnum =
      Acks-bind _ _ _ (λ v. Quiet-call sv v "rbfork" (raw bnums ∷ []))
        (λ _. Acks-acknowledge_previous sv bnum)

  Acks-dispatch :
      (msgtype bnums : Text) (bnum : ℕ) (document : Json)
      → Acks
          (if acknowledges msgtype then sub32 bnum 1 ∷ [] else [])
          (dispatch sv msgtype bnums bnum document)
  unfolding dispatch
  Acks-dispatch msgtype bnums bnum document =
      Acks-or ns _ _ _ _ (Acks-on_block_completed bnums bnum document) (
        Acks-except ns _ _ _ _ (not_fork msgtype (text "BLOCK") refl)
          (Acks-Quiet _ (λ v. Quiet-on_block sv v bnums event))
          (Acks-except ns _ _ _ _ (not_fork msgtype (text "TX_TRACE") refl)
            (Acks-Quiet _ (λ v. Quiet-on_trace sv v bnums event))
            (Acks-except ns _ _ _ _ (not_fork msgtype (text "TBL_ROW") refl)
              (Acks-Quiet _ (λ v. Quiet-on_table_row sv v event))
              (Acks-if _ ns [] _ _ (Acks-on_fork bnums bnum) (Acks-Quiet _ (λ v. Keeps-skip))))))
    where
      ns : List ℕ
      ns = sub32 bnum 1 ∷ []

      event : Json
      event = field document "data"

  Acks-read :
      (msgtype bnums : Text) (document : Json) (number : Option ℕ)
      → Acks
          (if acknowledges msgtype then previous_of number else [])
          (or_throw number bad_number >>= (λ n. dispatch sv msgtype bnums (n % u32_mod) document))
  unfolding ◌>>=◌
  Acks-read msgtype bnums document (some n) = Acks-dispatch msgtype bnums (n % u32_mod) document
  Acks-read msgtype bnums document none = record { at = λ s. sym (also-nothing (view s)) }

  Acks-event :
      (event acknowledging : Bool) (ns : List ℕ) (m : Action (Relic D) (Unit {0}))
      → Acks (if acknowledging then ns else []) m
      → Acks (if event && acknowledging then ns else []) (if event then m else skip)
  Acks-event true acknowledging ns m acks_m = acks_m
  Acks-event false acknowledging ns m acks_m = Acks-Quiet skip (λ v. Keeps-skip)

  -- A document is acknowledged exactly when it ends a block or announces a fork, its block number
  -- can be read and its handler returns: then the previous block is, once. All else leaves the
  -- acknowledgements as they are, and nothing changes the queue, its marks, the pause or the
  -- counter.
  pub on_document-Acks :
      (document : Json) → Acks (acknowledgement document) (on_document sv document)
  unfolding on_document acknowledgement
  on_document-Acks document =
      Acks-event (is_event document) (acknowledges (get sv document "msgtype")) _ _ (
        Acks-read (get sv document "msgtype") (get sv (field document "data") "block_num") document
          (stoul (get sv (field document "data") "block_num")))
