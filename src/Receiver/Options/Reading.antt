-- ===== src/Receiver/Options/Reading.antt =====
-- The loops over the names in the options (chronicle-receiver/receiver_plugin.cpp:
-- plugin_initialize): when they return, and with which entries.
use Prim.Native.String.{String}
use fio_chronicle.Prelude.{
  arith, ℕ, ◌≡◌, refl, ap, ◌∙◌, sym, Bool, true, false, List, [], ◌∷◌, Option, none, some, subst,
  Option-cases, inl, inr,
}
use fio_chronicle.Prelude.{insert, ◌||◌}
use fio_chronicle.Prelude.Action.{Action, ok, for_each, ◌>>=◌, >>=-returns}
use fio_chronicle.Receiver.Options.{
  Names, Plugin, add_name, add_pair, add_listed, add_listed_table, add_receiver, add_auth,
  add_table, set_traces, set_tables, given, read_filter, read_blacklist, read_tables_blacklist,
}

-- What a loop of insertions leaves.
abbrev pub add_all : {B S : Type 0} → (B → S → S) → List B → S → S
add_all add [] s = s
add_all add (b ∷ rest) s = add_all add rest (add b s)

-- Each text is read as the entry in its place.
abbrev pub AreRead : {A B : Type 0} → (A → B → Type 0) → List A → List B → Type 0
AreRead R [] [] = Unit
AreRead R [] (b ∷ bs) = ⊥
AreRead R (a ∷ as') [] = ⊥
AreRead R (a ∷ as') (b ∷ bs) = R a b × AreRead R as' bs

-- A step that adds what it reads, and throws where there is nothing to read.
record IsStep {A B S : Type 0} (R : A → B → Type 0) (add : B → S → S)
    (body : A → Action S (Unit {0})) : Type 0 where
  returns : (a : A) (s t : S) → body a s ≡ (ok tt, t) → (b : B) × R a b × (t ≡ add b s)
  adds : (a : A) (b : B) (s : S) → R a b → body a s ≡ (ok tt, add b s)

module _ {A B S : Type 0} {R : A → B → Type 0} {add : B → S → S} {body : A → Action S (Unit {0})}
    (step : IsStep R add body) where
  for_each-returns :
      (l : List A) (s t : S)
      → for_each body l s ≡ (ok tt, t)
      → (bs : List B) × AreRead R l bs × (t ≡ add_all add bs s)
  unfolding for_each ◌>>=◌
  for_each-returns [] s t h = ([], tt, ap (λ r. r.1) (sym h))
  for_each-returns (a ∷ rest) s t h =
      let (_, u, first, after) = >>=-returns (body a) (λ _. for_each body rest) s h in
      let (b, r, e) = step.returns a s u first in
      let (bs, rs, k) = for_each-returns rest u t after in
      (b ∷ bs, (r, rs), subst (λ v. t ≡ add_all add bs v) e k)

  for_each-adds :
      (l : List A) (bs : List B) (s : S)
      → AreRead R l bs
      → for_each body l s ≡ (ok tt, add_all add bs s)
  unfolding for_each ◌>>=◌
  for_each-adds [] [] s rs = refl
  for_each-adds [] (b ∷ bs) s rs = absurd rs
  for_each-adds (a ∷ rest) [] s rs = absurd rs
  for_each-adds (a ∷ rest) (b ∷ bs) s (r, rs) =
      rw (step.adds a b s r) (for_each-adds rest bs (add b s) rs)

module _ {D C : Type 0} where
  abbrev pub add_entry : ℕ × ℕ → Plugin D C → Plugin D C
  add_entry (c, a) = add_listed c a

  -- The filters with these entries.
  abbrev pub put_receivers : List ℕ → Plugin D C → Plugin D C
  put_receivers ns = set_traces (λ f. record f { rcvr_filter = add_all insert ns f.rcvr_filter })

  abbrev pub put_auths : List ℕ → Plugin D C → Plugin D C
  put_auths ns = set_traces (λ f. record f { auth_filter = add_all insert ns f.auth_filter })

  abbrev pub put_tables : List ℕ → Plugin D C → Plugin D C
  put_tables ns = set_tables (λ f. record f { tables_filter = add_all insert ns f.tables_filter })

  abbrev pub put_listed : Bool → List (ℕ × ℕ) → Plugin D C → Plugin D C
  put_listed on bs = set_traces (λ f. record f {
    do_trace_blacklist = on || f.do_trace_blacklist;
    blacklist_actions = add_all (λ b l. b ∷ l) bs f.blacklist_actions;
  })

  abbrev pub put_listed_tables : Bool → List ℕ → Plugin D C → Plugin D C
  put_listed_tables on ns = set_tables (λ f. record f {
    enable_tables_blacklist = on || f.enable_tables_blacklist;
    tables_blacklist = add_all insert ns f.tables_blacklist;
  })

  pub add_all-add_receiver :
      (ns : List ℕ) (p : Plugin D C) → add_all add_receiver ns p ≡ put_receivers ns p
  add_all-add_receiver [] p = refl
  add_all-add_receiver (n ∷ ns) p = add_all-add_receiver ns (add_receiver n p)

  pub add_all-add_auth : (ns : List ℕ) (p : Plugin D C) → add_all add_auth ns p ≡ put_auths ns p
  add_all-add_auth [] p = refl
  add_all-add_auth (n ∷ ns) p = add_all-add_auth ns (add_auth n p)

  pub add_all-add_table : (ns : List ℕ) (p : Plugin D C) → add_all add_table ns p ≡ put_tables ns p
  add_all-add_table [] p = refl
  add_all-add_table (n ∷ ns) p = add_all-add_table ns (add_table n p)

  add_all-add_entry :
      (bs : List (ℕ × ℕ)) (p : Plugin D C) → add_all add_entry bs p ≡ put_listed false bs p
  add_all-add_entry [] p = refl
  add_all-add_entry (b ∷ bs) p = add_all-add_entry bs (add_entry b p)

  add_all-add_listed_table :
      (ns : List ℕ) (p : Plugin D C) → add_all add_listed_table ns p ≡ put_listed_tables false ns p
  add_all-add_listed_table [] p = refl
  add_all-add_listed_table (n ∷ ns) p = add_all-add_listed_table ns (add_listed_table n p)

module _ (names : Names) where
  abbrev pub IsName : String → ℕ → Type 0
  IsName s n = names.string_to_name_strict s ≡ some n

  -- "contract:action"
  abbrev pub IsPair : String → ℕ × ℕ → Type 0
  IsPair entry (c, a) =
      (contract : String) × (action : String) × (names.split entry ≡ contract ∷ action ∷ [])
      × IsName contract c
      × IsName action a

  -- What the option of a filter gives: a filter that is enabled needs the option.
  abbrev pub Gives : Bool → Option (List String) → List ℕ → Type 0
  Gives false accounts ns = ns ≡ []
  Gives true none ns = ⊥
  Gives true (some accounts) ns = AreRead IsName accounts ns

  -- What an option that needs no other gives.
  abbrev pub Lists : {B : Type 0} → (String → B → Type 0) → Option (List String) → List B → Type 0
  Lists R none bs = bs ≡ []
  Lists R (some entries) bs = AreRead R entries bs

  module _ {D C : Type 0} where
    add_name-IsStep : (add : ℕ → Plugin D C → Plugin D C) → IsStep IsName add (add_name names add)
    unfolding add_name ◌>>=◌
    add_name-IsStep add = record {
      returns = λ s p q h. elim (Option-cases (names.string_to_name_strict s)) [
        | inl e ↦ absurd (ground arith)
        | inr (n, e) ↦ (n, e, ground arith)
      ];
      adds = λ s n p e. rw e refl;
    }

    add_pair-returns :
        (parts : List String) (p q : Plugin D C)
        → add_pair names parts p ≡ (ok tt, q)
        → (contract action : String) × (c a : ℕ) × (parts ≡ contract ∷ action ∷ [])
          × IsName contract c
          × IsName action a
          × (q ≡ add_listed c a p)
    unfolding add_pair ◌>>=◌
    add_pair-returns [] p q h = absurd (ground arith)
    add_pair-returns (x ∷ []) p q h = absurd (ground arith)
    add_pair-returns (x ∷ y ∷ z ∷ rest) p q h = absurd (ground arith)
    add_pair-returns (x ∷ y ∷ []) p q h = elim (Option-cases (names.string_to_name_strict x)) [
      | inl e ↦ absurd (ground arith)
      | inr (c, e) ↦ elim (Option-cases (names.string_to_name_strict y)) [
        | inl k ↦ absurd (ground arith)
        | inr (a, k) ↦ (x, y, c, a, refl, e, k, ground arith)
      ]
    ]

    add_pair-IsStep :
        IsStep IsPair (add_entry {D = D} {C = C}) (λ entry. add_pair names (names.split entry))
    unfolding add_pair ◌>>=◌
    add_pair-IsStep = record {
      returns = λ entry p q h.
          let (x, y, c, a, e, k, l, r) = add_pair-returns (names.split entry) p q h in
          ((c, a), (x, y, e, k, l), r);
      adds = λ entry (c, a) p (x, y, e, k, l). rw (e, k, l) refl;
    }

    -- The three kinds of options with names.
    pub read_filter-returns :
        (on : Bool) (accounts : Option (List String)) (add : ℕ → Plugin D C → Plugin D C)
        (p q : Plugin D C)
        → read_filter names on accounts add p ≡ (ok tt, q)
        → (ns : List ℕ) × Gives on accounts ns × (q ≡ add_all add ns p)
    unfolding read_filter ◌>>=◌
    read_filter-returns false accounts add p q h = ([], refl, ap (λ r. r.1) (sym h))
    read_filter-returns true none add p q h = absurd (ground arith)
    read_filter-returns true (some l) add p q h = for_each-returns (add_name-IsStep add) l p q h

    pub read_filter-Gives :
        (on : Bool) (accounts : Option (List String)) (add : ℕ → Plugin D C → Plugin D C)
        (ns : List ℕ) (p : Plugin D C)
        → Gives on accounts ns
        → read_filter names on accounts add p ≡ (ok tt, add_all add ns p)
    unfolding read_filter ◌>>=◌
    read_filter-Gives false accounts add ns p g = rw g refl
    read_filter-Gives true none add ns p g = absurd g
    read_filter-Gives true (some l) add ns p g = for_each-adds (add_name-IsStep add) l ns p g

    pub read_blacklist-returns :
        (entries : Option (List String)) (p q : Plugin D C)
        → read_blacklist names entries p ≡ (ok tt, q)
        → (bs : List (ℕ × ℕ)) × Lists IsPair entries bs × (q ≡ put_listed (given entries) bs p)
    unfolding read_blacklist ◌>>=◌
    read_blacklist-returns none p q h = ([], refl, ap (λ r. r.1) (sym h))
    read_blacklist-returns (some l) p q h =
        let (bs, g, e) = for_each-returns add_pair-IsStep l (put_listed true [] p) q h in
        (bs, g, e ∙ add_all-add_entry bs (put_listed true [] p))

    pub read_blacklist-Lists :
        (entries : Option (List String)) (bs : List (ℕ × ℕ)) (p : Plugin D C)
        → Lists IsPair entries bs
        → read_blacklist names entries p ≡ (ok tt, put_listed (given entries) bs p)
    unfolding read_blacklist ◌>>=◌
    read_blacklist-Lists none bs p g = rw g refl
    read_blacklist-Lists (some l) bs p g =
        for_each-adds add_pair-IsStep l bs (put_listed true [] p) g
        ∙ ap (λ r. (ok tt, r)) (add_all-add_entry bs (put_listed true [] p))

    pub read_tables_blacklist-returns :
        (accounts : Option (List String)) (p q : Plugin D C)
        → read_tables_blacklist names accounts p ≡ (ok tt, q)
        → (ns : List ℕ) × Lists IsName accounts ns × (q ≡ put_listed_tables (given accounts) ns p)
    unfolding read_tables_blacklist ◌>>=◌
    read_tables_blacklist-returns none p q h = ([], refl, ap (λ r. r.1) (sym h))
    read_tables_blacklist-returns (some l) p q h =
        let (ns, g, e) =
          for_each-returns (add_name-IsStep add_listed_table) l (put_listed_tables true [] p) q h in
        (ns, g, e ∙ add_all-add_listed_table ns (put_listed_tables true [] p))

    pub read_tables_blacklist-Lists :
        (accounts : Option (List String)) (ns : List ℕ) (p : Plugin D C)
        → Lists IsName accounts ns
        → read_tables_blacklist names accounts p ≡ (ok tt, put_listed_tables (given accounts) ns p)
    unfolding read_tables_blacklist ◌>>=◌
    read_tables_blacklist-Lists none ns p g = rw g refl
    read_tables_blacklist-Lists (some l) ns p g =
        for_each-adds (add_name-IsStep add_listed_table) l ns (put_listed_tables true [] p) g
        ∙ ap (λ r. (ok tt, r)) (add_all-add_listed_table ns (put_listed_tables true [] p))
