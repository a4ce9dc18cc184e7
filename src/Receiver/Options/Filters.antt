-- ===== src/Receiver/Options/Filters.antt =====
-- From the options of the filters to the matches of a trace's actions
-- (chronicle-receiver/receiver_plugin.cpp: plugin_initialize, receive_traces).
use Prim.Native.String.{String}
use fio_chronicle.Prelude.{
  ℕ, ◌≡◌, ◌↔◌, refl, ap, ◌∙◌, sym, subst, Bool, true, false, not, ◌&&◌, ◌||◌, ◌==◌, List, [], ◌∷◌,
  Option, none, some, insert, contains, any, arith, if◌then◌else◌,
}
use mathlib.Core.Path.{ap₂}
use fio_chronicle.Prelude.Action.{ok}
use fio_chronicle.Store.Chainbase.{Chainbase}
use fio_chronicle.Receiver.State.{Config, TraceFilter}
use fio_chronicle.Receiver.Message.{ActionTrace}
use fio_chronicle.Receiver.Traces.{Matched, match_actions, passes}
use fio_chronicle.Receiver.Traces.Filter.{
  IsConsistent, is_blocked, is_selected, SelectedBy, passes-blacklist, passes-Selected,
}
use fio_chronicle.Receiver.Options.{Options, Names, Plugin, given, plugin_initialize}
use fio_chronicle.Receiver.Options.Reading.{add_all, AreRead, Gives, Lists, IsName, IsPair}
use fio_chronicle.Receiver.Options.Accepted.{
  flags_of, Parsed, AreParsed, traces_of, plugin_initialize-IsAccepted,
}

-- The fields of a filter before the options are read.
pub record IsFresh (f : TraceFilter) : Type 0 where
  pub no_actions : f.blacklist_actions ≡ []
  pub no_receivers : f.rcvr_filter ≡ []
  pub no_auths : f.auth_filter ≡ []
  pub filter_off : f.do_trace_filter ≡ false
  pub blacklist_off : f.do_trace_blacklist ≡ false

module _ (names : Names) where
  -- The text is the name of this number.
  abbrev pub is_name_of : ℕ → String → Bool
  is_name_of x s = elim (names.string_to_name_strict s) [ some n ↦ n == x | none ↦ false ]

  -- One of the names in the option is that of this number.
  abbrev pub is_named : Option (List String) → ℕ → Bool
  is_named none x = false
  is_named (some accounts) x = any (is_name_of x) accounts

  -- "contract:action" is this contract and action.
  abbrev pub is_pair_of : ℕ → ℕ → List String → Bool
  is_pair_of c a (contract ∷ action ∷ []) = is_name_of c contract && is_name_of a action
  is_pair_of c a parts = false

  -- The action is in the option `blacklist-action`.
  abbrev pub is_listed : Option (List String) → ActionTrace → Bool
  is_listed none a = false
  is_listed (some entries) a = any (λ e. is_pair_of a.account a.name (names.split e)) entries

  -- An enabled filter names the receiver of the action, or one of its authorizers.
  abbrev pub is_wanted : Options → ActionTrace → Bool
  is_wanted o a =
      (o.enable_receiver_filter && is_named o.include_receiver a.receiver)
      || (o.enable_auth_filter && any (is_named o.include_auth) a.authorization)

or_swap : (a b c : Bool) → a || (b || c) ≡ (b || a) || c
or_swap a b c = ground arith

pub or_false : (a : Bool) → a || false ≡ a
or_false a = ground arith

contains-insert_other :
    (n : ℕ) (xs : List ℕ) (x : ℕ) → contains (insert n xs) x ≡ n == x || contains xs x
contains-insert_other n xs x = ground arith

pub contains-add_all :
    (ns xs : List ℕ) (x : ℕ) → contains (add_all insert ns xs) x ≡ contains ns x || contains xs x
contains-add_all [] xs x = refl
contains-add_all (n ∷ ns) xs x =
    rw (contains-add_all ns (insert n xs) x, contains-insert_other n xs x)
      (or_swap (contains ns x) (n == x) (contains xs x))

any-add_all :
    {A : Type 0} (p : A → Bool) (bs l : List A)
    → any p (add_all (λ b r. b ∷ r) bs l) ≡ any p bs || any p l
any-add_all p [] l = refl
any-add_all p (b ∷ bs) l = rw (any-add_all p bs (b ∷ l)) (or_swap (any p bs) (p b) (any p l))

module _ (names : Names) where
  pub AreRead-contains :
      (accounts : List String) (ns : List ℕ) (x : ℕ)
      → AreRead (IsName names) accounts ns
      → contains ns x ≡ any (is_name_of names x) accounts
  AreRead-contains [] [] x r = refl
  AreRead-contains [] (n ∷ ns) x r = absurd r
  AreRead-contains (s ∷ rest) [] x r = absurd r
  AreRead-contains (s ∷ rest) (n ∷ ns) x (e, r) =
      ap₂ (λ p q. p || q) (rw (is_name_of, e) refl) (AreRead-contains rest ns x r)

  AreRead-any :
      (entries : List String) (bs : List (ℕ × ℕ)) (c a : ℕ)
      → AreRead (IsPair names) entries bs
      → any (λ b. b.0 == c && b.1 == a) bs ≡ any (λ e. is_pair_of names c a (names.split e)) entries
  AreRead-any [] [] c a r = refl
  AreRead-any [] (b ∷ bs) c a r = absurd r
  AreRead-any (e ∷ rest) [] c a r = absurd r
  AreRead-any (e ∷ rest) ((n, m) ∷ bs) c a ((x, y, k, kx, ky), r) =
      ap₂ (λ p q. p || q) (rw (is_pair_of, k, is_name_of, kx, ky) refl) (AreRead-any rest bs c a r)

  pub Gives-contains :
      (on : Bool) (accounts : Option (List String)) (ns : List ℕ) (x : ℕ)
      → Gives names on accounts ns
      → on && contains (add_all insert ns []) x ≡ on && is_named names accounts x
  Gives-contains false accounts ns x g = refl
  Gives-contains true none ns x g = absurd g
  Gives-contains true (some l) ns x g =
      rw (contains-add_all ns [] x) (or_false (contains ns x) ∙ AreRead-contains l ns x g)

  Gives-any :
      (on : Bool) (accounts : Option (List String)) (ns xs : List ℕ)
      → Gives names on accounts ns
      → on && any (contains (add_all insert ns [])) xs ≡ on && any (is_named names accounts) xs
  Gives-any on accounts ns [] g = refl
  Gives-any false accounts ns (x ∷ xs) g = refl
  Gives-any true accounts ns (x ∷ xs) g =
      ap₂ (λ p q. p || q) (Gives-contains true accounts ns x g) (Gives-any true accounts ns xs g)

  Lists-any :
      (entries : Option (List String)) (bs : List (ℕ × ℕ)) (a : ActionTrace)
      → Lists names (IsPair names) entries bs
      → given entries && any (λ b. b.0 == a.account && b.1 == a.name) bs ≡ is_listed names entries a
  Lists-any none bs a g = refl
  Lists-any (some l) bs a g = AreRead-any l bs a.account a.name g

  -- The filters that the options make, action by action.
  is_blocked-listed :
      (o : Options) (r : Parsed) (f : TraceFilter) (a : ActionTrace)
      → IsFresh f
      → AreParsed names o r
      → is_blocked (traces_of o r f) a ≡ is_listed names o.blacklist_action a
  is_blocked-listed o r f a fresh g =
      rw
        (
          fresh.no_actions,
          fresh.blacklist_off,
          any-add_all (λ b. b.0 == a.account && b.1 == a.name) r.listed [],
          or_false (given o.blacklist_action),
          or_false (any (λ b. b.0 == a.account && b.1 == a.name) r.listed),
        )
        (Lists-any o.blacklist_action r.listed a g.listed)

  is_selected-wanted :
      (o : Options) (r : Parsed) (f : TraceFilter) (a : ActionTrace)
      → IsFresh f
      → AreParsed names o r
      → is_selected (traces_of o r f) a ≡ is_wanted names o a
  is_selected-wanted o r f a fresh g =
      rw (fresh.no_receivers, fresh.no_auths)
        (ap₂ (λ p q. p || q)
          (Gives-contains o.enable_receiver_filter o.include_receiver r.receivers a.receiver
            g.receivers)
          (Gives-any o.enable_auth_filter o.include_auth r.auths a.authorization g.auths))

if-traces :
    (b : Bool) (c d : Config) (t : TraceFilter)
    → c.traces ≡ t
    → d.traces ≡ t
    → (if b then c else d).traces ≡ t
if-traces true c d t e k = e
if-traces false c d t e k = k

flags_of-traces : (m : String) (c : Config) → (flags_of m c).traces ≡ c.traces
unfolding flags_of
flags_of-traces m c = refl

IsConsistent-traces :
    (o : Options) (r : Parsed) (f : TraceFilter) → IsFresh f → IsConsistent (traces_of o r f)
IsConsistent-traces o r f fresh = record { any_filter = rw (fresh.filter_off) refl }

module _ (names : Names) (o : Options) where
  blocked-listed :
      (r : Parsed) (f : TraceFilter)
      → IsFresh f
      → AreParsed names o r
      → is_blocked (traces_of o r f) ≡ is_listed names o.blacklist_action
  blocked-listed r f fresh g i a = is_blocked-listed names o r f a fresh g i

  selected-wanted :
      (r : Parsed) (f : TraceFilter)
      → IsFresh f
      → AreParsed names o r
      → is_selected (traces_of o r f) ≡ is_wanted names o
  selected-wanted r f fresh g i a = is_selected-wanted names o r f a fresh g i

module _ (names : Names) {D C : Type 0} ⦃cb : Chainbase D⦄ (version : String) (o : Options) where
  traces-returned :
      (p q : Plugin D C)
      → o.save_snapshot ≡ none
      → o.restore_snapshot ≡ none
      → plugin_initialize names version o p ≡ (ok tt, q)
      → (r : Parsed) × AreParsed names o r × (q.config.traces ≡ traces_of o r p.config.traces)
  traces-returned p q s t h =
      let (r, a, e) = (plugin_initialize-IsAccepted names version o p q s t).0 h in
      (
        r,
        a.parsed,
        ap (λ w. w.config.traces) e
            ∙ ap (traces_of o r) (
                flags_of-traces r.mode
                  (record p.config { irreversible_only = o.irreversible_only })),
      )

  -- The matches of a trace pass the filters that the options make, with a filter enabled ...
  pub matches-Selected :
      (p q : Plugin D C) (actions : List ActionTrace) (m : Matched)
      → o.save_snapshot ≡ none
      → o.restore_snapshot ≡ none
      → IsFresh p.config.traces
      → plugin_initialize names version o p ≡ (ok tt, q)
      → o.enable_receiver_filter || o.enable_auth_filter ≡ true
      → match_actions q.config.traces actions ≡ ok m
      → (passes q.config.traces m ≡ true)
        ↔ SelectedBy (is_listed names o.blacklist_action) (is_wanted names o) actions
  matches-Selected p q actions m s t fresh h on k =
      let (r, g, e) = traces-returned p q s t h in
      let f : TraceFilter = traces_of o r p.config.traces in
      let found =
        passes-Selected f actions m (IsConsistent-traces o r p.config.traces fresh)
          (rw (fresh.filter_off) on) (subst (λ x. match_actions x actions ≡ ok m) e k) in
      subst
        (λ x.
          (passes x m ≡ true)
          ↔ SelectedBy (is_listed names o.blacklist_action) (is_wanted names o) actions)
        (sym e)
        (subst (λ b. (passes f m ≡ true) ↔ SelectedBy b (is_wanted names o) actions)
          (blocked-listed names o r p.config.traces fresh g)
          (subst (λ b. (passes f m ≡ true) ↔ SelectedBy (is_blocked f) b actions)
            (selected-wanted names o r p.config.traces fresh g) found))

  -- ... and with none.
  pub matches-blacklist :
      (p q : Plugin D C) (actions : List ActionTrace) (m : Matched)
      → o.save_snapshot ≡ none
      → o.restore_snapshot ≡ none
      → IsFresh p.config.traces
      → plugin_initialize names version o p ≡ (ok tt, q)
      → o.enable_receiver_filter || o.enable_auth_filter ≡ false
      → match_actions q.config.traces actions ≡ ok m
      → passes q.config.traces m ≡ not (any (is_listed names o.blacklist_action) actions)
  matches-blacklist p q actions m s t fresh h off k =
      let (r, g, e) = traces-returned p q s t h in
      let f : TraceFilter = traces_of o r p.config.traces in
      ap (λ x. passes x m) e
      ∙ passes-blacklist f actions m (IsConsistent-traces o r p.config.traces fresh)
          (rw (fresh.filter_off) off) (subst (λ x. match_actions x actions ≡ ok m) e k)
      ∙ ap (λ b. not (any b actions)) (blocked-listed names o r p.config.traces fresh g)

  -- A filter or a blacklist in the options has the actions looked at.
  pub filter_on :
      (p q : Plugin D C)
      → o.save_snapshot ≡ none
      → o.restore_snapshot ≡ none
      → IsFresh p.config.traces
      → plugin_initialize names version o p ≡ (ok tt, q)
      → (q.config.traces.do_trace_filter ≡ (o.enable_receiver_filter || o.enable_auth_filter))
        × (q.config.traces.do_trace_blacklist ≡ given o.blacklist_action)
  filter_on p q s t fresh h =
      let (r, g, e) = traces-returned p q s t h in
      (
        ap (λ f. f.do_trace_filter) e ∙ rw (fresh.filter_off) refl,
        ap (λ f. f.do_trace_blacklist) e
            ∙ rw (fresh.blacklist_off) (or_false (given o.blacklist_action)),
      )
