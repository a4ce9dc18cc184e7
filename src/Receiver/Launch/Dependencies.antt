-- ===== src/Receiver/Launch/Dependencies.antt =====
-- Waiting for the other plugins (chronicle-receiver/receiver_plugin.cpp: start_after_dependencies):
-- nothing is read before all of them have started, and then it is.
use fio_chronicle.Prelude.{
  ℕ, ◌≡◌, ◌≢◌, refl, subst, Bool, true, false, List, [], ◌∷◌, All, Bool-cases, inl, inr, ◌||◌, ◌&&◌,
  if◌then◌else◌, arith,
}
use fio_chronicle.Prelude.Keeps.{Keeps, Keeps-modify, keeps_rules}
use fio_chronicle.Prelude.Action.{Action, Result, ok, err}
use fio_chronicle.Receiver.State.{State}
use fio_chronicle.Receiver.Launch.{
  on_state, Pending, nothing, resolve, connect, handshake, messages,
}
use fio_chronicle.Store.Chainbase.{Chainbase}
use fio_chronicle.Store.Abieos.{Abieos}
use fio_chronicle.Receiver.State.{Config, armed_pause_timer}
use fio_chronicle.Receiver.Flow.{put_out}
use fio_chronicle.Prelude.Action.{modify, ◌>>=◌}
use fio_chronicle.Receiver.Launch.{
  Launch, Dependent, dependencies, Callback, timer, completed, drop_started, on_callbacks,
  on_callback, start, start_or_wait, start_after_dependencies, ended,
}

-- At one of the timer's callbacks the plugin had started.
abbrev pub seen_started : List Callback → Dependent → Bool
seen_started [] d = false
seen_started (timer started ∷ rest) d = started d.0 || seen_started rest d
seen_started (completed failed ∷ rest) d = seen_started rest d

abbrev pub all_started : (ℕ → Bool) → List Dependent → Bool
all_started started [] = true
all_started started (d ∷ rest) = started d.0 && all_started started rest

or_true : (a b : Bool) → b ≡ true → (a || b) ≡ true
or_true a b h = ground arith

seen-later :
    (started : ℕ → Bool) (calls : List Callback) (ds : List Dependent)
    → All (λ d. seen_started calls d ≡ true) ds
    → All (λ d. (started d.0 || seen_started calls d) ≡ true) ds
seen-later started calls [] all = tt
seen-later started calls (d ∷ rest) (seen, all) =
    (or_true (started d.0) (seen_started calls d) seen, seen-later started calls rest all)

-- The plugins that are left, by whether the first has started.
abbrev Kept : (ℕ → Bool) → List Callback → Dependent → List Dependent → Bool → Type 0
Kept started calls d rest b =
    All (λ x. seen_started calls x ≡ true) (if b then drop_started started rest else d ∷ rest)

-- Each plugin has started by then, or was seen to have started later.
drop_started-seen :
    (started : ℕ → Bool) (calls : List Callback) (ds : List Dependent)
    → All (λ d. seen_started calls d ≡ true) (drop_started started ds)
    → All (λ d. (started d.0 || seen_started calls d) ≡ true) ds
unfolding drop_started
drop_started-seen started calls [] left = tt
drop_started-seen started calls (d ∷ rest) left = elim (Bool-cases (started d.0)) [
  | inl e ↦
      (rw e refl, drop_started-seen started calls rest (subst (Kept started calls d rest) e left))
  | inr e ↦
      let (seen, others) = subst (Kept started calls d rest) e left in
      (rw e seen, seen-later started calls rest others)
]

drop_started-all :
    (started : ℕ → Bool) (ds : List Dependent)
    → all_started started ds ≡ true
    → drop_started started ds ≡ []
unfolding drop_started
drop_started-all started [] h = refl
drop_started-all started (d ∷ rest) h = ground (arith, drop_started-all started rest)

drop_started-all_started :
    (started later : ℕ → Bool) (ds : List Dependent)
    → all_started later ds ≡ true
    → all_started later (drop_started started ds) ≡ true
unfolding drop_started
drop_started-all_started started later [] h = refl
drop_started-all_started started later (d ∷ rest) h =
    ground (arith, drop_started-all_started started later rest)

module _ {D C : Type 0} ⦃cb : Chainbase D⦄ ⦃ab : Abieos C⦄ where
  -- As `start_after_dependencies` leaves the launch while it waits.
  abbrev waiting : List Dependent → Launch D C → Launch D C
  waiting ds l = record l {
    dependent_plugins = ds;
    pending = dependencies;
    state = put_out (armed_pause_timer 50 ∷ []) l.state;
  }

  start_or_wait-seen :
      (c : Config) (calls : List Callback) (ds : List Dependent) (l : Launch D C)
      → ((k : Launch D C)
          → k.pending ≡ dependencies
          → (on_callbacks c calls k).pending ≢ dependencies
          → All (λ d. seen_started calls d ≡ true) k.dependent_plugins)
      → (on_callbacks c calls (ended (start_or_wait c ds l))).pending ≢ dependencies
      → All (λ d. seen_started calls d ≡ true) ds
  unfolding start_or_wait modify ◌>>=◌
  start_or_wait-seen c calls [] l later h = tt
  start_or_wait-seen c calls (d ∷ rest) l later h = later (waiting (d ∷ rest) l) refl h

  -- The launch leaves its wait only when each plugin that it waited for was seen to have started,
  -- over any sequence of callbacks.
  pub on_callbacks-seen_started :
      (c : Config) (calls : List Callback) (l : Launch D C)
      → l.pending ≡ dependencies
      → (on_callbacks c calls l).pending ≢ dependencies
      → All (λ d. seen_started calls d ≡ true) l.dependent_plugins
  unfolding on_callbacks on_callback start_after_dependencies
  on_callbacks-seen_started c [] l e h = absurd (h e)
  on_callbacks-seen_started c (completed failed ∷ rest) l e h =
      on_callbacks-seen_started c rest l e (
        subst
          (λ x. (on_callbacks c rest (on_callback c x (completed failed) l)).pending ≢ dependencies)
          e h)
  on_callbacks-seen_started c (timer started ∷ rest) l e h =
      drop_started-seen started rest l.dependent_plugins (
        start_or_wait-seen c rest (drop_started started l.dependent_plugins) l
          (on_callbacks-seen_started c rest)
          (subst
            (λ x. (on_callbacks c rest (on_callback c x (timer started) l)).pending ≢ dependencies)
            e h))

  abbrev Ready : (ℕ → Bool) → Launch D C → Type 0
  Ready later l = all_started later l.dependent_plugins ≡ true

  Keeps-on_state :
      {A : Type 0} (later : ℕ → Bool) (m : Action (State D C) A) → Keeps (Ready later) (on_state m)
  Keeps-on_state later m = record { kept = λ l h. h }

  Keeps-pending :
      (later : ℕ → Bool) (x : Pending)
      → Keeps (Ready later) (modify (λ (l : Launch D C). record l { pending = x }))
  Keeps-pending later x = Keeps-modify _ λ l h. h

  Keeps-start : (later : ℕ → Bool) (c : Config) → Keeps (Ready later) (start {D = D} {C = C} c)
  unfolding start
  Keeps-start later c = search (keeps_rules, Keeps-on_state, Keeps-pending) depth 9

  ended-Ready :
      (later : ℕ → Bool) (r : Result (Unit {0})) (l : Launch D C)
      → Ready later l
      → Ready later (ended (r, l))
  ended-Ready later (ok _) l h = h
  ended-Ready later (err _) l h = h

  start_or_wait-Ready :
      (later : ℕ → Bool) (c : Config) (ds : List Dependent) (l : Launch D C)
      → all_started later ds ≡ true
      → Ready later (start_or_wait c ds l).1
  unfolding start_or_wait modify ◌>>=◌
  start_or_wait-Ready later c [] l h =
      (Keeps-start later c).kept (record l { dependent_plugins = [] }) refl
  start_or_wait-Ready later c (d ∷ rest) l h = h

  on_callback-Ready :
      (later : ℕ → Bool) (c : Config) (x : Pending) (call : Callback) (l : Launch D C)
      → Ready later l
      → Ready later (on_callback c x call l)
  unfolding on_callback start_after_dependencies
  on_callback-Ready later c dependencies (timer started) l h = ended-Ready later _ _ (
      start_or_wait-Ready later c (drop_started started l.dependent_plugins) l
        (drop_started-all_started started later l.dependent_plugins h))
  on_callback-Ready later c resolve (completed failed) l h = h
  on_callback-Ready later c connect (completed failed) l h = h
  on_callback-Ready later c handshake (completed failed) l h = h
  on_callback-Ready later c nothing call l h = h
  on_callback-Ready later c messages call l h = h
  on_callback-Ready later c dependencies (completed failed) l h = h
  on_callback-Ready later c resolve (timer started) l h = h
  on_callback-Ready later c connect (timer started) l h = h
  on_callback-Ready later c handshake (timer started) l h = h

  on_callbacks-Ready :
      (later : ℕ → Bool) (c : Config) (calls : List Callback) (l : Launch D C)
      → Ready later l
      → Ready later (on_callbacks c calls l)
  unfolding on_callbacks
  on_callbacks-Ready later c [] l h = h
  on_callbacks-Ready later c (call ∷ rest) l h =
      on_callbacks-Ready later c rest _ (on_callback-Ready later c l.pending call l h)

  -- A launch that still waits after any callbacks starts at the timer's next one by which all of
  -- the plugins have started: it runs `start`, with no plugin left to wait for.
  pub on_callback-start :
      (c : Config) (calls : List Callback) (started : ℕ → Bool) (l : Launch D C)
      → (on_callbacks c calls l).pending ≡ dependencies
      → all_started started l.dependent_plugins ≡ true
      → on_callback c (on_callbacks c calls l).pending (timer started) (on_callbacks c calls l)
        ≡ ended (start c (record (on_callbacks c calls l) { dependent_plugins = [] }))
  unfolding on_callback start_after_dependencies start_or_wait modify ◌>>=◌
  on_callback-start c calls started l e h =
      rw
        (
          e,
          drop_started-all started (on_callbacks c calls l).dependent_plugins
              (on_callbacks-Ready started c calls l h),
        )
        refl
