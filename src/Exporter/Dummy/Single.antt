-- ===== src/Exporter/Dummy/Single.antt =====
-- Only one exporter is initialised (chronicle-receiver/receiver_plugin.cpp: exporter_initialized;
-- chronicle-receiver/exp_relic_plugin.cpp and examples/exp-dummy-plugin/exp_dummy_plugin.cpp:
-- plugin_initialize).
use fio_chronicle.Prelude.{
  Option, none, some, ℕ, ◌≡◌, refl, ap, sym, ◌∙◌, Bool, true, false, ◌==◌, Bool-cases, inl, inr,
}
use fio_chronicle.Prelude.Action.{
  Action, Error, ok, err, or_throw, modify, throw_if, option_error, second_exporter, ◌>>=◌,
  >>=-returns,
}
use fio_chronicle.Exporter.Text.{Text}
use fio_chronicle.Exporter.Relic.{Services}
use fio_chronicle.Exporter.Relic.Setup.{
  Application, RelicOptions, exporter_initialized, initialize_exporter,
  plugin_initialize as relic_initialize,
}
use fio_chronicle.Exporter.Dummy.{Dummy, plugin_initialize}

ok_is_not_err : ok tt ≡ err second_exporter → ⊥
ok_is_not_err h = cc

module _ {D B C : Type 0} where
  -- A call that leaves the variable alone, and one that returns as the first exporter's only.
  record IsSame {A : Type 0} (m : Action (Application D B C) A) : Type 0 where
    at : (a : Application D B C) → (m a).1.have_exporter ≡ a.have_exporter

  record IsFirst (m : Action (Application D B C) (Unit {0})) : Type 0 where
    at :
        (a t : Application D B C)
        → m a ≡ (ok tt, t)
        → (a.have_exporter ≡ false) × (t.have_exporter ≡ true)

  IsFirst-bind :
      {A : Type 0} (m : Action (Application D B C) A)
      (f : A → Action (Application D B C) (Unit {0}))
      → IsSame m
      → ((x : A) → IsFirst (f x))
      → IsFirst (m >>= f)
  IsFirst-bind m f same next = record {
    at = λ a t h.
        let (x, u, e, k) = >>=-returns m f a h in
        let (before, after) = (next x).at u t k in
        (sym (same.at a) ∙ ap (λ r. r.1.have_exporter) e ∙ before, after);
  }

  IsSame-or_throw :
      {A : Type 0} (o : Option A) (x : Error) → IsSame (or_throw {S = Application D B C} o x)
  unfolding or_throw
  IsSame-or_throw none x = record { at = λ a. refl }
  IsSame-or_throw (some v) x = record { at = λ a. refl }

  IsSame-throw_if : (b : Bool) (x : Error) → IsSame (throw_if {S = Application D B C} b x)
  unfolding throw_if
  IsSame-throw_if false x = record { at = λ a. refl }
  IsSame-throw_if true x = record { at = λ a. refl }

  IsSame-modify :
      (f : Application D B C → Application D B C)
      → ((a : Application D B C) → (f a).have_exporter ≡ a.have_exporter)
      → IsSame (modify f)
  unfolding modify
  IsSame-modify f same = record { at = same }

  exporter_initialized-first :
      (a : Application D B C)
      → a.have_exporter ≡ false
      → exporter_initialized a ≡ (ok tt, record a { have_exporter = true })
  unfolding exporter_initialized ◌>>=◌
  exporter_initialized-first a e = rw e refl

  exporter_initialized-second :
      (a : Application D B C)
      → a.have_exporter ≡ true
      → (exporter_initialized a).0 ≡ err second_exporter
  unfolding exporter_initialized ◌>>=◌
  exporter_initialized-second a e = rw e refl

  exporter_initialized-IsFirst : IsFirst exporter_initialized
  exporter_initialized-IsFirst = record {
    at = λ a t h. elim (Bool-cases a.have_exporter) [
      | inl e ↦ absurd (ok_is_not_err (sym (ap (λ r. r.0) h) ∙ exporter_initialized-second a e))
      | inr e ↦ (e, ap (λ r. r.1.have_exporter) (sym h ∙ exporter_initialized-first a e))
    ];
  }

  dummy-refused :
      (plug : ℕ) (s : Dummy D B C)
      → s.application.have_exporter ≡ true
      → (plugin_initialize plug s).0 ≡ err second_exporter
  unfolding plugin_initialize exporter_initialized ◌>>=◌
  dummy-refused plug s e = rw e refl

  module _ (sv : Services D) (connect_db : Text → D) where
    initialize_exporter-IsFirst :
        (plug : ℕ) (o : RelicOptions) → IsFirst (initialize_exporter sv connect_db plug o)
    unfolding initialize_exporter
    initialize_exporter-IsFirst plug o = IsFirst-bind _ _ (IsSame-modify _ λ a. refl) λ _.
        IsFirst-bind _ _ (IsSame-or_throw o.relic_host option_error) λ host.
          IsFirst-bind _ _ (IsSame-or_throw o.relic_port option_error) λ port.
            IsFirst-bind _ _ (IsSame-modify _ λ a. refl) λ _.
              IsFirst-bind _ _ (IsSame-throw_if (o.max_unack == 0) option_error) λ _.
                IsFirst-bind _ _ (IsSame-throw_if (o.max_queue == 0) option_error) λ _.
                  IsFirst-bind _ _ (IsSame-modify _ λ a. refl) λ _.
                    IsFirst-bind _ _ (IsSame-modify _ λ a. refl) λ _. exporter_initialized-IsFirst

    -- Once the exporter to the relic database has been initialised where blocks are exported, it
    -- was the first, and the initialisation of another one throws.
    pub plugin_initialize-second :
        (plug other : ℕ) (o : RelicOptions) (a : Application D B C) (s : Dummy D B C)
        → relic_initialize sv connect_db (ok false) plug o a ≡ (ok tt, s.application)
        → (a.have_exporter ≡ false) × ((plugin_initialize other s).0 ≡ err second_exporter)
    unfolding relic_initialize
    plugin_initialize-second plug other o a s h =
        let (before, after) = (initialize_exporter-IsFirst plug o).at a s.application h in
        (before, dummy-refused other s after)
