-- ===== src/Prelude/Keeps.antt =====
-- Predicates on an object that a call keeps, whether it returns or throws: a rule for each way to
-- build a call.
use mathlib.Core.Bool.{Bool, true, false}
use mathlib.Core.List.{List, [], ◌∷◌}
use mathlib.Core.Option.{Option, none, some}
use mathlib.Core.Path.{◌≡◌, refl, sym, subst}
use fio_chronicle.Prelude.Tests.{if◌then◌else◌}
use fio_chronicle.Prelude.Action.{
  Action, Error, Result, ok, err, catching, for_each, gets, if_found, modify, or_throw, pure, skip,
  throw, throw_if, ◌>>=◌,
}

pub record Keeps {S A : Type 0} (P : S → Type 0) (call : Action S A) : Type 0 where
  pub kept : (before : S) → P before → P (call before).1

-- A call that leaves the object alone keeps everything.
pub Keeps-unchanged :
    {S A : Type 0} {P : S → Type 0} (call : Action S A)
    → ((object : S) → (call object).1 ≡ object)
    → Keeps P call
Keeps-unchanged {S} {A} {P} call same = record {
  kept = λ before held. subst P (sym (same before)) held;
}

-- Calls that only read, or do nothing.
pub Keeps-skip : {S : Type 0} {P : S → Type 0} → Keeps P skip
unfolding skip
Keeps-skip = Keeps-unchanged skip (λ object. refl)

pub Keeps-gets : {S A : Type 0} {P : S → Type 0} (read : S → A) → Keeps P (gets read)
unfolding gets
Keeps-gets read = Keeps-unchanged (gets read) (λ object. refl)

pub Keeps-pure : {S A : Type 0} {P : S → Type 0} (value : A) → Keeps {S = S} P (pure value)
unfolding pure
Keeps-pure value = Keeps-unchanged (pure value) (λ object. refl)

-- Calls that throw, or may.
pub Keeps-throw : {S A : Type 0} {P : S → Type 0} (x : Error) → Keeps P (throw {S = S} {A = A} x)
unfolding throw
Keeps-throw x = Keeps-unchanged (throw x) (λ object. refl)

pub Keeps-throw_if :
    {S : Type 0} {P : S → Type 0} (test : Bool) (x : Error) → Keeps P (throw_if test x)
unfolding throw_if
Keeps-throw_if false x = Keeps-unchanged (throw_if false x) (λ object. refl)
Keeps-throw_if true x = Keeps-unchanged (throw_if true x) (λ object. refl)

pub Keeps-or_throw :
    {S A : Type 0} {P : S → Type 0} (value : Option A) (x : Error) → Keeps P (or_throw value x)
unfolding or_throw
Keeps-or_throw (some v) x = Keeps-unchanged (or_throw (some v) x) (λ object. refl)
Keeps-or_throw none x = Keeps-unchanged (or_throw none x) (λ object. refl)

pub Keeps-modify :
    {S : Type 0} {P : S → Type 0} (change : S → S)
    → ((before : S) → P before → P (change before))
    → Keeps P (modify change)
unfolding modify
Keeps-modify change keeps = record { kept = keeps }

-- Calls made of calls.
pub Keeps-if :
    {S A : Type 0} {P : S → Type 0} (test : Bool) (yes_call no_call : Action S A)
    → Keeps P yes_call
    → Keeps P no_call
    → Keeps P (if test then yes_call else no_call)
Keeps-if false yes_call no_call keeps keeps' = keeps'
Keeps-if true yes_call no_call keeps keeps' = keeps

pub Keeps-if_found :
    {S A B : Type 0} {P : S → Type 0} (row : Option A) (found : A → Action S B)
    (missing : Action S B)
    → ((a : A) → Keeps P (found a))
    → Keeps P missing
    → Keeps P (if_found row found missing)
unfolding if_found
Keeps-if_found (some a) found missing keeps keeps' = keeps a
Keeps-if_found none found missing keeps keeps' = keeps'

module _ {S A B : Type 0} {P : S → Type 0} (next : A → Action S B) where
  -- The rest of a sequence, when the first part has left this result.
  Keeps-rest :
      (left : Result A) → ((a : A) → Keeps P (next a)) → Keeps P ((λ (u : S). (left, u)) >>= next)
  unfolding ◌>>=◌
  Keeps-rest (err x) keeps = record { kept = λ before held. held }
  Keeps-rest (ok a) keeps = keeps a

  pub Keeps-bind :
      (first : Action S A) → Keeps P first → ((a : A) → Keeps P (next a)) → Keeps P (first >>= next)
  unfolding ◌>>=◌
  Keeps-bind first keeps keeps' = record {
    kept = λ before held.
        let (left, between) = first before in
        (Keeps-rest left keeps').kept between (keeps.kept before held);
  }

module _ {S : Type 0} {P : S → Type 0} (handler : Action S (Unit {0})) where
  Keeps-handled :
      (left : Result (Unit {0}))
      → Keeps P handler
      → Keeps P (λ before. catching (λ u. (left, u)) handler before)
  unfolding catching
  Keeps-handled (err x) keeps = keeps
  Keeps-handled (ok v) keeps = record { kept = λ before held. held }

  pub Keeps-catching :
      (tried : Action S (Unit {0}))
      → Keeps P tried
      → Keeps P handler
      → Keeps P (catching tried handler)
  unfolding catching
  Keeps-catching tried keeps keeps' = record {
    kept = λ before held.
        let (left, between) = tried before in
        (Keeps-handled left keeps').kept between (keeps.kept before held);
  }

pub Keeps-for_each :
    {S A : Type 0} {P : S → Type 0} (body : A → Action S (Unit {0})) (all : List A)
    → ((a : A) → Keeps P (body a))
    → Keeps P (for_each body all)
unfolding for_each
Keeps-for_each body [] keeps = Keeps-skip
Keeps-for_each body (a ∷ rest) keeps =
    Keeps-bind (λ _. for_each body rest) (body a) (keeps a) (λ _. Keeps-for_each body rest keeps)

pub ruleset keeps_rules = (
  Keeps-bind, Keeps-if, Keeps-if_found, Keeps-for_each, Keeps-catching, Keeps-skip, Keeps-gets,
  Keeps-pure, Keeps-throw, Keeps-throw_if, Keeps-or_throw,
)
