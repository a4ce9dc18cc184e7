-- ===== src/Prelude/Action.antt =====
-- Calls that change an object and may throw. The object comes back after a throw too, since what
-- was written before it stays written.
use mathlib.Core.Bool.{Bool, true, false}
use mathlib.Core.Option.{Option, none, some}
use mathlib.Core.List.{List, [], ◌∷◌}
use mathlib.Core.Path.{◌≡◌, refl}

-- The exceptions of the program, by the place that throws them.
pub data Error : Type 0 where
  lib_went_back block_below_lib no_undo_stack prev_block_mismatch : Error
  decode_error unknown_type not_variant wrong_variant unknown_table invalid_action_trace : Error
  uniqueness_violated set_revision_refused iterator_past_end does_not_return : Error
  start_block_on_existing_state head_past_end : Error
  no_valid_state state_exists bad_magic bad_format_version bad_end_magic : Error
  ack_in_interactive ack_in_noexport second_exporter option_error database_error ack_too_large :
      Error
  bad_request out_of_range sql_failed bad_number : Error

pub data Result (A : Type 0) : Type 0 where
  err : Error → Result A
  ok : A → Result A

-- A call on an object of type S, with the object that it leaves.
abbrev pub Action : Type 0 → Type 0 → Type 0
Action S A = S → Result A × S

unfoldable pub gets : {S A : Type 0} → (S → A) → Action S A
gets read object = (ok (read object), object)

unfoldable pub pure : {S A : Type 0} → A → Action S A
pure value object = (ok value, object)

unfoldable pub throw : {S A : Type 0} → Error → Action S A
throw x object = (err x, object)

unfoldable pub or_throw : {S A : Type 0} → Option A → Error → Action S A
or_throw (some value) x object = (ok value, object)
or_throw none x object = (err x, object)

module _ {S A B : Type 0} where
  abbrev pub continue : Result A → (A → Action S B) → Action S B
  continue (err x) next object = (err x, object)
  continue (ok value) next object = next value object

  -- `if (it != end) found(*it); else missing();`
  unfoldable pub if_found : Option A → (A → Action S B) → Action S B → Action S B
  if_found (some row) found missing object = found row object
  if_found none found missing object = missing object

module _ {S : Type 0} where
  unfoldable pub modify : (S → S) → Action S (Unit {0})
  modify change object = (ok tt, change object)

  unfoldable pub throw_if : Bool → Error → Action S (Unit {0})
  throw_if false x object = (ok tt, object)
  throw_if true x object = (err x, object)

  unfoldable pub skip : Action S (Unit {0})
  skip object = (ok tt, object)

  abbrev handle : Result (Unit {0}) → Action S (Unit {0}) → Action S (Unit {0})
  handle (ok _) handler s = (ok tt, s)
  handle (err _) handler s = handler s

  -- `try { m } catch (const exception& e) { handler }`
  unfoldable pub catching : Action S (Unit {0}) → Action S (Unit {0}) → Action S (Unit {0})
  catching m handler s = let (r, s') = m s in handle r handler s'

-- Opening a sequence opens the actions above too.
infixl 5 ◌>>=◌ ◌>>◌
unfoldable pub ◌>>=◌ : {S A B : Type 0} → Action S A → (A → Action S B) → Action S B
unfolding pure throw gets or_throw if_found modify throw_if skip catching
◌>>=◌ first next before = let (left, between) = first before in continue left next between

abbrev pub ◌>>◌ : {S A B : Type 0} → Action S A → Action S B → Action S B
first >> next = first >>= (λ _. next)

-- `for (auto& x : xs) f(x);`
unfoldable pub for_each : {S A : Type 0} → (A → Action S (Unit {0})) → List A → Action S (Unit {0})
unfolding ◌>>=◌
for_each f [] = skip
for_each f (x ∷ xs) = f x >> for_each f xs

module _ {S A B : Type 0} where
  pub continue-eq-ok :
      (r : Result A) (f : A → Action S B) (u : S) {b : B} {t : S}
      → continue r f u ≡ (ok b, t)
      → (a : A) × (r ≡ ok a) × (f a u ≡ (ok b, t))
  continue-eq-ok (err x) f u h = cc
  continue-eq-ok (ok a) f u h = (a, refl, h)

  -- The parts of a sequence that returned.
  pub >>=-eq-ok :
      (m : Action S A) (f : A → Action S B) (s : S) {b : B} {t : S}
      → (m >>= f) s ≡ (ok b, t)
      → (a : A) × ((m s).0 ≡ ok a) × (f a (m s).1 ≡ (ok b, t))
  unfolding ◌>>=◌
  >>=-eq-ok m f s h = continue-eq-ok (m s).0 f (m s).1 h

  pub >>=-returns :
      (m : Action S A) (f : A → Action S B) (s : S) {b : B} {t : S}
      → (m >>= f) s ≡ (ok b, t)
      → (a : A) × (u : S) × (m s ≡ (ok a, u)) × (f a u ≡ (ok b, t))
  >>=-returns m f s h = let (a, e, k) = >>=-eq-ok m f s h in (a, (m s).1, (λ i. (e i, (m s).1)), k)

  pub >>=-ok :
      (m : Action S A) (f : A → Action S B) (s : S) (a : A) (u : S) (b : B) (t : S)
      → m s ≡ (ok a, u)
      → f a u ≡ (ok b, t)
      → (m >>= f) s ≡ (ok b, t)
  unfolding ◌>>=◌
  >>=-ok m f s a u b t h k = rw h k

pub throw_if-returns :
    {S : Type 0} (test : Bool) (x : Error) (s t : S) {a : Unit {0}}
    → throw_if test x s ≡ (ok a, t)
    → (test ≡ false) × (t ≡ s)
unfolding throw_if
throw_if-returns false x s t h = (refl, cc)
throw_if-returns true x s t h = cc

pub throw_if-passes :
    {S : Type 0} (test : Bool) (x : Error) (s : S) → test ≡ false → throw_if test x s ≡ (ok tt, s)
unfolding throw_if
throw_if-passes false x s e = refl
throw_if-passes true x s e = cc

pub or_throw-returns :
    {S A : Type 0} (o : Option A) (x : Error) (s t : S) {a : A}
    → or_throw o x s ≡ (ok a, t)
    → (o ≡ some a) × (t ≡ s)
unfolding or_throw
or_throw-returns (some b) x s t h = (cc, cc)
or_throw-returns none x s t h = cc
