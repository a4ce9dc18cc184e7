-- ===== src/Prelude/Ensures.antt =====
-- What holds of the object once a call has returned.
use mathlib.Core.Bool.{Bool, true, false}
use mathlib.Core.Path.{◌≡◌, refl, ap, subst}
use fio_chronicle.Prelude.Tests.{if◌then◌else◌}
use fio_chronicle.Prelude.Action.{Action, ok, modify, throw, Error, ◌>>=◌, >>=-eq-ok}
use fio_chronicle.Prelude.Keeps.{Keeps}

pub record Ensures {S A : Type 0} (Q : S → Type 0) (m : Action S A) : Type 0 where
  pub at : (s t : S) (a : A) → m s ≡ (ok a, t) → Q t

pub Ensures-modify :
    {S : Type 0} {Q : S → Type 0} (f : S → S) → ((s : S) → Q (f s)) → Ensures Q (modify f)
unfolding modify
Ensures-modify {S} {Q} f q = record { at = λ s t a h. subst Q (ap (λ p. p.1) h) (q s) }

pub Ensures-throw :
    {S A : Type 0} {Q : S → Type 0} (e : Error) → Ensures Q (throw {S = S} {A = A} e)
unfolding throw
Ensures-throw e = record { at = λ s t a h. cc }

module _ {S A B : Type 0} {Q : S → Type 0} where
  -- What the last part of a sequence ensures.
  pub Ensures-last :
      (m : Action S A) (f : A → Action S B) → ((a : A) → Ensures Q (f a)) → Ensures Q (m >>= f)
  Ensures-last m f q = record {
    at = λ s t b h. let (a, _, k) = >>=-eq-ok m f s h in (q a).at (m s).1 t b k;
  }

  -- What an earlier part ensures and the rest keeps.
  pub Ensures-kept :
      (m : Action S A) (f : A → Action S B)
      → Ensures Q m
      → ((a : A) → Keeps Q (f a))
      → Ensures Q (m >>= f)
  Ensures-kept m f q k = record {
    at = λ s t b h.
        let (a, e, rest) = >>=-eq-ok m f s h in
        subst Q (ap (λ p. p.1) rest) ((k a).kept (m s).1 (q.at s (m s).1 a (λ i. (e i, (m s).1))));
  }

pub Ensures-if :
    {S A : Type 0} {Q : S → Type 0} (b : Bool) (m n : Action S A)
    → (b ≡ true → Ensures Q m)
    → (b ≡ false → Ensures Q n)
    → Ensures Q (if b then m else n)
Ensures-if true m n km kn = km refl
Ensures-if false m n km kn = kn refl
