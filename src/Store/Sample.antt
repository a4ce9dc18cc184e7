-- ===== src/Store/Sample.antt =====
-- A database and an ABI library to run the model on: the tables, the tables at the start of each
-- undo session (the latest first), and the revision below the lowest of these sessions. It shows
-- that the laws of the interfaces can be met.
use fio_chronicle.Prelude.{
  ℕ, zero, suc, ◌+◌, ◌-◌, ◌<◌, ◌≡◌, refl, true, List, [], ◌∷◌, Option, none, some, min, arith, ltb,
  length, if◌then◌else◌,
}
use mathlib.Core.Option
use fio_chronicle.Store.Tables.{Tables}
use fio_chronicle.Store.Chainbase.{Chainbase}
use fio_chronicle.Store.Abieos.{Abieos}

pub record SampleDb : Type 0 where
  pub current : Tables
  pub stack : List Tables
  pub base : ℕ

abbrev pub take : ℕ → List Tables → List Tables
take zero xs = []
take (suc n) [] = []
take (suc n) (x ∷ xs) = x ∷ take n xs

pub length-take : (n : ℕ) (xs : List Tables) → length (take n xs) ≡ min n (length xs)
length-take zero xs = omega arith
length-take (suc n) [] = omega arith
length-take (suc n) (x ∷ xs) = omega (arith, length-take n xs)

abbrev pub sample_revision : SampleDb → ℕ
sample_revision d = d.base + length d.stack

abbrev pub pop : Tables → List Tables → ℕ → SampleDb
pop t [] b = record { current = t; stack = []; base = b }
pop t (x ∷ xs) b = record { current = x; stack = xs; base = b }

abbrev pub sample_undo : SampleDb → SampleDb
sample_undo d = pop d.current d.stack d.base

abbrev pub sample_write : Tables → SampleDb → SampleDb
sample_write t d = record d { current = t }

abbrev pub sample_start : SampleDb → SampleDb
sample_start d = record d { stack = d.current ∷ d.stack }

abbrev pub kept_sessions : ℕ → SampleDb → ℕ
kept_sessions r d = min (length d.stack) (sample_revision d - r)

abbrev pub sample_commit : ℕ → SampleDb → SampleDb
sample_commit r d = record d {
  stack = take (kept_sessions r d) d.stack;
  base = d.base + (length d.stack - kept_sessions r d);
}

abbrev pub sample_set_revision : ℕ → SampleDb → Option SampleDb
sample_set_revision r d = if ltb (length d.stack) 1 then some (record d { base = r }) else none

pub undo-write : (t t' : Tables) (s : List Tables) (b : ℕ) → 0 < length s → pop t s b ≡ pop t' s b
undo-write t t' [] b h = absurd (omega arith)
undo-write t t' (x ∷ s) b h = refl

pub revision-pop :
    (t : Tables) (s : List Tables) (b : ℕ)
    → 0 < length s
    → suc (sample_revision (pop t s b)) ≡ b + length s
revision-pop t [] b h = absurd (omega arith)
revision-pop t (x ∷ s) b h = omega arith

pub depth-pop :
    (t : Tables) (s : List Tables) (b : ℕ)
    → 0 < length s
    → suc (length (pop t s b).stack) ≡ length s
depth-pop t [] b h = absurd (omega arith)
depth-pop t (x ∷ s) b h = omega arith

pub contents-pop-take :
    (n : ℕ) (t : Tables) (s : List Tables) (b b' : ℕ)
    → 0 < length (take n s)
    → (pop t (take n s) b').current ≡ (pop t s b).current
contents-pop-take zero t s b b' h = absurd (omega arith)
contents-pop-take (suc n) t [] b b' h = absurd (omega arith)
contents-pop-take (suc n) t (x ∷ s) b b' h = refl

pub set_revision-some :
    (r : ℕ) (d : SampleDb) {e : SampleDb}
    → sample_set_revision r d ≡ some e
    → (sample_revision e ≡ r) × (length e.stack ≡ length d.stack) × (e.current ≡ d.current)
set_revision-some r d h = ground arith

instance abbrev pub sample_chainbase : Chainbase SampleDb
sample_chainbase = record {
  contents = λ d. d.current;
  write = sample_write;
  revision = sample_revision;
  depth = λ d. length d.stack;
  start_undo_session = sample_start;
  undo = sample_undo;
  commit = sample_commit;
  set_revision = sample_set_revision;
  contents-write = λ t d. refl;
  revision-write = λ t d. refl;
  depth-write = λ t d. refl;
  contents-start = λ d. refl;
  revision-start = λ d. omega arith;
  depth-start = λ d. refl;
  undo-start = λ d. refl;
  undo-write = λ t d h. undo-write t d.current d.stack d.base h;
  revision-undo = λ d h. revision-pop d.current d.stack d.base h;
  depth-undo = λ d h. depth-pop d.current d.stack d.base h;
  contents-commit = λ r d. refl;
  revision-commit = λ r d. omega (arith, length-take (kept_sessions r d) d.stack);
  depth-commit = λ r d. omega (arith, length-take (kept_sessions r d) d.stack);
  contents-undo-commit =
      λ r d h. contents-pop-take (kept_sessions r d) d.current d.stack d.base _ h;
  set_revision-some = set_revision-some;
}

-- The context is the list of what it was given; every ABI is accepted that has a byte.
instance abbrev pub sample_abieos : Abieos (List (ℕ × List ℕ))
sample_abieos = record {
  empty_context = [];
  set_abi_bin = λ ctxt account abi. (ltb 0 (length abi), Option.map (λ l. (account, abi) ∷ l) ctxt);
  decodes_abi = λ abi. true;
}
