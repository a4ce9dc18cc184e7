-- ===== src/Exporter/Text.antt =====
-- Texts as the lists of their bytes, with what the exporters use of std::string, std::stoul, atoi
-- and std::to_string.
pub mod Numbers
use Prim.Native.Char.{code}
use Prim.Native.String.{String}
use fio_chronicle.Prelude.{
  ℕ, zero, suc, ◌+◌, ◌-◌, ◌*◌, ◌/◌, ◌%◌, ◌<◌, ◌≡◌, refl, Bool, true, false, ◌&&◌, ◌||◌, List, [],
  ◌∷◌, ◌++◌, Option, none, some, length, ltb, leb, ◌==◌, if◌then◌else◌,
}

abbrev pub Text : Type 0
Text = List ℕ

-- A literal.
abbrev pub text : String → Text
text String.[] = []
text (String.◌∷◌ c s) = code c ∷ text s

abbrev pub same : Text → Text → Bool
same [] [] = true
same [] (b ∷ bs) = false
same (a ∷ tl) [] = false
same (a ∷ tl) (b ∷ bs) = a == b && same tl bs

-- `operator==` with a literal.
abbrev pub is : Text → String → Bool
is t s = same t (text s)

abbrev pub starts_with : Text → Text → Bool
starts_with t [] = true
starts_with [] (b ∷ bs) = false
starts_with (a ∷ tl) (b ∷ bs) = a == b && starts_with tl bs

-- `t.find(s) != std::string::npos`
abbrev pub contains_text : Text → Text → Bool
contains_text [] s = starts_with [] s
contains_text (a ∷ tl) s = starts_with (a ∷ tl) s || contains_text tl s

abbrev pub drop : ℕ → Text → Text
drop zero t = t
drop (suc n) [] = []
drop (suc n) (a ∷ tl) = drop n tl

-- The first occurrence of a text is taken out, if there is one.
abbrev pub erase_first : Text → Text → Text
erase_first [] s = []
erase_first (a ∷ tl) s =
    if starts_with (a ∷ tl) s then drop (length s) (a ∷ tl) else a ∷ erase_first tl s

-- `std::remove` of a character, with `erase`.
abbrev pub erase_all : Text → ℕ → Text
erase_all [] c = []
erase_all (a ∷ tl) c = if a == c then erase_all tl c else a ∷ erase_all tl c

-- What stands before the first occurrence of a character, and behind it; `none` without one.
abbrev pub cons_before : ℕ → Option (Text × Text) → Option (Text × Text)
cons_before a none = none
cons_before a (some (before, behind)) = some (a ∷ before, behind)

abbrev pub split_at : ℕ → Text → Option (Text × Text)
split_at c [] = none
split_at c (a ∷ tl) =
    let rest = split_at c tl in if a == c then some ([], tl) else cons_before a rest
