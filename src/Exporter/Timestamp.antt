-- ===== src/Exporter/Timestamp.antt =====
-- The correction of expiration timestamps (chronicle-receiver/exp_relic_plugin.cpp: is_leap_year,
-- days_in_month, parse_iso_timestamp, normalize_contract_expiration_timestamp). A string is the
-- list of its bytes; the log line is left out.
pub mod Format
pub mod Correction
use fio_chronicle.Prelude.{
  ℕ, zero, suc, ◌+◌, ◌-◌, ◌*◌, ◌/◌, ◌%◌, Bool, true, false, not, ◌&&◌, ◌||◌, List, [], ◌∷◌, ◌++◌,
  Option, none, some, ltb, leb, ◌==◌, length, if◌then◌else◌,
}

unfoldable pub is_leap_year : ℕ → Bool
is_leap_year year = (year % 4 == 0 && not (year % 100 == 0)) || year % 400 == 0

-- The byte at a place; the places asked for lie within the string.
abbrev pub at : List ℕ → ℕ → ℕ
at [] i = 0
at (b ∷ bs) zero = b
at (b ∷ bs) (suc i) = at bs i

unfoldable pub days_in_month : ℕ → ℕ → ℕ
days_in_month year month =
    if ltb month 1 || ltb 12 month
    then 0
    else if month == 2 && is_leap_year year
    then 29
    else at (31 ∷ 28 ∷ 31 ∷ 30 ∷ 31 ∷ 30 ∷ 31 ∷ 31 ∷ 30 ∷ 31 ∷ 30 ∷ 31 ∷ []) (month - 1)

pub record Timestamp : Type 0 where
  pub year : ℕ
  pub month : ℕ
  pub day : ℕ
  pub hour : ℕ
  pub minute : ℕ
  pub second : ℕ

abbrev pub is_digit : ℕ → Bool
is_digit b = leb 48 b && leb b 57

-- '-', '-', 'T', ':' and ':' at their places.
abbrev pub has_separators : List ℕ → Bool
has_separators ts =
    at ts 4 == 45 && at ts 7 == 45 && at ts 10 == 84 && at ts 13 == 58 && at ts 16 == 58

-- Digits at all other places.
abbrev pub has_digits : List ℕ → Bool
has_digits ts =
    is_digit (at ts 0)
    && is_digit (at ts 1)
    && is_digit (at ts 2)
    && is_digit (at ts 3)
    && is_digit (at ts 5)
    && is_digit (at ts 6)
    && is_digit (at ts 8)
    && is_digit (at ts 9)
    && is_digit (at ts 11)
    && is_digit (at ts 12)
    && is_digit (at ts 14)
    && is_digit (at ts 15)
    && is_digit (at ts 17)
    && is_digit (at ts 18)

-- `std::stoi(ts.substr(i, 2))`, for digits.
abbrev pub two_digits : List ℕ → ℕ → ℕ
two_digits ts i = (at ts i - 48) * 10 + (at ts (suc i) - 48)

unfoldable pub parse_iso_timestamp : List ℕ → Option Timestamp
parse_iso_timestamp ts =
    if length ts == 19 && has_separators ts && has_digits ts
    then some (record {
      year = two_digits ts 0 * 100 + two_digits ts 2;
      month = two_digits ts 5;
      day = two_digits ts 8;
      hour = two_digits ts 11;
      minute = two_digits ts 14;
      second = two_digits ts 17;
    })
    else none

-- `%02d`, for a number below 100.
abbrev pub print_two : ℕ → List ℕ
print_two n = (48 + n / 10) ∷ (48 + n % 10) ∷ []

-- `%04d`, for a number of four digits at most, and for 10000.
abbrev pub print_year : ℕ → List ℕ
print_year n =
    if ltb n 10000
    then (48 + n / 1000) ∷ (48 + n / 100 % 10) ∷ (48 + n / 10 % 10) ∷ (48 + n % 10) ∷ []
    else 49 ∷ 48 ∷ 48 ∷ 48 ∷ 48 ∷ []

abbrev pub take : ℕ → List ℕ → List ℕ
take zero bs = []
take (suc n) [] = []
take (suc n) (b ∷ bs) = b ∷ take n bs

-- `snprintf` into 20 bytes, the last of them for the end of the string.
unfoldable pub print_timestamp : Timestamp → List ℕ
print_timestamp t = take 19 (
    print_year t.year
    ++ (45 ∷ print_two t.month)
    ++ (45 ∷ print_two t.day)
    ++ (84 ∷ print_two t.hour)
    ++ (58 ∷ print_two t.minute)
    ++ (58 ∷ print_two t.second))

-- `valid_date`
unfoldable pub is_valid_date : Timestamp → Bool
is_valid_date t =
    ltb 0 (days_in_month t.year t.month)
    && leb 1 t.day
    && leb t.day (days_in_month t.year t.month)
    && leb t.hour 23
    && leb t.minute 59
    && leb t.second 59

-- The known fault of the contract: 29 February in the year before a leap year.
unfoldable pub is_known_fault : Bool → Timestamp → Bool
is_known_fault renewdomain t =
    renewdomain
    && t.month == 2
    && t.day == 29
    && not (is_leap_year t.year)
    && is_leap_year (t.year + 1)

-- What is made of a string, after it has been read.
unfoldable pub corrected : Bool → List ℕ → Option Timestamp → List ℕ
corrected renewdomain ts none = ts
corrected renewdomain ts (some t) =
    if is_valid_date t
    then ts
    else if is_known_fault renewdomain t
    then print_timestamp (record t { year = t.year + 1 })
    else ts

-- `normalize_contract_expiration_timestamp`, for an action that is "renewdomain" or is not.
unfoldable pub normalize_contract_expiration_timestamp : Bool → List ℕ → List ℕ
unfolding corrected
normalize_contract_expiration_timestamp renewdomain ts =
    corrected renewdomain ts (parse_iso_timestamp ts)
