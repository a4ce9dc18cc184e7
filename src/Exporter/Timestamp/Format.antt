-- ===== src/Exporter/Timestamp/Format.antt =====
-- Reading and printing of timestamps (chronicle-receiver/exp_relic_plugin.cpp:
-- parse_iso_timestamp, and the call of snprintf).
use fio_chronicle.Prelude.{
  ℕ, ◌+◌, ◌-◌, ◌*◌, ◌/◌, ◌%◌, ◌<◌, ◌≡◌, refl, true, false, List, some, none, arith, Bool, lt→ltb,
  subst, ◌&&◌, ◌==◌, length, if◌then◌else◌,
}
use fio_chronicle.Exporter.Timestamp.{
  Timestamp, parse_iso_timestamp, print_timestamp, is_digit, at, has_separators, has_digits,
  two_digits,
}

-- The fields have as many digits as the format gives them.
pub record Fits (t : Timestamp) : Type 0 where
  pub year_fits : t.year < 10000
  pub month_fits : t.month < 100
  pub day_fits : t.day < 100
  pub hour_fits : t.hour < 100
  pub minute_fits : t.minute < 100
  pub second_fits : t.second < 100

is_digit_lem : (d : ℕ) → d < 10 → is_digit (48 + d) ≡ true
is_digit_lem d h = ground arith

two_digits_lem : (n : ℕ) → n < 100 → (48 + n / 10 - 48) * 10 + (48 + n % 10 - 48) ≡ n
two_digits_lem n h = omega arith

year_digits_lem :
    (n : ℕ)
    → n < 10000
    → ((48 + n / 1000 - 48) * 10 + (48 + n / 100 % 10 - 48)) * 100
        + ((48 + n / 10 % 10 - 48) * 10 + (48 + n % 10 - 48))
      ≡ n
year_digits_lem n h = omega arith

-- A printed timestamp is read back, if its fields have no more digits than the format.
pub parse_iso_timestamp-print_timestamp :
    (t : Timestamp) → Fits t → parse_iso_timestamp (print_timestamp t) ≡ some t
unfolding parse_iso_timestamp print_timestamp
parse_iso_timestamp-print_timestamp t h =
    rw
      (
        lt→ltb t.year 10000 h.year_fits,
        is_digit_lem (t.year / 1000) (omega (arith, h.year_fits)),
        is_digit_lem (t.year / 100 % 10) (omega (arith, h.year_fits)),
        is_digit_lem (t.year / 10 % 10) (omega (arith, h.year_fits)),
        is_digit_lem (t.year % 10) (omega (arith, h.year_fits)),
        is_digit_lem (t.month / 10) (omega (arith, h.month_fits)),
        is_digit_lem (t.month % 10) (omega (arith, h.month_fits)),
        is_digit_lem (t.day / 10) (omega (arith, h.day_fits)),
        is_digit_lem (t.day % 10) (omega (arith, h.day_fits)),
        is_digit_lem (t.hour / 10) (omega (arith, h.hour_fits)),
        is_digit_lem (t.hour % 10) (omega (arith, h.hour_fits)),
        is_digit_lem (t.minute / 10) (omega (arith, h.minute_fits)),
        is_digit_lem (t.minute % 10) (omega (arith, h.minute_fits)),
        is_digit_lem (t.second / 10) (omega (arith, h.second_fits)),
        is_digit_lem (t.second % 10) (omega (arith, h.second_fits)),
      )
      (λ i. some (record {
        year = year_digits_lem t.year h.year_fits i;
        month = two_digits_lem t.month h.month_fits i;
        day = two_digits_lem t.day h.day_fits i;
        hour = two_digits_lem t.hour h.hour_fits i;
        minute = two_digits_lem t.minute h.minute_fits i;
        second = two_digits_lem t.second h.second_fits i;
      }))

two_digits_bound :
    (a b : ℕ) → is_digit a ≡ true → is_digit b ≡ true → (a - 48) * 10 + (b - 48) < 100
two_digits_bound a b h k = ground arith

some-if :
    (c : Bool) (r t : Timestamp) → (if c then some r else none) ≡ some t → (c ≡ true) × (r ≡ t)
some-if true r t h = (refl, cc)
some-if false r t h = cc

has_digits-bounds :
    (ts : List ℕ)
    → has_digits ts ≡ true
    → (two_digits ts 0 < 100)
      × (two_digits ts 2 < 100)
      × (two_digits ts 5 < 100)
      × (two_digits ts 8 < 100)
      × (two_digits ts 11 < 100)
      × (two_digits ts 14 < 100)
      × (two_digits ts 17 < 100)
has_digits-bounds ts h = (
  two_digits_bound (at ts 0) (at ts 1) (ground arith) (ground arith),
  two_digits_bound (at ts 2) (at ts 3) (ground arith) (ground arith),
  two_digits_bound (at ts 5) (at ts 6) (ground arith) (ground arith),
  two_digits_bound (at ts 8) (at ts 9) (ground arith) (ground arith),
  two_digits_bound (at ts 11) (at ts 12) (ground arith) (ground arith),
  two_digits_bound (at ts 14) (at ts 15) (ground arith) (ground arith),
  two_digits_bound (at ts 17) (at ts 18) (ground arith) (ground arith),
)

last_conjunct : (a b c : Bool) → (a && b && c) ≡ true → c ≡ true
last_conjunct a b c h = ground arith

-- What is read has no more digits than the format.
pub parse_iso_timestamp-Fits :
    (ts : List ℕ) (t : Timestamp) → parse_iso_timestamp ts ≡ some t → Fits t
unfolding parse_iso_timestamp
parse_iso_timestamp-Fits ts t h =
    let (formed, same) = some-if (length ts == 19 && has_separators ts && has_digits ts) _ t h in
    let (y, y', mo, d, ho, mi, se) =
      has_digits-bounds ts
        (last_conjunct (length ts == 19) (has_separators ts) (has_digits ts) formed) in
    subst Fits same (record {
      year_fits = omega (arith, y, y');
      month_fits = mo;
      day_fits = d;
      hour_fits = ho;
      minute_fits = mi;
      second_fits = se;
    })
