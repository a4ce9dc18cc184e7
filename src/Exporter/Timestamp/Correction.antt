-- ===== src/Exporter/Timestamp/Correction.antt =====
-- What the correction changes (chronicle-receiver/exp_relic_plugin.cpp:
-- normalize_contract_expiration_timestamp).
use fio_chronicle.Prelude.{
  ℕ, ◌+◌, ◌<◌, ◌≡◌, ◌⊎◌, refl, ap, ◌∙◌, Bool, true, false, ◌&&◌, List, some, arith, leb, Bool-cases,
  if◌then◌else◌, inl, inr,
}
use fio_chronicle.Exporter.Timestamp.{
  Timestamp, is_leap_year, days_in_month, parse_iso_timestamp, is_valid_date, is_known_fault,
  print_timestamp, corrected, normalize_contract_expiration_timestamp,
}
use fio_chronicle.Exporter.Timestamp.Format.{
  Fits, parse_iso_timestamp-print_timestamp, parse_iso_timestamp-Fits,
}

abbrev pub next_year : Timestamp → Timestamp
next_year t = record t { year = t.year + 1 }

-- What the known fault is.
record IsKnownFault (r : Bool) (t : Timestamp) : Type 0 where
  renewed : r ≡ true
  february : t.month ≡ 2
  last_day : t.day ≡ 29
  common : is_leap_year t.year ≡ false
  leap_next : is_leap_year (t.year + 1) ≡ true

is_known_fault-IsKnownFault :
    (r : Bool) (t : Timestamp) → is_known_fault r t ≡ true → IsKnownFault r t
unfolding is_known_fault
is_known_fault-IsKnownFault r t h = record {
  renewed = ground arith;
  february = ground arith;
  last_day = ground arith;
  common = ground arith;
  leap_next = ground arith;
}

days_in_month-february : (year : ℕ) → days_in_month year 2 ≡ (if is_leap_year year then 29 else 28)
unfolding days_in_month
days_in_month-february year = elim (Bool-cases (is_leap_year year)) [
  | inl leap ↦ rw leap refl
  | inr common ↦ rw common refl
]

known_fault-invalid :
    (r : Bool) (t : Timestamp) → is_known_fault r t ≡ true → is_valid_date t ≡ false
unfolding is_valid_date
known_fault-invalid r t h =
    let k = is_known_fault-IsKnownFault r t h in
    rw (k.february, k.last_day, days_in_month-february t.year, k.common) refl

next_year-valid :
    (r : Bool) (t : Timestamp)
    → is_known_fault r t ≡ true
    → is_valid_date (next_year t) ≡ (leb t.hour 23 && leb t.minute 59 && leb t.second 59)
unfolding is_valid_date
next_year-valid r t h =
    let k = is_known_fault-IsKnownFault r t h in
    rw (k.february, k.last_day, days_in_month-february (t.year + 1), k.leap_next) refl

next_year-mended :
    (r r' : Bool) (t : Timestamp)
    → is_known_fault r t ≡ true
    → is_known_fault r' (next_year t) ≡ false
unfolding is_known_fault
next_year-mended r r' t h = let leap = (is_known_fault-IsKnownFault r t h).leap_next in ground arith

corrected-unknown :
    (r : Bool) (ts : List ℕ) (t : Timestamp)
    → is_known_fault r t ≡ false
    → corrected r ts (some t) ≡ ts
unfolding corrected
corrected-unknown r ts t h = elim (Bool-cases (is_valid_date t)) [
  | inl valid ↦ rw valid refl
  | inr invalid ↦ rw (invalid, h) refl
]

corrected-known :
    (r : Bool) (ts : List ℕ) (t : Timestamp)
    → is_known_fault r t ≡ true
    → corrected r ts (some t) ≡ print_timestamp (next_year t)
unfolding corrected
corrected-known r ts t h = rw (known_fault-invalid r t h, h) refl

next_year-Fits : (t : Timestamp) → t.year < 9999 → Fits t → Fits (next_year t)
next_year-Fits t y h = record {
  year_fits = omega arith;
  month_fits = h.month_fits;
  day_fits = h.day_fits;
  hour_fits = h.hour_fits;
  minute_fits = h.minute_fits;
  second_fits = h.second_fits;
}

normalize-unknown :
    (r : Bool) (ts : List ℕ) (t : Timestamp)
    → parse_iso_timestamp ts ≡ some t
    → is_known_fault r t ≡ false
    → normalize_contract_expiration_timestamp r ts ≡ ts
unfolding normalize_contract_expiration_timestamp
normalize-unknown r ts t e h = ap (corrected r ts) e ∙ corrected-unknown r ts t h

-- A timestamp that can be read, of a year below 9999: unless it has the known fault, it stays as it
-- is. If it has, it is replaced by one that reads as the same day and time of the next year, which
-- is a valid date wherever the time of day is valid.
pub normalize-corrects :
    (r : Bool) (ts : List ℕ) (t : Timestamp)
    → parse_iso_timestamp ts ≡ some t
    → t.year < 9999
    → ((is_known_fault r t ≡ false) × (normalize_contract_expiration_timestamp r ts ≡ ts))
      ⊎ ((is_known_fault r t ≡ true)
          × (parse_iso_timestamp (normalize_contract_expiration_timestamp r ts)
              ≡ some (next_year t))
          × (is_valid_date (next_year t) ≡ (leb t.hour 23 && leb t.minute 59 && leb t.second 59)))
unfolding normalize_contract_expiration_timestamp
normalize-corrects r ts t e y = elim (Bool-cases (is_known_fault r t)) [
  | inr other ↦ inl (other, ap (corrected r ts) e ∙ corrected-unknown r ts t other)
  | inl fault ↦ inr (
    fault,
    ap parse_iso_timestamp (ap (corrected r ts) e ∙ corrected-known r ts t fault)
        ∙ parse_iso_timestamp-print_timestamp (next_year t)
            (next_year-Fits t y (parse_iso_timestamp-Fits ts t e)),
    next_year-valid r t fault,
  )
]

-- A timestamp that can be read, of a year below 9999: correcting it twice is correcting it once.
pub normalize-idempotent :
    (r : Bool) (ts : List ℕ) (t : Timestamp)
    → parse_iso_timestamp ts ≡ some t
    → t.year < 9999
    → normalize_contract_expiration_timestamp r (normalize_contract_expiration_timestamp r ts)
      ≡ normalize_contract_expiration_timestamp r ts
normalize-idempotent r ts t e y = elim (normalize-corrects r ts t e y) [
  | inl (other, same) ↦ ap (normalize_contract_expiration_timestamp r) same
  | inr (fault, read, valid) ↦
      normalize-unknown r _ (next_year t) read (next_year-mended r r t fault)
]
