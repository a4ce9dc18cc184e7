-- ===== src/Exporter/Tests.antt =====
-- The exporter's theorems at concrete inputs.
mod Relic
mod Ws
mod Keys
mod Setup
mod Decoder
use fio_chronicle.Prelude.{ℕ, ◌≡◌, ◌⊎◌, refl, true, false, ◌&&◌, List, [], ◌∷◌, some, arith, leb}
use fio_chronicle.Exporter.Timestamp.{
  Timestamp, parse_iso_timestamp, print_timestamp, is_known_fault, is_valid_date, is_leap_year,
  days_in_month, normalize_contract_expiration_timestamp,
}
use fio_chronicle.Exporter.Timestamp.Format.{parse_iso_timestamp-print_timestamp}
use fio_chronicle.Exporter.Timestamp.Correction.{
  next_year, normalize-corrects, normalize-idempotent,
}

-- "2023-02-29T10:20:30"
abbrev faulty : List ℕ
faulty =
    50 ∷ 48 ∷ 50 ∷ 51 ∷ 45 ∷ 48 ∷ 50 ∷ 45 ∷ 50 ∷ 57 ∷ 84 ∷ 49 ∷ 48 ∷ 58 ∷ 50 ∷ 48 ∷ 58 ∷ 51 ∷ 48
    ∷ []

abbrev faulty_timestamp : Timestamp
faulty_timestamp = record { year = 2023; month = 2; day = 29; hour = 10; minute = 20; second = 30 }

faulty_read : parse_iso_timestamp faulty ≡ some faulty_timestamp
unfolding parse_iso_timestamp
faulty_read = refl

parse_iso_timestamp-print_timestamp_example :
    parse_iso_timestamp (print_timestamp faulty_timestamp) ≡ some faulty_timestamp
parse_iso_timestamp-print_timestamp_example =
    parse_iso_timestamp-print_timestamp faulty_timestamp (record {
      year_fits = omega arith;
      month_fits = omega arith;
      day_fits = omega arith;
      hour_fits = omega arith;
      minute_fits = omega arith;
      second_fits = omega arith;
    })

normalize-corrects_example :
    ((is_known_fault true faulty_timestamp ≡ false)
      × (normalize_contract_expiration_timestamp true faulty ≡ faulty))
    ⊎ ((is_known_fault true faulty_timestamp ≡ true)
        × (parse_iso_timestamp (normalize_contract_expiration_timestamp true faulty)
            ≡ some (next_year faulty_timestamp))
        × (is_valid_date (next_year faulty_timestamp) ≡ (leb 10 23 && leb 20 59 && leb 30 59)))
normalize-corrects_example =
    normalize-corrects true faulty faulty_timestamp faulty_read (omega arith)

-- "2024-02-29T10:20:30"
faulty_corrected :
    normalize_contract_expiration_timestamp true faulty
    ≡ 50 ∷ 48 ∷ 50 ∷ 52 ∷ 45 ∷ 48 ∷ 50 ∷ 45 ∷ 50 ∷ 57 ∷ 84 ∷ 49 ∷ 48 ∷ 58 ∷ 50 ∷ 48 ∷ 58 ∷ 51 ∷ 48
      ∷ []
unfolding normalize_contract_expiration_timestamp parse_iso_timestamp is_valid_date days_in_month
    is_known_fault is_leap_year print_timestamp
faulty_corrected = refl

-- "9999-02-29T00:00:00" becomes "10000-02-29T00:00:0": the buffer has no room for a fifth digit.
cut_off :
    normalize_contract_expiration_timestamp true (
      57 ∷ 57 ∷ 57 ∷ 57 ∷ 45 ∷ 48 ∷ 50 ∷ 45 ∷ 50 ∷ 57 ∷ 84 ∷ 48 ∷ 48 ∷ 58 ∷ 48 ∷ 48 ∷ 58 ∷ 48 ∷ 48
      ∷ [])
    ≡ 49 ∷ 48 ∷ 48 ∷ 48 ∷ 48 ∷ 45 ∷ 48 ∷ 50 ∷ 45 ∷ 50 ∷ 57 ∷ 84 ∷ 48 ∷ 48 ∷ 58 ∷ 48 ∷ 48 ∷ 58 ∷ 48
      ∷ []
unfolding normalize_contract_expiration_timestamp parse_iso_timestamp is_valid_date days_in_month
    is_known_fault is_leap_year print_timestamp
cut_off = refl
