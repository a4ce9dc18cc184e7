-- ===== src/Exporter/Ws/Requests.antt =====
-- Acknowledgements and requests that a consumer sends over the websocket
-- (chronicle-receiver/exp_ws_plugin.cpp: async_read_acks, async_read_interactive_reqs).
use fio_chronicle.Prelude.{
  ℕ, ◌+◌, ◌%◌, ◌<◌, ◌≤◌, ◌≡◌, ◌≢◌, refl, ap, ◌∙◌, true, false, [], ◌∷◌, ◌++◌, Option, none, some,
  if◌then◌else◌, leb, ◌==◌, add32, u32_mod, inl, inr, arith, Bool-cases,
}
use mathlib.Core.Path.{ap₂}
use fio_chronicle.Prelude.Action.{Result, ok, err, bad_request, bad_number, ack_too_large}
use fio_chronicle.Exporter.Text.{Text, split_at}
use fio_chronicle.Exporter.Text.Numbers.{
  stoul, stoul-print_number, print_number, print_number-IsDigits, IsDigits, u64_mod,
}
use fio_chronicle.Exporter.Ws.{
  Ws, emit, acked, requested, reading, close_ws, on_ack, on_interactive_req, read_request, pair_of,
  single_of, read_parts, publish_request, accept_ack,
}

small_mod : (n : ℕ) → n < u32_mod → n % u32_mod ≡ n
small_mod n h = omega arith

not_leb : (a b : ℕ) → a < b → leb b a ≡ false
not_leb a b h = ground arith

le_leb : (a b : ℕ) → a ≤ b → leb a b ≡ true
le_leb a b h = ground arith

next_small : (a : ℕ) → a < u32_mod → a ≢ 4294967295 → add32 a 1 ≡ a + 1
next_small a h other = omega arith

-- "a-b"
abbrev pub print_request : ℕ → ℕ → Text
print_request a b = print_number a ++ 45 ∷ print_number b

split_at-IsDigits : (t rest : Text) → IsDigits t → split_at 45 (t ++ 45 ∷ rest) ≡ some (t, rest)
split_at-IsDigits [] rest h = refl
split_at-IsDigits (a ∷ tl) rest h =
    let first = h.0 in rw (split_at-IsDigits tl rest h.1) (ground arith)

split_at-single : (t : Text) → IsDigits t → split_at 45 t ≡ none
split_at-single [] h = refl
split_at-single (a ∷ tl) h = let first = h.0 in rw (split_at-single tl h.1) (ground arith)

publish_request-in_order :
    (a b : ℕ) (s : Ws)
    → a < b
    → publish_request (some (a, b)) s ≡ (ok tt, emit reading (emit (requested a b) s))
unfolding publish_request
publish_request-in_order a b s below = rw (not_leb a b below) refl

publish_request-refused :
    (a b : ℕ) (s : Ws) → b ≤ a → publish_request (some (a, b)) s ≡ (err bad_request, s)
unfolding publish_request
publish_request-refused a b s above = rw (le_leb b a above) refl

-- A printed range of blocks whose start is below its end is requested as it is, and the exporter
-- goes on reading.
pub on_interactive_req-print_request :
    (a b : ℕ) (s : Ws)
    → a < b
    → b < u32_mod
    → on_interactive_req (some (print_request a b)) s
      ≡ (ok tt, emit reading (emit (requested a b) s))
unfolding on_interactive_req read_request
on_interactive_req-print_request a b s below fits =
    ap (λ r. publish_request r s)
      (ap (read_parts (print_request a b))
          (split_at-IsDigits (print_number a) (print_number b) (print_number-IsDigits a))
        ∙ ap₂ pair_of (stoul-print_number a (omega arith)) (stoul-print_number b (omega arith))
        ∙ ap₂ (λ x y. some (x, y)) (small_mod a (omega arith)) (small_mod b fits))
    ∙ publish_request-in_order a b s below

-- A printed block number is a request for this block alone, unless it is the last of 32 bits: then
-- the end wraps around to 0, and the request is refused.
pub on_interactive_req-print_number :
    (a : ℕ) (s : Ws)
    → a < u32_mod
    → on_interactive_req (some (print_number a)) s ≡ (
        if a == 4294967295
        then (err bad_request, s)
        else (ok tt, emit reading (emit (requested a (a + 1)) s)))
unfolding on_interactive_req read_request publish_request
on_interactive_req-print_number a s fits =
    ap (λ r. publish_request r s)
      (ap (read_parts (print_number a)) (split_at-single (print_number a) (print_number-IsDigits a))
        ∙ ap single_of (stoul-print_number a (omega arith))
        ∙ ap (λ x. some (x, add32 x 1)) (small_mod a fits))
    ∙ elim (Bool-cases (a == 4294967295)) [
      | inl last ↦ rw last (publish_request-refused a (add32 a 1) s (ground arith))
      | inr earlier ↦ rw earlier (
          ap (λ e. publish_request (some (a, e)) s) (next_small a fits (ground arith))
          ∙ publish_request-in_order a (a + 1) s (omega arith))
    ]

-- What a text asks for: "a-b" for the blocks from a up to b, or "a" for this block alone, with each
-- number cut to 32 bits.
pub data IsRead (t : Text) : ℕ → ℕ → Type 0 where
  range :
      (before behind : Text) (n k : ℕ)
      → split_at 45 t ≡ some (before, behind)
      → stoul before ≡ some n
      → stoul behind ≡ some k
      → IsRead t (n % u32_mod) (k % u32_mod)
  single :
      (n : ℕ)
      → split_at 45 t ≡ none
      → stoul t ≡ some n
      → IsRead t (n % u32_mod) ((n % u32_mod + 1) % u32_mod)

-- A number that the text must have cannot be read.
pub data IsUnreadable (t : Text) : Type 0 where
  bad_start :
      (before behind : Text)
      → split_at 45 t ≡ some (before, behind)
      → stoul before ≡ none
      → IsUnreadable t
  bad_end :
      (before behind : Text)
      → split_at 45 t ≡ some (before, behind)
      → stoul behind ≡ none
      → IsUnreadable t
  bad_single : split_at 45 t ≡ none → stoul t ≡ none → IsUnreadable t

-- What the handler of a read may do.
pub data Served (s : Ws) : Option Text → Result (Unit {0}) × Ws → Type 0 where
  read_failed : Served s none (ok tt, close_ws s)
  not_numbers : (t : Text) → IsUnreadable t → Served s (some t) (err bad_number, s)
  refused : (t : Text) (a b : ℕ) → IsRead t a b → b ≤ a → Served s (some t) (err bad_request, s)
  published :
      (t : Text) (a b : ℕ)
      → IsRead t a b
      → a < b
      → b < u32_mod
      → Served s (some t) (ok tt, emit reading (emit (requested a b) s))

abbrev Reads : Text → Option (ℕ × ℕ) → Type 0
Reads t none = IsUnreadable t
Reads t (some (a, b)) = IsRead t a b × (b < u32_mod)

single_of-Reads :
    (t : Text) (o : Option ℕ) → split_at 45 t ≡ none → stoul t ≡ o → Reads t (single_of o)
single_of-Reads t none no_dash e = bad_single no_dash e
single_of-Reads t (some n) no_dash e = (single n no_dash e, omega arith)

pair_of-Reads :
    (t before behind : Text) (o p : Option ℕ)
    → split_at 45 t ≡ some (before, behind)
    → stoul before ≡ o
    → stoul behind ≡ p
    → Reads t (pair_of o p)
pair_of-Reads t before behind none p dash e k = bad_start before behind dash e
pair_of-Reads t before behind (some n) none dash e k = bad_end before behind dash k
pair_of-Reads t before behind (some n) (some m) dash e k =
    (range before behind n m dash e k, omega arith)

read_parts-Reads :
    (t : Text) (parts : Option (Text × Text)) → split_at 45 t ≡ parts → Reads t (read_parts t parts)
read_parts-Reads t none e = single_of-Reads t (stoul t) e refl
read_parts-Reads t (some (before, behind)) e =
    pair_of-Reads t before behind (stoul before) (stoul behind) e refl refl

publish_request-Served :
    (t : Text) (q : Option (ℕ × ℕ)) (s : Ws) → Reads t q → Served s (some t) (publish_request q s)
unfolding publish_request
publish_request-Served t none s unread = not_numbers t unread
publish_request-Served t (some (a, b)) s (asked, small) = elim (Bool-cases (leb b a)) [
  | inl above ↦ rw above (refused t a b asked (ground arith))
  | inr below ↦ rw below (published t a b asked (ground arith) small)
]

-- Whatever is read, one of four things happens: the socket is closed because the read failed; a
-- number of the text cannot be read, or its end is not above its start, and an exception leaves all
-- as it was; or the request that the text asks for, of blocks below 2^32, start before end, is
-- published, and reading goes on.
pub on_interactive_req-Served :
    (read : Option Text) (s : Ws) → Served s read (on_interactive_req read s)
unfolding on_interactive_req read_request close_ws
on_interactive_req-Served none s = read_failed
on_interactive_req-Served (some t) s =
    publish_request-Served t (read_request t) s (read_parts-Reads t (split_at 45 t) refl)

-- A printed block number is acknowledged, and the exporter goes on reading; a number of 33 to 64
-- bits is refused with an exception.
pub on_ack-print_number :
    (n : ℕ) (s : Ws)
    → n < u64_mod
    → on_ack (some (print_number n)) s
      ≡ (if leb u32_mod n then (err ack_too_large, s) else (ok tt, emit reading (emit (acked n) s)))
unfolding on_ack accept_ack
on_ack-print_number n s fits =
    ap (λ r. accept_ack r s) (stoul-print_number n fits)
    ∙ elim (Bool-cases (leb u32_mod n)) [ inl large ↦ rw large refl | inr small ↦ rw small refl ]
