-- ===== src/Exporter/Ws/Messages.antt =====
-- The messages of the exporter over a websocket (chronicle-receiver/exp_ws_plugin.cpp: init,
-- on_event_json, on_event_bin; chronicle-receiver/chronicle_msgtypes.h).
use Prim.Native.String.{String}
use fio_chronicle.Prelude.{
  ℕ, ◌+◌, ◌*◌, ◌/◌, ◌%◌, ◌<◌, ◌≡◌, refl, ap, ◌∙◌, Bool, true, [], ◌∷◌, ◌++◌, Option, none, some,
  if◌then◌else◌, ◌==◌, arith,
}
use fio_chronicle.Exporter.Text.{Text, text}

-- The channels.
pub data Kind : Type 0 where
  fork block tx_trace abi_upd abi_rem abi_err tbl_row encoder_err rcvr_pause block_completed : Kind
  permission permission_link acc_metadata block_started : Kind

abbrev pub msgtype : Kind → ℕ
msgtype fork = 1001
msgtype block = 1002
msgtype tx_trace = 1003
msgtype abi_upd = 1004
msgtype abi_rem = 1005
msgtype abi_err = 1006
msgtype tbl_row = 1007
msgtype encoder_err = 1008
msgtype rcvr_pause = 1009
msgtype block_completed = 1010
msgtype permission = 1011
msgtype permission_link = 1012
msgtype acc_metadata = 1013
msgtype block_started = 1014

abbrev pub name : Kind → String
name fork = "FORK"
name block = "BLOCK"
name tx_trace = "TX_TRACE"
name abi_upd = "ABI_UPD"
name abi_rem = "ABI_REM"
name abi_err = "ABI_ERR"
name tbl_row = "TBL_ROW"
name encoder_err = "ENCODER_ERR"
name rcvr_pause = "RCVR_PAUSE"
name block_completed = "BLOCK_COMPLETED"
name permission = "PERMISSION"
name permission_link = "PERMISSION_LINK"
name acc_metadata = "ACC_METADATA"
name block_started = "BLOCK_STARTED"

-- The bytes of an int32_t that is not negative, the lowest first.
abbrev pub int32_bytes : ℕ → Text
int32_bytes n = n % 256 ∷ n / 256 % 256 ∷ n / 65536 % 256 ∷ n / 16777216 % 256 ∷ []

-- `on_event_bin`
unfoldable pub bin_message : (msgtype msgopts : ℕ) → Text → Text
bin_message code opts event = int32_bytes code ++ int32_bytes opts ++ event

-- `on_event_json`
unfoldable pub json_message : String → Text → Text
json_message type event =
    text "{\"msgtype\":\"" ++ text type ++ text "\",\"data\":" ++ event ++ text "}"

-- The message of an event, by the subscriptions.
unfoldable pub message : (use_bin_headers : Bool) → Kind → Text → Text
unfolding bin_message json_message
message use_bin_headers kind event =
    if use_bin_headers then bin_message (msgtype kind) 0 event else json_message (name kind) event

-- How a consumer reads a binary message.
abbrev pub int32_of : ℕ → ℕ → ℕ → ℕ → ℕ
int32_of a b c d = a + 256 * b + 65536 * c + 16777216 * d

unfoldable pub kind_of : ℕ → Option Kind
kind_of code =
    if code == 1001
    then some fork
    else if code == 1002
    then some block
    else if code == 1003
    then some tx_trace
    else if code == 1004
    then some abi_upd
    else if code == 1005
    then some abi_rem
    else if code == 1006
    then some abi_err
    else if code == 1007
    then some tbl_row
    else if code == 1008
    then some encoder_err
    else if code == 1009
    then some rcvr_pause
    else if code == 1010
    then some block_completed
    else if code == 1011
    then some permission
    else if code == 1012
    then some permission_link
    else if code == 1013
    then some acc_metadata
    else if code == 1014
    then some block_started
    else none

unfoldable pub read_header : Text → Option (ℕ × ℕ × Text)
read_header (a ∷ b ∷ c ∷ d ∷ e ∷ f ∷ g ∷ h ∷ event) =
    some (int32_of a b c d, int32_of e f g h, event)
read_header _ = none

int32_of-bytes :
    (n : ℕ)
    → n < 2147483648
    → int32_of (n % 256) (n / 256 % 256) (n / 65536 % 256) (n / 16777216 % 256) ≡ n
int32_of-bytes n small = omega arith

msgtype_small : (k : Kind) → msgtype k < 2147483648
msgtype_small fork = omega arith
msgtype_small block = omega arith
msgtype_small tx_trace = omega arith
msgtype_small abi_upd = omega arith
msgtype_small abi_rem = omega arith
msgtype_small abi_err = omega arith
msgtype_small tbl_row = omega arith
msgtype_small encoder_err = omega arith
msgtype_small rcvr_pause = omega arith
msgtype_small block_completed = omega arith
msgtype_small permission = omega arith
msgtype_small permission_link = omega arith
msgtype_small acc_metadata = omega arith
msgtype_small block_started = omega arith

kind_of-msgtype : (k : Kind) → kind_of (msgtype k) ≡ some k
unfolding kind_of
kind_of-msgtype fork = refl
kind_of-msgtype block = refl
kind_of-msgtype tx_trace = refl
kind_of-msgtype abi_upd = refl
kind_of-msgtype abi_rem = refl
kind_of-msgtype abi_err = refl
kind_of-msgtype tbl_row = refl
kind_of-msgtype encoder_err = refl
kind_of-msgtype rcvr_pause = refl
kind_of-msgtype block_completed = refl
kind_of-msgtype permission = refl
kind_of-msgtype permission_link = refl
kind_of-msgtype acc_metadata = refl
kind_of-msgtype block_started = refl

-- Two numbers below 2^31 and the text behind them are read back from a binary message.
pub read_header-bin_message :
    (code opts : ℕ) (event : Text)
    → code < 2147483648
    → opts < 2147483648
    → read_header (bin_message code opts event) ≡ some (code, opts, event)
unfolding read_header bin_message
read_header-bin_message code opts event small small' =
    λ i. some (int32_of-bytes code small i, int32_of-bytes opts small' i, event)

abbrev with_kind : Option Kind → Text → Option (Kind × Text)
with_kind none event = none
with_kind (some kind) event = some (kind, event)

abbrev of_header : Option (ℕ × ℕ × Text) → Option (Kind × Text)
of_header none = none
of_header (some (code, opts, event)) = with_kind (kind_of code) event

-- What a consumer of binary messages takes for the event and its channel.
unfoldable pub read_message : Text → Option (Kind × Text)
unfolding read_header kind_of
read_message m = of_header (read_header m)

-- With binary headers, a consumer reads back from each message its channel and its text.
pub read_message-message :
    (kind : Kind) (event : Text) → read_message (message true kind event) ≡ some (kind, event)
unfolding read_message message
read_message-message kind event =
    ap of_header (read_header-bin_message (msgtype kind) 0 event (msgtype_small kind) (omega arith))
    ∙ ap (λ k. with_kind k event) (kind_of-msgtype kind)
