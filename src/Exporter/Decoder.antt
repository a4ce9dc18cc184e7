-- ===== src/Exporter/Decoder.antt =====
-- Events as JSON (chronicle-receiver/decoder_plugin.cpp: json_encoder and decoder_plugin_impl).
-- Values are trees of the native types; what abieos, eosio and fc print is the record `Printers`.
-- The writer's text is taken as the value that it is parsed to.
pub mod Relic
use Prim.Native.String.{String}
use fio_chronicle.Prelude.{
  ℕ, ◌+◌, ◌/◌, ◌%◌, Bool, true, false, List, [], ◌∷◌, ◌++◌, Option, none, some, if◌then◌else◌, ltb,
}
use fio_chronicle.Exporter.Text.{Text, text}
use fio_chronicle.Exporter.Text.Numbers.{ℤ, print_integer, print_number}
use fio_chronicle.Exporter.Json.{
  Json, null, string, array, object, Elements, no_elements, element, Members, no_members, member,
}
use fio_chronicle.Exporter.Ws.Messages.{Kind, tx_trace, tbl_row, encoder_err}

pub record Printers : Type 0 where
  pub name_to_string : ℕ → Text
  pub microseconds_to_str : ℕ → Text
  pub key_to_string : ℕ → Text
  pub to_hex : Text → Text
  -- The JSON of an action's data, and of a row, by the ABI of the account; or the error.
  pub decode_action : (account name : ℕ) → Text → Option Json
  pub decode_row : (code table : ℕ) → Text → Option Json
  pub get_error : Text

mutual
  pub data Native : Type 0 where
    characters : Text → Native
    integer : ℤ → Native
    boolean : Bool → Native
    bytes : Text → Native
    name_value : ℕ → Native
    microseconds : ℕ → Native
    key_or_signature : ℕ → Native
    no_value : Native
    vector : Natives → Native
    struct : Fields → Native
    action : (account action_name : ℕ) → (authorization : Native) → (action_data : Text) → Native
    contract_row : (code scope table primary_key payer : ℕ) → (value : Text) → Native

  pub data Natives : Type 0 where
    end_of_vector : Natives
    item : Native → Natives → Natives

  pub data Fields : Type 0 where
    end_of_struct : Fields
    with_field : Text → Native → Fields → Fields

module _ (pr : Printers) where
  abbrev or_hex : Text → Option Json → Json
  or_hex bs (some j) = j
  or_hex bs none = string (pr.to_hex bs)

  -- "Cannot decode action data for fio.token: transfer - ..."
  abbrev error_unless : String → (account name : ℕ) → Option Json → List Text
  error_unless what account name (some j) = []
  error_unless what account name none =
      (text what
        ++ pr.name_to_string account
        ++ text ": "
        ++ pr.name_to_string name
        ++ text " - "
        ++ pr.get_error)
      ∷ []

  abbrev name_member : String → ℕ → Members → Members
  name_member key n rest = member (text key) (string (pr.name_to_string n)) rest

  -- `native_to_json`: the value.
  unfoldable mutual
    pub json_of : Native → Json
    json_of (characters t) = string t
    json_of (integer n) = string (print_integer n)
    json_of (boolean b) = string (text (if b then "true" else "false"))
    json_of (bytes bs) = string (pr.to_hex bs)
    json_of (name_value n) = string (pr.name_to_string n)
    json_of (microseconds t) = string (pr.microseconds_to_str t)
    json_of (key_or_signature k) = string (pr.key_to_string k)
    json_of no_value = null
    json_of (vector vs) = array (elements_of vs)
    json_of (struct fs) = object (members_of fs)
    json_of (action account action_name authorization action_data) = object (
        name_member "account" account (
          name_member "name" action_name (
            member (text "authorization") (json_of authorization) (
              member (text "data")
                (or_hex action_data (pr.decode_action account action_name action_data))
                no_members))))
    json_of (contract_row code scope table primary_key payer value) = object (
        name_member "code" code (
          name_member "scope" scope (
            name_member "table" table (
              member (text "primary_key") (string (print_number primary_key)) (
                name_member "payer" payer (
                  member (text "value") (or_hex value (pr.decode_row code table value))
                    no_members))))))

    pub elements_of : Natives → Elements
    elements_of end_of_vector = no_elements
    elements_of (item v vs) = element (json_of v) (elements_of vs)

    pub members_of : Fields → Members
    members_of end_of_struct = no_members
    members_of (with_field key v fs) = member key (json_of v) (members_of fs)

  -- ... and the errors that it adds to `encoder_errors`.
  unfoldable mutual
    pub errors_of : Native → List Text
    errors_of (characters t) = []
    errors_of (integer n) = []
    errors_of (boolean b) = []
    errors_of (bytes bs) = []
    errors_of (name_value n) = []
    errors_of (microseconds t) = []
    errors_of (key_or_signature k) = []
    errors_of no_value = []
    errors_of (vector vs) = errors_of_items vs
    errors_of (struct fs) = errors_of_fields fs
    errors_of (action account action_name authorization action_data) =
        errors_of authorization
        ++ error_unless "Cannot decode action data for " account action_name
            (pr.decode_action account action_name action_data)
    errors_of (contract_row code scope table primary_key payer value) =
        error_unless "Cannot decode table row for " code table (pr.decode_row code table value)

    pub errors_of_items : Natives → List Text
    errors_of_items end_of_vector = []
    errors_of_items (item v vs) = errors_of v ++ errors_of_items vs

    pub errors_of_fields : Fields → List Text
    errors_of_fields end_of_struct = []
    errors_of_fields (with_field key v fs) = errors_of v ++ errors_of_fields fs

-- The attributes of an error report, in the order of their names, and the errors.
abbrev pub attribute_members : List (Text × Text) → Members → Members
attribute_members [] rest = rest
attribute_members ((key, value) ∷ more) rest =
    member key (string value) (attribute_members more rest)

abbrev pub strings_of : List Text → Elements
strings_of [] = no_elements
strings_of (t ∷ ts) = element (string t) (strings_of ts)

unfoldable pub report_encoder_errors : List Text → List (Text × Text) → Json
report_encoder_errors errors attrs =
    object (attribute_members attrs (member (text "errors") (array (strings_of errors)) no_members))

-- Events with the attributes that an error report on them has. Only traces and rows are reported.
abbrev pub reports_errors : Kind → Bool
reports_errors tx_trace = true
reports_errors tbl_row = true
reports_errors _ = false

-- What is published for an event whose channel has a subscriber: the handlers on_fork to
-- on_block_completed.
unfoldable pub publish : Printers → Kind → List (Text × Text) → Native → List (Kind × Json)
unfolding json_of errors_of report_encoder_errors
publish pr kind attrs event = (kind, json_of pr event) ∷ (elim (errors_of pr event) [
  | [] ↦ []
  | (e ∷ es) ↦
      if reports_errors kind then (encoder_err, report_encoder_errors (e ∷ es) attrs) ∷ [] else []
])

-- `start`: only the channels that had a subscriber then are listened to.
unfoldable pub on_event :
    (has_subscribers : Kind → Bool)
    → Printers
    → Kind
    → List (Text × Text)
    → Native
    → List (Kind × Json)
unfolding publish
on_event has_subscribers pr kind attrs event =
    if has_subscribers kind then publish pr kind attrs event else []
