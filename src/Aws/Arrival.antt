-- ===== src/Aws/Arrival.antt =====
-- What is decoded of the attributes of a message: its headers as they arrive, and its id.
use cap_nodejs.Prelude.{
  ℕ, String, true, false, Option, none, some, [], ◌∷◌, ◌≡◌, refl, ap, ◌∙◌, arith, str_eq, eq_iff,
  if◌then◌else◌, All, Bool-cases, inl, inr,
}
use cap_nodejs.JsValue.{Value, HeaderValue, Headers, text, numeric, flag, instant}
use cap_nodejs.JsMap.{get, set}
use cap_nodejs.JsMap.Entries.{Keys, set_all, set_all-append, NewTo-nil}
use cap_nodejs.Effect.{Result, ok, Result-cases}
use cap_nodejs.Aws.{
  content_type, message_id_name, string_value_of, data_type_of, scalar, decode_attribute_value,
  decode_attributes,
}
use cap_nodejs.Aws.Attributes.{encoded_headers, with_id, all_attributes}

-- The text is not JSON of a text, a number or a truth value.
abbrev pub IsPlainText : (String → Result Value) → String → Type 0
IsPlainText parse s = (v : Value) → parse s ≡ ok v → scalar v ≡ none

-- What `JSON.parse` makes of a truth value's text
abbrev pub ParsesFlags : (String → Result Value) → Type 0
ParsesFlags parse =
    (parse "true" ≡ ok (Value.boolean true)) × (parse "false" ≡ ok (Value.boolean false))

module _ (to_iso_string : Option ℕ → String) where
  -- What is decoded of a header's value: an instant arrives as its text.
  abbrev pub arrived : HeaderValue → HeaderValue
  arrived (text s) = text s
  arrived (numeric n) = numeric n
  arrived (flag b) = flag b
  arrived (instant t) = text (to_iso_string t)

  -- The headers that arrive: the transport's own names are no headers.
  abbrev pub arrived_headers : Headers → Headers
  arrived_headers [] = []
  arrived_headers ((k, v) ∷ hs) =
      if str_eq k content_type
      then arrived_headers hs
      else if str_eq k message_id_name
      then arrived_headers hs
      else (k, arrived v) ∷ arrived_headers hs

  get-arrived : (k : String) (hs : Headers) → get k hs ≡ none → get k (arrived_headers hs) ≡ none
  get-arrived k [] h = refl
  get-arrived k ((j, v) ∷ hs) h = ground (arith, h, get-arrived k hs)

  arrived-Keys : (hs : Headers) → Keys hs → Keys (arrived_headers hs)
  arrived-Keys [] keys = tt
  arrived-Keys ((k, v) ∷ hs) keys = elim (Bool-cases (str_eq k content_type)) [
    | inl own_name ↦ rw own_name (arrived-Keys hs keys.1)
    | inr other ↦ elim (Bool-cases (str_eq k message_id_name)) [
      | inl its_id ↦ rw (other, its_id) (arrived-Keys hs keys.1)
      | inr header ↦ rw (other, header) (get-arrived k hs keys.0, arrived-Keys hs keys.1)
    ]
  ]

module _ (to_iso_string : Option ℕ → String) (parse : String → Result Value)
    (number_of : String → Option String) where
  -- What is asked of a header's value: its text is not JSON of another value, and `Number` reads back a number's text.
  abbrev pub IsSendable : HeaderValue → Type 0
  IsSendable (text s) = IsPlainText parse s
  IsSendable (numeric n) = number_of n ≡ some n
  IsSendable (flag b) = Unit
  IsSendable (instant t) = IsPlainText parse (to_iso_string t)

  decode-plain :
      (s : String)
      → IsPlainText parse s
      → decode_attribute_value parse number_of "String" s ≡ text s
  unfolding decode_attribute_value
  decode-plain s plain = elim (Result-cases (parse s)) [
    | inl (v, parsed) ↦ ground (arith, parsed, plain v parsed)
    | inr (e, bad) ↦ ground (arith, bad)
  ]

  decode-value :
      (v : HeaderValue)
      → ParsesFlags parse
      → IsSendable v
      → decode_attribute_value parse number_of (data_type_of v) (string_value_of to_iso_string v)
        ≡ arrived to_iso_string v
  unfolding data_type_of string_value_of
  decode-value (text s) flags plain = decode-plain s plain
  decode-value (numeric n) flags reads = unfold decode_attribute_value in rw reads refl
  decode-value (flag true) flags u = unfold decode_attribute_value in rw (flags.0) refl
  decode-value (flag false) flags u = unfold decode_attribute_value in rw (flags.1) refl
  decode-value (instant t) flags plain = decode-plain (to_iso_string t) plain

  abbrev pub AllSendable : Headers → Type 0
  AllSendable = All (λ e. IsSendable e.1)

  -- Headers among which there is no message id
  decode-encoded :
      (hs : Headers) (acc : Headers) (id : Option String)
      → ParsesFlags parse
      → get message_id_name hs ≡ none
      → AllSendable hs
      → decode_attributes parse number_of (encoded_headers to_iso_string hs) acc id
        ≡ (set_all (arrived_headers to_iso_string hs) acc, id)
  unfolding decode_attributes
  decode-encoded [] acc id flags absent sendable = refl
  decode-encoded ((k, v) ∷ hs) acc id flags absent (one, sendable) =
      elim (Bool-cases (str_eq k message_id_name)) [
        | inl its_id ↦ absurd (ground (arith, its_id, absent))
        | inr header ↦ elim (Bool-cases (str_eq k content_type)) [
          | inl own_name ↦
              rw own_name (decode-encoded hs acc id flags (rw header at absent) sendable)
          | inr other ↦
              rw (other, decode_attributes, other, header, decode-value v flags one)
                (decode-encoded hs (set k (arrived to_iso_string v) acc) id flags
                  (rw header at absent) sendable)
        ]
      ]

  decode-with_id :
      (id : String) (hs : Headers) (acc : Headers)
      → ParsesFlags parse
      → Keys hs
      → AllSendable hs
      → decode_attributes parse number_of (with_id to_iso_string id hs) acc none
        ≡ (set_all (arrived_headers to_iso_string hs) acc, some id)
  unfolding decode_attributes
  decode-with_id id [] acc flags keys sendable = refl
  decode-with_id id ((k, v) ∷ hs) acc flags (new, keys) (one, sendable) =
      elim (Bool-cases (str_eq k content_type)) [
        | inl own_name ↦ rw own_name (decode-with_id id hs acc flags keys sendable)
        | inr other ↦ elim (Bool-cases (str_eq k message_id_name)) [
          | inl its_id ↦
              rw (other, its_id, decode_attributes, other, its_id)
                (decode-encoded hs acc (some id) flags (ap-get its_id) sendable)
          | inr header ↦
              rw (other, header, decode_attributes, other, header, decode-value v flags one)
                (decode-with_id id hs (set k (arrived to_iso_string v) acc) flags keys sendable)
        ]
      ]
    where
      ap-get : str_eq k message_id_name ≡ true → get message_id_name hs ≡ none
      ap-get same = ground (arith, same, new, eq_iff k message_id_name)

  pub decoded_attributes :
      (hs : Headers) (id : String)
      → Keys hs
      → ParsesFlags parse
      → AllSendable hs
      → decode_attributes parse number_of (all_attributes to_iso_string hs id) [] none
        ≡ (arrived_headers to_iso_string hs, some id)
  unfolding decode_attributes
  decoded_attributes hs id keys flags sendable =
      decode-with_id id hs [] flags keys sendable
      ∙ ap (λ m. (m, some id))
          (set_all-append (arrived_headers to_iso_string hs) [] (arrived-Keys to_iso_string hs keys)
            (NewTo-nil (arrived_headers to_iso_string hs)))
