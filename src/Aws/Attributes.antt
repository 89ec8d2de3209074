-- ===== src/Aws/Attributes.antt =====
-- The attributes of a message that is published with headers and an id: which entries they are, that no two have
-- one name, and that a notification's fields carry them.
use cap_nodejs.Prelude.{
  ℕ, String, true, false, Option, none, some, [], ◌∷◌, ◌≡◌, refl, sym, ap, ◌∙◌, arith, str_eq,
  eq_iff, if◌then◌else◌, All, or_default, Bool-cases, inl, inr,
}
use cap_nodejs.JsValue.{Value, Fields, field, end, HeaderValue, Headers}
use cap_nodejs.JsMap.{get, set}
use cap_nodejs.JsMap.Entries.{Keys, NewTo, set_all, set_all-append, NewTo-nil}
use cap_nodejs.JsMap.Laws.{get-set}
use cap_nodejs.Aws.{
  content_type, message_id_name, Attribute, Attributes, typed, string_value_of, data_type_of,
  encode_headers, encode_message_attributes, convert,
}

-- The fields of a notification's attributes
abbrev pub attribute_fields : Attributes → Fields
attribute_fields [] = end
attribute_fields ((k, a) ∷ attrs) =
    field k
      (Value.object true (
        field "Type" (Value.string (or_default a.data_type ""))
          (field "Value" (Value.string (or_default a.string_value "")) end)))
      (attribute_fields attrs)

-- The attribute has its type and its text.
abbrev Whole : Attributes → Type 0
Whole = All (λ e. e.1 ≡ typed (or_default e.1.data_type "") (or_default e.1.string_value ""))

convert-set_all :
    (attrs acc : Attributes)
    → Whole attrs
    → convert (attribute_fields attrs) acc ≡ set_all attrs acc
convert-set_all [] acc whole = refl
convert-set_all ((k, a) ∷ attrs) acc (same, whole) =
    let kept = typed (or_default a.data_type "") (or_default a.string_value "") in
    convert-set_all attrs (set k kept acc) whole ∙ ap (λ m. set_all attrs (set k m acc)) (sym same)

abbrev pub content_entry : String × Attribute
content_entry = (content_type, typed "String" "application/json")

NewTo-content : (m : Attributes) → get content_type m ≡ none → NewTo (content_entry ∷ []) m
NewTo-content [] h = tt
NewTo-content ((k, a) ∷ m) h = elim (Bool-cases (str_eq k content_type)) [
  | inl own_name ↦ absurd (ground (arith, own_name, h))
  | inr other ↦ (
    ground (arith, other, eq_iff k content_type, eq_iff content_type k),
    NewTo-content m (rw other at h),
  )
]

Keys-set : (k : String) (a : Attribute) (m : Attributes) → Keys m → Keys (set k a m)
Keys-set k a [] keys = (refl, tt)
Keys-set k a ((j, b) ∷ m) (new, keys) = elim (Bool-cases (str_eq j k)) [
  | inl same ↦ rw same (new, keys)
  | inr other ↦
      rw other
        (ground (arith, new, other, eq_iff j k, eq_iff k j, get-set k j a m), Keys-set k a m keys)
]

Whole-set : (k type value : String) (m : Attributes) → Whole m → Whole (set k (typed type value) m)
Whole-set k type value [] whole = (refl, tt)
Whole-set k type value ((j, b) ∷ m) (one, whole) = elim (Bool-cases (str_eq j k)) [
  | inl same ↦ rw same (refl, whole)
  | inr other ↦ rw other (one, Whole-set k type value m whole)
]

module _ (to_iso_string : Option ℕ → String) where
  abbrev pub encoded_value : HeaderValue → Attribute
  encoded_value v = typed (data_type_of v) (string_value_of to_iso_string v)

  abbrev pub encoded_headers : Headers → Attributes
  encoded_headers [] = []
  encoded_headers ((k, v) ∷ hs) =
      if str_eq k content_type
      then encoded_headers hs
      else (k, encoded_value v) ∷ encoded_headers hs

  encode_headers-set_all :
      (hs : Headers) (acc : Attributes)
      → encode_headers to_iso_string hs acc ≡ set_all (encoded_headers hs) acc
  unfolding encode_headers
  encode_headers-set_all [] acc = refl
  encode_headers-set_all ((k, v) ∷ hs) acc = elim (Bool-cases (str_eq k content_type)) [
    | inl own_name ↦ rw own_name (encode_headers-set_all hs acc)
    | inr other ↦ rw other (encode_headers-set_all hs (set k (encoded_value v) acc))
  ]

  get-encoded : (k : String) (hs : Headers) → get k hs ≡ none → get k (encoded_headers hs) ≡ none
  get-encoded k [] h = refl
  get-encoded k ((j, v) ∷ hs) h = ground (arith, h, get-encoded k hs)

  encoded-Keys : (hs : Headers) → Keys hs → Keys (encoded_headers hs)
  encoded-Keys [] keys = tt
  encoded-Keys ((k, v) ∷ hs) keys = elim (Bool-cases (str_eq k content_type)) [
    | inl own_name ↦ rw own_name (encoded-Keys hs keys.1)
    | inr other ↦ rw other (get-encoded k hs keys.0, encoded-Keys hs keys.1)
  ]

  encoded-content : (hs : Headers) → get content_type (encoded_headers hs) ≡ none
  encoded-content [] = refl
  encoded-content ((k, v) ∷ hs) = ground (arith, encoded-content hs)

  -- The message id's attribute, in the place of a header of its name or at the end
  abbrev pub with_id : String → Headers → Attributes
  with_id id hs = set message_id_name (typed "String" id) (encoded_headers hs)

  headers-Whole : (hs : Headers) → Whole (encoded_headers hs)
  headers-Whole [] = tt
  headers-Whole ((k, v) ∷ hs) = elim (Bool-cases (str_eq k content_type)) [
    | inl own_name ↦ rw own_name (headers-Whole hs)
    | inr other ↦ rw other (refl, headers-Whole hs)
  ]

  abbrev pub all_attributes : Headers → String → Attributes
  all_attributes hs id = content_entry ∷ with_id id hs

  module _ (hs : Headers) (id : String) (keys : Keys hs) where
    pub encoded_lem :
        str_eq id "" ≡ false
        → encode_message_attributes to_iso_string (some hs) (some id) ≡ all_attributes hs id
    unfolding encode_message_attributes
    encoded_lem given =
        rw
          (
            given,
            encode_headers-set_all hs (content_entry ∷ []),
            set_all-append (encoded_headers hs) (content_entry ∷ []) (encoded-Keys hs keys)
                (NewTo-content (encoded_headers hs) (encoded-content hs)),
          )
          refl

    all-Keys : Keys (all_attributes hs id)
    all-Keys = (
      ground (
        arith,
        get-set message_id_name content_type (typed "String" id) (encoded_headers hs),
        encoded-content hs,
      ),
      Keys-set message_id_name (typed "String" id) (encoded_headers hs) (encoded-Keys hs keys),
    )

    pub converted : convert (attribute_fields (all_attributes hs id)) [] ≡ all_attributes hs id
    converted =
        convert-set_all (all_attributes hs id) []
          (refl, Whole-set message_id_name "String" id (encoded_headers hs) (headers-Whole hs))
        ∙ set_all-append (all_attributes hs id) [] all-Keys (NewTo-nil (all_attributes hs id))
