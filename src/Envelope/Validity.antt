-- ===== src/Envelope/Validity.antt =====
-- Which messages `decodeCapMessage` accepts, and what it makes of them.
use cap_nodejs.Prelude.{
  String, Bool, true, false, not, ◌&&◌, Option, none, some, [], ◌∷◌, ◌≡◌, refl, inl, inr, arith,
  Option-cases, or_default, is_some, eq_iff,
}
use cap_nodejs.JsValue.{Value, Fields, Headers}
use cap_nodejs.JsMap.{get, set}
use cap_nodejs.JsMap.Laws.{get-set}
use cap_nodejs.Envelope.{
  own, is_version, Decoding, ok, err, LegacyMode, reject, DecodedMessage, marker_of, record_of,
  merge_headers, spread, none_if_empty, decode_cap_message, decode_unmarked,
  is_cap_message_envelope_v1, is_explicit_cap_envelope_kind, validate_explicit_envelope,
  has_valid_headers, has_json_payload,
}

abbrev pub is_ok : Decoding DecodedMessage → Bool
is_ok (ok d) = true
is_ok (err e) = false

validate_iff :
    (fs ms : Fields)
    → is_some (validate_explicit_envelope fs ms)
      ≡ not (
          (elim (own "version" ms) [ none ↦ false | some n ↦ is_version n ])
          && (has_json_payload fs && has_valid_headers fs))
unfolding validate_explicit_envelope has_json_payload
validate_iff fs ms = ground arith

-- A message that carries the explicit marker is decoded exactly if it is a version 1 envelope, and is then no
-- legacy envelope: a marked message that is malformed is always refused, in every mode.
pub decode_explicit_iff :
    (v : Value) (explicit : Option Headers) (mode : LegacyMode)
    → is_explicit_cap_envelope_kind v ≡ true
    → is_ok (decode_cap_message v explicit mode) ≡ is_cap_message_envelope_v1 v
unfolding decode_cap_message is_cap_message_envelope_v1
decode_explicit_iff v explicit mode marked = elim (Option-cases (marker_of v)) [
  | inl bare ↦ ground arith
  | inr ((fs, ms), found) ↦ ground (arith, validate_iff fs ms)
]

-- In the mode `reject` no message is decoded as a legacy envelope.
pub decode_reject :
    (v : Value) (explicit : Option Headers) (d : DecodedMessage)
    → decode_cap_message v explicit reject ≡ ok d
    → d.legacy_envelope ≡ false
unfolding decode_cap_message decode_unmarked
decode_reject v explicit d e = elim (Option-cases (marker_of v)) [
  | inl bare ↦ elim (Option-cases (record_of v)) [
    | inl loose ↦ ground (arith)
    | inr (fs, found) ↦ ground arith
  ]
  | inr ((fs, ms), found) ↦ ground arith
]

get-spread-none :
    (k : String) (lower higher : Headers)
    → get k higher ≡ none
    → get k (spread lower higher) ≡ get k lower
get-spread-none k lower [] h = refl
get-spread-none k lower ((j, v) ∷ higher) h =
    ground (arith, get-spread-none k (set j v lower) higher, get-set j k v lower)

-- No header is there twice.
abbrev pub Distinct : Headers → Type 0
Distinct [] = Unit
Distinct ((k, v) ∷ hs) = (get k hs ≡ none) × Distinct hs

pub get-spread :
    (k : String) (lower higher : Headers)
    → Distinct higher
    → get k (spread lower higher) ≡ (elim (get k higher) [ some v ↦ some v | none ↦ get k lower ])
get-spread k lower [] d = refl
get-spread k lower ((j, v) ∷ higher) d = ground (
  arith,
  get-spread k (set j v lower) higher,
  get-spread-none k (set j v lower) higher,
  get-set j k v lower,
  eq_iff j k,
)

or_default-none_if_empty : (hs : Headers) → or_default (none_if_empty hs) [] ≡ hs
or_default-none_if_empty [] = refl
or_default-none_if_empty (h ∷ hs) = refl

-- Merged headers, where the explicit ones have distinct names: an explicit header of the transport wins
-- over one of the same name in the envelope, and every other header of either is there.
pub get-merge_headers :
    (k : String) (lower higher : Option Headers)
    → Distinct (or_default higher [])
    → get k (or_default (merge_headers lower higher) []) ≡ (elim (get k (or_default higher [])) [
      | some v ↦ some v
      | none ↦ get k (or_default lower [])
    ])
unfolding merge_headers
get-merge_headers k lower higher d =
    rw (or_default-none_if_empty (spread (or_default lower []) (or_default higher [])))
      (get-spread k (or_default lower []) (or_default higher []) d)
