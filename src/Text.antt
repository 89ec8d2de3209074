-- ===== src/Text.antt =====
-- The text operations of JavaScript that the transports and the dashboard use, on a text's code points.
use Prim.Native.Char.{Char, code}
use cap_nodejs.Prelude.{
  ℕ, ◌+◌, String, Bool, true, false, ◌&&◌, ◌||◌, List, [], ◌∷◌, if◌then◌else◌, ltb, leb, ◌==◌,
  str_eq,
}

-- `\p{Cc}`
abbrev pub is_control : Char → Bool
is_control c = ltb (code c) 32 || (leb 127 (code c) && leb (code c) 159)

-- What `trim` removes
abbrev pub is_space : Char → Bool
is_space c =
    let n = code c in
    (leb 9 n && leb n 13)
    || (n == 32
        || (n == 160
            || (n == 5760
                || ((leb 8192 n && leb n 8202)
                    || (n == 8232
                        || (n == 8233
                            || (n == 8239 || (n == 8287 || (n == 12288 || n == 65279)))))))))

-- `s.trim().length === 0`
abbrev pub is_blank : String → Bool
is_blank String.[] = true
is_blank (String.◌∷◌ c s) = is_space c && is_blank s

-- `/\p{Cc}/u.test(s)`
abbrev pub has_control : String → Bool
has_control String.[] = false
has_control (String.◌∷◌ c s) = is_control c || has_control s

abbrev pub starts_with_space : String → Bool
starts_with_space String.[] = false
starts_with_space (String.◌∷◌ c s) = is_space c

abbrev pub ends_with_space : String → Bool
ends_with_space String.[] = false
ends_with_space (String.◌∷◌ c s) = if str_eq s String.[] then is_space c else ends_with_space s

-- The bytes of a code point in UTF-8
abbrev pub utf8_length : Char → ℕ
utf8_length c =
    let n = code c in
    if ltb n 128 then 1 else if ltb n 2048 then 2 else if ltb n 65536 then 3 else 4

-- `Buffer.byteLength(s)`
abbrev pub byte_length : String → ℕ
byte_length String.[] = 0
byte_length (String.◌∷◌ c s) = utf8_length c + byte_length s

-- `s.startsWith(p)`
abbrev pub starts_with : String → String → Bool
starts_with String.[] s = true
starts_with (String.◌∷◌ c p) String.[] = false
starts_with (String.◌∷◌ c p) (String.◌∷◌ d s) = code c == code d && starts_with p s

-- A character before the first of some parts
abbrev pub onto_first : Char → List String → List String
onto_first c [] = String.◌∷◌ c String.[] ∷ []
onto_first c (p ∷ ps) = String.◌∷◌ c p ∷ ps

-- `s.split('.')`
abbrev pub split_dots : String → List String
split_dots String.[] = String.[] ∷ []
split_dots (String.◌∷◌ c s) =
    if code c == b'.' then String.[] ∷ split_dots s else onto_first c (split_dots s)

-- `s.includes(p)`
abbrev pub includes : String → String → Bool
includes p String.[] = starts_with p String.[]
includes p (String.◌∷◌ c s) = starts_with p (String.◌∷◌ c s) || includes p s
