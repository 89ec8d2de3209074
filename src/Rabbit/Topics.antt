-- ===== src/Rabbit/Topics.antt =====
-- Topic patterns of the RabbitMQ subscriber, `topicMatches` of
-- libs/cap-transport-rabbitmq/src/rabbitmq-subscriber.ts, against the meaning of a pattern: `*` stands for one
-- word and `#` for any number of words.
use cap_nodejs.Prelude.{
  String, Bool, true, false, not, ◌&&◌, List, [], ◌∷◌, ◌≡◌, refl, ◌↔◌, inl, inr, arith, str_eq,
  eq_iff, if◌then◌else◌, Bool-cases, subst, sym,
}
use cap_nodejs.Text.{split_dots}

abbrev pub is_empty : List String → Bool
is_empty [] = true
is_empty (t ∷ ts) = false

-- The loop of `match` for `#`: some suffix of the words passes.
unfoldable pub some_suffix : (List String → Bool) → List String → Bool
some_suffix p [] = p []
some_suffix p (t ∷ ts) = if p (t ∷ ts) then true else some_suffix p ts

abbrev pub first_passes : String → (List String → Bool) → List String → Bool
first_passes part rest [] = false
first_passes part rest (t ∷ ts) =
    if not (str_eq part "*") && not (str_eq part t) then false else rest ts

-- `match`, on the parts and the words that are left
unfoldable pub match_parts : List String → List String → Bool
unfolding some_suffix
match_parts [] ts = is_empty ts
match_parts (part ∷ parts) ts =
    if str_eq part "#"
    then some_suffix (match_parts parts) ts
    else first_passes part (match_parts parts) ts

-- `topicMatches`
unfoldable pub topic_matches : String → String → Bool
unfolding match_parts
topic_matches pattern topic = match_parts (split_dots pattern) (split_dots topic)

pub data Matches : List String → List String → Type 0 where
  ends : Matches [] []
  word : {p t : String} {ps ts : List String} → p ≡ t → Matches ps ts → Matches (p ∷ ps) (t ∷ ts)
  star : {t : String} {ps ts : List String} → Matches ps ts → Matches ("*" ∷ ps) (t ∷ ts)
  hash_none : {ps ts : List String} → Matches ps ts → Matches ("#" ∷ ps) ts
  hash_more :
      {t : String} {ps ts : List String} → Matches ("#" ∷ ps) ts → Matches ("#" ∷ ps) (t ∷ ts)

some_suffix-Matches :
    (ps ts : List String)
    → ((us : List String) → match_parts ps us ≡ true → Matches ps us)
    → some_suffix (match_parts ps) ts ≡ true
    → Matches ("#" ∷ ps) ts
unfolding some_suffix
some_suffix-Matches ps [] sound h = Matches.hash_none (sound [] h)
some_suffix-Matches ps (t ∷ ts) sound h = elim (Bool-cases (match_parts ps (t ∷ ts))) [
  | inl now ↦ Matches.hash_none (sound (t ∷ ts) now)
  | inr later ↦ Matches.hash_more (some_suffix-Matches ps ts sound (ground arith))
]

step-Matches :
    (p : String) (ps ts : List String)
    → ((us : List String) → match_parts ps us ≡ true → Matches ps us)
    → str_eq p "#" ≡ false
    → match_parts (p ∷ ps) ts ≡ true
    → Matches (p ∷ ps) ts
unfolding match_parts
step-Matches p ps [] sound plain h = absurd (ground arith)
step-Matches p ps (t ∷ ts) sound plain h = elim (Bool-cases (str_eq p "*")) [
  | inl any ↦
      subst (λ q. Matches (q ∷ ps) (t ∷ ts)) (sym ((eq_iff p "*").0 any))
        (Matches.star (sound ts (ground arith)))
  | inr exact ↦ Matches.word ((eq_iff p t).0 (ground (arith, h))) (sound ts (ground (arith, h)))
]

match_parts-Matches : (ps ts : List String) → match_parts ps ts ≡ true → Matches ps ts
unfolding match_parts
match_parts-Matches [] [] h = Matches.ends
match_parts-Matches [] (t ∷ ts) h = absurd (cc h)
match_parts-Matches (p ∷ ps) ts h = elim (Bool-cases (str_eq p "#")) [
  | inl many ↦
      subst (λ q. Matches (q ∷ ps) ts) (sym ((eq_iff p "#").0 many))
        (some_suffix-Matches ps ts (match_parts-Matches ps) (ground arith))
  | inr plain ↦ step-Matches p ps ts (match_parts-Matches ps) plain h
]

some_suffix_here :
    (q : List String → Bool) (ts : List String) → q ts ≡ true → some_suffix q ts ≡ true
unfolding some_suffix
some_suffix_here q [] h = h
some_suffix_here q (t ∷ ts) h = ground arith

Matches-match_parts : (ps ts : List String) → Matches ps ts → match_parts ps ts ≡ true
unfolding match_parts
Matches-match_parts [] [] ends = refl
Matches-match_parts [] (t ∷ ts) m = elim m [ ]
Matches-match_parts (p ∷ ps) (t ∷ ts) (word e m) =
    ground (arith, Matches-match_parts ps ts m, some_suffix_here (match_parts ps) ts, eq_iff p t)
Matches-match_parts (p ∷ ps) (t ∷ ts) (star m) = Matches-match_parts ps ts m
Matches-match_parts (p ∷ ps) ts (hash_none m) =
    some_suffix_here (match_parts ps) ts (Matches-match_parts ps ts m)
Matches-match_parts (p ∷ ps) (t ∷ ts) (hash_more m) =
    ground (arith, Matches-match_parts (p ∷ ps) ts m)

-- A topic passes a subscription's pattern exactly if its words are those of the pattern, where a `*` stands for
-- one word and a `#` for any number of words, none included.
pub topic_matches-iff-Matches :
    (pattern topic : String)
    → (topic_matches pattern topic ≡ true) ↔ Matches (split_dots pattern) (split_dots topic)
unfolding topic_matches
topic_matches-iff-Matches pattern topic = (
  match_parts-Matches (split_dots pattern) (split_dots topic),
  Matches-match_parts (split_dots pattern) (split_dots topic),
)
