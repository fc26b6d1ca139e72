-- ===== src/Kafka/Message.antt =====
-- platform/kafka/kafkaconsumer/message.go: a record as the message that a handler gets.
use delivery_backend.Base.{
  ℕ, String, ◌≡◌, refl, Bool, true, false, Option, none, some, List, [], ◌∷◌, ◌++◌, arith, ◌==◌,
  ◌||◌, eq_iff, if◌then◌else◌, Bool-cases, inl, inr, ap, ◌∙◌,
}
use delivery_backend.Errors.{first_some}

-- kgo.Record, as far as the program reads it. Partitions, offsets and epochs are not negative.
pub record Record : Type 0 where
  pub topic : String
  pub partition : ℕ
  pub offset : ℕ
  pub leader_epoch : ℕ
  pub key : String
  pub value : String
  pub headers : List (String × String)

pub record Message : Type 0 where
  pub topic : String
  pub partition : ℕ
  pub offset : ℕ
  pub key : String
  pub value : String
  pub headers : List (String × String)

abbrev pub has_key : String → List (String × String) → Bool
has_key k [] = false
has_key k ((j, v) ∷ m) = j == k || has_key k m

-- m[k] as a Go map of strings, with whether the key is there.
abbrev pub lookup : String → List (String × String) → Option String
lookup k [] = none
lookup k ((j, v) ∷ m) = if j == k then some v else lookup k m

-- The loop over the headers: of headers with one key, the first is kept.
unfoldable pub collect : List (String × String) → List (String × String) → List (String × String)
collect m [] = m
collect m ((k, v) ∷ hs) = collect (if has_key k m then m else m ++ (k, v) ∷ []) hs

unfoldable pub to_message : Record → Message
to_message r = record {
  topic = r.topic;
  partition = r.partition;
  offset = r.offset;
  key = r.key;
  value = r.value;
  headers = collect [] r.headers;
}

module _ (k : String) where
  abbrev header : String → String → Option String
  header j v = if j == k then some v else none

  lookup-snoc :
      (j v : String) (m : List (String × String))
      → lookup k (m ++ (j, v) ∷ []) ≡ first_some (lookup k m) (header j v)
  lookup-snoc j v [] = refl
  lookup-snoc j v ((i, w) ∷ m) = ground (arith, lookup-snoc j v m)

  lookup-has_key :
      (j v : String) (m : List (String × String))
      → has_key j m ≡ true
      → lookup k m ≡ first_some (lookup k m) (header j v)
  lookup-has_key j v [] h = absurd (cc h)
  lookup-has_key j v ((i, w) ∷ m) h =
      ground (arith, lookup-has_key j v m, eq_iff i j, eq_iff i k, eq_iff j k)

  lookup-kept :
      (j v : String) (m : List (String × String))
      → lookup k (if has_key j m then m else m ++ (j, v) ∷ [])
        ≡ first_some (lookup k m) (header j v)
  lookup-kept j v m = elim (Bool-cases (has_key j m)) [
    | inl old ↦ rw old (lookup-has_key j v m old)
    | inr new ↦ rw new (lookup-snoc j v m)
  ]

  first_some-header :
      (o : Option String) (j v : String) (rest : Option String)
      → first_some (first_some o (header j v)) rest ≡ first_some o (if j == k then some v else rest)
  first_some-header none j v rest = ground arith
  first_some-header (some w) j v rest = refl

  first_some-none : (o : Option String) → o ≡ first_some o none
  first_some-none none = refl
  first_some-none (some w) = refl

  lookup-collect :
      (m hs : List (String × String))
      → lookup k (collect m hs) ≡ first_some (lookup k m) (lookup k hs)
  unfolding collect
  lookup-collect m [] = first_some-none (lookup k m)
  lookup-collect m ((j, v) ∷ hs) =
      lookup-collect (if has_key j m then m else m ++ (j, v) ∷ []) hs
      ∙ ap (λ o. first_some o (lookup k hs)) (lookup-kept j v m)
      ∙ first_some-header (lookup k m) j v (lookup k hs)

  -- The message has, for each key, the value of the first header with that key.
  pub lookup-to_message : (r : Record) → lookup k (to_message r).headers ≡ lookup k r.headers
  unfolding to_message
  lookup-to_message r = lookup-collect [] r.headers
