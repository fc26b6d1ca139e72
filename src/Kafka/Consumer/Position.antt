-- ===== src/Kafka/Consumer/Position.antt =====
-- platform/kafka/kafkaconsumer/kafkaconsumer.go: what a partition has yet to bring after a poll.
--
-- The client's position in a partition is kept as the records of the partition that it has yet to
-- return; after SetOffsets these are the ones from the offset that was set.
use delivery_backend.Base.{
  ℕ, String, ◌≡◌, refl, ap, ◌<◌, ◌≤◌, false, Option, none, some, List, [], ◌∷◌, ◌++◌, arith, ltb,
  if◌then◌else◌, Bool-cases, inl, inr, All,
}
use delivery_backend.Kafka.Message.{Record}
use delivery_backend.Kafka.Consumer.Process.{
  of_partition, below, below-none, settled, Ascending, IsIn,
}

-- The records from an offset on.
abbrev pub from : ℕ → List Record → List Record
from n [] = []
from n (r ∷ rs) = if ltb r.offset n then from n rs else r ∷ from n rs

-- What is left of the partition after a poll that returned `ps` before `rest`.
abbrev pub resume : Option ℕ → List Record → List Record → List Record
resume none ps rest = rest
resume (some n) ps rest = from n (ps ++ rest)

abbrev pub Precedes : Option ℕ → List Record → Type 0
Precedes none rest = Unit
Precedes (some n) rest = All (λ x. n < x.offset) rest

from_above : (n : ℕ) (rs : List Record) → All (λ x. n < x.offset) rs → from n rs ≡ rs
from_above n [] h = refl
from_above n (r ∷ rs) h = ground (arith, from_above n rs h.1, h.0)

pub All-right :
    (n : ℕ) (xs ys : List Record) → All (λ x. n < x.offset) (xs ++ ys) → All (λ x. n < x.offset) ys
All-right n [] ys h = h
All-right n (x ∷ xs) ys h = All-right n xs ys h.1

All-left :
    (n : ℕ) (xs ys : List Record) → All (λ x. n < x.offset) (xs ++ ys) → All (λ x. n < x.offset) xs
All-left n [] ys h = tt
All-left n (x ∷ xs) ys h = (h.0, All-left n xs ys h.1)

not_ltb→le : (a b : ℕ) → ltb a b ≡ false → b ≤ a
not_ltb→le a b h = ground arith

All-raise :
    (n m : ℕ) (xs : List Record) → n ≤ m → All (λ x. m < x.offset) xs → All (λ x. n < x.offset) xs
All-raise n m [] le h = tt
All-raise n m (x ∷ xs) le h = (omega (arith, h.0), All-raise n m xs le h.1)

below_from :
    (n : ℕ) (ps rest : List Record)
    → Ascending (ps ++ rest)
    → All (λ x. n < x.offset) rest
    → below n ps ++ from n (ps ++ rest) ≡ ps ++ rest
below_from n [] rest up after = from_above n rest after
below_from n (p ∷ ps) rest up after = elim (Bool-cases (ltb p.offset n)) [
  | inl lower ↦ rw lower (ap (λ l. p ∷ l) (below_from n ps rest up.1 after))
  | inr upper ↦
      let above = All-raise n p.offset (ps ++ rest) (not_ltb→le p.offset n upper) up.0 in
      rw (upper, below-none n ps (All-left n ps rest above))
        (ap (λ l. p ∷ l) (from_above n (ps ++ rest) above))
]

pub settled-resume :
    (w : Option ℕ) (ps rest : List Record)
    → Ascending (ps ++ rest)
    → Precedes w rest
    → settled w ps ++ resume w ps rest ≡ ps ++ rest
settled-resume none ps rest up after = refl
settled-resume (some n) ps rest up after = below_from n ps rest up after

Ascending-right : (xs ys : List Record) → Ascending (xs ++ ys) → Ascending ys
Ascending-right [] ys h = h
Ascending-right (x ∷ xs) ys h = Ascending-right xs ys h.1

pub Ascending-left : (xs ys : List Record) → Ascending (xs ++ ys) → Ascending xs
Ascending-left [] ys h = tt
Ascending-left (x ∷ xs) ys h = (All-left x.offset xs ys h.0, Ascending-left xs ys h.1)

from-Above :
    (m n : ℕ) (rs : List Record) → All (λ x. m < x.offset) rs → All (λ x. m < x.offset) (from n rs)
from-Above m n [] h = tt
from-Above m n (r ∷ rs) h = elim (Bool-cases (ltb r.offset n)) [
  | inl lower ↦ rw lower (from-Above m n rs h.1)
  | inr upper ↦ rw upper (h.0, from-Above m n rs h.1)
]

from-Ascending : (n : ℕ) (rs : List Record) → Ascending rs → Ascending (from n rs)
from-Ascending n [] h = tt
from-Ascending n (r ∷ rs) h = elim (Bool-cases (ltb r.offset n)) [
  | inl lower ↦ rw lower (from-Ascending n rs h.1)
  | inr upper ↦ rw upper (from-Above r.offset n rs h.0, from-Ascending n rs h.1)
]

module _ (t : String) (q : ℕ) where
  pub of_partition-append :
      (xs ys : List Record)
      → of_partition t q (xs ++ ys) ≡ of_partition t q xs ++ of_partition t q ys
  of_partition-append [] ys = refl
  of_partition-append (x ∷ xs) ys = ground (arith, of_partition-append xs ys)

  pub AllIn-left : (xs ys : List Record) → All (IsIn t q) (xs ++ ys) → All (IsIn t q) xs
  AllIn-left [] ys h = tt
  AllIn-left (x ∷ xs) ys h = (h.0, AllIn-left xs ys h.1)

  AllIn-right : (xs ys : List Record) → All (IsIn t q) (xs ++ ys) → All (IsIn t q) ys
  AllIn-right [] ys h = h
  AllIn-right (x ∷ xs) ys h = AllIn-right xs ys h.1

  from-AllIn : (n : ℕ) (rs : List Record) → All (IsIn t q) rs → All (IsIn t q) (from n rs)
  from-AllIn n [] h = tt
  from-AllIn n (r ∷ rs) h = elim (Bool-cases (ltb r.offset n)) [
    | inl lower ↦ rw lower (from-AllIn n rs h.1)
    | inr upper ↦ rw upper (h.0, from-AllIn n rs h.1)
  ]

  -- A partition's records, all of them in it and with ascending offsets.
  abbrev pub IsLog : List Record → Type 0
  IsLog rs = All (IsIn t q) rs × Ascending rs

  pub resume-IsLog :
      (w : Option ℕ) (ps rest : List Record) → IsLog (ps ++ rest) → IsLog (resume w ps rest)
  resume-IsLog none ps rest h = (AllIn-right ps rest h.0, Ascending-right ps rest h.1)
  resume-IsLog (some n) ps rest h =
      (from-AllIn n (ps ++ rest) h.0, from-Ascending n (ps ++ rest) h.1)
