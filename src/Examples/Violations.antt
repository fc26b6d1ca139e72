-- ===== src/Examples/Violations.antt =====
-- The theorem on the order of violations, run with the order of strings by their bytes.
use Prim.Native.Char.{Char, code}
use text.Mathlib.TextEquality.{Char-path}
use delivery_backend.Base.{
  ℕ, ltb, eqb, arith, String, ◌≡◌, ◌≢◌, refl, ap, Bool, true, false, not, ◌&&◌, if◌then◌else◌, ◌==◌,
}
use delivery_backend.Errors.{Err, nil, foreign, field}
use delivery_backend.AppErr.Ozzo.{flatten}
use delivery_backend.AppErr.Ozzo.Laws.{swapped, flatten-Reordered}

-- sort.Strings
abbrev less : String → String → Bool
less String.[] String.[] = false
less String.[] (String.◌∷◌ d t) = true
less (String.◌∷◌ c s) String.[] = false
less (String.◌∷◌ c s) (String.◌∷◌ d t) =
    if ltb (code c) (code d) then true else eqb (code c) (code d) && less s t

cons_path : (c d : Char) (s t : String) → c ≡ d → s ≡ t → String.◌∷◌ c s ≡ String.◌∷◌ d t
cons_path c d s t e r = rw (e, r) refl

step_compares :
    (m n : ℕ) (a b : Bool)
    → (m ≡ n → a ≡ not b)
    → (if ltb m n then true else eqb m n && a) ≡ not (if ltb n m then true else eqb n m && b)
step_compares m n a b h = ground arith

less_compares : (a b : String) → a ≢ b → less a b ≡ not (less b a)
less_compares String.[] String.[] n = absurd (n refl)
less_compares String.[] (String.◌∷◌ d t) n = refl
less_compares (String.◌∷◌ c s) String.[] n = refl
less_compares (String.◌∷◌ c s) (String.◌∷◌ d t) n =
    step_compares (code c) (code d) (less s t) (less t s)
      (λ e. less_compares s t (λ r. n (cons_path c d s t (Char-path c d e) r)))

step_transitive :
    (k m n : ℕ) (a b c : Bool)
    → (a ≡ true → b ≡ true → c ≡ true)
    → (if ltb k m then true else eqb k m && a) ≡ true
    → (if ltb m n then true else eqb m n && b) ≡ true
    → (if ltb k n then true else eqb k n && c) ≡ true
step_transitive k m n a b c h x y = ground arith

less_transitive : (a b c : String) → less a b ≡ true → less b c ≡ true → less a c ≡ true
less_transitive String.[] String.[] c x y = absurd (cc x)
less_transitive String.[] (String.◌∷◌ d t) String.[] x y = absurd (cc y)
less_transitive String.[] (String.◌∷◌ d t) (String.◌∷◌ e u) x y = refl
less_transitive (String.◌∷◌ c s) String.[] e x y = absurd (cc x)
less_transitive (String.◌∷◌ c s) (String.◌∷◌ d t) String.[] x y = absurd (cc y)
less_transitive (String.◌∷◌ c s) (String.◌∷◌ d t) (String.◌∷◌ e u) x y =
    step_transitive (code c) (code d) (code e) (less s t) (less t u) (less s u)
      (less_transitive s t u) x y

abbrev say : Err → String
say e = "must not be blank"

abbrev items_key : String
items_key = "items"

abbrev one_way : Err
one_way = field items_key (foreign "empty") (field "address_id" (foreign "empty") nil)

abbrev the_other : Err
the_other = field "address_id" (foreign "empty") (field items_key (foreign "empty") nil)

distinct : true ≢ false
distinct h = absurd (cc h)

different : items_key ≢ "address_id"
different h = distinct (ap (λ s. s == items_key) h)

flatten-Reordered_example : flatten less say "" one_way ≡ flatten less say "" the_other
flatten-Reordered_example =
    flatten-Reordered less less_compares less_transitive say "" (swapped different)
