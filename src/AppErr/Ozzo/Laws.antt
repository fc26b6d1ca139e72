-- ===== src/AppErr/Ozzo/Laws.antt =====
-- platform/apperr/ozzoerr/ozzoerr.go: the order of a Go map does not show.
use delivery_backend.Base.{
  String, ◌≡◌, ◌≢◌, refl, ap, ◌∙◌, inl, inr, Bool, true, false, not, Bool-cases, List, [], ◌∷◌,
  if◌then◌else◌,
}
use delivery_backend.Errors.{Err, field}
use delivery_backend.AppErr.Ozzo.{Group, ungroup, insert, path, groups, flatten}

-- The same maps, with their entries, and those of the maps in them, in any order.
pub data Reordered : Err → Err → Type 0 where
  same : {e : Err} → Reordered e e
  swapped :
      {k k' : String} {e e' rest : Err}
      → k ≢ k'
      → Reordered (field k e (field k' e' rest)) (field k' e' (field k e rest))
  below :
      {k : String} {e e' rest : Err} → Reordered e e' → Reordered (field k e rest) (field k e' rest)
  after :
      {k : String} {e rest rest' : Err}
      → Reordered rest rest'
      → Reordered (field k e rest) (field k e rest')
  then_again : {a b c : Err} → Reordered a b → Reordered b c → Reordered a c

-- `precedes` is a strict order in which any two strings compare, as that of sort.Strings.
module _ (precedes : String → String → Bool)
    (compares : (a b : String) → a ≢ b → precedes a b ≡ not (precedes b a))
    (transitive : (a b c : String)
      → precedes a b ≡ true
      → precedes b c ≡ true
      → precedes a c ≡ true) where
  abbrev ins : Group → List Group → List Group
  ins = insert precedes

  insert_two :
      (g h : Group) (rest : List Group)
      → g.key ≢ h.key
      → (if precedes g.key h.key then g ∷ (h ∷ rest) else h ∷ (g ∷ rest))
        ≡ (if precedes h.key g.key then h ∷ (g ∷ rest) else g ∷ (h ∷ rest))
  insert_two g h rest n = elim (Bool-cases (precedes h.key g.key)) [
    | inl e ↦ rw (compares g.key h.key n, e) refl
    | inr e ↦ rw (compares g.key h.key n, e) refl
  ]

  -- Where h belongs before x and g does not, g comes after h.
  not_before : (a b c : String) → precedes b c ≡ true → precedes a c ≡ false → precedes a b ≡ false
  not_before a b c h n = elim (Bool-cases (precedes a b)) [
    | inl e ↦ absurd (cc (transitive a b c e h, n))
    | inr e ↦ e
  ]

  insert-insert :
      (g h : Group) (gs : List Group) → g.key ≢ h.key → ins g (ins h gs) ≡ ins h (ins g gs)
  insert-insert g h [] n = insert_two g h [] n
  insert-insert g h (x ∷ xs) n = elim (Bool-cases (precedes g.key x.key)) [
    | inl eg ↦ elim (Bool-cases (precedes h.key x.key)) [
      | inl eh ↦ rw (eg, eh) (rw eg (insert_two g h (x ∷ xs) n))
      | inr eh ↦ rw (eg, eh, not_before h.key g.key x.key eg eh) (rw eg refl)
    ]
    | inr eg ↦ elim (Bool-cases (precedes h.key x.key)) [
      | inl eh ↦ rw (eg, eh, not_before g.key h.key x.key eh eg) (rw eg refl)
      | inr eh ↦ rw (eg, eh) (rw eg (ap (λ l. x ∷ l) (insert-insert g h xs n)))
    ]
  ]

  module _ (text : Err → String) where
    groups-Reordered :
        (prefix : String) {e e' : Err}
        → Reordered e e'
        → groups precedes text prefix e ≡ groups precedes text prefix e'
    unfolding groups
    groups-Reordered prefix same = refl
    groups-Reordered prefix (swapped n) = insert-insert _ _ _ n
    groups-Reordered prefix (below {k} {rest = rest} r) =
        ap
          (λ gs.
            ins (record { key = k; violations = ungroup gs }) (groups precedes text prefix rest))
          (groups-Reordered (path precedes prefix k) r)
    groups-Reordered prefix (after {k} {e = e} r) =
        ap
          (λ gs.
            ins
              (record {
                key = k;
                violations = ungroup (groups precedes text (path precedes prefix k) e);
              })
              gs)
          (groups-Reordered prefix r)
    groups-Reordered prefix (then_again r s) = groups-Reordered prefix r ∙ groups-Reordered prefix s

    -- In whatever order the entries of the maps come, the violations and their order are the same;
    -- sort.Strings is assumed to sort by a strict order in which any two strings compare.
    pub flatten-Reordered :
        (prefix : String) {e e' : Err}
        → Reordered e e'
        → flatten precedes text prefix e ≡ flatten precedes text prefix e'
    unfolding flatten
    flatten-Reordered prefix r = ap ungroup (groups-Reordered prefix r)
