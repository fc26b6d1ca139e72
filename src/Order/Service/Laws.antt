-- ===== src/Order/Service/Laws.antt =====
-- services/order/internal/service/order.go: what the lookups and the catalog give CreateOrder.
use delivery_backend.Base.{
  String, ◌≡◌, refl, ◌∙◌, inl, inr, Bool, true, false, Option, none, some, List, [], ◌∷◌, ◌++◌,
  subst, arith, ◌==◌, if◌then◌else◌, Option-cases,
}
use delivery_backend.Errors.{
  Err, Result, success, failure, success_injective, Result-cases, first_some,
}
use delivery_backend.Order.Domain.{User, Address, Product, OrderItem}
use delivery_backend.Order.Service.{
  CreateOrderItemInput, CreateOrderInput, Providers, Lookup, user_lookup, address_lookup,
  catalog_lookup, Schedule, user_address_catalog, lookups, Group, product_ids, end_lookup,
  end_lookups, wait, resolve, Catalog, put, by_id, order_item, make_items, product_not_found,
}

module _ (p : Providers) (input : CreateOrderInput) where
  -- If the three lookups succeed, the order in which they end does not matter.
  pub resolve_independent :
      (cancelled : Bool) (u : User) (a : Address) (ps : List Product)
      → p.get_user cancelled input.user_id ≡ success u
      → p.get_address cancelled input.address_id ≡ success a
      → p.get_products cancelled (product_ids input) ≡ success ps
      → (s : Schedule) → resolve p input cancelled s ≡ success (some a, some ps)
  unfolding resolve end_lookups end_lookup wait
  resolve_independent true u a ps hu ha hp user_address_catalog = ground arith
  resolve_independent true u a ps hu ha hp _ = ground arith
  resolve_independent false u a ps hu ha hp user_address_catalog = ground arith
  resolve_independent false u a ps hu ha hp _ = ground arith

abbrev pub error_of {ℓ} : {A : Type ℓ} → Result A → Option Err
error_of (success a) = none
error_of (failure err) = some err

module _ (p : Providers) (input : CreateOrderInput) where
  -- The error of one lookup in a context that is cancelled or not.
  pub lookup_error : Bool → Lookup → Option Err
  lookup_error b user_lookup = error_of (p.get_user b input.user_id)
  lookup_error b address_lookup = error_of (p.get_address b input.address_id)
  lookup_error b catalog_lookup = error_of (p.get_products b (product_ids input))

  -- The first error in the order of the list, where every lookup sees the caller's context only.
  pub first_failure : Bool → List Lookup → Option Err
  first_failure b [] = none
  first_failure b (l ∷ ls) = first_some (lookup_error b l) (first_failure b ls)

  module _ (cancelled : Bool) where
    end_lookup-kept :
        (g : Group) (l : Lookup) (e : Err)
        → g.first_error ≡ some e
        → (end_lookup p input cancelled g l).first_error ≡ some e
    unfolding end_lookup
    end_lookup-kept g user_lookup e h = ground arith
    end_lookup-kept g _ e h = ground arith

    end_lookup-first :
        (g : Group) (l : Lookup)
        → g.first_error ≡ none
        → (end_lookup p input cancelled g l).first_error ≡ lookup_error cancelled l
    unfolding end_lookup lookup_error
    end_lookup-first g user_lookup h = ground arith
    end_lookup-first g _ h = ground arith

    end_lookups-kept :
        (g : Group) (ls : List Lookup) (e : Err)
        → g.first_error ≡ some e
        → (end_lookups p input cancelled g ls).first_error ≡ some e
    unfolding end_lookups
    end_lookups-kept g [] e h = h
    end_lookups-kept g (l ∷ ls) e h =
        end_lookups-kept (end_lookup p input cancelled g l) ls e (end_lookup-kept g l e h)

    end_lookups-first :
        (g : Group) (ls : List Lookup)
        → g.first_error ≡ none
        → (end_lookups p input cancelled g ls).first_error ≡ first_failure cancelled ls
    unfolding end_lookups first_failure
    end_lookups-first g [] h = h
    end_lookups-first g (l ∷ ls) h = elim (Option-cases (lookup_error cancelled l)) [
      | inl good ↦
          rw good (
            end_lookups-first (end_lookup p input cancelled g l) ls (end_lookup-first g l h ∙ good))
      | inr (e, bad) ↦
          rw bad (
            end_lookups-kept (end_lookup p input cancelled g l) ls e (end_lookup-first g l h ∙ bad))
    ]

    wait-error : (g : Group) → error_of (wait p input cancelled g) ≡ g.first_error
    unfolding wait
    wait-error g = ground arith

  -- The error that `resolve` returns, if any, is that of the first lookup to fail, in the order in
  -- which they end: what the lookups answer to the cancellation that it causes is never returned.
  pub error_of-resolve :
      (cancelled : Bool) (s : Schedule)
      → error_of (resolve p input cancelled s) ≡ first_failure cancelled (lookups s)
  unfolding resolve
  error_of-resolve cancelled s =
      wait-error cancelled _ ∙ end_lookups-first cancelled _ (lookups s) refl

-- The product that the catalog gives for an identifier, as the last one in the list.
abbrev pub last_product : String → List Product → Option Product
last_product k [] = none
last_product k (p ∷ ps) = first_some (last_product k ps) (if p.id == k then some p else none)

by_id-put :
    (m : Catalog) (k : String) (ps : List Product)
    → by_id m ps k ≡ first_some (last_product k ps) (m k)
unfolding by_id
by_id-put m k [] = refl
by_id-put m k (p ∷ ps) = by_id-put (put m p) k ps ∙ merge (last_product k ps)
  where
    merge :
        (o : Option Product)
        → first_some o (put m p k)
          ≡ first_some (first_some o (if p.id == k then some p else none)) (m k)
    merge none = ground arith
    merge (some q) = refl

-- The map that CreateOrder builds holds, for each identifier, the last product that has it.
pub by_id-last : (k : String) (ps : List Product) → by_id (λ j. none) ps k ≡ last_product k ps
by_id-last k ps = by_id-put _ k ps ∙ none_right (last_product k ps)
  where
    none_right : (o : Option Product) → first_some o none ≡ o
    none_right none = refl
    none_right (some q) = refl

-- `items` answers `inputs` position by position, from the catalog `m`.
pub data Answers (m : Catalog) : List CreateOrderItemInput → List OrderItem → Type 0 where
  end : Answers m [] []
  position :
      {is : List CreateOrderItemInput} {items : List OrderItem} (i : CreateOrderItemInput)
      (p : Product)
      → m i.product_id ≡ some p
      → Answers m is items
      → Answers m (i ∷ is) (order_item i p ∷ items)

-- If the items are made, there is one for each input, in the same order, with the quantity asked
-- for and the identifier, name and price of the product found for it.
pub make_items-Answers :
    (m : Catalog) (is : List CreateOrderItemInput) (items : List OrderItem)
    → make_items m is ≡ success items
    → Answers m is items
unfolding make_items
make_items-Answers m [] items h = subst (Answers m []) (success_injective h) end
make_items-Answers m (i ∷ is) items h = elim (Option-cases (m i.product_id)) [
  | inl missing ↦ absurd (cc (rw (missing, make_items) at h))
  | inr (p, found) ↦ elim (Result-cases (make_items m is)) [
    | inl (rest, done) ↦
        subst (Answers m (i ∷ is)) (success_injective (rw done at (rw (found, make_items) at h)))
          (position i p found (make_items-Answers m is rest done))
    | inr (err, failed) ↦ absurd (cc (rw failed at (rw (found, make_items) at h)))
  ]
]

-- A position whose product is missing fails the order with `NOT_FOUND`.
pub make_items_missing :
    (m : Catalog) (before : List CreateOrderItemInput) (i : CreateOrderItemInput)
    (after : List CreateOrderItemInput)
    → m i.product_id ≡ none
    → make_items m (before ++ i ∷ after) ≡ failure product_not_found
unfolding make_items
make_items_missing m [] i after h = rw h refl
make_items_missing m (j ∷ before) i after h = ground (arith, make_items_missing m before i after h)
