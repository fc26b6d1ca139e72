-- ===== src/Order/Service.antt =====
-- services/order/internal/service/order.go: the use case CreateOrder.
--
-- The three lookups of `resolve` run in parallel. A `Schedule` is the order in which they end. A
-- lookup is told whether its context is cancelled: by the caller, or since an earlier one failed.
pub mod Laws
pub mod Stored
pub mod Place
use delivery_backend.Base.{
  ℕ, suc, String, Bool, true, false, ◌||◌, Option, none, some, List, [], ◌∷◌, map, ◌==◌,
  if◌then◌else◌,
}
use delivery_backend.Base.Int.{ℤ}
use delivery_backend.Errors.{Err, nil, to_err, Result, success, failure, ◌>>=◌}
use delivery_backend.AppErr.Code.{code_not_found, code_invalid_argument}
use delivery_backend.AppErr.Value.{new, wrap}
use delivery_backend.Postgres.{Store, Commit, and_then, within_tx}
use delivery_backend.Order.Domain.{
  User, Address, Product, OrderItem, Order, OutboxEvent, err_product_not_found, new_order,
}
use delivery_backend.Order.Event.{OrderCreatedPayload, order_created}
use delivery_backend.Order.Repo.{OrderDb, Database, create, save}

pub record CreateOrderItemInput : Type 0 where
  pub product_id : String
  pub quantity : ℤ

pub record CreateOrderInput : Type 0 where
  pub user_id : String
  pub address_id : String
  pub items : List CreateOrderItemInput

-- UserProvider and ProductProvider; the first argument says whether the context is cancelled.
pub record Providers : Type 0 where
  pub get_user : Bool → String → Result User
  pub get_address : Bool → String → Result Address
  pub get_products : Bool → List String → Result (List Product)

pub data Lookup : Type 0 where
  user_lookup address_lookup catalog_lookup : Lookup

pub data Schedule : Type 0 where
  user_address_catalog user_catalog_address address_user_catalog address_catalog_user
        catalog_user_address catalog_address_user :
      Schedule

abbrev pub lookups : Schedule → List Lookup
lookups user_address_catalog = user_lookup ∷ address_lookup ∷ catalog_lookup ∷ []
lookups user_catalog_address = user_lookup ∷ catalog_lookup ∷ address_lookup ∷ []
lookups address_user_catalog = address_lookup ∷ user_lookup ∷ catalog_lookup ∷ []
lookups address_catalog_user = address_lookup ∷ catalog_lookup ∷ user_lookup ∷ []
lookups catalog_user_address = catalog_lookup ∷ user_lookup ∷ address_lookup ∷ []
lookups catalog_address_user = catalog_lookup ∷ address_lookup ∷ user_lookup ∷ []

-- The error group and the two variables that the lookups fill.
pub record Group : Type 0 where
  pub first_error : Option Err
  pub addr : Option Address
  pub catalog : Option (List Product)

-- The first error stays, and cancels the group's context.
abbrev pub fail : Err → Group → Group
fail err g = elim g.first_error [ none ↦ record g { first_error = some err } | some e ↦ g ]

abbrev pub is_failed : Group → Bool
is_failed g = elim g.first_error [ none ↦ false | some e ↦ true ]

abbrev pub product_ids : CreateOrderInput → List String
product_ids input = map (λ i. i.product_id) input.items

module _ (p : Providers) (input : CreateOrderInput) (cancelled : Bool) where
  -- One goroutine ends, with the context as it is then.
  unfoldable pub end_lookup : Group → Lookup → Group
  end_lookup g user_lookup = elim (p.get_user (cancelled || is_failed g) input.user_id) [
    | success u ↦ g
    | failure err ↦ fail err g
  ]
  end_lookup g address_lookup = elim (p.get_address (cancelled || is_failed g) input.address_id) [
    | success a ↦ record g { addr = some a }
    | failure err ↦ fail err g
  ]
  end_lookup g catalog_lookup =
      elim (p.get_products (cancelled || is_failed g) (product_ids input)) [
        | success c ↦ record g { catalog = some c }
        | failure err ↦ fail err g
      ]

  unfoldable pub end_lookups : Group → List Lookup → Group
  end_lookups g [] = g
  end_lookups g (l ∷ ls) = end_lookups (end_lookup g l) ls

  unfoldable pub wait : Group → Result (Option Address × Option (List Product))
  wait g = elim g.first_error [ none ↦ success (g.addr, g.catalog) | some err ↦ failure err ]

  unfoldable pub resolve : Schedule → Result (Option Address × Option (List Product))
  resolve s =
      wait (end_lookups (record { first_error = none; addr = none; catalog = none }) (lookups s))

-- The catalog as a map: the last product with an identifier is the one found.
abbrev pub Catalog : Type 0
Catalog = String → Option Product

abbrev pub put : Catalog → Product → Catalog
put m p k = if p.id == k then some p else m k

unfoldable pub by_id : Catalog → List Product → Catalog
by_id m [] = m
by_id m (p ∷ ps) = by_id (put m p) ps

abbrev pub order_item : CreateOrderItemInput → Product → OrderItem
order_item i p = record {
  id = "";
  order_id = "";
  product_id = p.id;
  product_name = p.name;
  quantity = i.quantity;
  unit_price = p.price;
}

abbrev pub product_not_found : Err
product_not_found = to_err (wrap err_product_not_found (new code_not_found))

unfoldable pub make_items : Catalog → List CreateOrderItemInput → Result (List OrderItem)
make_items m [] = success []
make_items m (i ∷ is) =
    let rest : Result (List OrderItem) = make_items m is in
    elim (m i.product_id) [
      | none ↦ failure product_not_found
      | some p ↦ rest >>= λ items. success (order_item i p ∷ items)
    ]

abbrev pub or_empty : Option (List Product) → List Product
or_empty none = []
or_empty (some ps) = ps

abbrev pub address_text : Option Address → String
address_text none = ""
address_text (some a) = a.address

-- What the use case works with: its dependencies, the clock, the identifiers that uuid.NewV7
-- returns, the trace headers, and how the transaction's Begin and Commit end.
pub record Env : Type 0 where
  pub providers : Providers
  pub schedule : Schedule
  pub cancelled : Bool
  pub database : Database
  pub ids : ℕ → String
  pub now : ℕ
  pub position : ℕ → String → String
  pub marshal : OrderCreatedPayload → Result String
  pub carrier : List (String × String)
  pub begin : Err
  pub commit : Commit

module _ (env : Env) where
  -- The function that CreateOrder runs in a transaction.
  abbrev pub save_order : Order → OutboxEvent → Store OrderDb → Err × Store OrderDb
  save_order o e = and_then (create env.database o) (save env.database env.carrier e)

  -- The result of the transaction, as the use case returns it.
  abbrev pub answer : Order → Err × Store OrderDb → Result Order × Store OrderDb
  answer o (nil, st) = (success o, st)
  answer o (err, st) = (failure err, st)

  unfoldable pub publish : Order → Result OutboxEvent → Store OrderDb → Result Order × Store OrderDb
  publish o (failure err) st = (failure err, st)
  publish o (success e) st = answer o (within_tx env.begin env.commit (save_order o e) st)

  -- CreateOrder from the order on: `n` is the number of the identifier that the event draws.
  unfoldable pub place : Result Order × ℕ → Store OrderDb → Result Order × Store OrderDb
  place (failure err, n) st = (failure (to_err (wrap err (new code_invalid_argument))), st)
  place (success o, n) st = publish o (order_created env.position env.marshal (env.ids n) o) st

  -- After the items: NewOrder and what follows.
  abbrev pub with_items :
      ℕ
      → CreateOrderInput
      → Option Address
      → Store OrderDb
      → Result (List OrderItem)
      → Result Order × Store OrderDb
  with_items n input addr st (failure err) = (failure err, st)
  with_items n input addr st (success items) =
      place (new_order env.ids env.now n input.user_id (address_text addr) items) st

  -- After the lookups: the catalog and the items.
  abbrev pub with_lookups :
      ℕ
      → CreateOrderInput
      → Store OrderDb
      → Result (Option Address × Option (List Product))
      → Result Order × Store OrderDb
  with_lookups n input st (failure err) = (failure err, st)
  with_lookups n input st (success (addr, catalog)) =
      with_items n input addr st (make_items (by_id (λ k. none) (or_empty catalog)) input.items)

  -- CreateOrder. `n` is the number of the next identifier.
  unfoldable pub create_order : ℕ → CreateOrderInput → Store OrderDb → Result Order × Store OrderDb
  create_order n input st =
      with_lookups n input st (resolve env.providers input env.cancelled env.schedule)
