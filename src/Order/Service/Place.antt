-- ===== src/Order/Service/Place.antt =====
-- services/order/internal/service/order.go: an order is stored with its items and its event, or not
-- at all.
use delivery_backend.Base.{ℕ, ◌≡◌, refl, ◌∙◌, ap, subst, ◌⊎◌, inl, inr, Option, none, List}
use delivery_backend.Errors.{Err, nil, Result, success, failure}
use delivery_backend.Postgres.{Store, within_tx}
use delivery_backend.Postgres.Laws.{idle, IsCommit, within_tx_atomic, within_tx-nil}
use delivery_backend.Order.Domain.{Order, OutboxEvent, OrderItem, Address, Product}
use delivery_backend.Order.Event.{order_created}
use delivery_backend.Order.Event.Laws.{order_created-encoded}
use delivery_backend.Order.Domain.Laws.{IsNewOrder, new_order-IsNewOrder}
use delivery_backend.Order.Repo.{OrderDb}
use delivery_backend.Order.Service.{
  Env, resolve, make_items, by_id, or_empty, address_text, with_items, with_lookups, save_order,
  publish, place, create_order, CreateOrderInput,
}
use delivery_backend.Order.Service.Stored.{
  stored, IsStored, row_of-IsRowOf, body, body-nil, save_order-RunsAs, answer-success, answer-state,
}

module _ (env : Env) (c : OrderDb) where
  abbrev saved : Order → OutboxEvent → Err × Store OrderDb
  saved o e = within_tx env.begin env.commit (save_order env o e) (idle c)

  saved-nil :
      (o : Order) (e : OutboxEvent)
      → IsCommit env.commit
      → (saved o e).0 ≡ nil
      → (saved o e).1 ≡ idle (stored env o e c)
  saved-nil o e k h =
      let both =
        within_tx-nil env.begin env.commit (body env o e) (save_order-RunsAs env o e) k c h in
      both.1 ∙ ap idle (body-nil env o e c both.0)

  saved_atomic :
      (o : Order) (e : OutboxEvent)
      → ((saved o e).1 ≡ idle c) ⊎ ((saved o e).1 ≡ idle (stored env o e c))
  saved_atomic o e =
      elim (within_tx_atomic env.begin env.commit (body env o e) (save_order-RunsAs env o e) c) [
        | inl same ↦ inl same
        | inr (done, all) ↦ inr (all ∙ ap idle (body-nil env o e c done))
      ]

  -- An event in `r` was made for `o`, with an identifier that was drawn.
  abbrev IsMade : Order → Result OutboxEvent → Type 0
  IsMade o r =
      (e : OutboxEvent)
      → r ≡ success e
      → (k : ℕ) × (order_created env.position env.marshal (env.ids k) o ≡ success e)

  saved-IsStored :
      (o : Order) (e : OutboxEvent) (k : ℕ) (st : Store OrderDb)
      → order_created env.position env.marshal (env.ids k) o ≡ success e
      → st ≡ idle (stored env o e c)
      → IsStored env o c st
  saved-IsStored o e k st made tables = record {
    event = e;
    about =
        ap (λ (x : OutboxEvent). x.aggregate_id)
          (order_created-encoded env.position env.marshal (env.ids k) o e made).1.2;
    drawn = k;
    made = made;
    columns = row_of-IsRowOf o;
    tables = tables;
  }

  publish-success :
      (o o' : Order) (r : Result OutboxEvent)
      → IsMade o r
      → IsCommit env.commit
      → (publish env o r (idle c)).0 ≡ success o'
      → (o ≡ o') × IsStored env o c (publish env o r (idle c)).1
  unfolding publish
  publish-success o o' (failure err) made k h = absurd (cc h)
  publish-success o o' (success e) made k h =
      let facts = answer-success env o o' (saved o e) h in
      let (drawn, built) = made e refl in
      (facts.1, saved-IsStored o e drawn _ built (facts.2 ∙ saved-nil o e k facts.0))

  publish_atomic :
      (o : Order) (r : Result OutboxEvent)
      → IsMade o r
      → ((publish env o r (idle c)).1 ≡ idle c) ⊎ IsStored env o c (publish env o r (idle c)).1
  unfolding publish
  publish_atomic o (failure err) made = inl refl
  publish_atomic o (success e) made = elim (saved_atomic o e) [
    | inl same ↦ inl (answer-state env o (saved o e) ∙ same)
    | inr all ↦
        let (drawn, built) = made e refl in
        inr (saved-IsStored o e drawn _ built (answer-state env o (saved o e) ∙ all))
  ]

  place-success :
      (r : Result Order) (n : ℕ) (o : Order)
      → IsCommit env.commit
      → (place env (r, n) (idle c)).0 ≡ success o
      → (r ≡ success o) × IsStored env o c (place env (r, n) (idle c)).1
  unfolding place
  place-success (failure err) n o k h = absurd (cc h)
  place-success (success o') n o k h =
      let facts = publish-success o' o _ (λ e h. (n, h)) k h in
      (
        ap success facts.0,
        subst (λ x. IsStored env x c (place env (success o', n) (idle c)).1) facts.0 facts.1,
      )

  place_atomic :
      (r : Result Order) (n : ℕ)
      → ((place env (r, n) (idle c)).1 ≡ idle c)
        ⊎ ((o : Order) × (r ≡ success o) × IsStored env o c (place env (r, n) (idle c)).1)
  unfolding place
  place_atomic (failure err) n = inl refl
  place_atomic (success o) n = elim (publish_atomic o _ (λ e h. (n, h))) [
    | inl same ↦ inl same
    | inr all ↦ inr (o, refl, all)
  ]

  module _ (n : ℕ) (input : CreateOrderInput) where
    abbrev lookup_result : Result (Option Address × Option (List Product))
    lookup_result = resolve env.providers input env.cancelled env.schedule

    abbrev items_result : Option (List Product) → Result (List OrderItem)
    items_result catalog = make_items (by_id (λ k. none) (or_empty catalog)) input.items

    -- How CreateOrder comes to the order `o`: the lookups, the items and NewOrder succeed.
    pub record IsPlaced (o : Order) : Type 0 where
      pub addr : Option Address
      pub catalog : Option (List Product)
      pub items : List OrderItem
      pub found : lookup_result ≡ success (addr, catalog)
      pub known : items_result catalog ≡ success items
      pub built : IsNewOrder env.ids env.now n input.user_id (address_text addr) items o

    items_success :
        (addr : Option Address) (catalog : Option (List Product)) (r : Result (List OrderItem))
        (o : Order)
        → lookup_result ≡ success (addr, catalog)
        → items_result catalog ≡ r
        → IsCommit env.commit
        → (with_items env n input addr (idle c) r).0 ≡ success o
        → IsPlaced o × IsStored env o c (with_items env n input addr (idle c) r).1
    items_success addr catalog (failure err) o found known k h = absurd (cc h)
    items_success addr catalog (success items) o found known k h =
        let facts = place-success _ _ o k h in
        (
          record {
            addr = addr;
            catalog = catalog;
            items = items;
            found = found;
            known = known;
            built = new_order-IsNewOrder env.ids env.now n _ _ items o facts.0;
          },
          facts.1,
        )

    items_atomic :
        (addr : Option Address) (catalog : Option (List Product)) (r : Result (List OrderItem))
        → lookup_result ≡ success (addr, catalog)
        → items_result catalog ≡ r
        → let s = (with_items env n input addr (idle c) r).1 in
          (s ≡ idle c) ⊎ ((o : Order) × IsPlaced o × IsStored env o c s)
    items_atomic addr catalog (failure err) found known = inl refl
    items_atomic addr catalog (success items) found known = elim (place_atomic _ _) [
      | inl same ↦ inl same
      | inr (o, made, all) ↦ inr (
        o,
        record {
          addr = addr;
          catalog = catalog;
          items = items;
          found = found;
          known = known;
          built = new_order-IsNewOrder env.ids env.now n _ _ items o made;
        },
        all,
      )
    ]

    lookups_success :
        (r : Result (Option Address × Option (List Product))) (o : Order)
        → lookup_result ≡ r
        → IsCommit env.commit
        → (with_lookups env n input (idle c) r).0 ≡ success o
        → IsPlaced o × IsStored env o c (with_lookups env n input (idle c) r).1
    lookups_success (failure err) o found k h = absurd (cc h)
    lookups_success (success (addr, catalog)) o found k h =
        items_success addr catalog _ o found refl k h

    lookups_atomic :
        (r : Result (Option Address × Option (List Product)))
        → lookup_result ≡ r
        → let s = (with_lookups env n input (idle c) r).1 in
          (s ≡ idle c) ⊎ ((o : Order) × IsPlaced o × IsStored env o c s)
    lookups_atomic (failure err) found = inl refl
    lookups_atomic (success (addr, catalog)) found = items_atomic addr catalog _ found refl

  -- If CreateOrder returns an order, the lookups, the items and NewOrder made that order, and it is
  -- committed with exactly its row, its items and one event about it, after what the tables held.
  pub create_order-success :
      (n : ℕ) (input : CreateOrderInput) (o : Order)
      → IsCommit env.commit
      → (create_order env n input (idle c)).0 ≡ success o
      → IsPlaced n input o × IsStored env o c (create_order env n input (idle c)).1
  unfolding create_order
  create_order-success n input o k h = lookups_success n input _ o refl k h

  -- However CreateOrder ends, whichever statement, Begin or Commit fails, the tables are as they
  -- were, or hold exactly one order more, with its items and one event about it.
  pub create_order_atomic :
      (n : ℕ) (input : CreateOrderInput)
      → ((create_order env n input (idle c)).1 ≡ idle c)
        ⊎ ((o : Order) × IsPlaced n input o
            × IsStored env o c (create_order env n input (idle c)).1)
  unfolding create_order
  create_order_atomic n input = lookups_atomic n input _ refl
