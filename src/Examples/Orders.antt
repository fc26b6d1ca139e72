-- ===== src/Examples/Orders.antt =====
-- The theorems on orders, run on an order for two products.
use delivery_backend.Base.{◌≡◌, refl, ◌⊎◌, true, none, [], ◌∷◌, arith}
use delivery_backend.Base.Int.{pos, wrap64, ◌+ℤ◌, ◌*ℤ◌}
use delivery_backend.Base.Utf8.{valid_string}
use delivery_backend.Errors.{success}
use delivery_backend.Postgres.{exec, within_tx, begin_tx, settle, finish, and_then}
use delivery_backend.Order.Event.{
  OrderCreatedPayload, order_created, encode, validate, validate_fields, validate_items,
  invalid_utf8_field, payload_of, outbox_event,
}
use delivery_backend.Order.Event.Laws.{IsValidPayload, Describes, order_created-success}
use delivery_backend.Postgres.Laws.{idle}
use delivery_backend.Order.Domain.{Order, new_order, fill, subtotal}
use delivery_backend.Order.Domain.Laws.{exact_total, IsNewOrder, new_order-IsNewOrder, total_exact}
use delivery_backend.Order.Repo.{
  create, save, insert_order, insert_items, insert_event, trace_context,
}
use delivery_backend.Order.Service.{
  resolve, end_lookups, end_lookup, wait, by_id, make_items, publish, place, create_order, lookups,
  user_address_catalog, CreateOrderItemInput,
}
use delivery_backend.Order.Service.Laws.{error_of, first_failure, error_of-resolve}
use delivery_backend.Order.Service.Stored.{IsStored}
use delivery_backend.Order.Service.Place.{IsPlaced, create_order-success, create_order_atomic}
use delivery_backend.Examples.{env, ids, input, no_rows, given_items, placed, providers, tea, cup}

runs : (create_order env 0 input (idle no_rows)).0 ≡ success placed
unfolding create_order resolve end_lookups end_lookup wait by_id make_items publish place new_order
    fill subtotal order_created encode validate validate_fields validate_items invalid_utf8_field
    within_tx begin_tx settle finish and_then exec create save insert_order insert_items
    insert_event trace_context valid_string wrap64 ◌+ℤ◌ ◌*ℤ◌
runs = refl

created_order : (new_order ids 1000 0 "user-1" "Main street 1" given_items).0 ≡ success placed
unfolding new_order fill subtotal wrap64 ◌+ℤ◌ ◌*ℤ◌
created_order = refl

create_order-success_example :
    IsPlaced env no_rows 0 input placed
    × IsStored env placed no_rows (create_order env 0 input (idle no_rows)).1
create_order-success_example = create_order-success env no_rows 0 input placed tt runs

create_order_atomic_example :
    ((create_order env 0 input (idle no_rows)).1 ≡ idle no_rows)
    ⊎ ((o : Order) × IsPlaced env no_rows 0 input o
        × IsStored env o no_rows (create_order env 0 input (idle no_rows)).1)
create_order_atomic_example = create_order_atomic env no_rows 0 input

new_order-IsNewOrder_example : IsNewOrder ids 1000 0 "user-1" "Main street 1" given_items placed
new_order-IsNewOrder_example =
    new_order-IsNewOrder ids 1000 0 "user-1" "Main street 1" given_items placed created_order

total_exact_example : placed.total_amount ≡ exact_total given_items
unfolding ◌+ℤ◌ ◌*ℤ◌
total_exact_example =
    total_exact ids 1000 0 "user-1" "Main street 1" given_items placed created_order (omega arith)

valid_placed : IsValidPayload (payload_of "event-1" placed)
unfolding valid_string
valid_placed = record {
  event_id = refl;
  order_id = refl;
  user_id = refl;
  address = refl;
  items = ((refl, refl, refl), ((refl, refl, refl), tt));
}

published :
    order_created env.position env.marshal "event-1" placed
    ≡ success (outbox_event "event-1" placed "{}")
unfolding order_created encode validate validate_fields validate_items invalid_utf8_field
    valid_string
published = refl

order_created-success_example :
    let e = outbox_event "event-1" placed "{}" in
    (e.id ≡ "event-1")
    × (e.aggregate_type ≡ "order")
    × (e.aggregate_id ≡ placed.id)
    × (e.type_name ≡ "order.created")
    × (e.created_at ≡ placed.created_at)
    × ((p : OrderCreatedPayload) × (env.marshal p ≡ success e.payload)
        × IsValidPayload p
        × Describes "event-1" placed p)
order_created-success_example =
    order_created-success env.position env.marshal "event-1" placed
      (outbox_event "event-1" placed "{}") published

error_of-resolve_example :
    error_of (resolve providers input true user_address_catalog)
    ≡ first_failure providers input true (lookups user_address_catalog)
error_of-resolve_example = error_of-resolve providers input true user_address_catalog

made : make_items (by_id (λ j. none) (tea ∷ cup ∷ [])) input.items ≡ success given_items
unfolding make_items by_id
made = refl

abbrev wanted : CreateOrderItemInput
wanted = record { product_id = "jam"; quantity = pos 2 }

no_jam : by_id (λ j. none) (tea ∷ cup ∷ []) "jam" ≡ none
unfolding by_id
no_jam = refl
