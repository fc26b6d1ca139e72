-- ===== src/Order/Event/Laws.antt =====
-- services/order/internal/event/order.go: which events are built, and what is in them.
use delivery_backend.Base.{
  ℕ, suc, String, ◌≡◌, refl, sym, inl, inr, Bool, true, false, not, List, map, [], ◌∷◌, arith, ◌==◌,
  All, Bool-cases, if◌then◌else◌,
}
use delivery_backend.Base.Utf8.{valid_string}
use delivery_backend.Errors.{Err, nil, sentinel, Result, success, success_injective, Result-cases}
use delivery_backend.Order.Domain.{Order, OrderItem, OutboxEvent}
use delivery_backend.Order.Event.{
  OrderCreatedItem, OrderCreatedPayload, StringField, invalid_utf8_field, validate_fields,
  validate_items, validate, first_error, string_fields, payload_of, outbox_event, encode,
  order_created, created_item,
}

abbrev pub IsValidText : String → Type 0
IsValidText s = valid_string s ≡ true

-- Every text of the payload is valid UTF-8.
pub record IsValidPayload (p : OrderCreatedPayload) : Type 0 where
  pub event_id : IsValidText p.event_id
  pub order_id : IsValidText p.order_id
  pub user_id : IsValidText p.user_id
  pub address : IsValidText p.delivery_address
  pub items :
      All (λ i. IsValidText i.id × IsValidText i.product_id × IsValidText i.product_name) p.items

-- The items of a payload are those of an order.
abbrev pub Lists : List OrderItem → List OrderCreatedItem → Type 0
Lists [] ps = ps ≡ []
Lists (i ∷ is) [] = ⊥
Lists (i ∷ is) (p ∷ ps) =
    ((p.id ≡ i.id)
      × (p.product_id ≡ i.product_id)
      × (p.product_name ≡ i.product_name)
      × (p.quantity ≡ i.quantity)
      × (p.unit_price ≡ i.unit_price))
    × Lists is ps

-- A payload describes an order and its event.
pub record Describes (id : String) (o : Order) (p : OrderCreatedPayload) : Type 0 where
  pub event_id : p.event_id ≡ id
  pub order_id : p.order_id ≡ o.id
  pub user_id : p.user_id ≡ o.user_id
  pub items : Lists o.items p.items
  pub total : p.total_amount ≡ o.total_amount
  pub address : p.delivery_address ≡ o.delivery_address
  pub created_at : p.created_at ≡ o.created_at

created_item-Lists : (is : List OrderItem) → Lists is (map created_item is)
created_item-Lists [] = refl
created_item-Lists (i ∷ is) = ((refl, refl, refl, refl, refl), created_item-Lists is)

payload_of-Describes : (id : String) (o : Order) → Describes id o (payload_of id o)
payload_of-Describes id o = record {
  event_id = refl;
  order_id = refl;
  user_id = refl;
  items = created_item-Lists o.items;
  total = refl;
  address = refl;
  created_at = refl;
}

validate_fields-nil :
    (fs : List StringField) → validate_fields fs ≡ nil → All (λ f. IsValidText f.value) fs
unfolding validate_fields
validate_fields-nil [] h = tt
validate_fields-nil (f ∷ fs) h = ground (arith, validate_fields-nil fs)

nil-validate_fields :
    (fs : List StringField) → All (λ f. IsValidText f.value) fs → validate_fields fs ≡ nil
unfolding validate_fields
nil-validate_fields [] h = refl
nil-validate_fields (f ∷ fs) h = ground (arith, nil-validate_fields fs h.1)

names_valid :
    (a b c : Bool)
    → ((if not a
          then "id"
          else if not b
          then "product_id"
          else if not c
          then "product_name"
          else "")
        == "")
      ≡ true
    → (a ≡ true) × (b ≡ true) × (c ≡ true)
names_valid true true true h = (refl, refl, refl)
names_valid true true false h = absurd (cc h)
names_valid true false c h = absurd (cc h)
names_valid false b c h = absurd (cc h)

field_valid :
    (i : OrderCreatedItem)
    → (invalid_utf8_field i == "") ≡ true
    → IsValidText i.id × IsValidText i.product_id × IsValidText i.product_name
unfolding invalid_utf8_field
field_valid i h =
    names_valid (valid_string i.id) (valid_string i.product_id) (valid_string i.product_name) h

valid_field :
    (i : OrderCreatedItem)
    → IsValidText i.id × IsValidText i.product_id × IsValidText i.product_name
    → (invalid_utf8_field i == "") ≡ true
unfolding invalid_utf8_field
valid_field i h = rw (h.0, h.1, h.2) refl

first_error-nil : (a b : Err) → first_error a b ≡ nil → (a ≡ nil) × (b ≡ nil)
first_error-nil nil b h = (refl, h)
first_error-nil (sentinel t) b h = absurd (cc h)
first_error-nil a b h = absurd (cc h)

module _ (position : ℕ → String → String) where
  validate_items-nil :
      (n : ℕ) (is : List OrderCreatedItem)
      → validate_items position n is ≡ nil
      → All (λ i. IsValidText i.id × IsValidText i.product_id × IsValidText i.product_name) is
  unfolding validate_items
  validate_items-nil n [] h = tt
  validate_items-nil n (i ∷ is) h = elim (Bool-cases (invalid_utf8_field i == "")) [
    | inl valid ↦ (field_valid i valid, validate_items-nil (suc n) is (rw valid at h))
    | inr invalid ↦ absurd (cc (rw invalid at h))
  ]

  nil-validate_items :
      (n : ℕ) (is : List OrderCreatedItem)
      → All (λ i. IsValidText i.id × IsValidText i.product_id × IsValidText i.product_name) is
      → validate_items position n is ≡ nil
  unfolding validate_items
  nil-validate_items n [] h = refl
  nil-validate_items n (i ∷ is) h = rw (valid_field i h.0) (nil-validate_items (suc n) is h.1)

  validate-nil : (p : OrderCreatedPayload) → validate position p ≡ nil → IsValidPayload p
  unfolding validate
  validate-nil p h =
      let both = first_error-nil (validate_fields (string_fields p)) _ h in
      let texts = validate_fields-nil (string_fields p) both.0 in
      record {
        event_id = texts.0;
        order_id = texts.1.0;
        user_id = texts.1.1.0;
        address = texts.1.1.1.0;
        items = validate_items-nil 0 p.items both.1;
      }

  nil-validate : (p : OrderCreatedPayload) → IsValidPayload p → validate position p ≡ nil
  unfolding validate
  nil-validate p v =
      let fields : validate_fields (string_fields p) ≡ nil =
        nil-validate_fields (string_fields p)
          (v.event_id, (v.order_id, (v.user_id, (v.address, tt)))) in
      rw fields (nil-validate_items 0 p.items v.items)

module _ (position : ℕ → String → String) (marshal : OrderCreatedPayload → Result String) where
  encode-success :
      (id : String) (o : Order) (err : Err) (e : OutboxEvent)
      → encode position marshal id o err ≡ success e
      → (err ≡ nil)
        × ((payload : String) × (marshal (payload_of id o) ≡ success payload)
            × (e ≡ outbox_event id o payload))
  unfolding encode
  encode-success id o nil e h = elim (Result-cases (marshal (payload_of id o))) [
    | inl (payload, done) ↦
        (refl, (payload, done, sym (success_injective (rw (done, encode) at h))))
    | inr (err, failed) ↦ absurd (cc (rw (failed, encode) at h))
  ]
  encode-success id o (sentinel t) e h = absurd (cc h)
  encode-success id o err e h = absurd (cc h)

  pub order_created-encoded :
      (id : String) (o : Order) (e : OutboxEvent)
      → order_created position marshal id o ≡ success e
      → IsValidPayload (payload_of id o)
        × ((payload : String) × (marshal (payload_of id o) ≡ success payload)
            × (e ≡ outbox_event id o payload))
  unfolding order_created
  order_created-encoded id o e h =
      let facts = encode-success id o (validate position (payload_of id o)) e h in
      (validate-nil position (payload_of id o) facts.0, facts.1)

  -- An event is built only if the texts of its payload are valid UTF-8. It has the identifier that
  -- was drawn, the order's identifier and creation time, the aggregate type `order` and the type
  -- `order.created`. Its payload is the encoding of a description with the event's identifier and
  -- the order's identifier, user, total, address and creation time, and with the order's items in
  -- their order, each with its identifier, product, name, quantity and price.
  pub order_created-success :
      (id : String) (o : Order) (e : OutboxEvent)
      → order_created position marshal id o ≡ success e
      → (e.id ≡ id)
        × (e.aggregate_type ≡ "order")
        × (e.aggregate_id ≡ o.id)
        × (e.type_name ≡ "order.created")
        × (e.created_at ≡ o.created_at)
        × ((p : OrderCreatedPayload) × (marshal p ≡ success e.payload)
            × IsValidPayload p
            × Describes id o p)
  order_created-success id o e h =
      let (valid, (payload, encoded, same)) = order_created-encoded id o e h in
      rw same
        (refl, refl, refl, refl, refl, (payload_of id o, encoded, valid, payload_of-Describes id o))

  -- No valid order is refused: if every text is valid UTF-8 and the encoder succeeds, the event is
  -- built.
  pub order_created_valid :
      (id : String) (o : Order) (payload : String)
      → IsValidPayload (payload_of id o)
      → marshal (payload_of id o) ≡ success payload
      → order_created position marshal id o ≡ success (outbox_event id o payload)
  unfolding order_created encode
  order_created_valid id o payload v h =
      rw (nil-validate position (payload_of id o) v, encode) (rw (h, encode) refl)
