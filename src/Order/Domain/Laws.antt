-- ===== src/Order/Domain/Laws.antt =====
-- services/order/internal/domain/order.go: what NewOrder makes of the items that it is given.
use delivery_backend.Base.{
  ℕ, zero, suc, ◌+◌, String, ◌≡◌, ◌≢◌, refl, ◌∙◌, ap, some, List, [], ◌∷◌, arith, length, sym,
  subst, get_elem?,
}
use mathlib.Core.Option
use delivery_backend.Base.Int.{
  ℤ, pos, ◌+ℤ◌, ◌*ℤ◌, wrap64, IsInt64, wrap64-IsInt64, wrap64_fits, wrap64-+ℤ_inner, zero-+ℤ,
  add_zero,
}
use delivery_backend.Errors.{success, success_injective}
use delivery_backend.Order.Domain.{OrderItem, Order, status_created, subtotal, fill, new_order}

-- The exact amount of the items, with no wrapping.
abbrev pub exact_total : List OrderItem → ℤ
exact_total [] = pos 0
exact_total (i ∷ is) = i.unit_price *ℤ i.quantity +ℤ exact_total is

abbrev pub numbered : (ℕ → String) → String → ℕ → OrderItem → OrderItem
numbered ids order_id k i = record i { id = ids k; order_id = order_id }

module _ (ids : ℕ → String) where
  fill-total :
      (order_id : String) (n : ℕ) (total : ℤ) (is : List OrderItem)
      → IsInt64 total
      → (fill ids order_id n total is).total ≡ wrap64 (total +ℤ exact_total is)
  unfolding fill subtotal
  fill-total order_id n total [] h = sym (ap wrap64 (add_zero total) ∙ wrap64_fits total h)
  fill-total order_id n total (i ∷ is) h =
      fill-total order_id (suc n) _ is (wrap64-IsInt64 _)
      ∙ wrap64-+ℤ_inner total (i.unit_price *ℤ i.quantity) (exact_total is)

  fill-next :
      (order_id : String) (n : ℕ) (total : ℤ) (is : List OrderItem)
      → (fill ids order_id n total is).next ≡ n + length is
  unfolding fill
  fill-next order_id n total [] = omega arith
  fill-next order_id n total (i ∷ is) = omega (
    arith,
    fill-next order_id (suc n)
        (wrap64 (total +ℤ subtotal (record i { id = ids n; order_id = order_id }))) is,
  )

  fill-items :
      (order_id : String) (n : ℕ) (total : ℤ) (is : List OrderItem) (k : ℕ)
      → get_elem? (fill ids order_id n total is).items k
        ≡ Option.map (numbered ids order_id (n + k)) (get_elem? is k)
  unfolding fill
  fill-items order_id n total [] k = refl
  fill-items order_id n total (i ∷ is) zero =
      ap (λ (t : ℕ). some (numbered ids order_id t i)) (omega arith)
  fill-items order_id n total (i ∷ is) (suc k) =
      fill-items order_id (suc n) _ is k
      ∙ ap (λ (t : ℕ). Option.map (numbered ids order_id t) (get_elem? is k)) (omega arith)

  -- What NewOrder's result is, from the items that it is given.
  pub record IsNewOrder (now n : ℕ) (user_id address : String) (is : List OrderItem) (o : Order)
      : Type 0 where
    pub some_items : is ≢ []
    pub first_id : o.id ≡ ids n
    pub same_user : o.user_id ≡ user_id
    pub same_address : o.delivery_address ≡ address
    pub status : o.status ≡ status_created
    pub created : o.created_at ≡ now
    pub total : o.total_amount ≡ wrap64 (exact_total is)
    pub same_items :
        (k : ℕ)
        → get_elem? o.items k ≡ Option.map (numbered ids (ids n) (suc n + k)) (get_elem? is k)

  placed-IsNewOrder :
      (now n : ℕ) (user_id address : String) (i : OrderItem) (is : List OrderItem) (o : Order)
      → (new_order ids now n user_id address (i ∷ is)).0 ≡ success o
      → IsNewOrder now n user_id address (i ∷ is) o
  unfolding new_order
  placed-IsNewOrder now n user_id address i is o h =
      subst (IsNewOrder now n user_id address (i ∷ is)) (success_injective h) (record {
        some_items = λ e. cc;
        first_id = refl;
        same_user = refl;
        same_address = refl;
        status = refl;
        created = refl;
        total =
            fill-total (ids n) (suc n) (pos 0) (i ∷ is) (omega arith)
            ∙ ap wrap64 (zero-+ℤ (exact_total (i ∷ is)));
        same_items = fill-items (ids n) (suc n) (pos 0) (i ∷ is);
      })

  -- If NewOrder returns an order, there are items, and the order has those given, in their order and
  -- with their products, names, quantities and prices, each with the order's identifier and a newly
  -- drawn one of its own; the order takes the first identifier drawn, the user, the address and the
  -- time given, is `created`, and its total is the exact amount of the items reduced to 64 bits.
  pub new_order-IsNewOrder :
      (now n : ℕ) (user_id address : String) (is : List OrderItem) (o : Order)
      → (new_order ids now n user_id address is).0 ≡ success o
      → IsNewOrder now n user_id address is o
  new_order-IsNewOrder now n user_id address [] o h = absurd (unfold new_order in cc h)
  new_order-IsNewOrder now n user_id address (i ∷ is) o h =
      placed-IsNewOrder now n user_id address i is o h

  -- Where the exact amount of the items fits in an int64, the order's total is that amount.
  pub total_exact :
      (now n : ℕ) (user_id address : String) (is : List OrderItem) (o : Order)
      → (new_order ids now n user_id address is).0 ≡ success o
      → IsInt64 (exact_total is)
      → o.total_amount ≡ exact_total is
  total_exact now n user_id address is o h fits =
      (new_order-IsNewOrder now n user_id address is o h).total ∙ wrap64_fits (exact_total is) fits
