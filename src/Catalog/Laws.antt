-- ===== src/Catalog/Laws.antt =====
-- services/product/internal and services/order/internal/client/product.go: what the order service
-- sees of the product service's table.
use delivery_backend.Base.{
  ℕ, String, ◌≡◌, refl, ap, ◌∙◌, ◌⊎◌, ◌↔◌, inl, inr, subst, sym, Bool, Bool-cases, true, List, [],
  ◌∷◌, map,
}
use delivery_backend.Errors.{Err, nil, Result, success}
use delivery_backend.AppErr.Grpc.{GrpcStatus}
use delivery_backend.Rpc.{error}
use delivery_backend.Order.Domain
use delivery_backend.Catalog.{
  Product, ProductRow, ProtoProduct, to_domain, any_id, select, get_by_ids, product_to_proto,
  proto_to_product, handle_get_products, get_products,
}

-- The order service's view of a row.
abbrev pub seen : ProductRow → Domain.Product
seen r = record {
  id = r.id;
  name = r.name;
  price = r.price;
  created_at = r.created_at;
  updated_at = r.updated_at;
}

abbrev pub Among : {A : Type 0} → A → List A → Type 0
Among x [] = ⊥
Among x (y ∷ ys) = (x ≡ y) ⊎ Among x ys

Among-map : {A B : Type 0} (f : A → B) (xs : List A) (x : A) → Among x xs → Among (f x) (map f xs)
Among-map f [] x h = absurd h
Among-map f (y ∷ ys) x (inl e) = inl (ap f e)
Among-map f (y ∷ ys) x (inr h) = inr (Among-map f ys x h)

map-Among :
    {A B : Type 0} (f : A → B) (xs : List A) (y : B)
    → Among y (map f xs)
    → (x : A) × (y ≡ f x) × Among x xs
map-Among f [] y h = absurd h
map-Among f (x ∷ xs) y (inl e) = (x, e, inl refl)
map-Among f (x ∷ xs) y (inr h) = let (z, e, there) = map-Among f xs y h in (z, e, inr there)

module _ (same : String → String → Bool) where
  -- The row's identifier is one of those asked for.
  abbrev pub IsAsked : ProductRow → List String → Type 0
  IsAsked r [] = ⊥
  IsAsked r (i ∷ is) = (same r.id i ≡ true) ⊎ IsAsked r is

  IsAsked-any_id :
      (r : ProductRow) (ids : List String) → IsAsked r ids → any_id same r.id ids ≡ true
  IsAsked-any_id r [] h = absurd h
  IsAsked-any_id r (i ∷ is) (inl e) = rw e refl
  IsAsked-any_id r (i ∷ is) (inr h) = elim (Bool-cases (same r.id i)) [
    | inl e ↦ rw e refl
    | inr e ↦ rw e (IsAsked-any_id r is h)
  ]

  any_id-IsAsked :
      (r : ProductRow) (ids : List String) → any_id same r.id ids ≡ true → IsAsked r ids
  any_id-IsAsked r [] h = absurd (cc h)
  any_id-IsAsked r (i ∷ is) h = elim (Bool-cases (same r.id i)) [
    | inl e ↦ inl e
    | inr e ↦ inr (any_id-IsAsked r is (rw e at h))
  ]

  select-Among :
      (r : ProductRow) (rows : List ProductRow) (ids : List String)
      → Among r rows
      → IsAsked r ids
      → Among r (select same ids rows)
  select-Among r [] ids there asked = absurd there
  select-Among r (x ∷ rows) ids (inl e) asked =
      let taken : any_id same x.id ids ≡ true =
        subst (λ (y : ProductRow). any_id same y.id ids ≡ true) e (IsAsked-any_id r ids asked) in
      rw taken (inl e)
  select-Among r (x ∷ rows) ids (inr there) asked = elim (Bool-cases (any_id same x.id ids)) [
    | inl e ↦ rw e (inr (select-Among r rows ids there asked))
    | inr e ↦ rw e (select-Among r rows ids there asked)
  ]

  taken_first :
      (r x : ProductRow) (rows : List ProductRow) (ids : List String)
      → any_id same x.id ids ≡ true
      → (Among r (select same ids rows) → Among r rows × IsAsked r ids)
      → Among r (x ∷ select same ids rows)
      → Among r (x ∷ rows) × IsAsked r ids
  taken_first r x rows ids e next (inl here) =
      (inl here, subst (λ (y : ProductRow). IsAsked y ids) (sym here) (any_id-IsAsked x ids e))
  taken_first r x rows ids e next (inr there) = let rest = next there in (inr rest.0, rest.1)

  Among-select :
      (r : ProductRow) (rows : List ProductRow) (ids : List String)
      → Among r (select same ids rows)
      → Among r rows × IsAsked r ids
  Among-select r [] ids there = absurd there
  Among-select r (x ∷ rows) ids there = elim (Bool-cases (any_id same x.id ids)) [
    | inr e ↦ let rest = Among-select r rows ids (rw e at there) in (inr rest.0, rest.1)
    | inl e ↦ taken_first r x rows ids e (Among-select r rows ids) (rw e at there)
  ]

module _ {ℓ} {Timestamp : Type ℓ} (stamp : ℕ → Timestamp) (as_time : Timestamp → ℕ)
    (same : String → String → Bool) (refuses : List String → Err)
    (arrange : List ProductRow → List ProductRow) (table : List ProductRow) (g : GrpcStatus) where
  abbrev pub serve : List String → Result (List (ProtoProduct Timestamp))
  serve = handle_get_products stamp (get_by_ids same refuses arrange table)

  -- The order service's client over calls that pass the product service's error interceptor.
  abbrev pub fetch : List String → Result (List Domain.Product)
  fetch = get_products as_time g (λ ids. error g (serve ids))

  carried :
      ((t : ℕ) → as_time (stamp t) ≡ t)
      → (rs : List ProductRow)
      → map (proto_to_product as_time) (map (product_to_proto stamp) (map to_domain rs))
        ≡ map seen rs
  carried times [] = refl
  carried times (r ∷ rs) =
      rw (times r.created_at, times r.updated_at) (ap (λ l. seen r ∷ l) (carried times rs))

  found :
      (i : String) (is : List String)
      → refuses (i ∷ is) ≡ nil
      → get_by_ids same refuses arrange table (i ∷ is)
        ≡ success (map to_domain (arrange (select same (i ∷ is) table)))
  unfolding get_by_ids
  found i is h = rw (h, get_by_ids) refl

  served :
      (ids : List String) (ps : List Product)
      → get_by_ids same refuses arrange table ids ≡ success ps
      → serve ids ≡ success (map (product_to_proto stamp) ps)
  unfolding handle_get_products
  served ids ps h = rw (h, handle_get_products) refl

  fetched :
      (ids : List String) (ps : List (ProtoProduct Timestamp))
      → serve ids ≡ success ps
      → fetch ids ≡ success (map (proto_to_product as_time) ps)
  unfolding get_products error
  fetched ids ps h = rw (h, get_products) refl

  products_fetched :
      (i : String) (is : List String)
      → ((t : ℕ) → as_time (stamp t) ≡ t)
      → refuses (i ∷ is) ≡ nil
      → fetch (i ∷ is) ≡ success (map seen (arrange (select same (i ∷ is) table)))
  products_fetched i is times h =
      fetched _ _ (served _ _ (found i is h))
      ∙ ap (λ l. success l) (carried times (arrange (select same (i ∷ is) table)))

  -- If the query of some identifiers is not refused, the order service gets a list of products:
  -- each row of the table whose identifier is, to PostgreSQL, one of these, with its name, price and
  -- times, and no other product. The database is assumed to return the rows that it selects, in any
  -- order, and timestamps to carry times unchanged.
  pub products_received :
      (i : String) (is : List String)
      → ((t : ℕ) → as_time (stamp t) ≡ t)
      → ((rs : List ProductRow) (r : ProductRow) → Among r (arrange rs) ↔ Among r rs)
      → refuses (i ∷ is) ≡ nil
      → (ps : List Domain.Product) × (fetch (i ∷ is) ≡ success ps)
        × ((r : ProductRow) → Among r table → IsAsked same r (i ∷ is) → Among (seen r) ps)
        × ((p : Domain.Product)
            → Among p ps
            → (r : ProductRow) × (p ≡ seen r) × Among r table × IsAsked same r (i ∷ is))
  products_received i is times whole h =
      let rows = arrange (select same (i ∷ is) table) in
      (
        map seen rows,
        products_fetched i is times h,
        (λ r there asked. Among-map seen rows r (
            (whole (select same (i ∷ is) table) r).1
              (select-Among same r table (i ∷ is) there asked))),
        (λ p there.
            let (r, e, among) = map-Among seen rows p there in
            let (listed, asked) =
              Among-select same r table (i ∷ is) ((whole (select same (i ∷ is) table) r).0 among) in
            (r, e, listed, asked)),
      )
