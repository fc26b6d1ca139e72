-- ===== src/Logger/Laws.antt =====
-- platform/logger: how attributes and groups become flat keys.
use Prim.Native.String.{◌++◌ as concat}
use delivery_backend.Base.{
  String, ◌≡◌, ◌≢◌, refl, sym, ap, ◌∙◌, subst, ◌⊎◌, inl, inr, true, false, Bool-cases, List, [],
  ◌∷◌, ◌++◌, append-nil, append_assoc, ◌==◌, if◌then◌else◌,
}
use delivery_backend.AppErr.Code.{Level}
use delivery_backend.Logger.{
  Attrs, end, leaf, group, join, is_end, flatten, group_prefix, OtelHandler, new_otel_handler,
  otel_with_attrs, otel_with_group, otel_handle, otel_handler, Group, CtxHandler, new_ctx_handler,
  add_to_last, nest_groups, nest, attrs_into, ctx_with_attrs, ctx_with_group, ctx_handle,
  ctx_handler, Call, with_args, within_group, derive,
}

-- `ys` is `xs` without some of its empty groups.
abbrev pub Drops : Attrs → Attrs → Type 0
Drops end ys = ys ≡ end
Drops (leaf k v xs) ys = (zs : Attrs) × (ys ≡ leaf k v zs) × Drops xs zs
Drops (group k inner xs) ys =
    ((zs : Attrs) × (ys ≡ group k inner zs) × Drops xs zs) ⊎ ((inner ≡ end) × Drops xs ys)

flatten-Drops : (p : String) (xs ys : Attrs) → Drops xs ys → flatten p ys ≡ flatten p xs
unfolding flatten
flatten-Drops p end ys h = ap (flatten p) h
flatten-Drops p (leaf k v xs) ys (zs, e, h) =
    ap (flatten p) e ∙ ap (λ l. (concat p k, v) ∷ l) (flatten-Drops p xs zs h)
flatten-Drops p (group k inner xs) ys (inl (zs, e, h)) =
    ap (flatten p) e ∙ ap (λ l. flatten (group_prefix p k) inner ++ l) (flatten-Drops p xs zs h)
flatten-Drops p (group k inner xs) ys (inr (e, h)) =
    flatten-Drops p xs ys h ∙ ap (λ i. flatten (group_prefix p k) i ++ flatten p xs) (sym e)

flatten-join : (p : String) (xs ys : Attrs) → flatten p (join xs ys) ≡ flatten p xs ++ flatten p ys
unfolding flatten
flatten-join p end ys = refl
flatten-join p (leaf k v xs) ys = ap (λ l. (concat p k, v) ∷ l) (flatten-join p xs ys)
flatten-join p (group k inner xs) ys =
    ap (λ l. flatten (group_prefix p k) inner ++ l) (flatten-join p xs ys)
    ∙ sym (append_assoc (flatten (group_prefix p k) inner) (flatten p xs) (flatten p ys))

join_assoc : (xs ys zs : Attrs) → join (join xs ys) zs ≡ join xs (join ys zs)
join_assoc end ys zs = refl
join_assoc (leaf k v xs) ys zs = ap (leaf k v) (join_assoc xs ys zs)
join_assoc (group k inner xs) ys zs = ap (group k inner) (join_assoc xs ys zs)

is_end-end : (xs : Attrs) → is_end xs ≡ true → xs ≡ end
is_end-end end h = refl
is_end-end (leaf k v xs) h = absurd (cc h)
is_end-end (group k inner xs) h = absurd (cc h)

add_to_last_nonempty : (xs : Attrs) (g : Group) (gs : List Group) → add_to_last xs (g ∷ gs) ≢ []
add_to_last_nonempty xs g [] h = absurd (cc h)
add_to_last_nonempty xs g (g' ∷ gs) h = absurd (cc h)

snoc_nonempty : (gs : List Group) (g : Group) → (gs ++ g ∷ []) ≢ []
snoc_nonempty [] g h = absurd (cc h)
snoc_nonempty (g' ∷ gs) g h = absurd (cc h)

module _ (tidy : Attrs → Attrs) where
  nest_groups-add_to_last :
      (xs zs : Attrs) (g : Group) (gs : List Group)
      → nest_groups tidy (add_to_last xs (g ∷ gs)) zs ≡ nest_groups tidy (g ∷ gs) (join xs zs)
  nest_groups-add_to_last xs zs g [] =
      ap (λ a. group g.name (tidy a) end) (join_assoc g.attrs xs zs)
  nest_groups-add_to_last xs zs g (g' ∷ gs) =
      ap (λ a. group g.name (tidy (join g.attrs a)) end) (nest_groups-add_to_last xs zs g' gs)

  nest_groups-append :
      (gs : List Group) (name : String) (zs : Attrs)
      → nest_groups tidy (gs ++ record { name = name; attrs = end } ∷ []) zs
        ≡ nest_groups tidy gs (group name (tidy zs) end)
  nest_groups-append [] name zs = refl
  nest_groups-append (g ∷ gs) name zs =
      ap (λ a. group g.name (tidy (join g.attrs a)) end) (nest_groups-append gs name zs)

  -- The context handler `c` delivers what the handler `d` would, apart from the request id.
  pub record IsSame (d : OtelHandler) (c : CtxHandler OtelHandler) : Type 0 where
    pub top : c.inner.prefix ≡ ""
    pub plain : c.groups ≡ [] → d ≡ c.inner
    pub same :
        (xs : Attrs) → c.inner.attrs ++ flatten "" (nest_groups tidy c.groups xs) ≡ otel_handle d xs

  new-IsSame : (l : Level) → IsSame (new_otel_handler l) (new_ctx_handler (new_otel_handler l))
  unfolding new_otel_handler
  new-IsSame l = record { top = refl; plain = λ h. refl; same = λ xs. refl }

  with_attrs-nil : (d : OtelHandler) → otel_with_attrs end d ≡ d
  unfolding flatten
  with_attrs-nil d = ap (λ a. record d { attrs = a }) (append-nil d.attrs)

  handle-with_attrs :
      (xs zs : Attrs) (d : OtelHandler)
      → otel_handle (otel_with_attrs xs d) zs ≡ otel_handle d (join xs zs)
  handle-with_attrs xs zs d =
      append_assoc d.attrs (flatten d.prefix xs) (flatten d.prefix zs)
      ∙ ap (λ l. d.attrs ++ l) (sym (flatten-join d.prefix xs zs))

  into-IsSame :
      (xs : Attrs) (d : OtelHandler) (inner : OtelHandler) (gs : List Group)
      → IsSame d (record { inner = inner; groups = gs })
      → IsSame (otel_with_attrs xs d) (attrs_into tidy otel_handler xs inner gs)
  into-IsSame xs d inner [] i = record {
    top = i.top;
    plain = λ h. ap (otel_with_attrs xs) (i.plain refl);
    same = λ zs.
        ap (λ p. (inner.attrs ++ flatten inner.prefix xs) ++ flatten p zs) (sym i.top)
        ∙ ap (λ x. otel_handle (otel_with_attrs xs x) zs) (sym (i.plain refl));
  }
  into-IsSame xs d inner (g ∷ gs) i = record {
    top = i.top;
    plain = λ h. absurd (add_to_last_nonempty xs g gs h);
    same = λ zs.
        ap (λ a. inner.attrs ++ flatten "" a) (nest_groups-add_to_last xs zs g gs)
        ∙ i.same (join xs zs)
        ∙ sym (handle-with_attrs xs zs d);
  }

  with_attrs-IsSame :
      (xs : Attrs) (d : OtelHandler) (c : CtxHandler OtelHandler)
      → IsSame d c
      → IsSame (otel_with_attrs xs d) (ctx_with_attrs tidy otel_handler xs c)
  unfolding ctx_with_attrs
  with_attrs-IsSame xs d c i = elim (Bool-cases (is_end xs)) [
    | inl e ↦ rw e (
        subst (λ x. IsSame x c)
          (sym (ap (λ a. otel_with_attrs a d) (is_end-end xs e) ∙ with_attrs-nil d)) i)
    | inr e ↦ rw e (into-IsSame xs d c.inner c.groups i)
  ]

  -- A list of attributes is a group's or a record's once its empty groups are left out.
  module _ (drops : (xs : Attrs) → Drops xs (tidy xs)) where
    group_carried :
        (name : String) (zs : Attrs) (d : OtelHandler)
        → (name == "") ≡ false
        → otel_handle d (group name (tidy zs) end)
          ≡ d.attrs ++ flatten (concat d.prefix (concat name ".")) zs
    unfolding flatten
    group_carried name zs d e =
        rw e (ap (λ l. d.attrs ++ l) (append-nil _ ∙ flatten-Drops _ zs (tidy zs) (drops zs)))

    with_group-IsSame :
        (name : String) (d : OtelHandler) (c : CtxHandler OtelHandler)
        → IsSame d c
        → IsSame (otel_with_group name d) (ctx_with_group tidy otel_handler name c)
    unfolding ctx_with_group
    with_group-IsSame name d c i = elim (Bool-cases (name == "")) [
      | inl e ↦ rw e i
      | inr e ↦ rw e (record {
        top = i.top;
        plain = λ h. absurd (snoc_nonempty c.groups _ h);
        same = λ zs.
            ap (λ a. c.inner.attrs ++ flatten "" a) (nest_groups-append c.groups name zs)
            ∙ i.same (group name (tidy zs) end)
            ∙ group_carried name zs d e;
      })
    ]

    derive-IsSame :
        (id : String) (calls : List Call) (d : OtelHandler) (c : CtxHandler OtelHandler)
        → IsSame d c
        → IsSame (derive otel_handler calls d) (derive (ctx_handler tidy otel_handler id) calls c)
    unfolding ctx_handler
    derive-IsSame id [] d c i = i
    derive-IsSame id (with_args xs ∷ calls) d c i =
        derive-IsSame id calls _ _ (with_attrs-IsSame xs d c i)
    derive-IsSame id (within_group name ∷ calls) d c i =
        derive-IsSame id calls _ _ (with_group-IsSame name d c i)

    flatten-nest :
        (gs : List Group) (xs : Attrs)
        → flatten "" (nest tidy gs xs) ≡ flatten "" (nest_groups tidy gs xs)
    unfolding nest
    flatten-nest [] xs = refl
    flatten-nest (g ∷ gs) xs = flatten-Drops "" _ _ (drops (nest_groups tidy (g ∷ gs) xs))

    -- The request id as an attribute, if the context has one.
    abbrev pub id_attr : String → List (String × String)
    id_attr id = if id == "" then [] else ("request_id", id) ∷ []

    abbrev tail : String → Attrs
    tail id = if id == "" then end else leaf "request_id" id end

    flatten-id : (id : String) → flatten "" (tail id) ≡ id_attr id
    unfolding flatten
    flatten-id id = elim (Bool-cases (id == "")) [ inl e ↦ rw e refl | inr e ↦ rw e refl ]

    ctx_handle-IsSame :
        (id : String) (xs : Attrs) (d : OtelHandler) (c : CtxHandler OtelHandler)
        → IsSame d c
        → ctx_handle tidy otel_handler id c xs ≡ otel_handle d xs ++ id_attr id
    unfolding ctx_handle
    ctx_handle-IsSame id xs d c i =
        ap
          (λ p.
            c.inner.attrs
            ++ flatten p
                (join (nest tidy c.groups xs) (if id == "" then end else leaf "request_id" id end)))
          i.top
        ∙ ap (λ l. c.inner.attrs ++ l) (flatten-join "" (nest tidy c.groups xs) _)
        ∙ sym (append_assoc c.inner.attrs (flatten "" (nest tidy c.groups xs)) _)
        ∙ ap (λ l. (c.inner.attrs ++ l) ++ flatten "" (tail id)) (flatten-nest c.groups xs)
        ∙ ap (λ l. l ++ flatten "" (tail id)) (i.same xs)
        ∙ ap (λ l. otel_handle d xs ++ l) (flatten-id id)

    -- However a logger was derived by With and WithGroup, what CtxHandler delivers to OpenTelemetry is
    -- what the flattening handler would deliver by itself, each key under the prefix of its groups,
    -- and then the request id of the context at the top, under no group's prefix. Leaving out empty
    -- groups is all that slog is assumed to do to the lists of attributes.
    pub deliver_flat :
        (l : Level) (id : String) (calls : List Call) (xs : Attrs)
        → let h = ctx_handler tidy otel_handler id in
          h.handle (derive h calls (new_ctx_handler (new_otel_handler l))) xs
          ≡ otel_handle (derive otel_handler calls (new_otel_handler l)) xs ++ id_attr id
    unfolding ctx_handler
    deliver_flat l id calls xs =
        ctx_handle-IsSame id xs _ _ (derive-IsSame id calls _ _ (new-IsSame l))
