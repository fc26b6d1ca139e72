-- ===== src/AppErr/Pg/Laws.antt =====
-- platform/apperr/pgerr/pgerr.go: what `Map` of pgerr makes of an error.
use delivery_backend.Base.{String, ◌≡◌, ◌≢◌, refl, inl, inr, none, some, Option-cases}
use delivery_backend.Errors.{Err, nil, sentinel, AppError, to_err, as_app, as_pg, is_sentinel}
use delivery_backend.AppErr.Value.{wrap, new}
use delivery_backend.AppErr.Pg.{map, code_of}

pub map_missing :
    (err : Err) → err ≢ nil → as_app err ≡ none → map err ≡ to_err (wrap err (new (code_of err)))
unfolding map
map_missing nil n h = absurd (n refl)
map_missing (sentinel s) n h = rw (h, map) refl
map_missing _ n h = rw (h, map) refl

pub map_found : (err : Err) (e : AppError) → as_app err ≡ some e → map err ≡ err
unfolding map
map_found nil e h = refl
map_found (sentinel s) e h = rw (h, map) refl
map_found _ e h = rw (h, map) refl

pub map-nil : map nil ≡ nil
unfolding map
map-nil = refl

-- The result of `Map` at an error that is not nil holds an application error: the first one of
-- `err` if it has one, else a new one around `err` with the code of its class.
pub as_app-map :
    (err : Err)
    → err ≢ nil
    → as_app (map err)
      ≡ some (elim (as_app err) [ none ↦ wrap err (new (code_of err)) | some e ↦ e ])
as_app-map err n = elim (Option-cases (as_app err)) [
  | inl e ↦ rw (map_missing err n e) (rw e (unfold as_app in refl))
  | inr (a, e) ↦ rw (map_found err a e) (rw e refl)
]

map-map_ne : (err : Err) → err ≢ nil → map (map err) ≡ map err
map-map_ne err n = map_found (map err) _ (as_app-map err n)

-- A second `Map` changes nothing.
pub map-map : (err : Err) → map (map err) ≡ map err
map-map nil = rw map-nil map-nil
map-map (sentinel s) = map-map_ne (sentinel s) (λ e. cc)
map-map err = map-map_ne err (λ e. cc)

keeps_ne :
    (s : String) (err : Err)
    → err ≢ nil
    → (is_sentinel s (map err) ≡ is_sentinel s err) × (as_pg (map err) ≡ as_pg err)
keeps_ne s err n = elim (Option-cases (as_app err)) [
  | inl e ↦ rw (map_missing err n e) (unfold is_sentinel as_pg in (refl, refl))
  | inr (a, e) ↦ rw (map_found err a e) (refl, refl)
]

-- `Map` keeps the answers of errors.Is for sentinels, such as context.Canceled, and of errors.As
-- for the PostgreSQL error.
pub map_keeps :
    (s : String) (err : Err)
    → (is_sentinel s (map err) ≡ is_sentinel s err) × (as_pg (map err) ≡ as_pg err)
map_keeps s nil = rw map-nil (refl, refl)
map_keeps s (sentinel t) = keeps_ne s (sentinel t) (λ e. cc)
map_keeps s err = keeps_ne s err (λ e. cc)

-- `Map` returns nil at nil only.
pub map-ne-nil : (err : Err) → err ≢ nil → map err ≢ nil
map-ne-nil err n e = elim (Option-cases (as_app err)) [
  | inl missing ↦ cc (map_missing err n missing)
  | inr (a, found) ↦ n (cc (map_found err a found))
]
