-- ===== src/AppCtx.antt =====
-- platform/appctx: the values that a request's context carries, and the box for its error.
--
-- A context is the list of the values put into it, the last one first; the nil context is the empty
-- list. The box is a pointer: its contents lie in `Boxes`, which all contexts share, so that
-- what is set through one context is seen through another that has the same pointer.
use delivery_backend.Base.{
  ℕ, ◌+◌, ◌<◌, String, ◌≡◌, refl, ◌∙◌, Bool, true, false, Option, none, some, List, [], ◌∷◌, ◌++◌,
  arith, eqb, eqb_refl, if◌then◌else◌, All,
}
use delivery_backend.Errors.{Err, nil}

-- The keys of the package with their values, and a value of anyone else.
pub data Entry : Type 0 where
  request_id user_id other : String → Entry
  err_box : ℕ → Entry

abbrev pub Context : Type 0
Context = List Entry

pub record Boxes : Type 0 where
  pub next : ℕ
  pub err : ℕ → Err

abbrev pub with_request_id : Context → String → Context
with_request_id ctx id = request_id id ∷ ctx

unfoldable pub get_request_id : Context → String
get_request_id [] = ""
get_request_id (request_id id ∷ ctx) = id
get_request_id (user_id id ∷ ctx) = get_request_id ctx
get_request_id (other v ∷ ctx) = get_request_id ctx
get_request_id (err_box p ∷ ctx) = get_request_id ctx

abbrev pub with_user_id : Context → String → Context
with_user_id ctx id = user_id id ∷ ctx

unfoldable pub get_user_id : Context → String
get_user_id [] = ""
get_user_id (user_id id ∷ ctx) = id
get_user_id (request_id id ∷ ctx) = get_user_id ctx
get_user_id (other v ∷ ctx) = get_user_id ctx
get_user_id (err_box p ∷ ctx) = get_user_id ctx

abbrev pub write : ℕ → Err → (ℕ → Err) → ℕ → Err
write p e f q = if eqb q p then e else f q

-- WithErrBox: a new box, which is empty.
unfoldable pub with_err_box : Context → Boxes → Context × Boxes
with_err_box ctx h =
    (err_box h.next ∷ ctx, record { next = h.next + 1; err = write h.next nil h.err })

-- ctx.Value of the box's key.
unfoldable pub box_of : Context → Option ℕ
box_of [] = none
box_of (err_box p ∷ ctx) = some p
box_of (request_id id ∷ ctx) = box_of ctx
box_of (user_id id ∷ ctx) = box_of ctx
box_of (other v ∷ ctx) = box_of ctx

unfoldable pub set_err : Context → Err → Boxes → Boxes
set_err ctx e h = elim (box_of ctx) [ none ↦ h | some p ↦ record h { err = write p e h.err } ]

unfoldable pub get_err : Context → Boxes → Err
get_err ctx h = elim (box_of ctx) [ none ↦ nil | some p ↦ h.err p ]

abbrev pub is_box : Entry → Bool
is_box (err_box p) = true
is_box (request_id id) = false
is_box (user_id id) = false
is_box (other v) = false

-- Values put into a context after the box leave it there.
box_of-derived :
    (ds ctx : Context) → All (λ d. is_box d ≡ false) ds → box_of (ds ++ ctx) ≡ box_of ctx
unfolding box_of
box_of-derived [] ctx h = refl
box_of-derived (request_id id ∷ ds) ctx h = box_of-derived ds ctx h.1
box_of-derived (user_id id ∷ ds) ctx h = box_of-derived ds ctx h.1
box_of-derived (other v ∷ ds) ctx h = box_of-derived ds ctx h.1
box_of-derived (err_box p ∷ ds) ctx h = absurd (cc h.0)

write_self : (p : ℕ) (e : Err) (f : ℕ → Err) → write p e f p ≡ e
write_self p e f = rw (eqb_refl p) refl

write_below : (p q : ℕ) (e : Err) (f : ℕ → Err) → q < p → write p e f q ≡ f q
write_below p q e f h = ground (arith, h)

module _ (ctx : Context) (h : Boxes) (ds : Context) (e : Err)
    (derived : All (λ d. is_box d ≡ false) ds) where
  -- The box that WithErrBox puts into a context is empty; an error that is set through any context
  -- derived from it, with no other box, is what the context with the box then has, and the boxes
  -- that were there before keep what they hold.
  pub err_box_shared :
      let (boxed, h') = with_err_box ctx h in
      let after = set_err (ds ++ boxed) e h' in
      (get_err boxed h' ≡ nil)
      × (get_err boxed after ≡ e)
      × ((p : ℕ) → p < h.next → after.err p ≡ h.err p)
  unfolding with_err_box set_err get_err box_of
  err_box_shared =
      let boxed : Context = err_box h.next ∷ ctx in
      let found : box_of (ds ++ boxed) ≡ some h.next = box_of-derived ds boxed derived in
      (
        write_self h.next nil h.err,
        rw (found, set_err) (write_self h.next e (write h.next nil h.err)),
        λ p old.
            rw (found, set_err)
              (write_below h.next p e (write h.next nil h.err) old
                ∙ write_below h.next p nil h.err old),
      )

-- The values of the keys do not meet: a context has the identifiers that were put into it last.
get_request_id-with_user_id :
    (ctx : Context) (id user : String)
    → get_request_id (with_user_id (with_request_id ctx id) user) ≡ id
unfolding get_request_id
get_request_id-with_user_id ctx id user = refl

get_user_id-with_request_id :
    (ctx : Context) (id user : String)
    → get_user_id (with_request_id (with_user_id ctx user) id) ≡ user
unfolding get_user_id
get_user_id-with_request_id ctx id user = refl
