-- ===== src/Closer/Laws.antt =====
-- platform/closer/closer.go: what Close runs, and in which order.
use delivery_backend.Base.{◌≡◌, refl, ap, [], ◌∷◌}
use mathlib.Core.List.{reverse-append}
use delivery_backend.Errors.{Err, nil, join}
use delivery_backend.Closer.{Closer, add, close_all, close}

module _ {ℓ} {S : Type ℓ} where
  -- What was added last is closed first, and then the rest as if it had never been added, whatever
  -- the first one returned; the errors are joined in that order.
  pub close-add :
      (f : S → Err × S) (c : Closer S) (s : S)
      → let (err, s') = f s in
        let (rest, s'') = (close c s').0 in (close (add f c) s).0 ≡ (join err rest, s'')
  unfolding close close_all
  close-add f c s = ap (λ l. close_all l s) (reverse-append c.funcs (f ∷ []))

  -- A second Close closes nothing and succeeds.
  pub close-close : (c : Closer S) (s t : S) → (close (close c s).1 t).0 ≡ (nil, t)
  unfolding close close_all
  close-close c s t = refl
