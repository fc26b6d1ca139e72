-- ===== src/Closer.antt =====
-- platform/closer/closer.go: closing what was opened, in the reverse order.
--
-- A function to close is a step on a state of type `S` with its error. The lock is left out: Add
-- and Close are each one step.
pub mod Laws
use delivery_backend.Base.{List, [], ◌∷◌, ◌++◌, reverse}
use delivery_backend.Errors.{Err, nil, join}

pub record Closer {ℓ} (S : Type ℓ) : Type ℓ where
  pub funcs : List (S → Err × S)

module _ {ℓ} {S : Type ℓ} where
  abbrev pub new : Closer S
  new = record { funcs = [] }

  abbrev pub add : (S → Err × S) → Closer S → Closer S
  add f c = record { funcs = c.funcs ++ f ∷ [] }

  -- The loop: every function runs, whatever the earlier ones returned.
  unfoldable pub close_all : List (S → Err × S) → S → Err × S
  close_all [] s = (nil, s)
  close_all (f ∷ fs) s =
      let (err, s') = f s in let (rest, s'') = close_all fs s' in (join err rest, s'')

  -- Close, with the closer that it leaves.
  unfoldable pub close : Closer S → S → (Err × S) × Closer S
  close c s = (close_all (reverse c.funcs) s, record { funcs = [] })
