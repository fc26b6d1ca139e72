-- ===== src/Examples/Setup.antt =====
-- The theorems on what a service sets up, run on the order service with telemetry, and on the
-- context of a request.
use delivery_backend.Base.{
  ℕ, ◌<◌, String, ◌≡◌, refl, sym, ◌∙◌, ap, false, none, some, List, [], ◌∷◌, ◌++◌, ◌==◌, Bool-cases,
  inl, inr,
}
use delivery_backend.Errors.{nil, foreign, first_some, Result, success, success_injective}
use delivery_backend.Kafka.Message.{lookup}
use delivery_backend.AppCtx.{
  request_id, Context, Boxes, with_err_box, set_err, get_err, err_box_shared,
}
use delivery_backend.Telemetry.Resource.{
  Attributes, IsMerge, latest, service_version, new_resource, service_name_key, service_version_key,
  new_resource-success,
}

abbrev no_boxes : Boxes
no_boxes = record { next = 0; err = λ p. nil }

abbrev deeper : Context
deeper = request_id "r-1" ∷ []

err_box_shared_example :
    let (boxed, h') = with_err_box [] no_boxes in
    let after = set_err (deeper ++ boxed) (foreign "boom") h' in
    (get_err boxed h' ≡ nil)
    × (get_err boxed after ≡ foreign "boom")
    × ((p : ℕ) → p < 0 → after.err p ≡ nil)
err_box_shared_example = err_box_shared [] no_boxes deeper (foreign "boom") (refl, tt)

-- Attributes by appending, so that the first found is the last of the lists.
abbrev together : List Attributes → Attributes
together [] = []
together (d ∷ ds) = together ds ++ d

abbrev merge : List Attributes → Result Attributes
merge ds = success (together ds)

lookup-append :
    (k : String) (xs ys : Attributes) → lookup k (xs ++ ys) ≡ first_some (lookup k xs) (lookup k ys)
lookup-append k [] ys = refl
lookup-append k ((j, v) ∷ xs) ys = elim (Bool-cases (j == k)) [
  | inl same ↦ rw same refl
  | inr other ↦ rw other (lookup-append k xs ys)
]

lookup-together : (k : String) (ds : List Attributes) → lookup k (together ds) ≡ latest k ds
lookup-together k [] = refl
lookup-together k (d ∷ ds) =
    lookup-append k (together ds) d ∙ ap (λ o. first_some o (lookup k d)) (lookup-together k ds)

merges : IsMerge merge
merges = record {
  keeps = λ ds res h k. ap (lookup k) (success_injective (sym h)) ∙ lookup-together k ds;
}

abbrev from_env : Attributes
from_env = ("service.name", "stranger") ∷ ("team", "delivery") ∷ []

abbrev resource : Attributes
resource =
    (("service.name", "order") ∷ ("service.version", "unknown") ∷ [])
    ++ from_env
    ++ (("service.instance.id", "1") ∷ [])

made :
    new_resource merge (("service.instance.id", "1") ∷ []) from_env none "order" ≡ success resource
unfolding new_resource service_version
made = refl

new_resource-success_example :
    (lookup service_name_key resource ≡ some "order")
    × ((version : String) × (lookup service_version_key resource ≡ some version)
        × ((version == "") ≡ false))
new_resource-success_example =
    new_resource-success merge merges (("service.instance.id", "1") ∷ []) from_env none "order"
      resource made
