-- ===== src/Gateway/Router.antt =====
-- services/gateway/internal/transport/http (router.go, v1/order/router.go and swagger/router.go) and
-- platform/http/middleware/route.go: the routes of the gateway, and the names of its spans.
--
-- The routing of chi is a parameter: for a method and a path, the registered route that it finds.
use Prim.Native.String.{◌++◌ as concat}
use delivery_backend.Base.{
  String, ◌≡◌, refl, ◌⊎◌, inl, inr, Bool-cases, Option, none, some, List, [], ◌∷◌, ◌++◌, ◌==◌,
  if◌then◌else◌,
}

pub data Target : Type 0 where
  create_order swagger : Target

-- A route: the method, the pattern and the handler.
pub record Route : Type 0 where
  pub method : String
  pub pattern : String
  pub target : Target

-- Router.Route of chi: the routes of a sub-router below a prefix.
abbrev pub below : String → List Route → List Route
below prefix [] = []
below prefix (r ∷ rs) = record r { pattern = concat prefix r.pattern } ∷ below prefix rs

abbrev pub order_routes : List Route
order_routes = record { method = "POST"; pattern = "/orders"; target = create_order } ∷ []

abbrev pub swagger_routes : List Route
swagger_routes = record { method = "GET"; pattern = "/swagger/*"; target = swagger } ∷ []

-- NewRouter
unfoldable pub new_router : List Route
new_router = below "/api" (below "/v1" order_routes) ++ swagger_routes

-- The server span of a request and the attributes of its metrics, where there is a labeler.
pub record HttpSpan : Type 0 where
  pub name : String
  pub attributes : List (String × String)
  pub labels : Option (List (String × String))

abbrev pub with_label :
    String × String → Option (List (String × String)) → Option (List (String × String))
with_label a none = none
with_label a (some ls) = some (ls ++ a ∷ [])

-- What Route does after the rest of the chain; `none` where chi has no context for the request.
unfoldable pub route : String → Option String → HttpSpan → HttpSpan
route method none span = span
route method (some pattern) span = if pattern == "" then span else record span {
  name = concat method (concat " " pattern);
  attributes = span.attributes ++ ("http.route", pattern) ∷ [];
  labels = with_label ("http.route", pattern) span.labels;
}

-- Whatever the path, the name of the span is as it was, or is that of the method and the pattern.
route_named :
    (method : String) (pattern : Option String) (span : HttpSpan)
    → ((route method pattern span).name ≡ span.name)
      ⊎ ((p : String) × (pattern ≡ some p)
          × ((route method pattern span).name ≡ concat method (concat " " p)))
unfolding route
route_named method none span = inl refl
route_named method (some p) span = elim (Bool-cases (p == "")) [
  | inl empty ↦ inl (rw empty refl)
  | inr full ↦ inr (p, refl, rw full refl)
]
