-- ===== src/DebugServer/Routes.antt =====
-- platform/debugserver/handlers.go: the routes of the debug server, its index and its command line.
--
-- http.ServeMux takes, of the patterns that match a request, the most specific one: a name before a
-- wildcard. A pattern for GET also matches HEAD, and a path with patterns for other methods only
-- is not allowed. The template of the index and its encoding are a parameter.
use Prim.Native.String.{◌++◌ as concat}
use delivery_backend.Base.{
  ℕ, String, ◌≡◌, refl, ◌⊎◌, inl, inr, Bool, true, false, ◌&&◌, ◌||◌, Bool-cases, Option, none,
  some, List, [], ◌∷◌, ◌==◌, if◌then◌else◌,
}
use delivery_backend.DebugServer.{Response, http_error, plain}

-- The path of a request: pprofPrefix itself, one segment below it, or any other.
pub data Target : Type 0 where
  root elsewhere : Target
  below : String → Target

pub data Endpoint : Type 0 where
  index cmdline cpu_profile symbol trace : Endpoint
  named_profile : String → Endpoint

-- A pattern with a name for its last segment: the method, the name and the handler.
abbrev pub Pattern : Type 0
Pattern = String × String × Endpoint

abbrev pub patterns : List Pattern
patterns =
    ("GET", "cmdline", cmdline)
    ∷ ("GET", "profile", cpu_profile)
    ∷ ("GET", "symbol", symbol)
    ∷ ("POST", "symbol", symbol)
    ∷ ("GET", "trace", trace)
    ∷ []

abbrev pub matches_method : String → String → Bool
matches_method wanted method = wanted == method || (wanted == "GET" && method == "HEAD")

pub data Routed : Type 0 where
  to : Endpoint → Routed
  -- 404 and 405
  missing not_allowed : Routed

abbrev pub routed : Option Endpoint → Routed
routed none = not_allowed
routed (some e) = to e

-- The first of the patterns with this name that has the method, else the wildcard's.
unfoldable pub find : List Pattern → String → String → Option Endpoint
find [] method name = if matches_method "GET" method then some (named_profile name) else none
find ((m, n, e) ∷ ps) method name =
    let rest : Option Endpoint = find ps method name in
    if n == name && matches_method m method then some e else rest

-- newMux
unfoldable pub new_mux : String → Target → Routed
new_mux method elsewhere = missing
new_mux method root = if matches_method "GET" method then to index else not_allowed
new_mux method (below name) = routed (find patterns method name)

-- A row of the index.
pub record Row : Type 0 where
  pub name : String
  pub count : ℕ

-- slices.SortFunc by the names, where `precedes` compares strings.
module _ (precedes : String → String → Bool) where
  unfoldable pub insert : Row → List Row → List Row
  insert r [] = r ∷ []
  insert r (s ∷ ss) = if precedes s.name r.name then s ∷ insert r ss else r ∷ s ∷ ss

  unfoldable pub sort : List Row → List Row
  sort [] = []
  sort (r ∷ rs) = insert r (sort rs)

  -- handleIndex: `render` is the text of the rows, or the template's error.
  abbrev pub page : String ⊎ String → Response
  page (inl html) = record {
    status = 200;
    content_type = "text/html; charset=utf-8";
    disposition = "";
    body = html;
    sleeps = 0;
  }
  page (inr err) = http_error 500 (concat "render index: " err)

  unfoldable pub handle_index : (List Row → String ⊎ String) → List Row → Response
  handle_index render profiles = page (render (sort profiles))

-- handleCmdline: the arguments of the process, parted by a zero character.
unfoldable pub join_args : String → List String → String
join_args sep [] = ""
join_args sep (a ∷ []) = a
join_args sep (a ∷ b ∷ rest) = concat a (concat sep (join_args sep (b ∷ rest)))

unfoldable pub handle_cmdline : (zero : String) → List String → Response
handle_cmdline zero args = record {
  status = 200;
  content_type = plain;
  disposition = "";
  body = join_args zero args;
  sleeps = 0;
}

skipped : (b x : Bool) → x ≡ false → b && x ≡ false
skipped true x h = h
skipped false x h = refl

and_right : (a b : Bool) → a && b ≡ true → b ≡ true
and_right true b h = h
and_right false b h = absurd (cc h)

module _ (method : String) (h : matches_method "GET" method ≡ false) where
  find_other :
      (name : String)
      → (find patterns method name ≡ none)
        ⊎ ((matches_method "POST" method ≡ true) × (find patterns method name ≡ some symbol))
  unfolding find
  find_other name =
      let get = matches_method "GET" method in
      rw
        (
          skipped ("cmdline" == name) get h,
          skipped ("profile" == name) get h,
          skipped ("symbol" == name) get h,
          skipped ("trace" == name) get h,
        )
        (elim (Bool-cases ("symbol" == name && matches_method "POST" method)) [
          | inl post ↦
              inr (and_right ("symbol" == name) (matches_method "POST" method) post, rw post refl)
          | inr other ↦ inl (rw (other, h) refl)
        ])

  -- A request with another method than GET and HEAD gets to no handler, but for a POST to that of
  -- the symbols: it starts no profile and no trace, and does not run the collector.
  pub new_mux_other :
      (path : Target)
      → (new_mux method path ≡ missing)
        ⊎ (new_mux method path ≡ not_allowed)
        ⊎ ((matches_method "POST" method ≡ true) × (new_mux method path ≡ to symbol))
  unfolding new_mux
  new_mux_other elsewhere = inl refl
  new_mux_other root = inr (inl (rw h refl))
  new_mux_other (below name) = elim (find_other name) [
    | inl none_found ↦ inr (inl (rw none_found refl))
    | inr (post, found) ↦ inr (inr (post, rw found refl))
  ]
