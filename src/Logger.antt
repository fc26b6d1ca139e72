-- ===== src/Logger.antt =====
-- platform/logger: the handlers of slog that the services log through.
--
-- `Attrs` is a list of attributes with their values resolved: `leaf` is one that is no group. A
-- record is its attributes; its time, level and text pass through unchanged. `tidy` is what slog
-- does to a list of attributes when it makes a group or a record of it.
pub mod Laws
pub mod Options
pub mod New
use Prim.Native.String.{◌++◌ as concat}
use delivery_backend.Base.{
  String, Bool, true, false, ◌&&◌, List, [], ◌∷◌, ◌++◌, ◌==◌, if◌then◌else◌,
}
use delivery_backend.AppErr.Code.{Level, debug, info, warn, error}

pub data Attrs : Type 0 where
  end : Attrs
  leaf : (key value : String) → Attrs → Attrs
  group : (key : String) → Attrs → Attrs → Attrs

abbrev pub join : Attrs → Attrs → Attrs
join end ys = ys
join (leaf k v xs) ys = leaf k v (join xs ys)
join (group k inner xs) ys = group k inner (join xs ys)

abbrev pub is_end : Attrs → Bool
is_end end = true
is_end xs = false

-- slog.Handler, with what Handle does to a record as its result.
pub record Handler {ℓ κ} (H : Type ℓ) (Out : Type κ) : Type (ℓ ⊔ κ) where
  pub with_attrs : Attrs → H → H
  pub with_group : String → H → H
  pub handle : H → Attrs → Out

-- flattenAttr, for a list of attributes; a key and a value are what is left of each.
abbrev pub group_prefix : String → String → String
group_prefix prefix k = if k == "" then prefix else concat prefix (concat k ".")

unfoldable pub flatten : String → Attrs → List (String × String)
flatten prefix end = []
flatten prefix (leaf k v xs) = (concat prefix k, v) ∷ flatten prefix xs
flatten prefix (group k inner xs) = flatten (group_prefix prefix k) inner ++ flatten prefix xs

-- otelHandler; `attrs` is what the handler of otelslog has got by WithAttrs.
pub record OtelHandler : Type 0 where
  pub level : Level
  pub attrs : List (String × String)
  pub prefix : String

abbrev pub rank : Level → Level → Bool
rank debug l = true
rank info debug = false
rank info l = true
rank warn debug = false
rank warn info = false
rank warn l = true
rank error error = true
rank error l = false

-- Enabled, where otelslog's own handler says `enabled`; `rank a b` is a ≤ b.
unfoldable pub otel_enabled : Bool → OtelHandler → Level → Bool
otel_enabled enabled h l = rank h.level l && enabled

unfoldable pub new_otel_handler : Level → OtelHandler
new_otel_handler l = record { level = l; attrs = []; prefix = "" }

abbrev pub otel_with_attrs : Attrs → OtelHandler → OtelHandler
otel_with_attrs xs h = record h { attrs = h.attrs ++ flatten h.prefix xs }

abbrev pub otel_with_group : String → OtelHandler → OtelHandler
otel_with_group name h =
    if name == "" then h else record h { prefix = concat h.prefix (concat name ".") }

-- What reaches the OpenTelemetry provider: the attributes of the handler, and of the record.
abbrev pub otel_handle : OtelHandler → Attrs → List (String × String)
otel_handle h xs = h.attrs ++ flatten h.prefix xs

abbrev pub otel_handler : Handler OtelHandler (List (String × String))
otel_handler = record {
  with_attrs = otel_with_attrs;
  with_group = otel_with_group;
  handle = otel_handle;
}

-- CtxHandler over an inner handler.
pub record Group : Type 0 where
  pub name : String
  pub attrs : Attrs

pub record CtxHandler {ℓ} (H : Type ℓ) : Type ℓ where
  pub inner : H
  pub groups : List Group

abbrev pub new_ctx_handler {ℓ} : {H : Type ℓ} → H → CtxHandler H
new_ctx_handler h = record { inner = h; groups = [] }

abbrev pub add_to_last : Attrs → List Group → List Group
add_to_last xs [] = []
add_to_last xs (g ∷ []) = record { name = g.name; attrs = join g.attrs xs } ∷ []
add_to_last xs (g ∷ (g' ∷ gs)) = g ∷ add_to_last xs (g' ∷ gs)

module _ (tidy : Attrs → Attrs) where
  -- The loop of nest, from the inner group to the outer one.
  abbrev pub nest_groups : List Group → Attrs → Attrs
  nest_groups [] inner = inner
  nest_groups (g ∷ gs) inner = group g.name (tidy (join g.attrs (nest_groups gs inner))) end

  unfoldable pub nest : List Group → Attrs → Attrs
  nest [] xs = xs
  nest (g ∷ gs) xs = tidy (nest_groups (g ∷ gs) xs)

  module _ {ℓ κ} {H : Type ℓ} {Out : Type κ} (base : Handler H Out) where
    abbrev pub attrs_into : Attrs → H → List Group → CtxHandler H
    attrs_into xs inner [] = record { inner = base.with_attrs xs inner; groups = [] }
    attrs_into xs inner (g ∷ gs) = record { inner = inner; groups = add_to_last xs (g ∷ gs) }

    unfoldable pub ctx_with_attrs : Attrs → CtxHandler H → CtxHandler H
    ctx_with_attrs xs h = if is_end xs then h else attrs_into xs h.inner h.groups

    unfoldable pub ctx_with_group : String → CtxHandler H → CtxHandler H
    ctx_with_group name h =
        if name == ""
        then h
        else record h { groups = h.groups ++ record { name = name; attrs = end } ∷ [] }

    -- Handle, where the context has the request id `id`.
    unfoldable pub ctx_handle : String → CtxHandler H → Attrs → Out
    ctx_handle id h xs =
        base.handle h.inner
          (join (nest h.groups xs) (if id == "" then end else leaf "request_id" id end))

    unfoldable pub ctx_handler : String → Handler (CtxHandler H) Out
    ctx_handler id = record {
      with_attrs = ctx_with_attrs;
      with_group = ctx_with_group;
      handle = ctx_handle id;
    }

-- traceHandler over an inner handler, where the context has a valid span or none.
module _ {ℓ κ} {H : Type ℓ} {Out : Type κ} (base : Handler H Out) where
  abbrev pub span_attrs : Bool → String → String → Attrs
  span_attrs false trace_id span_id = end
  span_attrs true trace_id span_id = leaf "trace_id" trace_id (leaf "span_id" span_id end)

  unfoldable pub trace_handler : Bool → String → String → Handler H Out
  trace_handler is_valid trace_id span_id = record {
    with_attrs = base.with_attrs;
    with_group = base.with_group;
    handle = λ h xs. base.handle h (join xs (span_attrs is_valid trace_id span_id));
  }

-- Logger.With and Logger.WithGroup, in the order of the calls.
pub data Call : Type 0 where
  with_args : Attrs → Call
  within_group : String → Call

abbrev pub derive {ℓ κ} : {H : Type ℓ} {Out : Type κ} → Handler H Out → List Call → H → H
derive base [] h = h
derive base (with_args xs ∷ calls) h = derive base calls (base.with_attrs xs h)
derive base (within_group name ∷ calls) h = derive base calls (base.with_group name h)
