-- ===== src/Logger/New.antt =====
-- platform/logger/logger.go: the chain of handlers that New sets up.
--
-- The handlers of slog for the two formats, which write to stdout, are a parameter: their state,
-- and what a line of theirs is. slog.NewMultiHandler hands a copy of a record to each of its
-- handlers that is enabled for the record's level.
use delivery_backend.Base.{
  String, ◌≡◌, refl, ap, Bool, Bool-cases, inl, inr, ◌&&◌, Option, none, some, List, [], ◌∷◌, ◌++◌,
  ◌==◌, if◌then◌else◌,
}
use delivery_backend.AppErr.Code.{Level}
use delivery_backend.Logger.{
  Attrs, end, is_end, Handler, OtelHandler, rank, otel_enabled, new_otel_handler, otel_with_attrs,
  otel_with_group, otel_handle, otel_handler, Group, CtxHandler, new_ctx_handler, ctx_with_attrs,
  ctx_with_group, ctx_handle, attrs_into, ctx_handler, trace_handler, Call, with_args, within_group,
  derive,
}
use delivery_backend.Logger.Laws.{Drops, deliver_flat}
use delivery_backend.Logger.Options.{Format, Settings}
use mathlib.Core.Option

abbrev pub Exported : Type 0
Exported = List (String × String)

-- A span in the context: whether it is valid, its trace and its own identifier.
pub record Span : Type 0 where
  pub is_valid : Bool
  pub trace_id : String
  pub span_id : String

-- What the handlers do with a record at the level `l`.
module _ {ℓ κ} {S : Type ℓ} {Line : Type κ} (slog : Handler S Line) (l : Level) where
  -- The trace handler over slog's, whose level is `least`.
  abbrev pub stdout_handle : Level → Span → S → Attrs → Option Line
  stdout_handle least sp s xs =
      if rank least l
      then some ((trace_handler slog sp.is_valid sp.trace_id sp.span_id).handle s xs)
      else none

  -- otelHandler, if there is a provider; `enabled` is what otelslog's own handler says.
  abbrev pub export_handle : Bool → Option OtelHandler → Attrs → Option Exported
  export_handle enabled none xs = none
  export_handle enabled (some h) xs =
      if otel_enabled enabled h l then some (otel_handle h xs) else none

  unfoldable pub multi_handler :
      Level → Span → Bool → Handler (S × Option OtelHandler) (Option Line × Option Exported)
  multi_handler least sp enabled = record {
    with_attrs = λ xs h. (slog.with_attrs xs h.0, Option.map (otel_with_attrs xs) h.1);
    with_group = λ name h. (slog.with_group name h.0, Option.map (otel_with_group name) h.1);
    handle = λ h xs. (stdout_handle least sp h.0 xs, export_handle enabled h.1 xs);
  }

-- New; `fresh` is slog's handler for a format, as it is made.
unfoldable pub new {ℓ} :
    {S : Type ℓ} → (Format → S) → Settings → CtxHandler (S × Option OtelHandler)
new fresh c =
    new_ctx_handler (fresh c.format, (if c.exports then some (new_otel_handler c.level) else none))

-- Two handlers under CtxHandler whose states stay related: the groups are the same.
module _ {ℓ ℓ' κ κ' μ} {H : Type ℓ} {K : Type ℓ'} {A : Type κ} {B : Type κ'} (tidy : Attrs → Attrs)
    (b : Handler H A) (b' : Handler K B) (R : H → K → Type μ)
    (keeps : (xs : Attrs) (h : H) (k : K) → R h k → R (b.with_attrs xs h) (b'.with_attrs xs k))
    (id : String) where
  abbrev Alike : CtxHandler H → CtxHandler K → Type μ
  Alike c d = R c.inner d.inner × (c.groups ≡ d.groups)

  into-Alike :
      (xs : Attrs) (h : H) (k : K) (gs : List Group)
      → R h k
      → Alike (attrs_into tidy b xs h gs) (attrs_into tidy b' xs k gs)
  into-Alike xs h k [] r = (keeps xs h k r, refl)
  into-Alike xs h k (g ∷ gs) r = (r, refl)

  attrs-Alike :
      (xs : Attrs) (c : CtxHandler H) (d : CtxHandler K)
      → Alike c d
      → Alike (ctx_with_attrs tidy b xs c) (ctx_with_attrs tidy b' xs d)
  unfolding ctx_with_attrs
  attrs-Alike xs c d (r, same) = elim (Bool-cases (is_end xs)) [
    | inl empty ↦ rw empty (r, same)
    | inr some_attrs ↦ rw (some_attrs, same) (into-Alike xs c.inner d.inner d.groups r)
  ]

  group-Alike :
      (name : String) (c : CtxHandler H) (d : CtxHandler K)
      → Alike c d
      → Alike (ctx_with_group tidy b name c) (ctx_with_group tidy b' name d)
  unfolding ctx_with_group
  group-Alike name c d (r, same) = elim (Bool-cases (name == "")) [
    | inl empty ↦ rw empty (r, same)
    | inr named ↦ rw named (r, ap (λ gs. gs ++ record { name = name; attrs = end } ∷ []) same)
  ]

  derive-Alike :
      (calls : List Call) (c : CtxHandler H) (d : CtxHandler K)
      → Alike c d
      → Alike (derive (ctx_handler tidy b id) calls c) (derive (ctx_handler tidy b' id) calls d)
  unfolding ctx_handler
  derive-Alike [] c d h = h
  derive-Alike (with_args xs ∷ calls) c d h =
      derive-Alike calls (ctx_with_attrs tidy b xs c) (ctx_with_attrs tidy b' xs d)
        (attrs-Alike xs c d h)
  derive-Alike (within_group name ∷ calls) c d h =
      derive-Alike calls (ctx_with_group tidy b name c) (ctx_with_group tidy b' name d)
        (group-Alike name c d h)

module _ {ℓ κ} {S : Type ℓ} {Line : Type κ} (tidy : Attrs → Attrs) (slog : Handler S Line)
    (fresh : Format → S) (c : Settings) (id : String) (sp : Span) (enabled : Bool) (l : Level)
    (calls : List Call) (xs : Attrs) where
  abbrev pub chain : Handler (CtxHandler (S × Option OtelHandler)) (Option Line × Option Exported)
  chain = ctx_handler tidy (multi_handler slog l c.level sp enabled) id

  abbrev pub traced : Handler S Line
  traced = trace_handler slog sp.is_valid sp.trace_id sp.span_id

  -- What a logger derived from New's delivers of a record.
  unfoldable pub deliver : Option Line × Option Exported
  deliver = chain.handle (derive chain calls (new fresh c)) xs

  -- What slog's handler makes of the record, under CtxHandler and the trace handler alone.
  abbrev pub stdout_line : Option Line
  stdout_line =
      if rank c.level l
      then some (
          (ctx_handler tidy traced id).handle
            (derive (ctx_handler tidy traced id) calls (new_ctx_handler (fresh c.format))) xs)
      else none

  -- What the flattening handler makes of it alone, and the request id.
  abbrev pub flat_export : Option Exported
  flat_export =
      if c.exports
      then (if rank c.level l && enabled
          then some (
              otel_handle (derive otel_handler calls (new_otel_handler c.level)) xs
              ++ (if id == "" then [] else ("request_id", id) ∷ []))
          else none)
      else none

  deliver-stdout : deliver.0 ≡ stdout_line
  unfolding deliver ctx_handler ctx_handle new multi_handler trace_handler
  deliver-stdout =
      let alike =
        derive-Alike tidy (multi_handler slog l c.level sp enabled) traced (λ h s. h.0 ≡ s)
          (λ ys h s same. ap (slog.with_attrs ys) same) id calls (new fresh c)
          (new_ctx_handler (fresh c.format)) (refl, refl) in
      rw (alike.0, alike.1) refl

  deliver-exported : ((ys : Attrs) → Drops ys (tidy ys)) → deliver.1 ≡ flat_export
  unfolding deliver ctx_handler ctx_handle new multi_handler trace_handler otel_enabled
      new_otel_handler
  deliver-exported drops = elim (Bool-cases c.exports) [
    | inr off ↦
        let alike =
          derive-Alike tidy (multi_handler slog l c.level sp enabled) traced (λ h s. h.1 ≡ none)
            (λ ys h s gone. ap (Option.map (otel_with_attrs ys)) gone) id calls (new fresh c)
            (new_ctx_handler (fresh c.format)) (rw off refl, refl) in
        rw (alike.0, off) refl
    | inl on ↦
        let alike =
          derive-Alike tidy (multi_handler slog l c.level sp enabled) otel_handler
            (λ h k. (h.1 ≡ some k) × (k.level ≡ c.level))
            (λ ys h k same. (ap (Option.map (otel_with_attrs ys)) same.0, same.1)) id calls
            (new fresh c) (new_ctx_handler (new_otel_handler c.level)) ((rw on refl, refl), refl) in
        rw (alike.0.0, alike.0.1, alike.1, on)
          (ap (λ out. if rank c.level l && enabled then some out else none)
            (deliver_flat tidy drops c.level id calls xs))
  ]

  -- However a logger of a service was derived by With and WithGroup, a record at the level of the
  -- configuration or above goes to stdout as CtxHandler and the trace handler over slog's handler
  -- deliver it, and, if there is a provider that takes the level, to OpenTelemetry with flat keys,
  -- then the request id of the context, and no attribute of the trace handler; a record below the
  -- level goes nowhere. Leaving out empty groups is all that slog is assumed to do to the lists of
  -- attributes.
  pub new_delivers :
      ((ys : Attrs) → Drops ys (tidy ys)) → (deliver.0 ≡ stdout_line) × (deliver.1 ≡ flat_export)
  new_delivers drops = (deliver-stdout, deliver-exported drops)
