-- ===== src/Logging/Trace.antt =====
-- pkg/log/trace_handler.go: the handler that adds the identifiers of a span to each record. slog's
-- handlers, a context's span and the attributes of a record are parameters.
use Prim.Native.String.{String}
use turl.Base.{◌≡◌, refl, Option, none, some, List, [], ◌∷◌}
use turl.Action.{Action}

-- The methods of slog.Handler, for one kind of handler.
pub record SlogHandler (W C R A H : Type 0) : Type 0 where
  pub handle : H → C → R → Action W (Unit {0})
  pub with_attrs : H → List A → H
  pub with_group : H → String → H

-- traceHandler
pub record TraceHandler (H : Type 0) : Type 0 where
  pub handler : H

-- withTrace
abbrev pub with_trace : {H : Type 0} → H → TraceHandler H
with_trace h = record { handler = h }

-- What a record's handler calls: the trace and the span of a context that has a valid one, as text; an
-- attribute of a name and a text; and Record.AddAttrs.
pub record Spans (C R A : Type 0) : Type 0 where
  pub span_of : C → Option (String × String)
  pub string_attr : String → String → A
  pub add_attrs : R → List A → R

module _ {W C R A H : Type 0} (spans : Spans C R A) (inner : SlogHandler W C R A H) where
  -- The record with the identifiers of the context's span.
  unfoldable pub stamped : C → R → R
  stamped ctx r = elim (spans.span_of ctx) [
    | none ↦ r
    | some ids ↦
        spans.add_attrs r
          (spans.string_attr "trace_id" ids.0 ∷ spans.string_attr "span_id" ids.1 ∷ [])
  ]

  -- Handle, WithAttrs and WithGroup of traceHandler
  unfoldable pub trace_handler : SlogHandler W C R A (TraceHandler H)
  unfolding stamped
  trace_handler = record {
    handle = λ h ctx r. inner.handle h.handler ctx (stamped ctx r);
    with_attrs = λ h attrs. record { handler = inner.with_attrs h.handler attrs };
    with_group = λ h name. record { handler = inner.with_group h.handler name };
  }

-- A logger's With or WithGroup.
pub data Derivation (A : Type 0) : Type 0 where
  attrs : List A → Derivation A
  group : String → Derivation A

module _ {W C R A : Type 0} where
  unfoldable pub derive : {H : Type 0} → SlogHandler W C R A H → List (Derivation A) → H → H
  derive k [] h = h
  derive k (attrs xs ∷ ds) h = derive k ds (k.with_attrs h xs)
  derive k (group name ∷ ds) h = derive k ds (k.with_group h name)

  -- However a logger is derived from one with the trace handler, a record is handled as the same
  -- derivation of the handler behind it handles the record with the identifiers of its context's span,
  -- and unchanged where the context has none.
  derive-trace_handler :
      {H : Type 0} (spans : Spans C R A) (inner : SlogHandler W C R A H) (ds : List (Derivation A))
      (h : H) (ctx : C) (r : R)
      → (trace_handler spans inner).handle
          (derive (trace_handler spans inner) ds (with_trace h))
          ctx
          r
        ≡ inner.handle (derive inner ds h) ctx (stamped spans inner ctx r)
  unfolding derive trace_handler
  derive-trace_handler spans inner [] h ctx r = refl
  derive-trace_handler spans inner (attrs xs ∷ ds) h ctx r =
      derive-trace_handler spans inner ds (inner.with_attrs h xs) ctx r
  derive-trace_handler spans inner (group name ∷ ds) h ctx r =
      derive-trace_handler spans inner ds (inner.with_group h name) ctx r
