-- ===== src/NetEvent/NullHandler.antt =====
-- When `process_events` (src/net/net_event.c) calls a handler that is NULL.
use xpipe.Base.{
  Bool, true, false, Option, none, some, ◌≡◌, ◌⊎◌, ◌↔◌, inl, inr, refl, ◌∙◌, sym, ap, subst,
  if◌then◌else◌,
}
use xpipe.Connection.{any_event, Handler, Connection}
use xpipe.NetEvent.{Epoll}
use xpipe.NetEvent.Dispatch.{
  Dispatched, kept, closed, null_called, and_then, call_handler, clean_events, close_or_add,
  on_read, on_write, process_one,
}

-- the event is active and has no handler
abbrev pub Missing : Bool → Option Handler → Type 0
Missing active h = (active ≡ true) × (h ≡ none)

module _ (ep : Epoll) (call : Handler → Connection → ep.Kernel → Connection × ep.Kernel) where
  open ep use {Kernel}

  -- the connection behind the handler of an event, if that is active
  abbrev pub handled : Bool → Option Handler → Connection → Kernel → Connection × Kernel
  handled true (some h) c k = call h c k
  handled true none c k = (c, k)
  handled false h c k = (c, k)

  handler-cases :
      (active : Bool) (h : Option Handler) (c : Connection) (k : Kernel)
      → let d : Dispatched ep call = if active then call_handler ep call h c k else kept c k in
        (Missing active h × (d ≡ null_called))
        ⊎ ((Missing active h → ⊥) × (d ≡ kept (handled active h c k).0 (handled active h c k).1))
  handler-cases true none c k = inl ((refl, refl), refl)
  handler-cases true (some h) c k = inr (λ m. cc, refl)
  handler-cases false h c k = inr (λ m. cc, refl)

  abbrev Alive : Dispatched ep call → Type 0
  Alive (kept c k) = Unit {0}
  Alive (closed c k) = Unit {0}
  Alive null_called = ⊥

  Alive-if : (b : Bool) (x y : Dispatched ep call) → Alive x → Alive y → Alive (if b then x else y)
  Alive-if true x y h g = h
  Alive-if false x y h g = g

  close_or_add-Alive : (c : Connection) (k : Kernel) → Alive (close_or_add ep call c k)
  unfolding close_or_add
  close_or_add-Alive c k = Alive-if c.close _ _ tt (Alive-if (any_event c.add_events) _ _ tt tt)

  -- behind the handlers none is called any more
  rest-Alive :
      (c : Connection) (k : Kernel)
      → Alive (and_then ep call (clean_events ep call c k) (close_or_add ep call))
  unfolding clean_events
  rest-Alive c k = go (any_event c.dead_events) _ _ _ _
    where
      go :
          (b : Bool) (c₁ c₂ : Connection) (k₁ k₂ : Kernel)
          → Alive (and_then ep call (if b then kept c₁ k₁ else kept c₂ k₂) (close_or_add ep call))
      go true c₁ c₂ k₁ k₂ = close_or_add-Alive c₁ k₁
      go false c₁ c₂ k₁ k₂ = close_or_add-Alive c₂ k₂

  -- The pass over a connection calls NULL exactly if its read event is active and it has no handler
  -- for that, or its write event is active and it has no handler for that once its read handler, if
  -- the read event is active, is through: as it is when that one sends the rest of a response.
  pub process_one_iff :
      (c : Connection) (k : Kernel)
      → let c₁ = (handled c.active_events.read c.read_event_handler c k).0 in
        (process_one ep call c k ≡ null_called) ↔ (
          Missing c.active_events.read c.read_event_handler
          ⊎ Missing c₁.active_events.write c₁.write_event_handler)
  unfolding process_one on_read on_write
  process_one_iff c k =
      let (c₁, k₁) = handled c.active_events.read c.read_event_handler c k in
      let (c₂, k₂) = handled c₁.active_events.write c₁.write_event_handler c₁ k₁ in
      let rest = λ (c₂ : Connection) (k₂ : Kernel).
        and_then ep call (clean_events ep call c₂ k₂) (close_or_add ep call) in
      let writing =
        λ (c₁ : Connection) (k₁ : Kernel). and_then ep call (on_write ep call c₁ k₁) rest in
      elim (handler-cases c.active_events.read c.read_event_handler c k) [
        | inl (m, e) ↦ (λ _. inl m, λ _. ap (λ d. and_then ep call d writing) e)
        | inr (here, e) ↦
            let first = ap (λ d. and_then ep call d writing) e in
            elim (handler-cases c₁.active_events.write c₁.write_event_handler c₁ k₁) [
              | inl (m, e') ↦ (λ _. inr m, λ _. first ∙ ap (λ d. and_then ep call d rest) e')
              | inr (there, e') ↦
                  let went = first ∙ ap (λ d. and_then ep call d rest) e' in
                  (
                    λ null. absurd (subst Alive (sym went ∙ null) (rest-Alive c₂ k₂)),
                    λ s. elim s [ inl m ↦ absurd (here m) | inr m ↦ absurd (there m) ],
                  )
            ]
      ]
