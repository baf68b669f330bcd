-- ===== src/NetEvent/Dispatch.antt =====
-- `process_events` (src/net/net_event.c), on the connections that were polled.
use xpipe.Base.{Option, none, some, if◌then◌else◌}
use xpipe.Connection.{ev_none_event, any_event, Handler, tcp_server_send, Connection}
use xpipe.NetEvent.{Epoll, add_event, del_event}

-- What calling a handler does to its connection and to all else; `Epoll.Kernel` stands for that.
module _ (ep : Epoll) (call : Handler → Connection → ep.Kernel → Connection × ep.Kernel) where
  open ep use {Kernel}

  -- the connection goes on, or was closed and given back, or a handler was called that is NULL
  pub data Dispatched : Type 0 where
    kept closed : Connection → Kernel → Dispatched
    null_called : Dispatched

  abbrev pub and_then : Dispatched → (Connection → Kernel → Dispatched) → Dispatched
  and_then (kept c k) f = f c k
  and_then (closed c k) f = closed c k
  and_then null_called f = null_called

  abbrev pub call_handler : Option Handler → Connection → Kernel → Dispatched
  call_handler none c k = null_called
  call_handler (some h) c k = let (c', k') = call h c k in kept c' k'

  unfoldable pub on_read : Connection → Kernel → Dispatched
  on_read c k = if c.active_events.read then call_handler c.read_event_handler c k else kept c k

  unfoldable pub on_write : Connection → Kernel → Dispatched
  on_write c k = if c.active_events.write then call_handler c.write_event_handler c k else kept c k

  -- the events that a handler has given up
  unfoldable pub clean_events : Connection → Kernel → Dispatched
  clean_events c k =
      let (ok, c', k') = del_event ep c c.dead_events k in
      if any_event c.dead_events
      then kept (record c' { dead_events = ev_none_event }) k'
      else kept c k

  unfoldable pub close_or_add : Connection → Kernel → Dispatched
  close_or_add c k =
      let (ok, c', k') = add_event ep c c.add_events tcp_server_send k in
      if c.close
      then closed c k
      else if any_event c.add_events
      then kept (record c' { add_events = ev_none_event }) k'
      else kept c k

  -- the body of the loop
  unfoldable pub process_one : Connection → Kernel → Dispatched
  unfolding on_read on_write clean_events close_or_add
  process_one c k =
      and_then (on_read c k)
        (λ c₁ k₁. and_then (on_write c₁ k₁) (λ c₂ k₂. and_then (clean_events c₂ k₂) close_or_add))
