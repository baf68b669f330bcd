-- ===== src/NetEvent.antt =====
-- src/net/net_event.c and src/net/net_epoll.c: which events of a connection are watched.
use xpipe.Base.{ℕ, Bool, true, false, not, Option, none, some, ◌≡◌, ◌≢◌, ◌==◌, if◌then◌else◌}
use xpipe.Connection.{
  Events, ev_none_event, join_events, minus_events, any_event, Handler, Connection,
}
pub mod Registration
pub mod Dispatch
pub mod Watched
pub mod Carried
pub mod NullHandler

-- EPOLL_CTL_ADD, EPOLL_CTL_MOD, EPOLL_CTL_DEL
pub data Op : Type 0 where
  ctl_add ctl_mod ctl_del : Op

-- what is watched behind a call of `epoll_ctl` that succeeds, with the pointer of `ee.data`
abbrev pub changed : Op → ℕ → Events → Option (ℕ × Events)
changed ctl_add p e = some (p, e)
changed ctl_mod p e = some (p, e)
changed ctl_del p e = none

-- What the program uses of the system's epoll, as its manual describes it: `ctl` is true for 0
-- and false for -1; it takes the descriptor, the pointer of `ee.data` and the events. `interest` is
-- the pointer and the events that are watched on a descriptor. A call that fails changes nothing;
-- changing and removing a descriptor that is watched succeeds.
pub record Epoll : Type 1 where
  pub Kernel : Type 0
  pub ctl : Op → ℕ → ℕ → Events → Kernel → Bool × Kernel
  pub interest : Kernel → ℕ → Option (ℕ × Events)
  pub refused :
      (o : Op) (fd p : ℕ) (e : Events) (k : Kernel)
      → (ctl o fd p e k).0 ≡ false
      → (g : ℕ) → interest (ctl o fd p e k).1 g ≡ interest k g
  pub accepted :
      (o : Op) (fd p : ℕ) (e : Events) (k : Kernel)
      → (ctl o fd p e k).0 ≡ true
      → (g : ℕ) → interest (ctl o fd p e k).1 g ≡ (if g == fd then changed o p e else interest k g)
  pub mod_watched :
      (fd p : ℕ) (e : Events) (k : Kernel) → interest k fd ≢ none → (ctl ctl_mod fd p e k).0 ≡ true
  pub del_watched :
      (fd p : ℕ) (e : Events) (k : Kernel) → interest k fd ≢ none → (ctl ctl_del fd p e k).0 ≡ true

module _ (ep : Epoll) where
  open ep use {Kernel, ctl}

  -- `epoll_add_event`: false for EVENT_ERROR
  unfoldable pub epoll_add_event : Connection → Events → Kernel → Bool × Connection × Kernel
  epoll_add_event c events k =
      let op = if any_event c.events then ctl_mod else ctl_add in
      let all = join_events events c.events in
      let (ok, k') = ctl op c.conn_fd c.address all k in
      if ok then (true, record c { events = all }, k') else (false, c, k')

  -- `epoll_del_event`, which does not look at what `epoll_ctl` returns
  unfoldable pub epoll_del_event : Connection → Events → Kernel → Bool × Connection × Kernel
  epoll_del_event c events k =
      let rest = minus_events c.events events in
      let op = if any_event rest then ctl_mod else ctl_del in
      (true, record c { events = rest }, (ctl op c.conn_fd c.address rest k).1)

  -- `add_event`
  unfoldable pub add_event : Connection → Events → Handler → Kernel → Bool × Connection × Kernel
  unfolding epoll_add_event
  add_event c events handler k =
      let (ok, c', k') = epoll_add_event c events k in
      if not ok then (false, c', k') else (
        true,
        record c' {
          read_event_handler = if events.read then some handler else c'.read_event_handler;
          write_event_handler = if events.write then some handler else c'.write_event_handler;
        },
        k',
      )

  -- `del_event`
  unfoldable pub del_event : Connection → Events → Kernel → Bool × Connection × Kernel
  unfolding epoll_del_event
  del_event c events k =
      if not (any_event c.events) then (true, c, k) else epoll_del_event c events k
