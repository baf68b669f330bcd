-- ===== src/Tests/Reports.antt =====
-- A report of `epoll_wait` on a descriptor, if it is watched for read events
-- (src/net/net_epoll.c).
use xpipe.Base.{ℕ, ◌≡◌, false, refl, List, [], ◌∷◌, Option, none, some, arith}
use xpipe.Connection.{Events}
use xpipe.EventLoop.Reports.{Reported}
use xpipe.EventLoop.NoNull.{Single}
use xpipe.Tests.System.{Descriptors, events_of, epoll}

abbrev report : Option (ℕ × Events) → List (ℕ × Events)
report none = []
report (some (p, e)) = (p, record e { write = false }) ∷ []

abbrev pub one_ready : ℕ → Descriptors → List (ℕ × Events)
one_ready fd k = report (events_of (k.fds fd))

report-Reported :
    (fd : ℕ) (k : Descriptors) (v : Option (ℕ × Events))
    → events_of (k.fds fd) ≡ v
    → Reported epoll k [] (report v)
report-Reported fd k none h = tt
report-Reported fd k (some (p, e)) h = (fd, e, h, λ x. x, λ x. cc, refl, tt)

pub one_ready-Reported : (fd : ℕ) (k : Descriptors) → Reported epoll k [] (one_ready fd k)
one_ready-Reported fd k = report-Reported fd k (events_of (k.fds fd)) refl

report-Single : (v : Option (ℕ × Events)) → Single (report v)
report-Single none = tt
report-Single (some (p, e)) = (ground arith, tt)

pub one_ready-Single : (fd : ℕ) (k : Descriptors) → Single (one_ready fd k)
one_ready-Single fd k = report-Single (events_of (k.fds fd))
