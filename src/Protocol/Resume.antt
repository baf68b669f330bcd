-- ===== src/Protocol/Resume.antt =====
-- `protocol_parse` (src/net/protocol.c) keeps what it needs between two reads.
use Prim.Native.Nat.add
use native.Mathlib.Nat.{add_assoc, add-zero}
use xpipe.Base.{ℕ, zero, suc, ◌+◌, ◌≡◌, ◌≢◌, ◌⊎◌, inl, refl, ap, ◌∙◌, arith, Ptr}
use xpipe.Memory.{Mem}
use xpipe.Protocol.{
  Protocol, Ret, State, Scan, Step, next, stop, step, step_in, find_type, run, finish, conclude,
  enter, protocol_parse, protocol_ok, sw_start, sw_type_cr,
}

-- the same with other saved locals; only `enter` reads those
abbrev saving : State → ℕ → Scan → Scan
saving st n s = record s { pro = record (s.pro) { state = st; tmp_data_len = n } }

abbrev map_step : (Scan → Scan) → Step → Step
map_step f (next s) = next (f s)
map_step f (stop r s) = stop r (f s)

abbrev and_then : Step → (Scan → Step) → Step
and_then r k = elim r [ next t ↦ k t | stop c t ↦ stop c t ]

module _ (st : State) (n : ℕ) where
  find_type-saving : (s : Scan) → find_type (saving st n s) ≡ map_step (saving st n) (find_type s)
  unfolding find_type
  find_type-saving s = ground arith

  step_in-saving :
      (now : State) (buf p c : ℕ) (s : Scan)
      → step_in now buf p c (saving st n s) ≡ map_step (saving st n) (step_in now buf p c s)
  unfolding step_in
  step_in-saving sw_type_cr buf p c s = ground arith
  step_in-saving _ buf p c s = ground arith

  run-saving :
      (k : ℕ) (buf p : Ptr) (s : Scan)
      → run k buf p (saving st n s) ≡ map_step (saving st n) (run k buf p s)
  unfolding run
  run-saving zero buf p s = refl
  run-saving (suc k) buf p s =
      rw (step_in-saving s.state buf p (s.mem p) s, run)
        (through (run-saving k buf (p + 1)) (step buf p s))
    where
      through :
          ((t : Scan)
            → run k buf (p + 1) (saving st n t) ≡ map_step (saving st n) (run k buf (p + 1) t))
          → (r : Step)
          → and_then (map_step (saving st n) r) (run k buf (p + 1))
            ≡ map_step (saving st n) (and_then r (run k buf (p + 1)))
      through ih (next t) = ih t
      through ih (stop r t) = refl

run-append :
    (m n : ℕ) (buf p : Ptr) (s : Scan)
    → run (m + n) buf p s ≡ and_then (run m buf p s) (run n buf (p + m))
unfolding run
run-append zero n buf p s = rw (add.zero, add-zero)
run-append (suc m) n buf p s =
    rw (add.suc, run) (through (run-append m n buf (p + 1)) (step buf p s))
  where
    shift : p + 1 + m ≡ p + suc m
    shift = omega arith

    through :
        ((t : Scan)
          → run (m + n) buf (p + 1) t ≡ and_then (run m buf (p + 1) t) (run n buf (p + 1 + m)))
        → (r : Step)
        → and_then r (run (m + n) buf (p + 1))
          ≡ and_then (and_then r (run m buf (p + 1))) (run n buf (p + suc m))
    through ih (next t) = ih t ∙ ap (λ q. and_then (run m buf (p + 1) t) (run n buf q)) shift
    through ih (stop r t) = refl

-- Two runs on end are one.
pub run_then :
    (m n : ℕ) (buf p : Ptr) (s : Scan) {t : Scan} (r : Step)
    → run m buf p s ≡ next t
    → run n buf (p + m) t ≡ r
    → run (m + n) buf p s ≡ r
run_then m n buf p s r h k = rw (run-append m n buf p s, h) k

abbrev IsStop : Step → Type 0
IsStop (next s) = Unit
IsStop (stop r s) = r ≢ protocol_ok

find_type-IsStop : (s : Scan) → IsStop (find_type s)
unfolding find_type
find_type-IsStop s = ground arith

-- no state returns PROTOCOL_OK from inside the loop
step_in-IsStop : (now : State) (buf p c : ℕ) (s : Scan) → IsStop (step_in now buf p c s)
unfolding step_in
step_in-IsStop sw_type_cr buf p c s = ground (arith, find_type-IsStop s)
step_in-IsStop _ buf p c s = ground arith

run-IsStop : (k : ℕ) (buf p : Ptr) (s : Scan) → IsStop (run k buf p s)
unfolding run
run-IsStop zero buf p s = tt
run-IsStop (suc k) buf p s =
    through (run-IsStop k buf (p + 1)) (step buf p s) (step_in-IsStop s.state buf p (s.mem p) s)
  where
    through :
        ((t : Scan) → IsStop (run k buf (p + 1) t))
        → (r : Step) → IsStop r
        → IsStop (and_then r (run k buf (p + 1)))
    through ih (next t) h = ih t
    through ih (stop r t) h = h

-- the parser's record but for the saved locals
abbrev pub unsaved : Protocol → Protocol
unsaved pro = record pro { state = sw_start; tmp_data_len = 0 }

-- the same code, memory and record, but for saved locals that no later call reads
abbrev pub Agrees : Ret × Protocol × Mem → Ret × Protocol × Mem → Type 0
Agrees (r, pro, m) (r', pro', m') =
    (r ≡ r') × (m ≡ m') × (unsaved pro ≡ unsaved pro') × ((r ≢ protocol_ok) ⊎ (pro ≡ pro'))

conclude-saving :
    (st : State) (n : ℕ) (q : Ptr) (r : Step)
    → IsStop r
    → Agrees (conclude q r) (conclude q (map_step (saving st n) r))
unfolding conclude
conclude-saving st n q (next s) h = ground arith
conclude-saving st n q (stop r s) h = (refl, refl, refl, inl h)

finish_ok :
    (q : Ptr) (s : Scan) (pro : Protocol) (m : Mem)
    → finish q s ≡ (protocol_ok, pro, m)
    → enter pro m ≡ saving s.state s.data_len s
unfolding finish
finish_ok q s pro m h = ground arith

resume :
    (q e : Ptr) (n : ℕ) (buf : Ptr) (r : Step) (pro : Protocol) (m : Mem)
    → IsStop r
    → conclude q r ≡ (protocol_ok, pro, m)
    → Agrees (conclude e (and_then r (run n buf q))) (conclude e (run n buf q (enter pro m)))
unfolding conclude
resume q e n buf (next s) pro m h k =
    rw (finish_ok q s pro m k, run-saving s.state s.data_len n buf q s)
      (conclude-saving s.state s.data_len e (run n buf q s) (run-IsStop n buf q s))
resume q e n buf (stop r s) pro m h k = absurd (h (ap (λ t. t.0) k))

-- When a read gave PROTOCOL_OK and the next one goes on in the same buffer, the two calls have
-- the code, the memory and the record of one call over all the bytes. Only the saved locals may
-- differ, and only after a code other than PROTOCOL_OK.
pub protocol_parse-append :
    (pro : Protocol) (buf : Ptr) (mem : Mem) (a m n : ℕ) (pro' : Protocol) (mem' : Mem)
    → protocol_parse pro buf mem a m ≡ (protocol_ok, pro', mem')
    → Agrees (protocol_parse pro buf mem a (m + n)) (protocol_parse pro' buf mem' (a + m) n)
unfolding protocol_parse
protocol_parse-append pro buf mem a m n pro' mem' h =
    rw (run-append m n buf a (enter pro mem), ← add_assoc a m n)
      (resume (a + m) (a + m + n) n buf (run m buf a (enter pro mem)) pro' mem'
        (run-IsStop m buf a (enter pro mem)) h)
