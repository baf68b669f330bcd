-- ===== src/Tests/Inputs.antt =====
-- Inputs that the tests share: texts, and an allocator that never runs out.
use Prim.Native.Char.{code}
use Prim.Native.String.{String}
use xpipe.Base.{ℕ, ◌+◌, [], ◌∷◌, ◌≡◌, ◌≢◌, true, false, some, Bytes, leb, arith, null}
use xpipe.Allocator.{Allocator}
use xpipe.MemPool.Extents.{within}
use xpipe.Conf.Settings.{Env}

abbrev pub codes : String → Bytes
codes String.[] = []
codes (String.◌∷◌ c s) = code c ∷ codes s

pub endless-fresh :
    (n p : ℕ) → Unit {0} → p + 1 ≢ null → (a : ℕ) → within (p + 1) n a ≡ true → leb a p ≡ false
endless-fresh n p s nz a w = ground arith

pub endless-keeps : (n p : ℕ) → Unit {0} → (a : ℕ) → leb a p ≡ true → leb a (p + n + 1) ≡ true
endless-keeps n p s a w = ground arith

abbrev pub endless : Allocator
endless = record {
  Pool = ℕ;
  alloc = λ n p. (p + 1, p + n + 1);
  live = λ p a. leb a p;
  Sound = λ n p. Unit {0};
  fresh = endless-fresh;
  keeps = endless-keeps;
}

abbrev pub env : Env
env = record {
  allocator = endless;
  open_file = λ name. some 5;
  install_dir = codes "/opt/xpipe";
  default_pid_path = codes "/opt/xpipe/log/xpipe.pid";
}
