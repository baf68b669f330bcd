-- ===== src/Conf/Invariant.antt =====
-- What holds of the parser of src/conf_file.c between two bytes, and what a step ensures.
use xpipe.Base.{
  ℕ, ◌+◌, ◌≤◌, Bool, true, false, ◌||◌, [], ◌∷◌, some, Bytes, ◌≡◌, refl, sym, ◌∙◌, ◌==◌, length,
  if◌then◌else◌,
}
use xpipe.Xstring.{is_blank}
use xpipe.Conf.Settings.{Env, Module, main_mod, net_mod, Settings, Args}
use xpipe.Conf.Commands.{word}
use xpipe.Conf.Handlers.{HasConf}
use xpipe.Conf.Parser.{
  State, Parser, Step, next, fail, bad, and_then, sw_out, sw_comment, sw_mod_name,
  sw_mod_name_end_blank, sw_mod_block, sw_command, sw_command_blank,
}

-- how long the run of bytes without blanks and semicolons is behind `c`
abbrev pub run_length : ℕ → ℕ → ℕ
run_length k c = if is_blank c || c == b';' then 0 else k + 1

-- no such run, with `k` bytes of one in front, has more than 255 bytes
abbrev pub AllShort : ℕ → Bytes → Type 0
AllShort k [] = Unit
AllShort k (c ∷ cs) = (run_length k c ≤ 255) × AllShort (run_length k c) cs

module _ (env : Env) where
  pub HasConf-main :
      (m : Module) (s t : Settings env)
      → t.main ≡ s.main
      → t.net ≡ s.net
      → HasConf env m s
      → HasConf env m t
  HasConf-main main_mod s t e k h = λ n. h (sym e ∙ n)
  HasConf-main net_mod s t e k h = λ n. h (sym k ∙ n)

  -- a module is open and has its configuration
  abbrev pub Ready : Parser env → Type 0
  Ready p = (m : Module) × (p.mod_of ≡ some m) × HasConf env m p.settings

  abbrev pub HasArgs : Parser env → Type 0
  HasArgs p = (a : Args) × (p.cmd_args ≡ some a)

  abbrev pub HasWord : Parser env → Type 0
  HasWord p = (a : Args) × (w : Bytes) × (p.cmd_args ≡ some a) × (word a 0 ≡ some w)

  -- where a comment goes back to
  abbrev pub Resumes : State → Parser env → Type 0
  Resumes sw_out p = Unit
  Resumes sw_mod_block p = Ready p
  Resumes sw_mod_name_end_blank p = Ready p
  Resumes _ p = ⊥

  -- between two bytes, in each state; the other states last no byte
  abbrev pub StateInv : State → Parser env → ℕ → Type 0
  StateInv sw_out p k = p.key ≡ []
  StateInv sw_comment p k = (p.key ≡ []) × Resumes p.old_state p
  StateInv sw_mod_name p k = length p.key ≤ k
  StateInv sw_mod_name_end_blank p k = (p.key ≡ []) × Ready p
  StateInv sw_mod_block p k = (p.key ≡ []) × Ready p
  StateInv sw_command p k = (length p.key ≤ k) × Ready p × HasArgs p
  StateInv sw_command_blank p k = (p.key ≡ []) × Ready p × HasWord p
  StateInv _ p k = ⊥

  -- the step fails, or goes on with a parser that has the property
  abbrev pub Ensures : (Parser env → Type 0) → Step env → Type 0
  Ensures P (next q) = P q
  Ensures P (fail q) = Unit
  Ensures P bad = ⊥

  pub Ensures-and_then :
      (P Q : Parser env → Type 0) (r : Step env) (k : Parser env → Step env)
      → Ensures P r
      → ((q : Parser env) → P q → Ensures Q (k q))
      → Ensures Q (and_then env r k)
  Ensures-and_then P Q (next q) k h f = f q h
  Ensures-and_then P Q (fail q) k h f = tt
  Ensures-and_then P Q bad k h f = absurd h

  pub Ensures-mono :
      (P Q : Parser env → Type 0) (r : Step env)
      → Ensures P r
      → ((q : Parser env) → P q → Q q)
      → Ensures Q r
  Ensures-mono P Q (next q) h f = f q h
  Ensures-mono P Q (fail q) h f = tt
  Ensures-mono P Q bad h f = absurd h

  pub Ensures-if :
      (P : Parser env → Type 0) (b : Bool) (x y : Step env)
      → (b ≡ true → Ensures P x)
      → (b ≡ false → Ensures P y)
      → Ensures P (if b then x else y)
  Ensures-if P true x y f g = f refl
  Ensures-if P false x y f g = g refl
