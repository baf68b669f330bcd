-- ===== src/Conf/Numbers.antt =====
-- The numeric commands of src/net/network.c take a numeral, and nothing else.
use xpipe.Base.{
  ℕ, List, [], ◌∷◌, some, Bytes, ◌≡◌, ◌↔◌, refl, arith, Bool-cases, inl, inr, not, if◌then◌else◌,
}
use xpipe.Xstring.{is_positive_integer, atoi}
use xpipe.Xstring.Integer.{IsNumeral, is_positive_integer_iff}
use xpipe.Conf.Settings.{Env, Settings, NetConf, Outcome, ok, err, fault, Args}
use xpipe.Conf.Commands.{cmd_listen_set, cmd_connecions_set, cmd_request_buffer_size_set}

module _ (env : Env) where
  -- the call succeeds with the settings `t`
  abbrev pub Succeeds : Outcome env → Settings env → Type 0
  Succeeds (ok s) t = s ≡ t
  Succeeds (err s) t = ⊥
  Succeeds fault t = ⊥

  -- the words are a name and a numeral, and the settings come from its value
  abbrev pub TakesNumeral : List Bytes → (ℕ → Settings env) → Settings env → Type 0
  TakesNumeral ws f t =
      (name : Bytes) × (arg : Bytes) × (ws ≡ name ∷ arg ∷ []) × IsNumeral arg × (f (atoi arg) ≡ t)

  -- how the three commands are written
  abbrev numeric : List Bytes → (ℕ → Settings env) → Settings env → Outcome env
  numeric (name ∷ arg ∷ []) f s =
      if not (is_positive_integer (some arg)) then err s else ok (f (atoi arg))
  numeric _ f s = err s

  numeric_iff :
      (ws : List Bytes) (f : ℕ → Settings env) (s t : Settings env)
      → Succeeds (numeric ws f s) t ↔ TakesNumeral ws f t
  numeric_iff [] f s t = (λ h. absurd h, λ (n, w, e, k, h). cc)
  numeric_iff (a ∷ []) f s t = (λ h. absurd h, λ (n, w, e, k, h). cc)
  numeric_iff (a ∷ b ∷ c ∷ ws) f s t = (λ h. absurd h, λ (n, w, e, k, h). cc)
  numeric_iff (a ∷ b ∷ []) f s t = elim (Bool-cases (is_positive_integer (some b))) [
    | inl e ↦ rw e (
      (λ h. (a, b, refl, (is_positive_integer_iff b).0 e, h)),
      (λ (n, w, k, num, h). ground (arith, k, h)),
    )
    | inr e ↦ rw e (
      (λ h. absurd h),
      (λ (n, w, k, num, h). let p = (is_positive_integer_iff w).1 num in ground (arith, k, p, e)),
    )
  ]

  listen-numeric :
      (a : Args) (cf : NetConf) (s : Settings env)
      → cmd_listen_set env a cf s
        ≡ numeric a.words (λ n. record s { net = some (record cf { port = n }) }) s
  unfolding cmd_listen_set
  listen-numeric a cf s = ground arith

  connections-numeric :
      (a : Args) (cf : NetConf) (s : Settings env)
      → cmd_connecions_set env a cf s
        ≡ numeric a.words (λ n. record s { net = some (record cf { conns = n }) }) s
  unfolding cmd_connecions_set
  connections-numeric a cf s = ground arith

  request_buffer_size-numeric :
      (a : Args) (cf : NetConf) (s : Settings env)
      → cmd_request_buffer_size_set env a cf s
        ≡ numeric a.words (λ n. record s { net = some (record cf { request_buffer_size = n }) }) s
  unfolding cmd_request_buffer_size_set
  request_buffer_size-numeric a cf s = ground arith

  -- Each of `listen`, `connections` and `request_buffer_size` succeeds exactly if its words are
  -- its name and one numeral (a digit from 1 to 9 and then digits), and then stores the numeral's
  -- value by `atoi` in its own field and changes nothing else.
  pub numeric_command_iff :
      (a : Args) (cf : NetConf) (s t : Settings env)
      → (Succeeds (cmd_listen_set env a cf s) t
          ↔ TakesNumeral a.words (λ n. record s { net = some (record cf { port = n }) }) t)
        × (Succeeds (cmd_connecions_set env a cf s) t
            ↔ TakesNumeral a.words (λ n. record s { net = some (record cf { conns = n }) }) t)
        × (Succeeds (cmd_request_buffer_size_set env a cf s) t
            ↔ TakesNumeral a.words
                (λ n. record s { net = some (record cf { request_buffer_size = n }) })
                t)
  numeric_command_iff a cf s t = (
    rw (listen-numeric a cf s) (numeric_iff a.words _ s t),
    rw (connections-numeric a cf s) (numeric_iff a.words _ s t),
    rw (request_buffer_size-numeric a cf s) (numeric_iff a.words _ s t),
  )
