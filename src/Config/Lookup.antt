-- ===== src/Config/Lookup.antt =====
-- The value of a parameter, against the path of names through the JSON value.
use kuro_net.Logger.Clock.{current_time}
use kuro_net.Prelude.{
  ◌≡◌, ◌↔◌, refl, ap, ◌∙◌, true, false, some, inl, inr, List, [], ◌∷◌, ◌++◌, All, Bool-cases,
}
use kuro_net.Text.{Bytes, codes}
use kuro_net.Exec.{ok, throw, runtime_error, ◌>>=◌, lift, bind-eq-ok, Outcome-cases}
use kuro_net.Logger.{error}
use kuro_net.Logger
use kuro_net.Config.{
  Environment, System, descend, text_of, get_parameter_value_str, ensure_config, read_root, missing,
  not_found,
}
use kuro_net.Config.Parts.{join, IsDotless, parts_of-join}

-- From a value, the names lead to a value: each is a member of the value before.
pub data Leads (env : Environment) : env.Value → List Bytes → env.Value → Type 0 where
  here : {v : env.Value} → Leads env v [] v
  through :
      {v u t : env.Value} {part : Bytes} {parts : List Bytes}
      → env.is_member part v ≡ ok true
      → env.member part v ≡ ok u
      → Leads env u parts t
      → Leads env v (part ∷ parts) t

module _ {env : Environment} where
  Leads-here : (v t : env.Value) → v ≡ t → Leads env v [] t
  Leads-here v t e = rw e here

  descend-Leads :
      {v t : env.Value} {parts : List Bytes} (s : System env)
      → Leads env v parts t
      → descend parts v s ≡ (ok t, s)
  unfolding descend
  descend-Leads s here = refl
  descend-Leads s (through is_in next rest) = rw (descend, is_in, next) (descend-Leads s rest)

  -- A round of the loop that goes on has gone to a member.
  descend_round :
      (part : Bytes) (parts : List Bytes) (v t : env.Value) (s s' : System env)
      → descend (part ∷ parts) v s ≡ (ok t, s')
      → (u : env.Value) × (env.is_member part v ≡ ok true)
        × (env.member part v ≡ ok u)
        × (descend parts u s ≡ (ok t, s'))
  unfolding descend
  descend_round part parts v t s s' h = elim (Outcome-cases (env.is_member part v)) [
    | inl (is_in, e) ↦ elim (Bool-cases is_in) [
      | inl yes_in ↦ elim (Outcome-cases (env.member part v)) [
        | inl (u, next) ↦ (u, e ∙ ap ok yes_in, next, rw (e, yes_in, next, descend) at h)
        | inr (inl (ex, bad)) ↦ cc (rw (e, yes_in, bad, descend) at h)
        | inr (inr bad) ↦ cc (rw (e, yes_in, bad, descend) at h)
      ]
      | inr not_in ↦ cc (rw (e, not_in, descend) at h)
    ]
    | inr (inl (ex, bad)) ↦ cc (rw (bad, descend) at h)
    | inr (inr bad) ↦ cc (rw (bad, descend) at h)
  ]

  -- The loop has reached a value only by members, and has changed nothing.
  descend_reaches :
      (parts : List Bytes) (v t : env.Value) (s s' : System env)
      → descend parts v s ≡ (ok t, s')
      → Leads env v parts t × (s' ≡ s)
  unfolding descend
  descend_reaches [] v t s s' h = (Leads-here v t (cc h), cc h)
  descend_reaches (part ∷ parts) v t s s' h =
      let (u, is_in, next, rest) = descend_round part parts v t s s' h in
      let (leads, same) = descend_reaches parts u t s s' rest in (through is_in next leads, same)

  -- A path that breaks off: the loop throws, and logs the part.
  descend_missing :
      {v t : env.Value} {path : List Bytes} (part : Bytes) (parts : List Bytes) (s : System env)
      → Leads env v path t
      → env.is_member part t ≡ ok false
      → descend (path ++ part ∷ parts) v s ≡ (
        throw (runtime_error (codes "KuroNet System Error")),
        record s {
          logger = Logger.log (current_time env.clock) error (not_found env part) s.logger;
        },
      )
  unfolding descend missing
  descend_missing part parts s here absent = rw (absent, descend) refl
  descend_missing part parts s (through is_in next rest) absent =
      rw (is_in, next, descend) (descend_missing part parts s rest absent)

module _ {env : Environment} (s : System env) (raw : Bytes) (root : env.Value)
    (seen : s.conf_file_exist ≡ true) (opens : env.content s.conf_path s.files ≡ some raw)
    (parsed : env.parse raw ≡ ok (inr root)) (part : Bytes) (parts : List Bytes)
    (dotless : All IsDotless (part ∷ parts)) where
  ensured : ensure_config s ≡ (ok tt, s)
  unfolding ensure_config
  ensured = simp seen

  root_read : read_root s ≡ (ok root, s)
  unfolding read_root
  root_read = rw (opens, parsed, read_root) refl

  get-descend :
      get_parameter_value_str (join part parts) s
      ≡ (descend (part ∷ parts) root >>= λ current. lift (text_of env current)) s
  unfolding get_parameter_value_str
  get-descend = simp (ensured, root_read, parts_of-join part parts dotless.0 dotless.1)

  -- Once the file is seen, opens and parses: asking for names with dots between them returns a text
  -- exactly if the names lead from the root to a value whose text it is. Nothing changes then.
  pub get_parameter_value_str_iff :
      (text : Bytes) (s' : System env)
      → (get_parameter_value_str (join part parts) s ≡ (ok text, s')) ↔ (
          (s' ≡ s)
          × ((t : env.Value) × Leads env root (part ∷ parts) t × (text_of env t ≡ ok text)))
  get_parameter_value_str_iff text s' = (reached, returned)
    where
      reached :
          get_parameter_value_str (join part parts) s ≡ (ok text, s')
          → (s' ≡ s)
            × ((t : env.Value) × Leads env root (part ∷ parts) t × (text_of env t ≡ ok text))
      reached h =
          let (t, e, rest) =
            bind-eq-ok (descend (part ∷ parts) root) (λ current. lift (text_of env current)) s
              (rw get-descend at h) in
          let (leads, same) =
            descend_reaches (part ∷ parts) root t s (descend (part ∷ parts) root s).1 (cc e) in
          (cc, (t, leads, cc))

      returned :
          (s' ≡ s) × ((t : env.Value) × Leads env root (part ∷ parts) t × (text_of env t ≡ ok text))
          → get_parameter_value_str (join part parts) s ≡ (ok text, s')
      returned (same, (t, leads, told)) = rw (get-descend, descend-Leads s leads, told, same) refl

  -- Where the names lead to a value that lacks the next one, the call throws and logs that name; the
  -- rest of the names plays no part.
  pub get_parameter_value_str_missing :
      (path rest : List Bytes) (missed : Bytes) (t : env.Value)
      → part ∷ parts ≡ path ++ missed ∷ rest
      → Leads env root path t
      → env.is_member missed t ≡ ok false
      → get_parameter_value_str (join part parts) s ≡ (
        throw (runtime_error (codes "KuroNet System Error")),
        record s {
          logger = Logger.log (current_time env.clock) error (not_found env missed) s.logger;
        },
      )
  get_parameter_value_str_missing path rest missed t e leads absent =
      rw (get-descend, e, descend_missing missed rest s leads absent) refl
