-- ===== src/Config/File.antt =====
-- What becomes of the configuration file when a parameter is asked for.
use kuro_net.Prelude.{◌≡◌, inl, inr, refl, ap, ◌∙◌, true, false, none, Bool-cases, sym, if_false}
use mathlib.Core.Path.{subst}
use kuro_net.Text.{Bytes, codes}
use kuro_net.Exec.{
  Exec, Outcome, ok, throw, undefined, Exception, runtime_error, pure, after, Outcome-cases,
}
use kuro_net.Config.{
  Environment, System, ensure_config, assert_seen, config_json_is_exist, get_parameter_value_str,
  read_root,
}

module _ (env : Environment) where
  abbrev target : Bytes
  target = env.config_file_path

  abbrev template : Bytes
  template = env.default_config_file_path

  -- How the file came to be there: in the call, with the state before it and after it.
  pub data Provided (s t : System env) : Type 0 where
    found : env.exists target s.files ≡ ok true → t.files ≡ s.files → Provided s t
    copied :
        env.exists target s.files ≡ ok false
        → env.exists template s.files ≡ ok true
        → env.copy template target s.files ≡ (ok tt, t.files)
        → Provided s t

  -- Why a call ends with no file: the file system does not answer, there is no template, or the
  -- template is not copied.
  pub data Refused (s t : System env) (e : Exception) : Type 0 where
    no_answer : env.exists target s.files ≡ throw e → t.files ≡ s.files → Refused s t e
    no_answer_on_template :
        env.exists target s.files ≡ ok false
        → env.exists template s.files ≡ throw e
        → t.files ≡ s.files
        → Refused s t e
    no_template :
        env.exists target s.files ≡ ok false
        → env.exists template s.files ≡ ok false
        → e ≡ runtime_error (codes "Missing config.default.json!")
        → t.files ≡ s.files
        → Refused s t e
    not_copied :
        env.exists target s.files ≡ ok false
        → env.exists template s.files ≡ ok true
        → env.copy template target s.files ≡ (throw e, t.files)
        → Refused s t e

  -- The outcomes of a first call. `undefined` is left to the file system.
  abbrev pub Ensures : System env → Outcome (Unit {0}) × System env → Type 0
  Ensures s (ok u, t) = (t.conf_file_exist ≡ true) × (t.conf_path ≡ target) × Provided s t
  Ensures s (throw e, t) = (t.conf_file_exist ≡ false) × (t.conf_path ≡ target) × Refused s t e
  Ensures s (undefined, t) = t.conf_file_exist ≡ false

  -- Behind the answer that there is no file.
  copies-Ensures :
      (s : System env)
      → s.conf_file_exist ≡ false
      → env.exists target s.files ≡ ok false
      → Ensures s (config_json_is_exist s)
  unfolding config_json_is_exist
  copies-Ensures s unseen absent = elim (Outcome-cases (env.exists template s.files)) [
    | inl (there, e) ↦ elim (Bool-cases there) [
      | inl is_there ↦ elim (Outcome-cases ((env.copy template target s.files).0)) [
        | inl (u, done) ↦
            simp (absent, e, is_there, done)
              (
                refl,
                refl,
                copied absent (e ∙ ap ok is_there)
                    (ap (λ r. (r, (env.copy template target s.files).1)) done),
              )
        | inr (inl (ex, bad)) ↦
            simp (absent, e, is_there, bad)
              (
                unseen,
                refl,
                not_copied absent (e ∙ ap ok is_there)
                    (ap (λ r. (r, (env.copy template target s.files).1)) bad),
              )
        | inr (inr bad) ↦ simp (absent, e, is_there, bad) unseen
      ]
      | inr not_there ↦
          simp (absent, e, not_there)
            (unseen, refl, no_template absent (e ∙ ap ok not_there) refl refl)
    ]
    | inr (inl (ex, bad)) ↦ simp (absent, bad) (unseen, refl, no_answer_on_template absent bad refl)
    | inr (inr bad) ↦ simp (absent, bad) unseen
  ]

  answers-Ensures :
      (s : System env) → s.conf_file_exist ≡ false → Ensures s (config_json_is_exist s)
  unfolding config_json_is_exist
  answers-Ensures s unseen = elim (Outcome-cases (env.exists target s.files)) [
    | inl (there, e) ↦ elim (Bool-cases there) [
      | inl is_there ↦ simp (e, is_there) (refl, refl, found (e ∙ ap ok is_there) refl)
      | inr not_there ↦ copies-Ensures s unseen (e ∙ ap ok not_there)
    ]
    | inr (inl (ex, bad)) ↦ simp bad (unseen, refl, no_answer bad refl)
    | inr (inr bad) ↦ simp bad unseen
  ]

  asserts-Ensures :
      (s t : System env) (r : Outcome (Unit {0}))
      → Ensures s (r, t)
      → Ensures s (after (r, t) (λ _. assert_seen))
  unfolding assert_seen
  asserts-Ensures s t (ok u) h = simp h.0 (refl, h.1, h.2)
  asserts-Ensures s t (throw e) h = h
  asserts-Ensures s t undefined h = h

  -- Every outcome of a first call, up to where the file is opened. It returns: the file was there, or
  -- the template was copied to it, and the file counts as seen. It throws: for one of four reasons, and
  -- the file counts as not seen, so that the next call tries again.
  pub ensure_config-Ensures :
      (s : System env) → s.conf_file_exist ≡ false → Ensures s (ensure_config s)
  unfolding ensure_config
  ensure_config-Ensures s unseen =
      let outcome = config_json_is_exist s in
      subst (Ensures s)
        (sym (
          ap (λ (m : Exec (System env) (Unit {0})). m s)
            (if_false s.conf_file_exist (pure tt) _ unseen)))
        (asserts-Ensures s (outcome.1) (outcome.0) (answers-Ensures s unseen))

  -- A file that was seen and does not open any more, say because it was deleted: every call throws, and
  -- none makes the file again from the template.
  pub deleted_stays :
      (param : Bytes) (s : System env)
      → s.conf_file_exist ≡ true
      → env.content s.conf_path s.files ≡ none
      → get_parameter_value_str param s
        ≡ (throw (runtime_error (codes "Can't open config file")), s)
  unfolding get_parameter_value_str ensure_config read_root
  deleted_stays param s seen closed = simp seen (rw (closed, read_root) refl)
