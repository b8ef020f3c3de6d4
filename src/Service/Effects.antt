-- ===== src/Service/Effects.antt =====
-- What the operations of the service manager do to the service and to the files.
use bksd.Base.{
  ◌≡◌, ◌≢◌, refl, ap, ◌∙◌, String, Bool, true, false, Option, some, List, [], ◌∷◌, Result, ok, err,
}
use bksd.Base.Programs.{
  ◌>>=◌, lift, context, Ensures, Ensures-bind, Ensures-context, Ensures-both, Ensures-lift,
  Ensures-unit,
}
use bksd.Storage.{FilePath, show_path}
use bksd.Service.{
  AppConfig, System, Act, config_path, service_path, service_content, command, must_succeed, start,
  restart, daemon_reload, enable, create_directories, write_config, write_service_file,
  install_and_start, update_config_and_restart,
}

-- The configuration and the service file are the same in two states.
abbrev pub KeepsFiles :
    {State : Type 0} → (FilePath → State → Option String) → State → State → Type 0
KeepsFiles file s t =
    (file config_path t ≡ file config_path s) × (file service_path t ≡ file service_path s)

-- The service's state and the files, and what the manager relies on: writing fills one file, commands
-- leave the configuration and the service file, and a start or a restart that succeeds leaves the
-- service active.
pub record IsSystem (X : System) (active : X.State → Bool)
    (file : FilePath → X.State → Option String) : Type 0 where
  pub create_keeps : (p q : FilePath) (s : X.State) → file q (X.create_dir_all p s).1 ≡ file q s
  pub write_fills :
      (p : FilePath) (text : String) (s : X.State)
      → Ensures (λ _ t. file p t ≡ some text) (X.write p text s)
  pub write_keeps :
      (p q : FilePath) (text : String) (s : X.State)
      → p ≢ q
      → file q (X.write p text s).1 ≡ file q s
  pub systemctl_keeps :
      (args : List String) (s : X.State) → KeepsFiles file s (X.systemctl args s).1
  pub is_active :
      (s : X.State) → Ensures (λ b t. active t ≡ b) (X.systemctl ("is-active" ∷ "bksd" ∷ []) s)
  pub starts :
      (s : X.State)
      → Ensures (λ b t. b ≡ true → active t ≡ true) (X.systemctl ("start" ∷ "bksd" ∷ []) s)
  pub restarts :
      (s : X.State)
      → Ensures (λ b t. b ≡ true → active t ≡ true) (X.systemctl ("restart" ∷ "bksd" ∷ []) s)

module _ (X : System) (active : X.State → Bool) (file : FilePath → X.State → Option String)
    (laws : IsSystem X active file) where
  -- Both files are those of `s`.
  abbrev pub Keeps : X.State → X.State → Type 0
  Keeps s t = KeepsFiles file s t

  command-Ensures :
      (P : X.State → Type 0) (args : List String) (shown failure : String) (s : X.State)
      → Ensures (λ b t. b ≡ true → P t) (X.systemctl args s)
      → Ensures (λ _ t. P t × Keeps s t) (command X args shown failure s)
  command-Ensures P args shown failure s h =
      Ensures-bind (λ b t. (b ≡ true → P t) × Keeps s t) _ (context shown (X.systemctl args))
        (must_succeed X failure) s
        (Ensures-context _ shown (X.systemctl args) s
          (Ensures-both _ _ (X.systemctl args s) h (λ b. laws.systemctl_keeps args s)))
        succeeds
    where
      succeeds :
          (b : Bool) (t : X.State)
          → (b ≡ true → P t) × Keeps s t
          → Ensures (λ _ u. P u × Keeps s u) (must_succeed X failure b t)
      succeeds true t h = (h.0 refl, h.1)
      succeeds false t h = tt

  command-Keeps :
      (args : List String) (shown failure : String) (s : X.State)
      → Ensures (λ _ t. Unit {0} × Keeps s t) (command X args shown failure s)
  command-Keeps args shown failure s =
      command-Ensures (λ _. Unit {0}) args shown failure s (weaker (X.systemctl args s))
    where
      weaker : (r : Result String Bool × X.State) → Ensures (λ b t. b ≡ true → Unit {0}) r
      weaker (ok b, t) = λ _. tt
      weaker (err e, t) = tt

  -- The configuration and the service file on the disk are those of a configuration.
  pub record IsConfigured (config : AppConfig) (t : X.State) : Type 0 where
    pub text : String
    pub exe : FilePath
    pub printed : X.toml_text config ≡ ok text
    pub located : X.current_exe ≡ ok exe
    pub config_file : file config_path t ≡ some text
    pub service_file :
        file service_path t ≡ some (service_content (show_path exe) config.backup_directory)

  pub IsConfigured-Keeps :
      (config : AppConfig) (s t : X.State)
      → Keeps s t
      → IsConfigured config s
      → IsConfigured config t
  IsConfigured-Keeps config s t same h = record {
    text = h.text;
    exe = h.exe;
    printed = h.printed;
    located = h.located;
    config_file = same.0 ∙ h.config_file;
    service_file = same.1 ∙ h.service_file;
  }

  abbrev HasConfig : AppConfig → X.State → Type 0
  HasConfig config t =
      (text : String) × (X.toml_text config ≡ ok text) × (file config_path t ≡ some text)

  write_config-Ensures :
      (config : AppConfig) (s : X.State)
      → Ensures (λ _ t. HasConfig config t) (write_config X config s)
  unfolding write_config
  write_config-Ensures config s =
      Ensures-bind _ _ (context "Failed to serialize config" (lift (X.toml_text config)))
        (λ content. context "Failed to write config file" (X.write config_path content)) s
        (Ensures-context _ "Failed to serialize config" (lift (X.toml_text config)) s
          (Ensures-lift (X.toml_text config) s))
        (λ content t h.
          Ensures-context _ "Failed to write config file" (X.write config_path content) t (
            filled content h.0 (X.write config_path content t)
              (laws.write_fills config_path content t)))
    where
      filled :
          (content : String)
          → X.toml_text config ≡ ok content
          → (r : Result String (Unit {0}) × X.State)
          → Ensures (λ _ u. file config_path u ≡ some content) r
          → Ensures (λ _ u. HasConfig config u) r
      filled content e (ok _, u) h = (content, e, h)
      filled content e (err x, u) h = tt

  write_service_file-Ensures :
      (config : AppConfig) (s : X.State)
      → HasConfig config s
      → Ensures (λ _ t. IsConfigured config t) (write_service_file X config s)
  unfolding write_service_file
  write_service_file-Ensures config s (text, printed, old) =
      Ensures-bind _ _ (context "Failed to determine binary path" (lift X.current_exe)) _ s
        (Ensures-context _ "Failed to determine binary path" (lift X.current_exe) s
          (Ensures-lift X.current_exe s))
        (λ exe t h.
          let content = service_content (show_path exe) config.backup_directory in
          Ensures-context _ "Failed to write service file" (X.write service_path content) t (
            filled exe h.0 (X.write service_path content t)
              (laws.write_fills service_path content t)
              (laws.write_keeps service_path config_path content t (λ e. cc e)
                ∙ (ap (file config_path) h.1 ∙ old))))
    where
      filled :
          (exe : FilePath)
          → X.current_exe ≡ ok exe
          → (r : Result String (Unit {0}) × X.State)
          → Ensures
              (λ _ u.
                file service_path u
                ≡ some (service_content (show_path exe) config.backup_directory))
              r
          → file config_path r.1 ≡ some text
          → Ensures (λ _ u. IsConfigured config u) r
      filled exe e (ok _, u) h k = record {
        text = text;
        exe = exe;
        printed = printed;
        located = e;
        config_file = k;
        service_file = h;
      }
      filled exe e (err x, u) h k = tt

  -- What a start or a restart leaves.
  abbrev pub IsUp : AppConfig → X.State → Type 0
  IsUp config t = (active t ≡ true) × IsConfigured config t

  up :
      (config : AppConfig) (args : List String) (shown failure : String) (s : X.State)
      → Ensures (λ b t. b ≡ true → active t ≡ true) (X.systemctl args s)
      → IsConfigured config s
      → Ensures (λ _ t. IsUp config t) (command X args shown failure s)
  up config args shown failure s h configured =
      go (command X args shown failure s)
        (command-Ensures (λ t. active t ≡ true) args shown failure s h)
    where
      go :
          (r : Result String (Unit {0}) × X.State)
          → Ensures (λ _ t. (active t ≡ true) × Keeps s t) r
          → Ensures (λ _ t. IsUp config t) r
      go (ok _, t) k = (k.0, IsConfigured-Keeps config s t k.1 configured)
      go (err e, t) k = tt

  -- A command in between.
  then_configured :
      (config : AppConfig) (args : List String) (shown failure : String)
      (next : (Unit {0}) → Act X (Unit {0})) (s : X.State)
      → IsConfigured config s
      → ((t : X.State) → IsConfigured config t → Ensures (λ _ u. IsUp config u) (next tt t))
      → Ensures (λ _ u. IsUp config u) ((command X args shown failure >>= next) s)
  then_configured config args shown failure next s h k =
      Ensures-bind (λ _ t. Unit {0} × Keeps s t) _ (command X args shown failure) next s
        (command-Keeps args shown failure s) (λ _ t q. k t (IsConfigured-Keeps config s t q.1 h))

  pub start-IsActive : (s : X.State) → Ensures (λ _ t. (active t ≡ true) × Keeps s t) (start X s)
  unfolding start
  start-IsActive s = command-Ensures (λ t. active t ≡ true) _ _ _ s (laws.starts s)

  pub update_config_and_restart-IsUp :
      (config : AppConfig) (s : X.State)
      → Ensures (λ _ t. IsUp config t) (update_config_and_restart X config s)
  unfolding update_config_and_restart daemon_reload restart
  update_config_and_restart-IsUp config s =
      Ensures-bind _ _ (write_config X config) _ s (write_config-Ensures config s) (λ _ t h.
        Ensures-bind _ _ (write_service_file X config) _ t (write_service_file-Ensures config t h)
          (λ _ u k.
            then_configured config _ _ _ _ u k (λ v l. up config _ _ _ v (laws.restarts v) l)))

  pub install_and_start-IsUp :
      (config : AppConfig) (s : X.State)
      → Ensures (λ _ t. IsUp config t) (install_and_start X config s)
  unfolding install_and_start daemon_reload enable start
  install_and_start-IsUp config s =
      Ensures-bind (λ _ t. Unit {0}) _ (create_directories X) _ s
        (Ensures-unit (create_directories X s))
        (λ _ r _.
          Ensures-bind _ _ (write_config X config) _ r (write_config-Ensures config r) (λ _ t h.
            Ensures-bind _ _ (write_service_file X config) _ t
              (write_service_file-Ensures config t h)
              (λ _ u k. then_configured config _ _ _ _ u k (λ v l.
                then_configured config _ _ _ _ v l (λ w m. up config _ _ _ w (laws.starts w) m)))))
