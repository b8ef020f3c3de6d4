-- ===== src/Service/Started.antt =====
-- What `bksd start` has done when it ends without an error.
use bksd.Base.{
  ◌≡◌, refl, ◌∙◌, String, Bool, true, false, not, Option, none, some, Result, ok, err,
  if◌then◌else◌,
}
use bksd.Base.Programs.{◌>>=◌, return, lift, Ensures, Ensures-bind, Ensures-context, continue}
use bksd.Storage.{FilePath}
use bksd.Service.{
  AppConfig, System, Act, configs_differ, is_installed, is_running, load_current_config, start,
  install_and_start, update_config_and_restart,
}
use bksd.Service.Command.{
  StartOutcome, StartRequest, installed, restarted, started, restart_if, ask, with_state,
  check_root_privileges, prompt_restart, run_start,
}
use bksd.Service.Effects.{
  IsSystem, IsConfigured, IsUp, start-IsActive, update_config_and_restart-IsUp,
  install_and_start-IsUp, Keeps,
}

module _ (X : System) (active : X.State → Bool) (file : FilePath → X.State → Option String)
    (laws : IsSystem X active file) where
  module _ (request : StartRequest) (before : X.State) where
    -- By what the command says: whether the service was installed before, and whether the files are
    -- those of the new configuration or as they were.
    abbrev pub IsChange : AppConfig → StartOutcome → X.State → Type 0
    IsChange config installed t =
        (is_installed X before ≡ false) × IsConfigured X active file laws config t
    IsChange config restarted t =
        (is_installed X before ≡ true) × IsConfigured X active file laws config t
    IsChange config _ t = (is_installed X before ≡ true) × Keeps X active file laws before t

    abbrev pub IsStarted : StartOutcome → X.State → Type 0
    IsStarted outcome t =
        (active t ≡ true)
        × ((config : AppConfig) × (request.new_config ≡ ok config) × IsChange config outcome t)

    -- The state is that before, but for what the service's own commands change.
    abbrev pub Since : X.State → Type 0
    Since t = (is_installed X before ≡ true) × Keeps X active file laws before t

    module _ (config : AppConfig) (given : request.new_config ≡ ok config) where
      reported :
          (outcome : StartOutcome) (m : Act X (Unit {0})) (s : X.State)
          → Ensures (λ _ t. (active t ≡ true) × IsChange config outcome t) (m s)
          → Ensures IsStarted ((m >>= λ _. return outcome) s)
      reported outcome m s h =
          Ensures-bind _ _ m (λ _. return outcome) s h (λ _ t k. (k.0, (config, given, k.1)))

      configured :
          (b : Bool) (r : Result String (Unit {0}) × X.State)
          → is_installed X before ≡ b
          → Ensures (λ _ t. IsUp X active file laws config t) r
          → Ensures
              (λ _ t.
                (active t ≡ true)
                × ((is_installed X before ≡ b) × IsConfigured X active file laws config t))
              r
      configured b (ok _, t) e h = (h.0, (e, h.1))
      configured b (err x, t) e h = tt

      restart_if-IsStarted :
          (b : Bool) (s : X.State)
          → active s ≡ true
          → Since s
          → Ensures IsStarted (restart_if X request config b s)
      restart_if-IsStarted true s up h =
          reported restarted (update_config_and_restart X config) s
            (configured true _ h.0 (update_config_and_restart-IsUp X active file laws config s))
      restart_if-IsStarted false s up h = (up, (config, given, h))

      ask-IsStarted :
          (s : X.State) → active s ≡ true → Since s → Ensures IsStarted (ask X request config s)
      ask-IsStarted s up h = go (if request.yes_flag then ok true else prompt_restart request)
        where
          go :
              (r : Result String Bool)
              → Ensures IsStarted ((lift r >>= restart_if X request config) s)
          go (ok b) = restart_if-IsStarted b s up h
          go (err e) = tt

      either :
          (b : Bool) (x y : Result String StartOutcome × X.State)
          → Ensures IsStarted x
          → Ensures IsStarted y
          → Ensures IsStarted (if b then x else y)
      either true x y hx hy = hx
      either false x y hx hy = hy

      either_act :
          (b : Bool) (x y : Act X StartOutcome) (s : X.State)
          → Ensures IsStarted (x s)
          → Ensures IsStarted (y s)
          → Ensures IsStarted ((if b then x else y) s)
      either_act true x y s hx hy = hx
      either_act false x y s hx hy = hy

      with_state-IsStarted :
          (running : Bool) (o : Option AppConfig) (s : X.State)
          → active s ≡ running
          → Since s
          → Ensures IsStarted (with_state X request config running o s)
      with_state-IsStarted true (some current) s up h =
          either_act (configs_differ current config) (ask X request config) _ s
            (ask-IsStarted s up h) (up, (config, given, h))
      with_state-IsStarted true none s up h = (up, (config, given, h))
      with_state-IsStarted false current s up h =
          reported started (start X) s (go (start X s) (start-IsActive X active file laws s))
        where
          go :
              (r : Result String (Unit {0}) × X.State)
              → Ensures (λ _ t. (active t ≡ true) × Keeps X active file laws s t) r
              → Ensures (λ _ t. (active t ≡ true) × IsChange config started t) r
          go (ok _, t) k = (k.0, (h.0, (k.1.0 ∙ h.1.0, k.1.1 ∙ h.1.1)))
          go (err e, t) k = tt

      running_state :
          (r : Result String Bool × X.State)
          → is_installed X before ≡ true
          → Ensures (λ b t. active t ≡ b) r
          → Keeps X active file laws before r.1
          → Ensures IsStarted (
              continue r λ running s.
                (lift (load_current_config X s) >>= with_state X request config running) s)
      running_state (err e, t) old h k = tt
      running_state (ok running, t) old h k = go (load_current_config X t)
        where
          go :
              (c : Result String (Option AppConfig))
              → Ensures IsStarted ((lift c >>= with_state X request config running) t)
          go (ok current) = with_state-IsStarted running current t h (old, k)
          go (err e) = tt

      is_running-Ensures :
          Ensures (λ b t. active t ≡ b) (is_running X before)
          × Keeps X active file laws before (is_running X before).1
      unfolding is_running
      is_running-Ensures = (
        Ensures-context _ "Failed to check service status" (X.systemctl _) before
            (laws.is_active before),
        laws.systemctl_keeps _ before,
      )

    -- If `bksd start` ends without an error then the service is active. It says that it installed the
    -- service only if it was not installed, and that it restarted it, kept its configuration, found
    -- it running or started it only if it was. Behind an installation or a restart the configuration
    -- and the service file are those of the new configuration; in the other cases they are as they
    -- were before, also where a stopped service is started with another configuration than the new.
    pub run_start-IsStarted : Ensures IsStarted (run_start X request before)
    unfolding run_start
    run_start-IsStarted = allowed (check_root_privileges request)
      where
        chosen :
            (config : AppConfig) (b : Bool)
            → request.new_config ≡ ok config
            → is_installed X before ≡ b
            → Ensures IsStarted (
                if not b
                then (install_and_start X config >>= λ _. return installed) before
                else (is_running X >>= λ running s'.
                      (lift (load_current_config X s') >>= with_state X request config running) s')
                    before)
        chosen config false given e =
            reported config given installed (install_and_start X config) before (
              configured config given false _ e
                (install_and_start-IsUp X active file laws config before))
        chosen config true given e =
            running_state config given (is_running X before) e (is_running-Ensures config given).0
              (is_running-Ensures config given).1

        configured_by :
            (r : Result String AppConfig)
            → request.new_config ≡ r
            → Ensures IsStarted (
                (lift r >>= λ config s.
                if not (is_installed X s)
                then (install_and_start X config >>= λ _. return installed) s
                else (is_running X >>= λ running s'.
                      (lift (load_current_config X s') >>= with_state X request config running) s')
                    s)
                  before)
        configured_by (err e) given = tt
        configured_by (ok config) given = chosen config (is_installed X before) given refl

        allowed :
            (r : Result String (Unit {0}))
            → Ensures IsStarted (
                (lift r >>= λ _. lift request.new_config >>= λ config s.
                if not (is_installed X s)
                then (install_and_start X config >>= λ _. return installed) s
                else (is_running X >>= λ running s'.
                      (lift (load_current_config X s') >>= with_state X request config running) s')
                    s)
                  before)
        allowed (err e) = tt
        allowed (ok _) = configured_by request.new_config refl
