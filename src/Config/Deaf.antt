-- ===== src/Config/Deaf.antt =====
-- internal/config/config.go of the three services: what a Load does not hear.
use mathlib.Core.Option.{some-injective}
use reconx.Base.{List, [], ◌∷◌, subst, ap, some, String, Bool, true, false, ◌≡◌, refl, sym, ◌∙◌}
use reconx.Resolution.Worker.{AutoResolveConfig, Engine, auto_resolve_exhausted}
use reconx.Resolution.Tables.{Database, Env}
use reconx.Base.Exec.{ok}
use reconx.Config.{Settings, Environment, Viper, ◌>>=◌, >>=-eq-some}
use reconx.Config.Heard.{has_dot, parents, parents_after, Agree, IsAutomatic, KnowsKeys, IsUndotted}
use reconx.Config.Gateway as G
use reconx.Config.Ingestion as I
use reconx.Config.Resolution as R

-- The sections of the three services, and the one key that is in none.
abbrev pub gateway_keys : List String
gateway_keys = "http" ∷ "metrics" ∷ "ingestion" ∷ "engine" ∷ "resolution" ∷ "log" ∷ "api_key" ∷ []

abbrev pub ingestion_keys : List String
ingestion_keys =
    "grpc" ∷ "http" ∷ "database" ∷ "kafka" ∷ "ratelimit" ∷ "dlq" ∷ "metrics" ∷ "log" ∷ "idempotency"
    ∷ []

abbrev pub resolution_keys : List String
resolution_keys =
    "grpc" ∷ "http" ∷ "database" ∷ "engine" ∷ "metrics" ∷ "log" ∷ "retry" ∷ "autoresolve" ∷ []

module _ {F T : Type 0} (viper : Viper F T) (env_name : String → String → String)
    (doc : IsAutomatic viper env_name) where
  module _ (env env' : Environment) (plain : IsUndotted env) (plain' : IsUndotted env') where
    -- A key of a section does not hear its own variable.
    dotted :
        (s : Settings) (key section : String)
        → has_dot key ≡ true
        → parents key ≡ section ∷ []
        → env (env_name s.env_prefix section) ≡ env' (env_name s.env_prefix section)
        → viper.get env s key ≡ viper.get env' s key
    dotted s key section h nested same =
        let name = env_name s.env_prefix key in
        let has = doc.dots s.env_prefix key h in
        doc.by_names s key env env' (
          plain name has ∙ sym (plain' name has),
          subst (λ ks. Agree env_name s.env_prefix ks env env') (sym nested) (same, tt),
        )

    gateway_deaf :
        Agree env_name "RECONX_GATEWAY" gateway_keys env env' → G.load viper env ≡ G.load viper env'
    unfolding G.load G.settings has_dot parents_after
    gateway_deaf agree = rw (
      dotted G.settings "http.port" "http" refl refl agree.0,
      dotted G.settings "metrics.port" "metrics" refl refl agree.1.0,
      dotted G.settings "metrics.path" "metrics" refl refl agree.1.0,
      dotted G.settings "ingestion.address" "ingestion" refl refl agree.1.1.0,
      dotted G.settings "ingestion.health_url" "ingestion" refl refl agree.1.1.0,
      dotted G.settings "engine.address" "engine" refl refl agree.1.1.1.0,
      dotted G.settings "engine.health_url" "engine" refl refl agree.1.1.1.0,
      dotted G.settings "resolution.address" "resolution" refl refl agree.1.1.1.1.0,
      dotted G.settings "resolution.health_url" "resolution" refl refl agree.1.1.1.1.0,
      dotted G.settings "resolution.http_address" "resolution" refl refl agree.1.1.1.1.0,
      dotted G.settings "log.level" "log" refl refl agree.1.1.1.1.1.0,
      dotted G.settings "log.format" "log" refl refl agree.1.1.1.1.1.0,
      doc.by_names G.settings "api_key" env env' (agree.1.1.1.1.1.1.0, tt),
    )

    ingestion_deaf :
        Agree env_name "RECONX" ingestion_keys env env' → I.load viper env ≡ I.load viper env'
    unfolding I.load I.settings has_dot parents_after
    ingestion_deaf agree = rw (
      dotted I.settings "grpc.port" "grpc" refl refl agree.0,
      dotted I.settings "grpc.max_recv_msg_size_mb" "grpc" refl refl agree.0,
      dotted I.settings "grpc.connection_timeout" "grpc" refl refl agree.0,
      dotted I.settings "http.port" "http" refl refl agree.1.0,
      dotted I.settings "http.read_timeout" "http" refl refl agree.1.0,
      dotted I.settings "http.write_timeout" "http" refl refl agree.1.0,
      dotted I.settings "http.max_body_size_mb" "http" refl refl agree.1.0,
      dotted I.settings "database.dsn" "database" refl refl agree.1.1.0,
      dotted I.settings "database.max_open_conns" "database" refl refl agree.1.1.0,
      dotted I.settings "database.max_idle_conns" "database" refl refl agree.1.1.0,
      dotted I.settings "database.conn_max_lifetime" "database" refl refl agree.1.1.0,
      dotted I.settings "kafka.brokers" "kafka" refl refl agree.1.1.1.0,
      dotted I.settings "kafka.group_id" "kafka" refl refl agree.1.1.1.0,
      dotted I.settings "kafka.topic" "kafka" refl refl agree.1.1.1.0,
      dotted I.settings "kafka.min_bytes" "kafka" refl refl agree.1.1.1.0,
      dotted I.settings "kafka.max_bytes" "kafka" refl refl agree.1.1.1.0,
      dotted I.settings "kafka.commit_interval" "kafka" refl refl agree.1.1.1.0,
      dotted I.settings "kafka.enabled" "kafka" refl refl agree.1.1.1.0,
      dotted I.settings "ratelimit.default_rps" "ratelimit" refl refl agree.1.1.1.1.0,
      dotted I.settings "ratelimit.overrides" "ratelimit" refl refl agree.1.1.1.1.0,
      dotted I.settings "dlq.table_name" "dlq" refl refl agree.1.1.1.1.1.0,
      dotted I.settings "dlq.max_retries" "dlq" refl refl agree.1.1.1.1.1.0,
      dotted I.settings "metrics.port" "metrics" refl refl agree.1.1.1.1.1.1.0,
      dotted I.settings "metrics.path" "metrics" refl refl agree.1.1.1.1.1.1.0,
      dotted I.settings "log.level" "log" refl refl agree.1.1.1.1.1.1.1.0,
      dotted I.settings "log.format" "log" refl refl agree.1.1.1.1.1.1.1.0,
      dotted I.settings "idempotency.ttl" "idempotency" refl refl agree.1.1.1.1.1.1.1.1.0,
    )

    resolution_deaf :
        Agree env_name "RECONX_RESOLUTION" resolution_keys env env'
        → R.load viper env ≡ R.load viper env'
    unfolding R.load R.settings has_dot parents_after
    resolution_deaf agree = rw (
      dotted R.settings "grpc.port" "grpc" refl refl agree.0,
      dotted R.settings "http.port" "http" refl refl agree.1.0,
      dotted R.settings "database.dsn" "database" refl refl agree.1.1.0,
      dotted R.settings "database.max_open_conns" "database" refl refl agree.1.1.0,
      dotted R.settings "database.max_idle_conns" "database" refl refl agree.1.1.0,
      dotted R.settings "database.conn_max_lifetime" "database" refl refl agree.1.1.0,
      dotted R.settings "engine.address" "engine" refl refl agree.1.1.1.0,
      dotted R.settings "engine.dial_timeout" "engine" refl refl agree.1.1.1.0,
      dotted R.settings "engine.request_timeout" "engine" refl refl agree.1.1.1.0,
      dotted R.settings "metrics.port" "metrics" refl refl agree.1.1.1.1.0,
      dotted R.settings "metrics.path" "metrics" refl refl agree.1.1.1.1.0,
      dotted R.settings "log.level" "log" refl refl agree.1.1.1.1.1.0,
      dotted R.settings "log.format" "log" refl refl agree.1.1.1.1.1.0,
      dotted R.settings "retry.enabled" "retry" refl refl agree.1.1.1.1.1.1.0,
      dotted R.settings "retry.poll_interval_secs" "retry" refl refl agree.1.1.1.1.1.1.0,
      dotted R.settings "retry.max_attempts" "retry" refl refl agree.1.1.1.1.1.1.0,
      dotted R.settings "retry.base_backoff_secs" "retry" refl refl agree.1.1.1.1.1.1.0,
      dotted R.settings "retry.max_backoff_secs" "retry" refl refl agree.1.1.1.1.1.1.0,
      dotted R.settings "retry.batch_size" "retry" refl refl agree.1.1.1.1.1.1.0,
      dotted R.settings "autoresolve.default_strategy" "autoresolve" refl refl
          agree.1.1.1.1.1.1.1.0,
      dotted R.settings "autoresolve.source_priority" "autoresolve" refl refl agree.1.1.1.1.1.1.1.0,
      dotted R.settings "autoresolve.auto_apply_on_exhaustion" "autoresolve" refl refl
          agree.1.1.1.1.1.1.1.0,
    )

  -- The variable of a key that stands in a section goes unheard, also those that docker-compose.yml
  -- sets: where no variable has a dot in its name, two environments load one configuration of each
  -- service as soon as they have the same for the gateway's API key and for the variables that are
  -- named like a whole section, which hide its keys.
  pub load_deaf :
      (env env' : Environment)
      → IsUndotted env
      → IsUndotted env'
      → Agree env_name "RECONX_GATEWAY" gateway_keys env env'
      → Agree env_name "RECONX" ingestion_keys env env'
      → Agree env_name "RECONX_RESOLUTION" resolution_keys env env'
      → (G.load viper env ≡ G.load viper env')
        × (I.load viper env ≡ I.load viper env')
        × (R.load viper env ≡ R.load viper env')
  load_deaf env env' plain plain' gateway ingestion resolution = (
    gateway_deaf env env' plain plain' gateway,
    ingestion_deaf env env' plain plain' ingestion,
    resolution_deaf env env' plain plain' resolution,
  )

module _ {F T : Type 0} (viper : Viper F T) (in_files : String → Bool)
    (knows : KnowsKeys viper in_files) where
  -- What the settings under `autoresolve` come to.
  abbrev unset : AutoResolveConfig
  unset = record { default_strategy = ""; source_priority = ""; auto_apply_on_exhaustion = false }

  section-unset :
      (env : Environment)
      → in_files "autoresolve.default_strategy" ≡ false
      → in_files "autoresolve.source_priority" ≡ false
      → in_files "autoresolve.auto_apply_on_exhaustion" ≡ false
      → R.load_auto_resolve viper env ≡ some unset
  unfolding R.settings ◌>>=◌
  section-unset env f1 f2 f3 = rw (
    knows R.settings "autoresolve.default_strategy" env f1 refl,
    knows R.settings "autoresolve.source_priority" env f2 refl,
    knows R.settings "autoresolve.auto_apply_on_exhaustion" env f3 refl,
  )

  load-unset :
      (env : Environment) (cfg : R.Config T)
      → R.load_auto_resolve viper env ≡ some unset
      → R.load viper env ≡ some cfg
      → cfg.auto_resolve ≡ unset
  unfolding R.load
  load-unset env cfg section e =
      let (_, _, e1) = >>=-eq-some _ _ e in
      let (_, _, e2) = >>=-eq-some _ _ e1 in
      let (_, _, e3) = >>=-eq-some _ _ e2 in
      let (_, _, e4) = >>=-eq-some _ _ e3 in
      let (_, _, e5) = >>=-eq-some _ _ e4 in
      let (_, _, e6) = >>=-eq-some _ _ e5 in
      let (_, _, e7) = >>=-eq-some _ _ e6 in
      let (found, is_found, e8) = >>=-eq-some _ _ e7 in
      sym (ap (λ (c : R.Config T). c.auto_resolve) (some-injective _ _ e8))
      ∙ some-injective _ _ (sym is_found ∙ section)

  -- A loaded configuration of resolution names no strategy and no priorities, and the worker that is
  -- started with it applies no strategy to an exhausted transaction, whatever the files have under
  -- auto_resolve and the environment holds; no configuration file has a section autoresolve.
  pub auto_resolve_unset :
      (env : Environment) (cfg : R.Config T) (quote : String → String) (engine : Engine) (e : Env)
      (tx_ref : String) (db : Database)
      → in_files "autoresolve.default_strategy" ≡ false
      → in_files "autoresolve.source_priority" ≡ false
      → in_files "autoresolve.auto_apply_on_exhaustion" ≡ false
      → R.load viper env ≡ some cfg
      → (cfg.auto_resolve.default_strategy ≡ "")
        × (cfg.auto_resolve.source_priority ≡ "")
        × (auto_resolve_exhausted quote engine cfg.retry cfg.auto_resolve e tx_ref db ≡ (ok tt, db))
  unfolding auto_resolve_exhausted
  auto_resolve_unset env cfg quote engine e tx_ref db f1 f2 f3 loaded =
      let same = load-unset env cfg (section-unset env f1 f2 f3) loaded in
      rw same (refl, refl, refl)
