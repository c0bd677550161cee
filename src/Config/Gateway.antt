-- ===== src/Config/Gateway.antt =====
-- services/gateway/internal/config/config.go.
use reconx.Base.{ℕ, String, true, Option, some, [], ◌∷◌}
use reconx.Config.{text, number, Settings, Environment, Viper, field, ◌>>=◌}

pub record HttpConfig : Type 0 where
  pub port : ℕ

pub record MetricsConfig : Type 0 where
  pub port : ℕ
  pub path : String

pub record UpstreamConfig : Type 0 where
  pub address : String
  pub health_url : String

pub record ResolutionConfig : Type 0 where
  pub address : String
  pub health_url : String
  pub http_address : String

pub record LogConfig : Type 0 where
  pub level : String
  pub format : String

pub record Config : Type 0 where
  pub http : HttpConfig
  pub metrics : MetricsConfig
  pub ingestion : UpstreamConfig
  pub engine : UpstreamConfig
  pub resolution : ResolutionConfig
  pub log : LogConfig
  pub api_key : String

unfoldable pub settings : Settings
settings = record {
  defaults =
      ("http.port", number 8090)
      ∷ ("metrics.port", number 9093)
      ∷ ("metrics.path", text "/metrics")
      ∷ ("ingestion.address", text "localhost:50051")
      ∷ ("engine.address", text "localhost:50052")
      ∷ ("resolution.address", text "localhost:50053")
      ∷ ("ingestion.health_url", text "http://localhost:8080/health")
      ∷ ("engine.health_url", text "http://localhost:9091/health")
      ∷ ("resolution.health_url", text "http://localhost:8082/health")
      ∷ ("resolution.http_address", text "http://localhost:8082")
      ∷ ("api_key", text "")
      ∷ ("log.level", text "info")
      ∷ ("log.format", text "json")
      ∷ [];
  config_name = "config";
  config_type = "yaml";
  config_paths = "." ∷ "/etc/reconx/gateway" ∷ [];
  env_prefix = "RECONX_GATEWAY";
  automatic_env = true;
}

module _ {F T : Type 0} (viper : Viper F T) (env : Environment) where
  abbrev load_http : Option HttpConfig
  load_http = do
    port ← field 0 viper.as_int (viper.get env settings "http.port")
    some (record { port = port })

  abbrev load_metrics : Option MetricsConfig
  load_metrics = do
    port ← field 0 viper.as_int (viper.get env settings "metrics.port")
    path ← field "" viper.as_text (viper.get env settings "metrics.path")
    some (record { port = port; path = path })

  abbrev load_ingestion : Option UpstreamConfig
  load_ingestion = do
    address ← field "" viper.as_text (viper.get env settings "ingestion.address")
    health_url ← field "" viper.as_text (viper.get env settings "ingestion.health_url")
    some (record { address = address; health_url = health_url })

  abbrev load_engine : Option UpstreamConfig
  load_engine = do
    address ← field "" viper.as_text (viper.get env settings "engine.address")
    health_url ← field "" viper.as_text (viper.get env settings "engine.health_url")
    some (record { address = address; health_url = health_url })

  abbrev load_resolution : Option ResolutionConfig
  load_resolution = do
    address ← field "" viper.as_text (viper.get env settings "resolution.address")
    health_url ← field "" viper.as_text (viper.get env settings "resolution.health_url")
    http_address ← field "" viper.as_text (viper.get env settings "resolution.http_address")
    some (record { address = address; health_url = health_url; http_address = http_address })

  abbrev load_log : Option LogConfig
  load_log = do
    level ← field "" viper.as_text (viper.get env settings "log.level")
    format ← field "" viper.as_text (viper.get env settings "log.format")
    some (record { level = level; format = format })

  unfoldable pub load : Option (Config)
  load = do
    http ← load_http
    metrics ← load_metrics
    ingestion ← load_ingestion
    engine ← load_engine
    resolution ← load_resolution
    log ← load_log
    api_key ← field "" viper.as_text (viper.get env settings "api_key")
    some (record {
      http = http;
      metrics = metrics;
      ingestion = ingestion;
      engine = engine;
      resolution = resolution;
      log = log;
      api_key = api_key;
    })
