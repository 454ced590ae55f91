-- ===== src/Startup/Settings.antt =====
-- config.go, and the settings of otel.go, helpers.go and server.go: what the start is configured
-- with.
use tdiscuss.Base.{
  ℕ, ◌*◌, ◌==◌, ◌≡◌, ◌≤◌, refl, Bool, true, false, ◌&&◌, [], if◌then◌else◌, Option, none, some, leb,
  ℤ, pos, negsuc, arith,
}
use tdiscuss.Text.{Text, codes}

-- `service_version` and `service_git_sha` are set by `main`. The rate is in thousandths.
pub record Config : Type 0 where
  pub log_debug : Bool
  pub service_name : Text
  pub trace_max_batch_size : ℕ
  pub trace_sample_rate : ℤ
  pub otlp : Bool

abbrev pub load_config : Config
load_config = record {
  log_debug = false;
  service_name = codes "tdiscuss";
  trace_max_batch_size = 512;
  trace_sample_rate = pos 1000;
  otlp = false;
}

-- The samplers of OpenTelemetry that the code makes.
pub data Sampler : Type 0 where
  always_sample never_sample : Sampler
  trace_id_ratio_based : ℤ → Sampler
  parent_based :
      (root remote_sampled remote_not_sampled local_sampled local_not_sampled : Sampler) → Sampler

abbrev pub always_on_error : ℤ → Sampler
always_on_error rate =
    parent_based (trace_id_ratio_based rate) always_sample (trace_id_ratio_based rate) always_sample
      (trace_id_ratio_based rate)

unfoldable pub sampler : ℤ → Sampler
sampler (negsuc n) = never_sample
sampler (pos n) =
    if leb 1000 n then always_sample else if n == 0 then never_sample else always_on_error (pos n)

load_config-always : sampler load_config.trace_sample_rate ≡ always_sample
unfolding sampler
load_config-always = refl

-- `wrap` is `minsev.NewLogProcessor`, and `debug_severity` and `info_severity` are the ranks of two
-- constants of `minsev`.
module _ {P : Type 0} (wrap : P → ℕ → P) (debug_severity info_severity : ℕ) where
  unfoldable pub log_processor : Bool → P → P
  log_processor log_debug batch =
      if log_debug then wrap (wrap batch info_severity) debug_severity else wrap batch info_severity

  -- `handles` is whether a record of a severity comes through to the exporter.
  module _ (handles : P → ℕ → Bool) where
    -- A processor that is wrapped drops what is below the severity.
    abbrev pub Drops : Type 0
    Drops =
        (p : P) (least severity : ℕ)
        → handles (wrap p least) severity ≡ leb least severity && handles p severity

    -- Where a wrapped processor drops exactly what is below its severity, and that of debugging is
    -- not above that of information, the debug setting has no effect: every record is handled with
    -- it as without it.
    pub log_processor-debug :
        (batch : P) (severity : ℕ)
        → Drops
        → debug_severity ≤ info_severity
        → handles (log_processor true batch) severity ≡ handles (log_processor false batch) severity
    unfolding log_processor
    log_processor-debug batch severity drops below = ground (
      arith,
      drops batch info_severity severity,
      drops (wrap batch info_severity) debug_severity severity,
    )

-- `env` is `os.LookupEnv`.
module _ (env : Text → Option Text) where
  abbrev or_else : Text → Option Text → Text
  or_else default_val none = default_val
  or_else default_val (some t) = t

  unfoldable pub env_or : Text → Text → Text
  env_or key default_val = or_else default_val (env key)

  abbrev in_config_dir : (Text → Text → Text) → Option Text → Text
  in_config_dir join none = or_else [] (env (codes "DATA_DIR"))
  in_config_dir join (some dir) = join (join dir (codes "tailscale")) (codes "discuss")

  abbrev location : (Text → Text → Text) → Option Text → Option Text → Text
  location join config_dir none = in_config_dir join config_dir
  location join config_dir (some dir) = dir

  -- `config_dir` is `os.UserConfigDir`, `join` is `filepath.Join`. `os.Getenv` is empty for a name
  -- that is not set.
  unfoldable pub data_location : (Text → Text → Text) → Option Text → Text
  data_location join config_dir = location join config_dir (env (codes "DATA_DIR"))

  -- With neither the variable nor a directory of the user, the location is empty: the second look at
  -- the variable finds nothing.
  data_location-empty :
      (join : Text → Text → Text) → env (codes "DATA_DIR") ≡ none → data_location join none ≡ []
  unfolding data_location
  data_location-empty join unset = rw unset (rw unset refl)

-- The name under which the server is reached, or an empty one.
abbrev pub expand_sni_name : Option Text → Text
expand_sni_name none = []
expand_sni_name (some sni) = sni

-- `http.Server`, with its times in seconds.
pub record HttpServer : Type 0 where
  pub addr : Text
  pub read_timeout : ℕ
  pub write_timeout : ℕ
  pub idle_timeout : ℕ

abbrev pub create_http_server : HttpServer
create_http_server = record {
  addr = codes ":80";
  read_timeout = 10;
  write_timeout = 15;
  idle_timeout = 120;
}

abbrev pub create_https_server : HttpServer
create_https_server = record {
  addr = codes ":443";
  read_timeout = 10;
  write_timeout = 15;
  idle_timeout = 120;
}

-- `pgxpool.Config`, with its times in seconds.
pub record PoolLimits : Type 0 where
  pub max_conns : ℕ
  pub min_conns : ℕ
  pub max_conn_lifetime : ℕ
  pub max_conn_idle_time : ℕ
  pub health_check_period : ℕ
  pub connect_timeout : ℕ

-- `parsed` is what `pgxpool.ParseConfig` answers, an error or the settings of the address, which
-- are all replaced.
abbrev pub pool_config : Option PoolLimits → Option PoolLimits
pool_config none = none
pool_config (some parsed) = some (record parsed {
  max_conns = 4;
  min_conns = 0;
  max_conn_lifetime = 60 * 60;
  max_conn_idle_time = 15 * 60;
  health_check_period = 60;
  connect_timeout = 5;
})

-- `tsnet.Server`: whether its log is kept, its directory and its name.
pub record Node : Type 0 where
  pub dir : Text
  pub hostname : Text
  pub logs : Bool

abbrev pub new_ts_net_server : (Text → Text → Text) → Text → Text → Bool → Node
new_ts_net_server join data_dir hostname tsnet_log = record {
  dir = join data_dir (codes "tailscale");
  hostname = hostname;
  logs = tsnet_log;
}
