-- ===== src/Cmd/ReadConfig.antt =====
-- `ReadConfig` (pkg/conf/util.go). What the libraries do with files, flags and the environment is in
-- `Launch`.
use vihara.Prelude.{
  arith, ◌≡◌, String, Bool, Option, none, some, List, [], ◌∷◌, ◌==◌, ◌<>◌, Map, lookup,
  if◌then◌else◌,
}
use vihara.Conf.{LogConfig, ViharaConfig}
use vihara.Env.{Error, errorf, wrapped, Result, ok, err}

pub record Launch : Type 0 where
  pub config_file : String
  -- ioutil.ReadFile, os.LookupEnv
  pub read_file : String → Result String
  pub env : Map String
  -- envhelper.Expand, yaml.Unmarshal
  pub expand : String → (String → String → String) → String
  pub unmarshal : String → ViharaConfig → Result ViharaConfig
  -- whether a flag was given, and the flags' values
  pub changed : String → Bool
  pub cli_log : LogConfig
  pub parse_flags : ViharaConfig → Result ViharaConfig
  pub set_default_logger : List LogConfig → Option Error
  pub error_text : Error → String

-- the value that a variable of the file is replaced with
unfoldable pub expand_variable : Launch → String → String → String
expand_variable l name origin = elim (lookup name l.env) [ some v ↦ v | none ↦ origin ]

-- The bytes of the file; a file that cannot be read is empty unless the flag names it.
unfoldable pub read_bytes : Launch → Result String
read_bytes l = elim (l.read_file l.config_file) [
  | ok bytes ↦ ok bytes
  | err x ↦
      if l.changed "config"
      then err (errorf ("failed to read config file " <> l.config_file <> ": " <> l.error_text x))
      else ok ""
]

unfoldable pub load_file : Launch → String → ViharaConfig → Result ViharaConfig
load_file l bytes config =
    if bytes == ""
    then ok config
    else elim (l.unmarshal (l.expand bytes (expand_variable l)) config) [
      | ok config' ↦ ok config'
      | err x ↦
          err
            (errorf ("failed to unmarshal config file " <> l.config_file <> ": " <> l.error_text x))
    ]

-- what the flags of the log change in an entry
unfoldable pub override_log : Launch → LogConfig → LogConfig
override_log l c = record {
  format = (if l.changed "log.format" then l.cli_log.format else c.format);
  level = (if l.changed "log.level" then l.cli_log.level else c.level);
  file = (if l.changed "log.file" then l.cli_log.file else c.file);
}

unfoldable pub merge_log : Launch → List LogConfig → List LogConfig
merge_log l [] = l.cli_log ∷ []
merge_log l (first ∷ rest) = override_log l first ∷ rest

-- from the log configuration on
unfoldable pub finish_config : Launch → ViharaConfig → Result ViharaConfig
finish_config l config =
    let logs = merge_log l config.log in
    elim (l.parse_flags (record config { log = logs })) [
      | err x ↦ err x
      | ok config' ↦ elim (l.set_default_logger logs) [
        | some x ↦ err (wrapped "failed to set default logger" x)
        | none ↦ ok config'
      ]
    ]

-- `ReadConfig`
unfoldable pub read_config : Launch → ViharaConfig → Result ViharaConfig
read_config l config = elim (read_bytes l) [
  | err x ↦ err x
  | ok bytes ↦ elim (load_file l bytes config) [
    | err x ↦ err x
    | ok config' ↦ finish_config l config'
  ]
]

module _ (l : Launch) (config : ViharaConfig) where
  -- A configuration file that cannot be read matters only if a flag names it: then the
  -- configuration is refused, and otherwise the one of the flags is used, with the log that the
  -- flags give.
  read_config_of_unreadable :
      {x : Error}
      → l.read_file l.config_file ≡ err x
      → read_config l config ≡ (
          if l.changed "config"
          then err
              (errorf ("failed to read config file " <> l.config_file <> ": " <> l.error_text x))
          else finish_config l config)
  unfolding read_config read_bytes load_file
  read_config_of_unreadable missing = ground arith
