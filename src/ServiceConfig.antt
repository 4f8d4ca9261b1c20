-- ===== src/ServiceConfig.antt =====
-- bf-service/bfconfig.cpp, bf-service/bfconfig.h and bf-service/utils.cpp: the settings of the service,
-- and whether the computer was restarted. QDomDocument is Qt's: a document comes as what its
-- elementsByTagName finds, and the conversions of a QString to a number are parameters.
pub mod Loading
use bf.Base.{
  ℕ, ◌%◌, ◌+◌, Bool, true, false, List, [], ◌∷◌, Option, none, some, ltb, ◌==◌, if◌then◌else◌,
}
use bf.Names.{Text, codes}

-- The settings, with the text of each default.
pub record Settings : Type 0 where
  pub pid_file_path : Text
  pub log_file : Text
  pub log_count : ℕ
  pub log_max_file_size : ℕ

pub record BfConfig : Type 0 where
  pub initialized_state : ℕ
  pub file_path : Text
  pub settings : Settings

-- An element, by the value of each attribute that it has.
abbrev pub Element : Type 0
Element = Text → Option Text

-- The elements `network`, `log` and `process` of a `service_config`.
pub record ServiceElement : Type 0 where
  pub networks : List Element
  pub logs : List Element
  pub processes : List Element

-- A file as QFile and QDomDocument have it; a document is the `config` elements that it has, each by the
-- `service_config` elements in it.
pub data ConfigFile : Type 0 where
  not_opened not_parsed : ConfigFile
  document : List (List ServiceElement) → ConfigFile

-- BARRIER_CONFIG_BF_DEFAULT and BARRIER_CONFIG_BF_LOG_MAX_SIZE
abbrev pub config_default : Text
config_default = codes "/etc/barrier.conf.d/bf.conf.xml"

abbrev pub log_max_size : ℕ
log_max_size = 200000000

-- The file system, the value of the variable BARRIER_CONFIG_BF, and toUShort and toLongLong, which give
-- words of 16 and 64 bits.
pub record Environment : Type 0 where
  pub exists : Text → Bool
  pub config_file : Text → ConfigFile
  pub config_env : Text
  pub to_ushort : Text → ℕ
  pub to_long_long : Text → ℕ

-- The settings that init starts from.
abbrev pub initial_settings : Settings
initial_settings = record {
  pid_file_path = codes "/var/run/bf-service.pid";
  log_file = codes "/dev/null";
  log_count = 0;
  log_max_file_size = log_max_size;
}

-- QDomElement::attribute
unfoldable pub attribute : Element → Text → Text → Text
attribute e name default = elim (e name) [ none ↦ default | some value ↦ value ]

-- The first element of a list, for `at(0)` behind a test of the size.
unfoldable pub with_first {ℓ} : {S : Type ℓ} → List Element → (Element → S → S) → S → S
with_first [] f s = s
with_first (e ∷ es) f s = f e s

-- parseServiceConfig, which returns 0; `mLogCount` has 8 bits.
unfoldable pub parse_service_config : Environment → ServiceElement → Settings → Settings
unfolding attribute with_first
parse_service_config env service s =
    let with_log : Settings =
      with_first service.logs
        (λ e s'. record s' {
          log_file = attribute e (codes "file") (codes "/dev/null");
          log_count = env.to_ushort (attribute e (codes "count") (codes "0")) % 256;
          log_max_file_size = env.to_long_long (attribute e (codes "max_size") (codes "200000000"));
        })
        s in
    with_first service.processes
      (λ e s'. record s' { pid_file_path = attribute e (codes "pid") (codes "/tmp/bauserver.pid") })
      with_log

-- load behind the reading of the file: the settings, and what it returns, below 0 as its opposite.
unfoldable pub load_document : Environment → ConfigFile → BfConfig → BfConfig × ℕ
unfolding parse_service_config
load_document env not_opened c = (c, 1)
load_document env not_parsed c = (c, 2)
load_document env (document []) c = (c, 3)
load_document env (document (services ∷ other ∷ rest)) c = (c, 3)
load_document env (document ([] ∷ [])) c = (c, 4)
load_document env (document ((service ∷ more) ∷ [])) c =
    let settings = parse_service_config env service c.settings in
    (record c { initialized_state = 1; settings = settings }, 0)

-- load
unfoldable pub load : Environment → Text → BfConfig → BfConfig × ℕ
unfolding load_document
load env path c = load_document env (env.config_file path) c

unfoldable pub is_empty : Text → Bool
is_empty [] = true
is_empty (b ∷ t) = false

-- The file that init takes: the default one where it exists, and else the one that the environment names.
-- `path` is what `mFilePath` holds before, which is empty in a new object.
unfoldable pub chosen_path : Environment → Text → Text
unfolding is_empty
chosen_path env path =
    let found = if env.exists config_default then config_default else path in
    if is_empty found then env.config_env else found

-- init
unfoldable pub init : Environment → BfConfig → BfConfig
unfolding load chosen_path
init env c =
    let path = chosen_path env c.file_path in
    let c1 : BfConfig = record {
      initialized_state = 0;
      file_path = path;
      settings = initial_settings;
    } in
    let (c2, res) = load env path c1 in
    if is_empty path then c1 else if res == 0 then record c2 { initialized_state = 1 } else c2

-- instance: the object that is there, or a new one.
unfoldable pub instance_of : Environment → BfConfig → Option BfConfig → BfConfig
unfolding init
instance_of env blank none = init env blank
instance_of env blank (some c) = c

-- isReboot: the time in the file, which is made where it is missing, and the answer.
unfoldable pub is_reboot : ℕ → Option ℕ → Option ℕ × Bool
is_reboot boottime none = (some boottime, true)
is_reboot boottime (some oldboottime) =
    if ltb (oldboottime + 1) boottime then (some boottime, true) else (some oldboottime, false)
