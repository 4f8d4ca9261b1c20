-- ===== src/ServiceConfig/Loading.antt =====
-- The settings that the service starts with.
use bf.Base.{
  Bool-cases, inl, inr, if_cases, ◌==◌, ℕ, ◌≡◌, ◌≢◌, refl, ◌∙◌, List, [], ◌∷◌, if◌then◌else◌, false,
  Option, none, some, arith, true,
}
use bf.Names.{Text}
use bf.ServiceConfig.{
  BfConfig, ServiceElement, ConfigFile, not_opened, not_parsed, document, Environment,
  load_document, is_empty, config_default, parse_service_config, load, chosen_path,
  initial_settings, init, is_reboot,
}

-- That a file is no document with one `config` and a `service_config` in it.
abbrev pub IsUnusable : ConfigFile → Type 0
IsUnusable file =
    (service : ServiceElement) (more : List ServiceElement)
    → file ≢ document ((service ∷ more) ∷ [])

-- How a configuration came to be: with the default settings, where there is no path or the file is of no use,
-- or else from the first `service_config` of a document with one `config`.
pub data Loaded (env : Environment) (c : BfConfig) : Type 0 where
  no_path :
      c.initialized_state ≡ 0
      → c.settings ≡ initial_settings
      → is_empty c.file_path ≡ true
      → Loaded env c
  by_default :
      c.initialized_state ≡ 0
      → c.settings ≡ initial_settings
      → is_empty c.file_path ≡ false
      → IsUnusable (env.config_file c.file_path)
      → Loaded env c
  from_file :
      (service : ServiceElement) (more : List ServiceElement)
      → c.initialized_state ≡ 1
      → is_empty c.file_path ≡ false
      → env.config_file c.file_path ≡ document ((service ∷ more) ∷ [])
      → c.settings ≡ parse_service_config env service initial_settings
      → Loaded env c

abbrev fresh : Text → BfConfig
fresh path = record { initialized_state = 0; file_path = path; settings = initial_settings }

-- What init makes of the result of load.
abbrev marked : BfConfig × ℕ → BfConfig
marked (c, res) = if res == 0 then record c { initialized_state = 1 } else c

load_document-Loaded :
    (env : Environment) (path : Text) (file : ConfigFile)
    → is_empty path ≡ false
    → env.config_file path ≡ file
    → Loaded env (marked (load_document env file (fresh path)))
unfolding load_document
load_document-Loaded env path not_opened n e = by_default refl refl n (λ service more f. cc)
load_document-Loaded env path not_parsed n e = by_default refl refl n (λ service more f. cc)
load_document-Loaded env path (document []) n e = by_default refl refl n (λ service more f. cc)
load_document-Loaded env path (document (services ∷ other ∷ rest)) n e =
    by_default refl refl n (λ service more f. cc)
load_document-Loaded env path (document ([] ∷ [])) n e =
    by_default refl refl n (λ service more f. cc)
load_document-Loaded env path (document ((service ∷ more) ∷ [])) n e =
    from_file service more refl n e refl

load_document-path :
    (env : Environment) (path : Text) (file : ConfigFile)
    → (marked (load_document env file (fresh path))).file_path ≡ path
unfolding load_document
load_document-path env path not_opened = refl
load_document-path env path not_parsed = refl
load_document-path env path (document []) = refl
load_document-path env path (document (services ∷ other ∷ rest)) = refl
load_document-path env path (document ([] ∷ [])) = refl
load_document-path env path (document ((service ∷ more) ∷ [])) = refl

chosen_path-cases :
    (env : Environment) (path : Text)
    → chosen_path env path ≡ (
        if env.exists config_default
        then config_default
        else if is_empty path
        then env.config_env
        else path)
unfolding chosen_path is_empty
chosen_path-cases env path = elim (Bool-cases (env.exists config_default)) [
  | inl e ↦ rw e
  | inr e ↦ rw e
]

-- The service starts with the state 1 and the settings of the first `service_config` of the file that it
-- takes, if its path is not empty and it is a document with one `config` and a `service_config` in it,
-- and with the state 0 and the default settings if its path is empty or it is no such document. It
-- takes the default file wherever that exists, also where it cannot be loaded, and else the path that
-- the object held before, or the one of the environment where that was empty.
pub init-Loaded :
    (env : Environment) (c : BfConfig)
    → Loaded env (init env c)
      × ((init env c).file_path ≡ (
          if env.exists config_default
          then config_default
          else if is_empty c.file_path
          then env.config_env
          else c.file_path))
unfolding init load
init-Loaded env c =
    let path = chosen_path env c.file_path in
    (
      if_cases (Loaded env) (is_empty path) (λ e. no_path refl refl e)
          (λ e. load_document-Loaded env path (env.config_file path) e refl),
      if_cases (λ (x : BfConfig). x.file_path ≡ path) (is_empty path) (λ e. refl)
            (λ e. load_document-path env path (env.config_file path))
          ∙ chosen_path-cases env c.file_path,
    )

-- A second call with the same boot time finds no restart, whatever the file held before the first.
is_reboot-again :
    (boottime : ℕ) (file : Option ℕ) → (is_reboot boottime (is_reboot boottime file).0).1 ≡ false
unfolding is_reboot
is_reboot-again boottime none = ground arith
is_reboot-again boottime (some old) = ground arith
