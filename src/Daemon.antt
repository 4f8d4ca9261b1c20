-- ===== src/Daemon.antt =====
-- bf-service/bfservice.cpp: the service as a daemon, over the parts of BfServicePrivate that Service models.
-- The thread of BfServicePrivate runs its slot as soon as it is started. What
-- QtService and the log writers do themselves is left out.
use bf.Listing.Complete.{delivered}
use bf.Link.{send_rules_sync, get_rules, subscribe_log}
use bf.Base.{
  ℕ, Bool, true, false, Option, some, ◌>>=◌, ◌++◌, List, ap, refl, sym, ◌≡◌, Option-cases, inl, inr,
  ◌∙◌, none, suc, if◌then◌else◌,
}
use bf.Rule.{FilterRule, chain_input, chain_output}
use bf.Stream.{DataStream}
use bf.RulesFile.{load_from_file, get_by_pattern}
use bf.Service.{Service, started, stop, chain_pattern, keep_rules}
use bf.ServiceConfig.{is_reboot}

-- `boot_file` is the file of isReboot, `running` tells whether the thread runs, `audit` how often the audit
-- system was told that rules were added, and `translator` whether a translation is installed.
pub record Daemon : Type 0 where
  pub service : Service
  pub boot_file : Option ℕ
  pub rebooted : Bool
  pub running : Bool
  pub audit : ℕ
  pub translator : Bool

module _ (s : DataStream) (sent pid : ℕ) where
  -- createApplication behind that of QtService: the rules are loaded from their file, the audit system is
  -- told so, and a translation is installed where its file is there.
  unfoldable pub create_application : FilterRule → Bool → Daemon → Option Daemon
  unfolding load_from_file
  create_application blank translated d = do
    (loaded, s_rules) ← load_from_file s blank d.service.file d.service.s_rules
    some (record d {
      service = record d.service { s_rules = s_rules };
      audit = suc d.audit;
      translator = if translated then true else d.translator;
    })

  -- BfService::start
  unfoldable pub start : FilterRule → ℕ → Daemon → Option Daemon
  start blank boottime d = do
    let (boot_file, rebooted) = is_reboot boottime d.boot_file
    service ← started s sent pid blank d.service
    some
        (record d { service = service; boot_file = boot_file; rebooted = rebooted; running = true })

  -- BfService::stop, whose thread ends by itself or is terminated.
  unfoldable pub stop_service : Daemon → Option Daemon
  stop_service d = do
    service ← stop s sent pid d.service
    some (record d { service = service; running = false })

  -- The application is created, started and stopped, and so on.
  unfoldable pub session : FilterRule → Bool → ℕ → Daemon → Option Daemon
  unfolding create_application start stop_service
  session blank translated boottime d = do
    d1 ← create_application blank translated d
    d2 ← start blank boottime d1
    stop_service d2

-- A file that was loaded gives the same rules again.
load_from_file-again :
    (s : DataStream) (blank : FilterRule) (file : Option (List ℕ)) (xs rs ys : List FilterRule)
    → load_from_file s blank file xs ≡ some (rs, ys)
    → load_from_file s blank file ys ≡ some (rs, ys)
unfolding load_from_file
load_from_file-again s blank none xs rs ys h =
    ap
      (λ (o : Option (List FilterRule × List FilterRule)).
        let r : Option (List FilterRule × List FilterRule) = elim o [
          | none ↦ none
          | some x ↦ some (x.0, ys)
        ] in
        r)
      h
load_from_file-again s blank (some bytes) xs rs ys h = h

module _ (s : DataStream) (sent pid : ℕ) (blank : FilterRule) (boottime : ℕ) (d : Daemon) where
  -- What a start does with what the loading of the file gives.
  abbrev start_loaded : Option (List FilterRule × List FilterRule) → Option Daemon
  start_loaded o = do
    service ←
        (o >>= (λ x.
          let s_rules = x.1 in
          let rules_list =
            get_by_pattern (chain_pattern chain_input) s_rules
            ++ get_by_pattern (chain_pattern chain_output) s_rules in
          send_rules_sync sent pid d.service.link rules_list >>= (λ y.
            get_rules sent pid delivered (subscribe_log sent pid y.0 blank)
              (chain_pattern chain_input)
            >>= (λ z. some (keep_rules s (record d.service { s_rules = s_rules }) z.0 z.2)))))
    some (record d {
      service = service;
      boot_file = (is_reboot boottime d.boot_file).0;
      rebooted = (is_reboot boottime d.boot_file).1;
      running = true;
    })

  start-loaded :
      (ys : List FilterRule)
      → start s sent pid blank boottime (record d { service = record d.service { s_rules = ys } })
        ≡ start_loaded (load_from_file s blank d.service.file ys)
  unfolding start started
  start-loaded ys = refl

-- What createApplication has done behind the loading of the rules.
abbrev pub announced : Bool → Daemon → Daemon
announced translated d = record d {
  audit = suc d.audit;
  translator = if translated then true else d.translator;
}

module _ (s : DataStream) (sent pid : ℕ) (blank : FilterRule) (translated : Bool) (boottime : ℕ)
    (d : Daemon) where
  created : Option (List FilterRule × List FilterRule) → Option Daemon
  created o = o >>= (λ x.
      start s sent pid blank boottime
        (record (announced translated d) { service = record d.service { s_rules = x.1 } }))

  create_application-created :
      (create_application s sent pid blank translated d >>= start s sent pid blank boottime)
      ≡ created (load_from_file s blank d.service.file d.service.s_rules)
  unfolding create_application created
  create_application-created =
      elim (Option-cases (load_from_file s blank d.service.file d.service.s_rules)) [
        | inl e ↦ rw e refl
        | inr (x, e) ↦ rw e refl
      ]

  -- A start after createApplication does what a start without it does, whether the file can be opened or
  -- not, and whether its loading comes to an end or crashes: the rules are read from the file twice.
  -- What is left of createApplication are the message to the audit system and the translation.
  pub create_application-start :
      (create_application s sent pid blank translated d >>= start s sent pid blank boottime)
      ≡ start s sent pid blank boottime (announced translated d)
  unfolding created
  create_application-start =
      let e0 = announced translated d in
      create_application-created
      ∙ elim (Option-cases (load_from_file s blank d.service.file d.service.s_rules)) [
        | inl e ↦
            ap created e
            ∙ sym (
                start-loaded s sent pid blank boottime e0 d.service.s_rules
                ∙ ap (start_loaded s sent pid blank boottime e0) e)
        | inr ((rs, ys), e) ↦
            ap created e
            ∙ (start-loaded s sent pid blank boottime e0 ys
                ∙ ap (start_loaded s sent pid blank boottime e0)
                    (load_from_file-again s blank d.service.file d.service.s_rules rs ys e)
                ∙ sym (
                    start-loaded s sent pid blank boottime e0 d.service.s_rules
                    ∙ ap (start_loaded s sent pid blank boottime e0) e))
      ]
