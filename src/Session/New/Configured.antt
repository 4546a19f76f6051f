-- ===== src/Session/New/Configured.antt =====
-- Which executors `New` makes.
use mathlib.Core.Option
use butterstack_connector.Prelude.{
  ◌≡◌, inl, inr, refl, ◌∙◌, Bool, true, false, Option, none, some, Bytes, codes, bytes_eq,
  bytes_eq_sound, Bool-cases, Except, ok, err, >>=-eq-ok, ◌>>=◌, arith, if◌then◌else◌,
}
use butterstack_connector.Vocab.Selfcheck.{selfcheck}
use butterstack_connector.Config.{Config, configured_tools}
use butterstack_connector.Tools.Perforce.{PerforceConfig}
use butterstack_connector.Tools.Perforce.Failures.{Machine}
use butterstack_connector.Tools.Perforce.Running.{Start, new_perforce}
use butterstack_connector.Tools.Teamcity.Connection.{
  Web, Send, Teamcity, TeamcityError, new_teamcity,
}
use butterstack_connector.Session.New.{
  NewError, Executors, teamcity_result, perforce_result, make_teamcity, make_perforce,
  new_executors, new_session, executor, checked,
}

abbrev pub is_some : {A : Type 0} → Option A → Bool
is_some none = false
is_some (some a) = true

made :
    {A : Type 0} (b : Bool) (r : Except NewError (Option A)) (o : Option A)
    → ((o' : Option A) → r ≡ ok o' → is_some o' ≡ true)
    → (if b then r else ok none) ≡ ok o
    → is_some o ≡ b
made true r o there h = there o h
made false r none there h = refl
made false r (some a) there h = let e : Path (Option _) none (some a) = ground arith in cc e

teamcity_there :
    (r : Except TeamcityError Teamcity) (o : Option Teamcity)
    → teamcity_result r ≡ ok o
    → is_some o ≡ true
teamcity_there (err e) o h = cc h
teamcity_there (ok t) o h =
    let e : Path (Option Teamcity) (some t) o = ground arith in rw (← e) refl

perforce_there :
    (r : Option PerforceConfig) (o : Option PerforceConfig)
    → perforce_result r ≡ ok o
    → is_some o ≡ true
perforce_there none o h = cc h
perforce_there (some p) o h =
    let e : Path (Option PerforceConfig) (some p) o = ground arith in rw (← e) refl

made_teamcity :
    (web : Web) (cfg : Config) (o : Option Teamcity)
    → make_teamcity web cfg ≡ ok o
    → is_some o ≡ cfg.teamcity.enabled
unfolding make_teamcity
made_teamcity web cfg o h =
    made cfg.teamcity.enabled (teamcity_result (new_teamcity web cfg.teamcity)) o
      (teamcity_there (new_teamcity web cfg.teamcity)) h

made_perforce :
    (cfg : Config) (o : Option PerforceConfig)
    → make_perforce cfg ≡ ok o
    → is_some o ≡ cfg.perforce.enabled
unfolding make_perforce
made_perforce cfg o h =
    made cfg.perforce.enabled (perforce_result (new_perforce cfg.perforce)) o
      (perforce_there (new_perforce cfg.perforce)) h

is_some-map :
    {A : Type 0} {B : Type 0} (f : A → B) (o : Option A) → is_some (Option.map f o) ≡ is_some o
is_some-map f none = refl
is_some-map f (some a) = refl

names_differ :
    (tool : Bytes)
    → bytes_eq tool (codes "teamcity") ≡ true
    → bytes_eq tool (codes "perforce") ≡ false
unfolding codes bytes_eq
names_differ tool h = rw (bytes_eq_sound tool (codes "teamcity") h) refl

module _ {F : Type 0} (machine : Machine F) (start : Start) (web : Web) (send : Send) where
  executor_there :
      (cfg : Config) (x : Executors) (tool : Bytes)
      → is_some x.teamcity ≡ cfg.teamcity.enabled
      → is_some x.perforce ≡ cfg.perforce.enabled
      → is_some (executor machine start web send x tool) ≡ configured_tools cfg tool
  unfolding executor configured_tools
  executor_there cfg x tool tc p4 = elim (Bool-cases (bytes_eq tool (codes "teamcity"))) [
    | inl e ↦ rw (e, names_differ tool e) (is_some-map _ x.teamcity ∙ tc)
    | inr n ↦ elim (Bool-cases (bytes_eq tool (codes "perforce"))) [
      | inl e ↦ rw (n, e) (is_some-map _ x.perforce ∙ p4)
      | inr m ↦ rw (n, m) refl
    ]
  ]

  -- When `New` succeeds, there is an executor for exactly the tools that the configuration enables,
  -- those for which `Resolve` lets a verb through: no command meets a tool that is not there.
  pub new_session-executor :
      (cfg : Config) (x : Executors) (tool : Bytes)
      → new_session web cfg ≡ ok x
      → is_some (executor machine start web send x tool) ≡ configured_tools cfg tool
  unfolding new_session new_executors
  new_session-executor cfg x tool h =
      let (u, valid, made_all) = >>=-eq-ok (checked selfcheck) (λ u. new_executors web cfg) h in
      let (tc, tc_made, more) =
        >>=-eq-ok (make_teamcity web cfg)
          (λ tc. make_perforce cfg >>= λ p4. ok (record { teamcity = tc; perforce = p4 }))
          made_all in
      let (p4, p4_made, last) =
        >>=-eq-ok (make_perforce cfg) (λ p4. ok (record { teamcity = tc; perforce = p4 })) more in
      let is : Path Executors (record { teamcity = tc; perforce = p4 }) x = ground arith in
      rw (← is) (
        executor_there cfg (record { teamcity = tc; perforce = p4 }) tool
          (made_teamcity web cfg tc tc_made) (made_perforce cfg p4 p4_made))
