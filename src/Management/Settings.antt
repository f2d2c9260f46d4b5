-- ===== src/Management/Settings.antt =====
-- `putSettings` and `importState`: what a change of the settings leaves behind.
use mathlib.Core.Path.{subst}
use cpa_plugin_codex_auto_re.Prelude.{
  ◌≡◌, refl, sym, ap, ◌∙◌, ◌⊎◌, inl, inr, String, Bool, true, false, Option, none, some, List,
  arith,
}
use cpa_plugin_codex_auto_re.Models.{Duration, Config}
use cpa_plugin_codex_auto_re.Client.{Result, ok, err, Result-cases}
use cpa_plugin_codex_auto_re.Config.{normalize_config}
use cpa_plugin_codex_auto_re.Config.Normal.{IsNormal, normalize_config-IsNormal}
use cpa_plugin_codex_auto_re.Store.{PluginState}
use cpa_plugin_codex_auto_re.Worker.State.{Host, Running}
use cpa_plugin_codex_auto_re.Management.Requests.{Response, SettingsRequest, Codec, Plugin}
use cpa_plugin_codex_auto_re.Management.Handlers.{
  put_settings, persist, store_settings, settings_stored, restarted, with_lead, with_refresh,
  with_settings, settings_of, duration_of, import_state,
}

-- A request that is refused with 400 and changes nothing.
abbrev pub IsRefused : {H : Type 0} → Plugin H → Response × Plugin H → Type 0
IsRefused p r = (r.0.0 ≡ 400) × (r.1 ≡ p)

-- A change of the settings: the new configuration is normal and keeps the state directory; accounts,
-- log and history stay; on success the worker is the restarted one.
pub record IsChanged {H : Type 0} (p : Plugin H) (r : Response × Plugin H) : Type 0 where
  pub normal : IsNormal r.1.state.config
  pub state_dir : r.1.state.config.state_dir ≡ p.state.config.state_dir
  pub kept :
      (r.1.state.accounts ≡ p.state.accounts)
      × (r.1.state.logs ≡ p.state.logs)
      × (r.1.state.reset_history ≡ p.state.reset_history)
  pub restarted :
      (restart : PluginState → Option (Running H) → Running H)
      → p.on_settings_changed ≡ some restart
      → r.0.0 ≡ 200
      → r.1.running ≡ some (restart r.1.state p.running)

module _ {H : Type 0} (host : Host H) (codec : Codec) where
  restarted-state :
      (o : Option (PluginState → Option (Running H) → Running H)) (q : Plugin H)
      → (restarted host codec o q).state ≡ q.state
  restarted-state none q = refl
  restarted-state (some restart) q = refl

  restarted-running :
      (o : Option (PluginState → Option (Running H) → Running H)) (q : Plugin H)
      (restart : PluginState → Option (Running H) → Running H)
      → o ≡ some restart
      → (restarted host codec o q).running
        ≡ some (restart (restarted host codec o q).state q.running)
  restarted-running none q restart e = absurd (ground (arith, e))
  restarted-running (some f) q restart e =
      ap (λ g. some (g q.state q.running)) (some_inj f restart e)
    where
      some_inj : (f g : PluginState → Option (Running H) → Running H) → some f ≡ some g → f ≡ g
      some_inj f g h =
          ap
            (λ o. elim o as (λ _. PluginState → Option (Running H) → Running H) [
              | none ↦ f
              | some k ↦ k
            ])
            h

  stored :
      (cfg : Config) (p : Plugin H)
      → IsNormal cfg
      → cfg.state_dir ≡ p.state.config.state_dir
      → (r : Bool × Plugin H) → r.1.state ≡ record (p.state) { config = cfg }
      → r.1.running ≡ p.running
      → r.1.on_settings_changed ≡ p.on_settings_changed
      → IsChanged p (settings_stored host codec cfg r)
  stored cfg p n h (false, q) s w o = record {
    normal = subst (λ t. IsNormal t.config) (sym s) n;
    state_dir = ap (λ t. t.config.state_dir) s ∙ h;
    kept = (ap (λ t. t.accounts) s, ap (λ t. t.logs) s, ap (λ t. t.reset_history) s);
    restarted = λ restart e c. absurd (ground (arith, c));
  }
  stored cfg p n h (true, q) s w o =
      let same = restarted-state q.on_settings_changed q ∙ s in
      record {
        normal = subst (λ t. IsNormal t.config) (sym same) n;
        state_dir = ap (λ t. t.config.state_dir) same ∙ h;
        kept = (ap (λ t. t.accounts) same, ap (λ t. t.logs) same, ap (λ t. t.reset_history) same);
        restarted = λ restart e c.
            restarted-running q.on_settings_changed q restart (o ∙ e)
            ∙ ap (λ v. some (restart (restarted host codec q.on_settings_changed q).state v)) w;
      }

  store_settings-IsChanged :
      (cfg : Config) (p : Plugin H)
      → cfg.state_dir ≡ p.state.config.state_dir
      → IsChanged p (store_settings host codec cfg p)
  unfolding store_settings persist normalize_config
  store_settings-IsChanged cfg p h =
      stored (normalize_config cfg) p (normalize_config-IsNormal cfg) h
        (persist host codec
          (record p { state = record (p.state) { config = normalize_config cfg } }))
        refl refl refl

  -- Settings are refused with 400, and then nothing changes, or taken: then the configuration is normal,
  -- the state directory, the accounts, the log and the history stay, and if the state was written the
  -- worker is restarted with them.
  pub put_settings_lem :
      (body : String) (p : Plugin H)
      → IsRefused p (put_settings host codec body p) ⊎ IsChanged p (put_settings host codec body p)
  unfolding put_settings
  put_settings_lem body p = read (settings_of host codec body)
    where
      lead :
          (enabled : List String) (refresh : Duration) (r : Result Duration)
          → IsRefused p (with_lead host codec enabled refresh r p)
            ⊎ IsChanged p (with_lead host codec enabled refresh r p)
      lead enabled refresh (err e) = inl (refl, refl)
      lead enabled refresh (ok d) = inr (store_settings-IsChanged _ p refl)

      refreshed :
          (req : SettingsRequest) (r : Result Duration)
          → IsRefused p (with_refresh host codec req r p)
            ⊎ IsChanged p (with_refresh host codec req r p)
      refreshed req (err e) = inl (refl, refl)
      refreshed req (ok d) =
          lead req.enabled_accounts d (duration_of host codec req.trigger_lead_time)

      read :
          (r : Result SettingsRequest)
          → IsRefused p (with_settings host codec r p) ⊎ IsChanged p (with_settings host codec r p)
      read (err e) = inl (refl, refl)
      read (ok req) = refreshed req (duration_of host codec req.refresh_interval)

  -- An import is refused with 400, and then nothing changes, or taken: then the configuration is normal
  -- and the accounts are those of the file, while the log and the history stay as they were.
  pub import_state_lem :
      (body : String) (p : Plugin H)
      → let r = import_state host codec body p in
        IsRefused p r
        ⊎ ((s : PluginState) × (codec.state body ≡ ok s)
            × (r.1.state.config ≡ normalize_config s.config)
            × IsNormal r.1.state.config
            × (r.1.state.accounts ≡ s.accounts)
            × (r.1.state.logs ≡ p.state.logs)
            × (r.1.state.reset_history ≡ p.state.reset_history))
  unfolding import_state persist
  import_state_lem body p = elim (Result-cases (codec.state body)) [
    | inl (s, e) ↦ rw e (inr (s, refl, refl, normalize_config-IsNormal s.config, refl, refl, refl))
    | inr (x, e) ↦ rw e (inl (refl, refl))
  ]
