-- ===== src/Management/Handlers.antt =====
-- The handlers of management.go, and the restart of the worker that main.go gives them.
-- A handler that fails to marshal its answer is left out: the bodies are plain data.
use cpa_plugin_codex_auto_re.Prelude.{
  ℕ, pos, String, Bool, true, false, Option, none, some, List, [], ◌∷◌, if◌then◌else◌, str_eq,
}
use cpa_plugin_codex_auto_re.Models.{Duration, Config, say, Value, max_log_entries}
use cpa_plugin_codex_auto_re.Client.{GoError, Result, ok, err}
use cpa_plugin_codex_auto_re.LogRing.{new_log_ring, load, all}
use cpa_plugin_codex_auto_re.Config.{normalize_config, parse_config_yaml}
use cpa_plugin_codex_auto_re.Fsm.Machine.{AccountFsm}
use cpa_plugin_codex_auto_re.Store.{PluginState}
use cpa_plugin_codex_auto_re.Store.File.{save_state}
use cpa_plugin_codex_auto_re.Worker.State.{Running, Host, R, new_worker}
use cpa_plugin_codex_auto_re.Worker.Triggers.{trigger_check, force_confirm_account}
use cpa_plugin_codex_auto_re.Worker.Listing.{each_fsm}
use cpa_plugin_codex_auto_re.Management.Requests.{
  Body, Response, SettingsRequest, Codec, Answers, Plugin,
}

-- `error`, with the text of a Go error behind `prefix`.
abbrev pub fail_with : ℕ → String → GoError → Response
fail_with code prefix e =
    (code, Body.failure (record { format = prefix; args = Value.err_text e ∷ [] }))

-- `restartWorkerFromState`: the new worker, its log carried over. `h` is the host's state when there was
-- no worker before. The old worker is told to stop; its loop ends by itself.
unfoldable pub restart_worker_from_state :
    {H : Type 0} → H → PluginState → Option (Running H) → Running H
unfolding new_worker new_log_ring load all
restart_worker_from_state h s none = record {
  worker = new_worker s.config s.config.enabled_accounts;
  out = record { host = h; logs = load (new_log_ring max_log_entries) s.logs };
}
restart_worker_from_state h s (some old) = record {
  worker = new_worker s.config s.config.enabled_accounts;
  out = record {
    host = old.out.host;
    logs = load (new_log_ring max_log_entries) (all old.out.logs);
  };
}

module _ {H : Type 0} (host : Host H) (codec : Codec) where
  -- Writes the state file; a failure is answered with 500.
  unfoldable pub persist : Plugin H → Bool × Plugin H
  persist p =
      let r = save_state codec.marshal codec.unmarshal p.state_path p.state p.disk in
      (r.0, record p { disk = r.1 })

  abbrev pub not_saved : Response
  not_saved = (500, Body.failure (say "save failed"))

  abbrev pub status_json : Plugin H → Response
  status_json p = (200, Body.status p.state.config p.state.accounts p.state.reset_history)

  -- `req`, from JSON or else from YAML.
  abbrev pub settings_of : String → Result SettingsRequest
  settings_of body = elim (codec.settings body) [
    | ok r ↦ ok r
    | err e ↦ elim (parse_config_yaml codec.yaml body) [
      | err e2 ↦ err e
      | ok cfg ↦ ok (record {
        refresh_interval = codec.show_duration cfg.refresh_interval;
        trigger_lead_time = codec.show_duration cfg.trigger_lead_time;
        enabled_accounts = cfg.enabled_accounts;
      })
    ]
  ]

  -- A duration field; an empty one is zero.
  abbrev pub duration_of : String → Result Duration
  duration_of text = if str_eq text "" then ok (pos 0) else codec.parse_duration text

  abbrev pub restarted : Option (PluginState → Option (Running H) → Running H) → Plugin H → Plugin H
  restarted none p = p
  restarted (some restart) p = record p { running = some (restart p.state p.running) }

  -- The answer, and the new worker once the state is written.
  abbrev pub settings_stored : Config → Bool × Plugin H → Response × Plugin H
  settings_stored cfg (true, p) = (
    (200, Body.settings cfg.refresh_interval cfg.trigger_lead_time cfg.enabled_accounts),
    restarted p.on_settings_changed p,
  )
  settings_stored cfg (false, p) = (not_saved, p)

  -- The end of `putSettings`.
  unfoldable pub store_settings : Config → Plugin H → Response × Plugin H
  store_settings cfg p =
      let normal = normalize_config cfg in
      settings_stored normal (persist (record p { state = record (p.state) { config = normal } }))

  abbrev pub with_lead : List String → Duration → Result Duration → Plugin H → Response × Plugin H
  with_lead enabled refresh (err e) p = (fail_with 400 "invalid trigger_lead_time: %s" e, p)
  with_lead enabled refresh (ok lead) p =
      store_settings
        (record {
          refresh_interval = refresh;
          trigger_lead_time = lead;
          enabled_accounts = enabled;
          state_dir = p.state.config.state_dir;
        })
        p

  abbrev pub with_refresh : SettingsRequest → Result Duration → Plugin H → Response × Plugin H
  with_refresh req (err e) p = (fail_with 400 "invalid refresh_interval: %s" e, p)
  with_refresh req (ok refresh) p =
      with_lead req.enabled_accounts refresh (duration_of req.trigger_lead_time) p

  abbrev pub with_settings : Result SettingsRequest → Plugin H → Response × Plugin H
  with_settings (err e) p = (fail_with 400 "invalid settings: %s" e, p)
  with_settings (ok req) p = with_refresh req (duration_of req.refresh_interval) p

  unfoldable pub put_settings : String → Plugin H → Response × Plugin H
  put_settings body p = with_settings (settings_of body) p

  -- A call of the worker that may not find its account.
  abbrev pub on_worker :
      R H (Option GoError) → ℕ → Body → Option (Running H) → Plugin H → Response × Plugin H
  on_worker call code body none p = ((200, body), p)
  on_worker call code body (some r) p =
      let done = call r in
      (
        elim (done.0) [ none ↦ (200, body) | some e ↦ fail_with code "%s" e ],
        record p { running = some done.1 },
      )

  unfoldable pub check_all : Plugin H → Response × Plugin H
  check_all p = on_worker (trigger_check host "") 502 (Body.triggered "all") p.running p

  abbrev pub or_nothing : Result String → String
  or_nothing (ok s) = s
  or_nothing (err e) = ""

  -- The decoding error is ignored: the account is then the empty one, which means all.
  unfoldable pub check_one : String → Plugin H → Response × Plugin H
  check_one body p =
      let id = or_nothing (codec.auth_index body) in
      on_worker (trigger_check host id) 404 (Body.triggered id) p.running p

  unfoldable pub reset_one : String → Plugin H → Response × Plugin H
  reset_one body p =
      let id = or_nothing (codec.auth_index body) in
      if str_eq id ""
      then ((400, Body.failure (say "auth_index required")), p)
      else on_worker (force_confirm_account host id) 404 (Body.forced id) p.running p

  abbrev pub import_decoded : Result PluginState → Plugin H → Response × Plugin H
  import_decoded (err e) p = (fail_with 400 "%s" e, p)
  import_decoded (ok s) p =
      let saved = persist (record p {
        state = record (p.state) { config = normalize_config s.config; accounts = s.accounts };
      }) in
      (if saved.0 then (200, Body.imported) else not_saved, saved.1)

  unfoldable pub import_state : String → Plugin H → Response × Plugin H
  import_state body p = import_decoded (codec.state body) p

  unfoldable pub logs_json : Plugin H → Response
  logs_json p = (200, Body.entries (elim (p.running) [ none ↦ [] | some r ↦ all r.out.logs ]))

  -- The first machine that `EachFSM` shows.
  abbrev pub first : List AccountFsm → Option AccountFsm
  first [] = none
  first (f ∷ fs) = some f

  abbrev pub raw_usage : Answers → Option AccountFsm → Response
  raw_usage answers none = (503, Body.failure (say "no FSM available"))
  raw_usage answers (some f) = elim (answers.usage f.creds) [
    | ok body ↦ (200, Body.raw body)
    | err e ↦ fail_with 502 "%s" e
  ]

  unfoldable pub debug_usage : Answers → Plugin H → Response
  debug_usage answers p = elim (p.state.config.enabled_accounts) [
    | [] ↦ (400, Body.failure (say "no enabled accounts"))
    | ◌∷◌ a rest ↦ elim (p.running) [
      | none ↦ (503, Body.failure (say "worker not running"))
      | some r ↦ raw_usage answers (first (each_fsm r.worker))
    ]
  ]
