-- ===== src/Boot/Configure/Restore.antt =====
-- A restart of the plugin on a state that it has saved.
use cpa_plugin_codex_auto_re.Prelude.{
  ◌≡◌, refl, sym, ap, ◌∙◌, ◌⊎◌, inl, inr, String, Bool, true, false, Option, some, List, [], ◌∷◌,
  if◌then◌else◌, str_eq, arith, trim_space,
}
use cpa_plugin_codex_auto_re.Models.{Config, LogEntry, max_log_entries}
use cpa_plugin_codex_auto_re.Client.{GoError, Result, ok, err}
use cpa_plugin_codex_auto_re.LogRing.{all, newest, append, new_log_ring, load}
use cpa_plugin_codex_auto_re.Store.{PluginState}
use cpa_plugin_codex_auto_re.Store.Disk.{Disk, read_file}
use cpa_plugin_codex_auto_re.Store.File.{Loaded, loaded, save_state, migrate_state_file}
use cpa_plugin_codex_auto_re.Store.Recovery.{
  Readable, content, load_state_main, save_state_atomic, save_state_failing,
}
use cpa_plugin_codex_auto_re.History.{
  backfill_reset_history_from_logs, collapse_reset_history_duplicates,
}
use cpa_plugin_codex_auto_re.Worker.State.{Running, Host, Out, new_worker}
use cpa_plugin_codex_auto_re.Management.Requests.{AuthEntry, Plugin}
use cpa_plugin_codex_auto_re.Boot.Path.{FilePaths, default_state_path, resolve_state_path}
use cpa_plugin_codex_auto_re.Boot.Configure.{
  Coders, is_blank, entries_of, or_fresh, chosen_config, requested_config, moved_and_loaded,
  announced, warned, with_stored_log, start, configure_plugin,
}

module _ (marshal : PluginState → Option String) (unmarshal : String → Option PluginState) where
  -- A migration to a file that is there does nothing, not even to the disk.
  migrate_state_file-nothing :
      (src dst b : String) (d : Disk)
      → content dst d ≡ some b
      → d.failing ≡ 0
      → migrate_state_file marshal unmarshal src dst d ≡ (false, d)
  unfolding migrate_state_file read_file
  migrate_state_file-nothing src dst b d h f = ground (arith, h, f)

module _ {H : Type 0} (host : Host H) (coders : Coders) (fp : FilePaths) (stamp : String)
    (read_error : GoError) where
  abbrev pub save : String → PluginState → Disk → Bool × Disk
  save = save_state coders.marshal coders.unmarshal

  moved_and_loaded-stored :
      (path raw : String) (s : PluginState) (d : Disk)
      → content path d ≡ some raw
      → coders.unmarshal raw ≡ some s
      → d.failing ≡ 0
      → (moved_and_loaded host coders fp stamp read_error path d).0 ≡ loaded s "main"
  moved_and_loaded-stored path raw s d c u f =
      let legacy =
        migrate_state_file-nothing coders.marshal coders.unmarshal "codex-auto-reset.state.json"
          path raw d c f in
      let older =
        migrate_state_file-nothing coders.marshal coders.unmarshal (default_state_path fp) path raw
          d c f in
      let calm : Readable d = omega (arith, f) in
      rw (legacy, older)
        (ap (λ r. r.0)
          (load_state_main coders.marshal coders.unmarshal stamp path raw s d c u calm))

  stored_content :
      (path raw : String) (s : PluginState) (d : Disk)
      → coders.marshal s ≡ some raw
      → (save path s d).0 ≡ true
      → content path (save path s d).1 ≡ some raw
  stored_content path raw s d m k =
      elim (save_state_atomic coders.marshal coders.unmarshal path s d) [
        | inl (e, c) ↦ absurd (cc (e, k))
        | inr (e, (raw', m', c)) ↦ cc (m, m', c)
      ]

  -- The configuration of a stored state that has one: its own, with the state directory of the request
  -- if that has one.
  abbrev pub kept_config : Config → Config → Config
  kept_config cfg stored =
      let dir = trim_space cfg.state_dir in
      if str_eq dir "" then stored else record stored { state_dir = dir }

  ring_capacity :
      (path : String) (l : Loaded) (auths : Result (List AuthEntry)) (h : H)
      → (warned host coders fp stamp read_error auths (
          announced host coders fp stamp read_error path l
            (record { host = h; logs = new_log_ring max_log_entries }))).logs.capacity
        ≡ max_log_entries
  unfolding append new_log_ring
  ring_capacity path l (ok entries) h = refl
  ring_capacity path l (err e) h = refl

  with_stored_log_lem :
      (es : List LogEntry) (o : Out H)
      → o.logs.capacity ≡ max_log_entries
      → (es ≡ [])
        ⊎ (all (with_stored_log host coders fp stamp read_error es o).logs
            ≡ newest max_log_entries es)
  unfolding load all
  with_stored_log_lem [] o c = inl refl
  with_stored_log_lem (e ∷ es) o c = inr (ap (λ n. newest n (e ∷ es)) c)

  kept_config_lem :
      (cfg : Config) (s : PluginState)
      → is_blank s.config ≡ false
      → chosen_config cfg s ≡ kept_config cfg s.config
  unfolding chosen_config
  kept_config_lem cfg s b = ground (arith, b)

  -- Where a request with this configuration finds the state file.
  abbrev pub state_place : Config → Result (List AuthEntry) → String
  state_place cfg auths = resolve_state_path fp (trim_space cfg.state_dir) (entries_of auths)

  -- What the state is after a start on the stored state `s`.
  abbrev pub restored : Config → PluginState → PluginState
  restored cfg s = record s {
    config = kept_config cfg s.config;
    reset_history = (backfill_reset_history_from_logs coders.format coders.render s).reset_history;
  }

  started_state :
      (cfg : Config) (auths : Result (List AuthEntry)) (s : PluginState) (path : String)
      (r : Loaded × Disk) (h : H)
      → is_blank s.config ≡ false
      → r.0 ≡ loaded s "main"
      → (start host coders fp stamp read_error cfg auths path r h).state ≡ restored cfg s
  unfolding backfill_reset_history_from_logs collapse_reset_history_duplicates
  started_state cfg auths s path r h b e = rw (e, kept_config_lem cfg s b) refl

  started_log :
      (cfg : Config) (auths : Result (List AuthEntry)) (s : PluginState) (path : String)
      (r : Loaded × Disk) (h : H)
      → r.0 ≡ loaded s "main"
      → (x : Running H) × ((start host coders fp stamp read_error cfg auths path r h).running
          ≡ some x)
        × (x.worker ≡ new_worker (chosen_config cfg s) (chosen_config cfg s).enabled_accounts)
        × ((s.logs ≡ []) ⊎ (all x.out.logs ≡ newest max_log_entries s.logs))
  started_log cfg auths s path r h e =
      let used = chosen_config cfg (or_fresh r.0) in
      let quiet : Out H = record { host = h; logs = new_log_ring max_log_entries } in
      let before =
        warned host coders fp stamp read_error auths
          (announced host coders fp stamp read_error path r.0 quiet) in
      (
        record {
          worker = new_worker used used.enabled_accounts;
          out = with_stored_log host coders fp stamp read_error (or_fresh r.0).logs before;
        },
        refl,
        rw e refl,
        rw e (with_stored_log_lem s.logs _ (ring_capacity path (loaded s "main") auths h)),
      )

  -- If the plugin has saved a state with a configuration at the place where it looks for one, and the
  -- decoder reads it back, then a start without read errors takes it up: the accounts and the log are as
  -- they were, the configuration is the stored one, whatever the request asks for, but for a state
  -- directory of the request, the history is the stored one with its repair and backfill, and the worker
  -- runs on that configuration and shows the newest entries of the log, as many as its ring holds.
  pub configure_plugin-restores :
      (request : String) (cfg : Config) (auths : Result (List AuthEntry)) (s : PluginState)
      (raw : String) (d : Disk) (h : H)
      → requested_config coders request ≡ ok cfg
      → coders.marshal s ≡ some raw
      → coders.unmarshal raw ≡ some s
      → is_blank s.config ≡ false
      → d.failing ≡ 0
      → (save (state_place cfg auths) s d).0 ≡ true
      → (p : Plugin H) × (r : Running H) × (configure_plugin host coders fp stamp read_error request
            auths
            (save (state_place cfg auths) s d).1
            h
          ≡ ok p)
        × (p.state_path ≡ state_place cfg auths)
        × (p.state ≡ restored cfg s)
        × (p.running ≡ some r)
        × (r.worker ≡ new_worker p.state.config p.state.config.enabled_accounts)
        × ((s.logs ≡ []) ⊎ (all r.out.logs ≡ newest max_log_entries s.logs))
  unfolding configure_plugin
  configure_plugin-restores request cfg auths s raw d h q m u b f k =
      let place = state_place cfg auths in
      let saved = (save place s d).1 in
      let r = moved_and_loaded host coders fp stamp read_error place saved in
      let calm : saved.failing ≡ 0 =
        save_state_failing coders.marshal coders.unmarshal place s d ∙ f in
      let e = moved_and_loaded-stored place raw s saved (stored_content place raw s d m k) u calm in
      let p = start host coders fp stamp read_error cfg auths place r h in
      let st = started_state cfg auths s place r h b e in
      let (x, running, w, log) = started_log cfg auths s place r h e in
      let used : p.state.config ≡ chosen_config cfg s =
        ap (λ (t : PluginState). t.config) st ∙ sym (kept_config_lem cfg s b) in
      (p, x, rw q refl, refl, st, running, rw used w, log)
