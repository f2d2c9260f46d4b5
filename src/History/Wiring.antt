-- ===== src/History/Wiring.antt =====
-- The worker with the state mirror of main.go.
use cpa_plugin_codex_auto_re.Prelude.{
  IsNewest, trimmed-IsNewest, [], ◌∷◌, ◌++◌, ℕ, ◌≡◌, refl, sym, ◌∙◌, ap, pos, ◌≤ℤ◌, String, Option,
  none, some, List, arith, inl, inr, Bool-cases,
}
use cpa_plugin_codex_auto_re.Models.{Config, ResetRecord}
use cpa_plugin_codex_auto_re.Client.{Result}
use cpa_plugin_codex_auto_re.LogRing.{all}
use cpa_plugin_codex_auto_re.Fsm.Machine.{AccountFsm, take_pending_history}
use cpa_plugin_codex_auto_re.Store.{PluginState}
use cpa_plugin_codex_auto_re.Worker.State.{Out, Host, Running}
use cpa_plugin_codex_auto_re.Worker.Sound.{IsFair, IsSound}
use cpa_plugin_codex_auto_re.Worker.Reach.{Reached, Reached-IsSound}
use cpa_plugin_codex_auto_re.History.{remember, sync_fsm_into_global_state}
use cpa_plugin_codex_auto_re.History.Mirror.{
  Wired, after_verified_reset, debounced_save_state, state_sync, wired,
}

-- What the history is after the record of a cycle, if there is one.
abbrev pub IsRemembered : Option ResetRecord → List ResetRecord → List ResetRecord → Type 0
IsRemembered none before after = after ≡ before
IsRemembered (some r) before after = IsNewest 500 (before ++ r ∷ []) after

remember-IsRemembered :
    (o : Option ResetRecord) (rs : List ResetRecord) → IsRemembered o rs (remember o rs)
remember-IsRemembered none rs = refl
remember-IsRemembered (some r) rs = trimmed-IsNewest 500 (rs ++ r ∷ [])

module _ {H : Type 0} (base : Host H) (reset_routing_cooldown : String → H → Result ℕ × H)
    (path : String) (marshal : PluginState → Option String)
    (unmarshal : String → Option PluginState) where
  abbrev pub plugin_host : Host (Wired H)
  plugin_host = wired base reset_routing_cooldown path marshal unmarshal

  wired-IsFair : ((h : H) → pos 1 ≤ℤ (base.now h).0) → IsFair plugin_host
  unfolding state_sync sync_fsm_into_global_state take_pending_history
  wired-IsFair ticking = record {
    ticking = λ w. ticking w.inner;
    sync_wake = λ id f o. refl;
    sync_cfg = λ id f o. refl;
  }

  -- With the state mirror that main.go gives it, a worker whose clock runs after the zero time strands no
  -- account in any state that it reaches, whatever the file system and the host's cooldown call do.
  pub wired-IsSound :
      ((h : H) → pos 1 ≤ℤ (base.now h).0)
      → (cfg : Config) → pos 0 ≤ℤ cfg.refresh_interval
      → (enabled : List String) (s : Running (Wired H)) → Reached plugin_host cfg enabled s
      → IsSound cfg s
  wired-IsSound ticking cfg delayed enabled s r =
      Reached-IsSound plugin_host (wired-IsFair ticking) cfg delayed enabled r

  debounced_save_state-state :
      (o : Out (Wired H))
      → let t = debounced_save_state base reset_routing_cooldown path marshal unmarshal o in
        (t.host.state ≡ o.host.state) × (t.logs ≡ o.logs)
  unfolding debounced_save_state
  debounced_save_state-state o = ground arith

  after_verified_reset-history :
      (id : String) (rec : Option ResetRecord) (o : Out (Wired H))
      → let t = after_verified_reset base reset_routing_cooldown path marshal unmarshal id rec o in
        (t.host.state.reset_history ≡ o.host.state.reset_history)
        × (o.host.state.logs ≡ all o.logs → t.host.state.logs ≡ all t.logs)
  unfolding after_verified_reset
  after_verified_reset-history id none o = (refl, λ h. h)
  after_verified_reset-history id (some r) o = elim (Bool-cases r.success) [
    | inl t ↦ rw t (refl, λ h. refl)
    | inr t ↦ rw t (refl, λ h. h)
  ]

  -- The mirror that runs after each tick puts the pending record of the machine, if it has one, behind the
  -- history, of which the newest 500 records stay, and else leaves the history alone; it takes the record
  -- from the machine, and leaves the persisted log equal to the worker's, the entry on the cleared
  -- cooldown included.
  pub state_sync_lem :
      (id : String) (fsm : AccountFsm) (o : Out (Wired H))
      → let (after, t) = state_sync base reset_routing_cooldown path marshal unmarshal id fsm o in
        IsRemembered fsm.pending_history o.host.state.reset_history t.host.state.reset_history
        × (t.host.state.logs ≡ all t.logs)
        × (after.pending_history ≡ none)
  unfolding state_sync sync_fsm_into_global_state take_pending_history
  state_sync_lem id fsm o =
      let synced : Out (Wired H) = record o {
        host = record (o.host) {
          state = (sync_fsm_into_global_state o.logs id fsm o.host.state).1;
        };
      } in
      let cooled =
        after_verified_reset base reset_routing_cooldown path marshal unmarshal id
          fsm.pending_history synced in
      let (history, log) = after_verified_reset-history id fsm.pending_history synced in
      let (same, logs) = debounced_save_state-state cooled in
      (
        rw (same, history) (remember-IsRemembered fsm.pending_history o.host.state.reset_history),
        ap (λ s. s.logs) same ∙ log refl ∙ ap all (sym logs),
        refl,
      )
