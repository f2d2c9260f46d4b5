-- ===== src/Worker/Sound.antt =====
-- No account is stranded: every state machine that the worker holds has a wake that `soonest` sees.
use cpa_plugin_codex_auto_re.Prelude.{
  contains, ◌≡◌, pos, ◌≤ℤ◌, String, Option, none, some, List, [], ◌∷◌, arith, for_each, erase, Each,
  Each-insert, Each-erase, Bool, true, false, ◌&&◌, if◌then◌else◌, ltb_ℤ, ◌||◌, not, sort_stable,
}
use cpa_plugin_codex_auto_re.Models.{
  say, NextAt, is_zero, wildcard_resolve_interval, Config, CodexCredentials,
}
use cpa_plugin_codex_auto_re.Config.{config_enables_all}
use cpa_plugin_codex_auto_re.Client.{Result, ok, err}
use cpa_plugin_codex_auto_re.Fsm.Machine.{AccountFsm, new_account_fsm, set_next_wake}
use cpa_plugin_codex_auto_re.Worker.State.{Out, Running, Host, R, clock, lift, log, log_entry}
use cpa_plugin_codex_auto_re.Worker.Accounts.{
  has, is_idle, str_less, sub_time, due_missing, resolve_if, ensure_fsm, ensure_loaded, reap,
  enumerated, maybe_resolve_wildcard, retry_missing_fsms,
}

-- A state machine with the worker's configuration and a wake after the zero time.
abbrev pub IsAwake : Config → AccountFsm → Type 0
IsAwake cfg f = (pos 1 ≤ℤ f.next_wake) × (f.cfg ≡ cfg)

pub record IsSound {H : Type 0} (cfg : Config) (s : Running H) : Type 0 where
  pub same_cfg : s.worker.cfg ≡ cfg
  pub awake : Each (IsAwake cfg) s.worker.fsms

-- The host's clock runs after the zero time, and its state mirror leaves the schedule alone.
pub record IsFair {H : Type 0} (host : Host H) : Type 0 where
  pub ticking : (h : H) → pos 1 ≤ℤ (host.now h).0
  pub sync_wake :
      (id : String) (f : AccountFsm) (o : Out H)
      → (host.state_sync id f o).0.next_wake ≡ f.next_wake
  pub sync_cfg : (id : String) (f : AccountFsm) (o : Out H) → (host.state_sync id f o).0.cfg ≡ f.cfg

pub branch :
    {H A : Type 0} (cfg : Config) (b : Bool) (x y : R H A) (s : Running H)
    → IsSound cfg (x s).1
    → IsSound cfg (y s).1
    → IsSound cfg ((if b then x else y) s).1
branch cfg true x y s p q = p
branch cfg false x y s p q = q

module _ {H : Type 0} (host : Host H) (fair : IsFair host) (cfg : Config) where
  ensure_loaded-IsSound :
      (id : String) (r : Result CodexCredentials) (s : Running H)
      → IsSound cfg s
      → IsSound cfg (ensure_loaded host id r s).1
  unfolding ensure_loaded set_next_wake new_account_fsm
  ensure_loaded-IsSound id (err e) s v = ground arith
  ensure_loaded-IsSound id (ok creds) s v =
      let now = (host.now s.out.host).0 in
      ground (
        arith,
        fair.ticking s.out.host,
        v.awake,
        Each-insert (IsAwake cfg) id (set_next_wake now (new_account_fsm id creds s.worker.cfg))
            s.worker.fsms,
      )

  pub ensure_fsm-IsSound :
      (id : String) (s : Running H) → IsSound cfg s → IsSound cfg (ensure_fsm host id s).1
  unfolding ensure_fsm
  ensure_fsm-IsSound id s v = branch cfg (has id s.worker.fsms) _ _ s v (
      ensure_loaded-IsSound id (host.load_creds id s.out.host).0 (lift (host.load_creds id) s).1
        (record { same_cfg = v.same_cfg; awake = v.awake }))

  -- The state behind a reading of the clock.
  abbrev pub after_clock : Running H → Running H
  after_clock s = (clock host s).1

  pub for_each-IsSound :
      (ids : List String) (s : Running H)
      → IsSound cfg s
      → IsSound cfg (for_each ids (ensure_fsm host) s).1
  unfolding for_each
  for_each-IsSound [] s v = v
  for_each-IsSound (id ∷ ids) s v = for_each-IsSound ids _ (ensure_fsm-IsSound id s v)

  -- What the reaping of one account leaves.
  abbrev dropped : String → Running H → Running H
  dropped id s =
      (log host
        (log_entry host "info" id none
          (say "account no longer present in CPA; wildcard monitoring stopped") (say "") NextAt.nil
          [])
        (record s {
          worker = record (s.worker) {
            fsms = erase id s.worker.fsms;
            missing_retry_at = erase id s.worker.missing_retry_at;
          };
        })).1

  reap-IsSound :
      (ids : List String) (fs : List (String × AccountFsm)) (s : Running H)
      → IsSound cfg s
      → IsSound cfg (reap host ids fs s).1
  unfolding reap
  reap-IsSound ids [] s v = v
  reap-IsSound ids ((id, fsm) ∷ fs) s v =
      branch cfg (contains id ids || not (is_idle fsm.state)) _ _ s (reap-IsSound ids fs s v) (
        reap-IsSound ids fs (dropped id s) (record {
          same_cfg = v.same_cfg;
          awake = Each-erase (IsAwake cfg) id s.worker.fsms v.awake;
        }))

  enumerated-IsSound :
      (r : Result (List String)) (s : Running H)
      → IsSound cfg s
      → IsSound cfg (enumerated host r s).1
  unfolding enumerated
  enumerated-IsSound (err e) s v = record { same_cfg = v.same_cfg; awake = v.awake }
  enumerated-IsSound (ok ids) s v =
      let reaped =
        reap-IsSound (sort_stable str_less ids) s.worker.fsms
          (record s { worker = record (s.worker) { resolved_enabled = sort_stable str_less ids } })
          (record { same_cfg = v.same_cfg; awake = v.awake }) in
      record { same_cfg = reaped.same_cfg; awake = reaped.awake }

  resolve_if-IsSound :
      (query : Option (H → Result (List String) × H)) (s : Running H)
      → IsSound cfg s
      → IsSound cfg (resolve_if host query s).1
  unfolding resolve_if
  resolve_if-IsSound none s v = v
  resolve_if-IsSound (some query) s v =
      let now = (host.now s.out.host).0 in
      let asked =
        (lift query (record s {
          worker = record (s.worker) { last_resolve_at = now };
          out = (after_clock s).out;
        })).1 in
      branch cfg
        (not (is_zero s.worker.last_resolve_at)
          && ltb_ℤ (sub_time now s.worker.last_resolve_at) wildcard_resolve_interval)
        _ _ (after_clock s) (record { same_cfg = v.same_cfg; awake = v.awake })
        (enumerated-IsSound (query (after_clock s).out.host).0 asked
          (record { same_cfg = v.same_cfg; awake = v.awake }))

  pub maybe_resolve_wildcard-IsSound :
      (s : Running H) → IsSound cfg s → IsSound cfg (maybe_resolve_wildcard host s).1
  unfolding maybe_resolve_wildcard
  maybe_resolve_wildcard-IsSound s v =
      branch cfg (config_enables_all s.worker.enabled) _ _ s (resolve_if-IsSound host.enumerate s v)
        v

  pub retry_missing_fsms-IsSound :
      (s : Running H) → IsSound cfg s → IsSound cfg (retry_missing_fsms host s).1
  unfolding retry_missing_fsms
  retry_missing_fsms-IsSound s v =
      for_each-IsSound (due_missing host (host.now s.out.host).0 s.worker s.worker.resolved_enabled)
        (after_clock s) (record { same_cfg = v.same_cfg; awake = v.awake })
