-- ===== src/Worker/Accounts.antt =====
-- Which accounts the worker serves: `ensureFSM`, `maybeResolveWildcard`, `retryMissingFSMs` and
-- `nextMissingRetryDelay` of worker.go.
use Prim.Native.Nat.{Ordering}
use Prim.Native.String.{compare}
use cpa_plugin_codex_auto_re.Prelude.{
  ◌>>=◌, ◌>>◌, pure, for_each, pos, negsuc, String, Bool, false, true, not, ◌&&◌, ◌||◌, Option,
  none, some, List, [], ◌∷◌, if◌then◌else◌, contains, lookup, insert, erase, ltb_ℤ, ◌+ℤ◌, ◌-ℤ◌,
  sort_stable,
}
use cpa_plugin_codex_auto_re.Models.{
  Time, Duration, zero_time, is_zero, credential_retry_interval, wildcard_resolve_interval, State,
  idle, say, Value, NextAt, CodexCredentials,
}
use cpa_plugin_codex_auto_re.Config.{config_enables_all}
use cpa_plugin_codex_auto_re.Client.{Result, ok, err}
use cpa_plugin_codex_auto_re.Fsm.Machine.{AccountFsm, new_account_fsm, set_next_wake}
use cpa_plugin_codex_auto_re.Worker.State.{
  Worker, Host, R, get, modify, lift, clock, log, log_entry,
}

-- `_, ok := m[k]`.
abbrev pub has : {V : Type 0} → String → List (String × V) → Bool
has k m = elim (lookup k m) [ none ↦ false | some v ↦ true ]

abbrev pub min_duration : Duration
min_duration = negsuc 9223372036854775807

abbrev pub max_duration : Duration
max_duration = pos 9223372036854775807

-- `t.Sub(u)`, which stops at the bounds of a duration.
unfoldable pub sub_time : Time → Time → Duration
sub_time t u =
    if ltb_ℤ (t -ℤ u) min_duration
    then min_duration
    else if ltb_ℤ max_duration (t -ℤ u)
    then max_duration
    else t -ℤ u

-- The order of `sort.Strings`: by bytes.
abbrev pub str_less : String → String → Bool
str_less a b = elim (compare a b) [ Ordering.lt ↦ true | _ ↦ false ]

abbrev pub is_idle : State → Bool
is_idle idle = true
is_idle _ = false

module _ {H : Type 0} (host : Host H) where
  -- `ensureFSM` once the credentials are known.
  unfoldable pub ensure_loaded : String → Result CodexCredentials → R H (Unit {0})
  ensure_loaded id (err e) = do
    now ← clock host
    modify (λ w. record w {
      missing_retry_at = insert id (now +ℤ credential_retry_interval) w.missing_retry_at;
    })
    log host (
        log_entry host "warn" id none
          (record { format = "initial credential load failed: %s"; args = Value.err_text e ∷ [] })
          (say "retry credential load") NextAt.nil [])
  ensure_loaded id (ok creds) = do
    now ← clock host
    modify (λ w. if has id w.fsms then w else record w {
      fsms = insert id (set_next_wake now (new_account_fsm id creds w.cfg)) w.fsms;
      missing_retry_at = erase id w.missing_retry_at;
    })

  unfoldable pub ensure_fsm : String → R H (Unit {0})
  unfolding ensure_loaded
  ensure_fsm id = do
    w ← get
    if has id w.fsms
        then pure tt
        else (do creds ← lift (host.load_creds id); ensure_loaded id creds)

  -- The loop over `fsms` that reaps idle accounts which have vanished: what stays of the two maps.
  unfoldable pub reap : List String → List (String × AccountFsm) → R H (Unit {0})
  reap ids [] = pure tt
  reap ids ((id, fsm) ∷ rest) =
      let more = reap ids rest in
      if contains id ids || not (is_idle fsm.state) then more else (do
        modify (λ w. record w {
          fsms = erase id w.fsms;
          missing_retry_at = erase id w.missing_retry_at;
        })
        log host (
            log_entry host "info" id none
              (say "account no longer present in CPA; wildcard monitoring stopped") (say "")
              NextAt.nil [])
        more)

  -- The missing accounts that are still present.
  abbrev pub keep_present : List String → List (String × Time) → List (String × Time)
  keep_present ids [] = []
  keep_present ids ((id, at) ∷ rest) =
      let kept = keep_present ids rest in if contains id ids then (id, at) ∷ kept else kept

  unfoldable pub enumerated : Result (List String) → R H (Unit {0})
  unfolding reap
  enumerated (err e) = log host (
      log_entry host "warn" "system" none
        (record {
          format = "wildcard account enumeration failed (keeping previous set): %s";
          args = Value.err_text e ∷ [];
        })
        (say "") NextAt.nil [])
  enumerated (ok listed) = do
    let ids = sort_stable str_less listed
    modify (λ w. record w { resolved_enabled = ids })
    w ← get
    reap ids w.fsms
    modify (λ v. record v { missing_retry_at = keep_present ids v.missing_retry_at })

  -- The query, at most once per interval.
  unfoldable pub resolve_with : (H → Result (List String) × H) → R H (Unit {0})
  unfolding enumerated
  resolve_with query = do
    now ← clock host
    w ← get
    if not (is_zero w.last_resolve_at)
          && ltb_ℤ (sub_time now w.last_resolve_at) wildcard_resolve_interval
        then pure tt
        else (do
          modify (λ v. record v { last_resolve_at = now })
          listed ← lift query
          enumerated listed)

  unfoldable pub resolve_if : Option (H → Result (List String) × H) → R H (Unit {0})
  unfolding resolve_with
  resolve_if none = pure tt
  resolve_if (some query) = resolve_with query

  unfoldable pub maybe_resolve_wildcard : R H (Unit {0})
  unfolding resolve_if config_enables_all
  maybe_resolve_wildcard = do
    w ← get
    if config_enables_all w.enabled then resolve_if host.enumerate else pure tt

  -- `ok && now.Before(at)`.
  abbrev pub waits : Time → Option Time → Bool
  waits now none = false
  waits now (some at) = ltb_ℤ now at

  -- The enabled accounts without a state machine whose backoff has run out.
  abbrev pub due_missing : Time → Worker → List String → List String
  due_missing now w [] = []
  due_missing now w (id ∷ ids) =
      let rest = due_missing now w ids in
      if has id w.fsms
      then rest
      else if waits now (lookup id w.missing_retry_at)
      then rest
      else id ∷ rest

  unfoldable pub retry_missing_fsms : R H (Unit {0})
  unfolding for_each
  retry_missing_fsms = do
    now ← clock host
    w ← get
    for_each (due_missing now w w.resolved_enabled) ensure_fsm

  -- The earliest retry of the accounts without a state machine: `none` for an account that was never
  -- tried, which the source answers with a delay of 0.
  abbrev pub earliest_missing : Worker → Time → List String → Option Time
  earliest_missing w soonest [] = some soonest
  earliest_missing w soonest (id ∷ ids) =
      let rest = λ (t : Time). earliest_missing w t ids in
      if has id w.fsms then rest soonest else elim (lookup id w.missing_retry_at) [
        | none ↦ none
        | some at ↦ rest (if is_zero soonest || ltb_ℤ at soonest then at else soonest)
      ]

  unfoldable pub next_missing_retry_delay : R H Duration
  next_missing_retry_delay = do
    now ← clock host
    w ← get
    elim (earliest_missing w zero_time w.resolved_enabled) [
      | none ↦ pure (pos 0)
      | some soonest ↦ pure (if is_zero soonest then pos 100000000 else sub_time soonest now)
    ]
