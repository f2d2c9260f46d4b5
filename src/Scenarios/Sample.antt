-- ===== src/Scenarios/Sample.antt =====
-- One account with one credit, a server with fixed answers, and a host whose clock reads its state.
use cpa_plugin_codex_auto_re.Prelude.{
  ℕ, ◌+◌, ℤ, pos, String, false, Option, none, some, List, [], ◌∷◌, refl, ◌≡◌, ◌≢◌, str_eq, eq_iff,
  arith,
}
use cpa_plugin_codex_auto_re.Models.{
  hours, State, zero_time, Credit, Snapshot, ResetAttempt, no_snapshot, Config, CodexCredentials,
}
use cpa_plugin_codex_auto_re.Client.{GoError, ConsumeResponse, Result, ok}
use cpa_plugin_codex_auto_re.LogRing.{new_log_ring}
use cpa_plugin_codex_auto_re.Fsm.Machine.{Env, AccountFsm}
use cpa_plugin_codex_auto_re.Worker.State.{Running, Host}
use cpa_plugin_codex_auto_re.Worker.Sound.{IsFair}

abbrev pub credit : Credit
credit = record { id = "c1"; status = "available"; expires_at = hours 1000 }

abbrev pub later_credit : Credit
later_credit = record { id = "c2"; status = "available"; expires_at = hours 2000 }

abbrev pub snapshot : ℤ → List Credit → Snapshot
snapshot n cs = record {
  available_count = n;
  credits = cs;
  weekly_pct = pos 40;
  captured_at = zero_time;
}

abbrev pub usage : ℤ → Snapshot
usage pct = record no_snapshot { weekly_pct = pct }

abbrev pub config : Config
config = record {
  refresh_interval = hours 12;
  trigger_lead_time = hours 6;
  enabled_accounts = "a" ∷ [];
  state_dir = "";
}

abbrev pub creds : CodexCredentials
creds = record {
  access_token = "token";
  refresh_token = "";
  id_token = "";
  chat_gpt_account_id = "acc";
  expires_at = zero_time;
}

abbrev pub attempt : ResetAttempt
attempt = record {
  redeem_request_id = "key";
  target_credit_id = "c1";
  pre_snapshot = snapshot (pos 2) (credit ∷ later_credit ∷ []);
  started_at = hours 994;
  attempt = pos 0;
  next_retry_at = zero_time;
}

abbrev pub account : State → ResetAttempt → String → AccountFsm
account state a scheduled = record {
  auth_id = "a";
  creds = creds;
  cfg = config;
  state = state;
  attempt = a;
  next_wake = hours 994;
  verify_due = zero_time;
  scheduled_credit_id = scheduled;
  manual_reset = false;
  pending_history = none;
  last_snapshot = no_snapshot;
}

-- The world is the clock's reading.
abbrev pub server : Result Snapshot → Result Snapshot → ConsumeResponse × Option GoError → Env ℕ
server listed used answer = record {
  now = λ w. (pos (w + 1), w);
  list_credits = λ c w. (listed, w);
  get_usage = λ c w. (used, w);
  consume = λ c key id w. (answer, w);
  new_uuid = λ w. ("key", w);
  logf = λ call w. w;
}

abbrev pub accepted_answer : ConsumeResponse × Option GoError
accepted_answer = (record { code = "reset"; windows_reset = pos 1 }, none)

-- A server that is out of order.
abbrev pub failed_answer : ConsumeResponse × Option GoError
failed_answer = (
  record { code = ""; windows_reset = pos 0 },
  some (GoError.http_status "POST" "/consume" (pos 503) ""),
)

-- 994 hours: the trigger time of `credit`.
abbrev pub due : ℕ
due = 3578400000000000

abbrev pub both : Snapshot
both = snapshot (pos 2) (credit ∷ later_credit ∷ [])

abbrev pub one_left : Snapshot
one_left = snapshot (pos 1) (later_credit ∷ [])

abbrev pub host : Host ℕ
host = record {
  now = λ h. (pos (h + 1), h);
  load_creds = λ id h. (ok creds, h);
  list_credits = λ c h. (ok both, h);
  get_usage = λ c h. (ok (usage (pos 40)), h);
  consume = λ c key id h. (accepted_answer, h);
  new_uuid = λ h. ("key", h);
  enumerate = some (λ h. (ok ("b" ∷ "a" ∷ []), h));
  state_sync = λ id fsm out. (fsm, out);
}

pub host-IsFair : IsFair host
host-IsFair = record {
  ticking = λ h. ground arith;
  sync_wake = λ id f o. refl;
  sync_cfg = λ id f o. refl;
}

-- A worker in charge of the accounts `fs`.
abbrev pub running : List (String × AccountFsm) → Running ℕ
running fs = record {
  worker = record {
    cfg = config;
    enabled = "a" ∷ [];
    resolved_enabled = "a" ∷ [];
    fsms = fs;
    missing_retry_at = [];
    last_resolve_at = zero_time;
    stopped = false;
    wake_pending = false;
  };
  out = record { host = due; logs = new_log_ring 5 };
}

pub apart : (a b : String) → str_eq a b ≡ false → a ≢ b
apart a b h e = ground (arith, h, e, eq_iff a b)
