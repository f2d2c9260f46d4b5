-- ===== src/Scenarios/Spending.antt =====
-- A server that redeems a credit once for a key and whose answers are all lost.
use cpa_plugin_codex_auto_re.Prelude.{
  refl, inl, inr, pos, List, [], ◌∷◌, ◌++◌, if◌then◌else◌, Bool-cases,
}
use cpa_plugin_codex_auto_re.Models.{resetting}
use cpa_plugin_codex_auto_re.Client.{ok}
use cpa_plugin_codex_auto_re.Fsm.Machine.{Env, Machine}
use cpa_plugin_codex_auto_re.Fsm.Posts.{Post, pinned}
use cpa_plugin_codex_auto_re.Fsm.Retries.{redeem_loop}
use cpa_plugin_codex_auto_re.Fsm.Ledger.{has_key, IsIdempotent, SpendsOnce, redeem_loop-SpendsOnce}
use cpa_plugin_codex_auto_re.Scenarios.Sample.{account, attempt, both, usage, failed_answer}

-- The world is the ledger.
abbrev lossy : Env (List Post)
lossy = record {
  now = λ w. (pos 7, w);
  list_credits = λ c w. (ok both, w);
  get_usage = λ c w. (ok (usage (pos 40)), w);
  consume = λ c key id w.
      (failed_answer, if has_key key w then w else w ++ record { key = key; credit = id } ∷ []);
  new_uuid = λ w. ("key", w);
  logf = λ call w. w;
}

lossy-IsIdempotent : IsIdempotent lossy (λ w. w)
lossy-IsIdempotent = record {
  once = λ c key id w. elim (Bool-cases (has_key key w)) [
    | inl t ↦ inl (rw t refl)
    | inr t ↦ inr (t, rw t refl)
  ];
  by_clock = λ w. refl;
  by_log = λ call w. refl;
}

abbrev machine : Machine (List Post)
machine = record { fsm = account resetting attempt "c1"; world = [] }

redeem_loop-SpendsOnce_example :
    SpendsOnce (pinned machine.fsm) [] (redeem_loop lossy 6 machine).world
redeem_loop-SpendsOnce_example =
    redeem_loop-SpendsOnce lossy (λ w. w) lossy-IsIdempotent 6 machine refl
