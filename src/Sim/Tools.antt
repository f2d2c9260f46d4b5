-- ===== src/Sim/Tools.antt =====
-- What the steps of sim/engine.go share: the events, the times of a credit, the choice of a target, the
-- backoff, and the calls of the scripted client with their counts.
use cpa_plugin_codex_auto_re.Prelude.{
  St, ◌>>◌, pure, ℕ, suc, ◌-◌, ℤ, pos, pos_part, ◌+ℤ◌, ◌-ℤ◌, wrap64, String, Bool, true, false,
  ◌&&◌, ◌||◌, Option, none, some, List, [], ◌∷◌, ◌++◌, length, if◌then◌else◌, str_eq, ltb_ℤ,
}
use cpa_plugin_codex_auto_re.Models.{
  Time, Duration, zero_time, minutes, done, Credit, no_credit_row, Message, NextAt,
}
use cpa_plugin_codex_auto_re.Retry.{index}
use cpa_plugin_codex_auto_re.Sim.{
  Server, SimSnapshot, Consumed, EventType, SimFsm, is_available, list_snapshot, usage_snapshot,
  consume_server,
}

abbrev pub S : Type 0 → Type 0
S A = St SimFsm A

abbrev pub get : S SimFsm
get f = (f, f)

abbrev pub modify : (SimFsm → SimFsm) → S (Unit {0})
modify g f = (tt, g f)

-- `f.out.Events = append(…)`.
abbrev pub push : EventType → Message → NextAt → S (Unit {0})
push kind detail next f = (
  tt,
  record f {
    out = record (f.out) {
      events =
          f.out.events
          ++ record { time = f.now; kind = kind; state = f.state; detail = detail; next = next }
            ∷ [];
    };
  },
)

abbrev pub record_state : NextAt → Message → S (Unit {0})
record_state next detail = push EventType.state_change detail next

abbrev pub sim_trigger_time : SimFsm → Credit → Time
sim_trigger_time f c = c.expires_at +ℤ wrap64 (pos 0 -ℤ f.cfg.trigger_lead_time)

abbrev pub sim_arm_threshold : SimFsm → Credit → Time
sim_arm_threshold f c = sim_trigger_time f c +ℤ wrap64 (pos 0 -ℤ f.cfg.refresh_interval)

-- The first available credit, if there is one.
unfoldable pub pick_sim_target : List Credit → Option Credit
pick_sim_target [] = none
pick_sim_target (c ∷ cs) = let rest = pick_sim_target cs in if is_available c then some c else rest

-- The available credit with this identifier, or `Credit{}`.
unfoldable pub find_sim_target : String → List Credit → Credit
find_sim_target id [] = no_credit_row
find_sim_target id (c ∷ cs) =
    let rest = find_sim_target id cs in
    if str_eq c.id id && str_eq c.status "available" then c else rest

unfoldable pub sim_target_gone : String → List Credit → Bool
sim_target_gone id [] = true
sim_target_gone id (c ∷ cs) =
    let rest = sim_target_gone id cs in
    if str_eq c.id id && str_eq c.status "available" then false else rest

abbrev pub sim_delays : List Duration
sim_delays = minutes 1 ∷ minutes 2 ∷ minutes 5 ∷ minutes 10 ∷ minutes 30 ∷ []

unfoldable pub backoff_for : ℤ → Duration
backoff_for attempt =
    if ltb_ℤ attempt (pos 1) || ltb_ℤ (pos (length sim_delays)) attempt
    then minutes 30
    else index sim_delays (pos_part attempt - 1)

-- The returns that end the cycle without a reset.
abbrev pub give_up : Message → Message → S Time
give_up reason detail = do
  modify (λ f. record f {
    state = done;
    out = record (f.out) { gave_up = true; give_up_reason = reason };
  })
  record_state NextAt.nil detail
  pure zero_time

module _ (sort : List Credit → List Credit) (hook : Option (String → Server → Server))
    (rrid : ℕ → String → String) where
  -- `f.client.list(f.now)` and the count of its calls.
  abbrev pub list_now : S SimSnapshot
  list_now f =
      let calls = record (f.client.calls) { list_calls = suc f.client.calls.list_calls } in
      (
        list_snapshot sort f.now f.client.server,
        record f {
          client = record (f.client) { calls = calls };
          out = record (f.out) { num_list_calls = calls.list_calls };
        },
      )

  abbrev pub usage_now : S SimSnapshot
  usage_now f =
      let calls = record (f.client.calls) { usage_calls = suc f.client.calls.usage_calls } in
      (
        usage_snapshot f.client.server,
        record f {
          client = record (f.client) { calls = calls };
          out = record (f.out) { num_usage_calls = calls.usage_calls };
        },
      )

  -- `f.client.consume(f.redeemID, f.targetID)` and the count of its calls.
  abbrev pub consume_now : S Consumed
  consume_now f =
      let answer = consume_server hook f.target_id f.client.server in
      let ids = f.client.calls.consumed_ids ++ f.target_id ∷ [] in
      (
        answer.0,
        record f {
          client = record {
            server = answer.1;
            calls = record (f.client.calls) {
              consumed_calls = suc f.client.calls.consumed_calls;
              consumed_ids = ids;
              redeem_requests = f.client.calls.redeem_requests ++ f.redeem_id ∷ [];
            };
          };
          out = record (f.out) { num_consume_post = length ids };
        },
      )
