-- ===== src/Sim/Redeem.antt =====
-- The steps of sim/engine.go from the request on: `stepRESETTING` and `stepVERIFYING`.
use cpa_plugin_codex_auto_re.Prelude.{
  ◌>>=◌, ◌>>◌, pure, ℕ, pos, ◌+ℤ◌, ◌-ℤ◌, wrap64, String, Bool, true, ◌&&◌, ◌||◌, Option, none, some,
  List, [], ◌∷◌, if◌then◌else◌, str_eq, eqb_ℤ, ltb_ℤ, leb_ℤ,
}
use cpa_plugin_codex_auto_re.Models.{Time, zero_time, verifying, done, Credit, say, Value, NextAt}
use cpa_plugin_codex_auto_re.Client.{GoError}
use cpa_plugin_codex_auto_re.Sim.{Server, SimSnapshot, Consumed, EventType}
use cpa_plugin_codex_auto_re.Sim.Tools.{
  S, get, modify, push, record_state, sim_target_gone, backoff_for, give_up, list_now, usage_now,
  consume_now,
}

module _ (sort : List Credit → List Credit) (hook : Option (String → Server → Server))
    (rrid : ℕ → String → String) where
  -- After an error: the next attempt, or the end after the fifth retry.
  abbrev pub sim_retry : GoError → S Time
  sim_retry e = do
    modify (λ f. record f { attempt = wrap64 (f.attempt +ℤ pos 1) })
    f ← get
    if ltb_ℤ (pos 5) f.attempt
        then give_up
            (record { format = "retries exhausted (last err=%v)"; args = Value.err_text e ∷ [] })
            (say "retries exhausted, abandon")
        else (do
          let backoff = backoff_for f.attempt
          modify (λ g. record g { next_retry = g.now +ℤ backoff })
          record_state NextAt.next_retry_field (record {
            format = "consume err, retry %d in %v (same UUID)";
            args = Value.int f.attempt ∷ Value.duration backoff ∷ [];
          })
          pure (f.now +ℤ backoff))

  abbrev pub sim_accept : String → S Time
  sim_accept code = do
    f ← get
    let due = f.now +ℤ f.cfg.post_reset_delay
    modify (λ f. record f {
      state = verifying;
      verify_due = due;
      out = record (f.out) { reset_at = f.now };
    })
    record_state NextAt.verify_due_field (record {
      format = "consume ok code=%s -> verify in %v";
      args = Value.text code ∷ Value.duration f.cfg.post_reset_delay ∷ [];
    })
    pure due

  -- The `switch` on the code.
  abbrev pub sim_on_code : String → S Time
  sim_on_code code =
      if str_eq code "reset" || str_eq code "already_redeemed"
      then sim_accept code
      else if str_eq code "no_credit" || str_eq code "nothing_to_reset"
      then give_up (record { format = "consume returned %q"; args = Value.text code ∷ [] })
          (record { format = "consume %q, abandon"; args = Value.text code ∷ [] })
      else give_up (record { format = "unknown consume code %q"; args = Value.text code ∷ [] })
          (record { format = "unknown code %q, abandon"; args = Value.text code ∷ [] })

  abbrev pub sim_answered : Consumed → Option GoError → S Time
  sim_answered answer none = sim_on_code answer.code
  sim_answered answer (some e) = sim_retry e

  abbrev pub shown_error : Option GoError → Value
  shown_error none = Value.text "<nil>"
  shown_error (some e) = Value.err_text e

  unfoldable pub sim_step_resetting : S Time
  sim_step_resetting = do
    answer ← consume_now sort hook rrid
    f ← get
    push EventType.http_consume
        (record {
          format = "POST redeem=%s credit=%s code=%q wr=%d err=%v";
          args =
              Value.text f.redeem_id
              ∷ Value.text f.target_id
              ∷ Value.text answer.code
              ∷ Value.int answer.windows_reset
              ∷ shown_error answer.error
              ∷ [];
        })
        NextAt.nil
    sim_answered answer answer.error

  -- The `switch` on the three checks.
  abbrev pub sim_verdict : SimSnapshot → SimSnapshot → Bool → Bool → Bool → S Time
  sim_verdict snap usage gone down up = do
    f ← get
    if gone && down && up
        then (do
          record_state NextAt.nil (record {
            format = "verify OK target=%s gone, count %d->%d, weekly %d%%->%d%%";
            args =
                Value.text f.target_id
                ∷ Value.int (pos f.pre_snap.available_count)
                ∷ Value.int (pos snap.available_count)
                ∷ Value.int f.pre_snap.weekly_pct
                ∷ Value.int usage.weekly_pct
                ∷ [];
          })
          pure zero_time)
        else if gone && down
        then (do
          record_state NextAt.nil (record {
            format = "verify PARTIAL count ok but weekly %d%%->%d%% (delayed?)";
            args = Value.int f.pre_snap.weekly_pct ∷ Value.int usage.weekly_pct ∷ [];
          })
          pure zero_time)
        else (do
          modify (λ f. record f {
            out = record (f.out) {
              gave_up = true;
              give_up_reason = record {
                format = "verification mismatch (targetGone=%v countDown1=%v quotaRecovered=%v)";
                args = Value.flag gone ∷ Value.flag down ∷ Value.flag up ∷ [];
              };
            };
          })
          record_state NextAt.nil (record {
            format = "verify MISMATCH targetGone=%v countDown1=%v quotaUp=%v — halt";
            args = Value.flag gone ∷ Value.flag down ∷ Value.flag up ∷ [];
          })
          pure zero_time)

  unfoldable pub sim_step_verifying : S Time
  sim_step_verifying = do
    snap ← list_now sort hook rrid
    usage ← usage_now sort hook rrid
    push EventType.http_list
        (record {
          format = "verify list available=%d";
          args = Value.int (pos snap.available_count) ∷ [];
        })
        NextAt.nil
    push EventType.http_usage
        (record { format = "verify usage weekly=%d%%"; args = Value.int usage.weekly_pct ∷ [] })
        NextAt.nil
    f ← get
    let gone = sim_target_gone f.target_id snap.credits
    let down = eqb_ℤ (pos snap.available_count) (pos f.pre_snap.available_count -ℤ pos 1)
    let up = leb_ℤ (pos 100) usage.weekly_pct || ltb_ℤ f.pre_snap.weekly_pct usage.weekly_pct
    modify (λ f. record f {
      state = done;
      out = record (f.out) { consumed_ids = f.client.calls.consumed_ids };
    })
    sim_verdict snap usage gone down up
