-- ===== src/History/Sync.antt =====
-- `syncFSMIntoGlobalState`: the record of a finished cycle reaches the persisted history once.
use cpa_plugin_codex_auto_re.Prelude.{
  ◌≡◌, refl, ◌≤◌, ◌-◌, String, Option, none, some, List, [], ◌∷◌, ◌++◌, length, arith, inl, inr,
  ltb, Bool-cases, length-drop,
}
use cpa_plugin_codex_auto_re.Models.{ResetRecord}
use cpa_plugin_codex_auto_re.LogRing.{LogRing, all}
use cpa_plugin_codex_auto_re.Fsm.Machine.{AccountFsm, take_pending_history}
use cpa_plugin_codex_auto_re.Store.{PluginState}
use cpa_plugin_codex_auto_re.History.{max_history, capped, remember, sync_fsm_into_global_state}

capped-length : (rs : List ResetRecord) → length (capped rs) ≤ max_history
capped-length rs = elim (Bool-cases (ltb max_history (length rs))) [
  | inl t ↦ rw t (omega (arith, length-drop (length rs - max_history) rs))
  | inr t ↦ rw t (ground (arith, t))
]

remember-length :
    (o : Option ResetRecord) (rs : List ResetRecord)
    → length rs ≤ max_history
    → length (remember o rs) ≤ max_history
remember-length none rs h = h
remember-length (some r) rs h = capped-length (rs ++ r ∷ [])

-- A sync writes the pending record of the machine, if it has one, behind the history, of which the
-- newest 500 stay; it hands the record on and takes it from the machine, so that the next sync adds
-- none. It changes neither the machine's wake nor its configuration, state or snapshot, and mirrors
-- state, wake and log.
pub sync_fsm_into_global_state_lem :
    (logs : LogRing) (id : String) (fsm : AccountFsm) (s : PluginState)
    → let ((rec, after), t) = sync_fsm_into_global_state logs id fsm s in
      (t.reset_history ≡ remember fsm.pending_history s.reset_history)
      × (length s.reset_history ≤ max_history → length t.reset_history ≤ max_history)
      × (rec ≡ fsm.pending_history)
      × ((sync_fsm_into_global_state logs id after t).1.reset_history ≡ t.reset_history)
      × (after.next_wake ≡ fsm.next_wake)
      × (after.cfg ≡ fsm.cfg)
      × (t.logs ≡ all logs)
unfolding sync_fsm_into_global_state take_pending_history
sync_fsm_into_global_state_lem logs id fsm s =
    (refl, λ h. remember-length fsm.pending_history s.reset_history h, refl, refl, refl, refl, refl)
