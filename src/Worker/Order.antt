-- ===== src/Worker/Order.antt =====
-- Which account the loop takes next, and how long it sleeps.
use mathlib.Core.Path.{subst}
use mathlib.Core.List.{Mem, mem-cons_self, mem-cons_of_mem}
use cpa_plugin_codex_auto_re.Prelude.{
  pure, ◌≡◌, refl, sym, ◌≢◌, ap, ◌⊎◌, inl, inr, pos, ◌≤ℤ◌, ◌+ℤ◌, ◌-ℤ◌, +ℤ_parts, -ℤ_parts, String,
  List, [], ◌∷◌, arith, All, Bool-cases, Bool, true, false, not, ◌&&◌, ◌||◌, if◌then◌else◌, ltb_ℤ,
  str_eq, eq_iff,
}
use cpa_plugin_codex_auto_re.Models.{Time, Duration, zero_time, is_zero}
use cpa_plugin_codex_auto_re.Fsm.Machine.{AccountFsm}
use cpa_plugin_codex_auto_re.Worker.State.{Worker, Running, Host, R}
use cpa_plugin_codex_auto_re.Worker.Accounts.{sub_time, maybe_resolve_wildcard, retry_missing_fsms}
use cpa_plugin_codex_auto_re.Worker.Loop.{
  soonest_from, soonest, Turn, sleep, returned, run_account, run_served, run_once,
}

abbrev pub Named : List (String × AccountFsm) → Type 0
Named fs = All (λ e. e.0 ≢ "") fs

-- The entry with the identifier and the wake of the pair.
abbrev pub IsEntry : String × Time → List (String × AccountFsm) → Type 0
IsEntry r fs = (fsm : AccountFsm) × Mem (r.0, fsm) fs × (fsm.next_wake ≡ r.1)

-- An account without a wake, or one whose wake is not before that of the pair.
abbrev pub NotBefore : String × Time → String × AccountFsm → Type 0
NotBefore r e = (e.1.next_wake ≡ zero_time) ⊎ ((r.0 ≢ "") × (r.1 ≤ℤ e.1.next_wake))

-- What the loop makes of a best account so far: `r` is that one or a later entry, and no later than any.
abbrev Improves : String → Time → List (String × AccountFsm) → String × Time → Type 0
Improves id best fs r =
    ((r ≡ (id, best)) ⊎ ((r.0 ≢ "") × (r.1 ≢ zero_time) × IsEntry r fs))
    × All (NotBefore r) fs
    × (id ≢ "" → (r.0 ≢ "") × (r.1 ≤ℤ best))

further :
    {r : String × Time} (e : String × AccountFsm) {fs : List (String × AccountFsm)}
    → IsEntry r fs
    → IsEntry r (e ∷ fs)
further e (fsm, i, w) = (fsm, mem-cons_of_mem e i, w)

abbrev is_better : String → Time → AccountFsm → Bool
is_better id best fsm = not (is_zero fsm.next_wake) && (str_eq id "" || ltb_ℤ fsm.next_wake best)

entry-Improves :
    (id j : String) (best : Time) (fsm : AccountFsm) (rest : List (String × AccountFsm))
    (r : String × Time)
    → j ≢ ""
    → (b : Bool) → is_better id best fsm ≡ b
    → Improves (if b then j else id) (if b then fsm.next_wake else best) rest r
    → Improves id best ((j, fsm) ∷ rest) r
entry-Improves id j best fsm rest r n true t (origin, later, kept) = (
  inr (elim origin [
    | inl e ↦ (
      (kept n).0,
      λ z. ground (arith, t, sym (ap (λ x. x.1) e), z),
      subst (λ x. IsEntry x ((j, fsm) ∷ rest)) (sym e) (fsm, mem-cons_self, refl),
    )
    | inr (a, b, i) ↦ (a, b, further (j, fsm) i)
  ]),
  (inr (kept n), later),
  λ h. ((kept n).0, ground (arith, t, (kept n).1, eq_iff id "", h)),
)
entry-Improves id j best fsm rest r n false t (origin, later, kept) = (
  elim origin [ inl e ↦ inl e | inr (a, b, i) ↦ inr (a, b, further (j, fsm) i) ],
  (
    elim (Bool-cases (is_zero fsm.next_wake)) [
      | inl z ↦ inl (ground (arith, z))
      | inr z ↦
          let named : id ≢ "" = λ e. ground (arith, t, z, eq_iff id "", e) in
          inr ((kept named).0, ground (arith, t, z, eq_iff id "", kept named))
    ],
    later,
  ),
  kept,
)

soonest_from_lem :
    (fs : List (String × AccountFsm)) (id : String) (best : Time)
    → Named fs
    → Improves id best fs (soonest_from id best fs)
unfolding soonest_from
soonest_from_lem [] id best n = (inl refl, tt, λ h. (h, ground arith))
soonest_from_lem ((j, fsm) ∷ rest) id best n =
    let b = is_better id best fsm in
    entry-Improves id j best fsm rest _ n.0 b refl
      (soonest_from_lem rest (if b then j else id) (if b then fsm.next_wake else best) n.1)

-- With no account named by the empty string, `soonest` answers one of the worker's accounts with its
-- wake, and no account wakes before it; or the empty name, and then no account has a wake at all.
pub soonest_lem :
    (w : Worker)
    → Named w.fsms
    → let r = soonest w in
      ((r.0 ≢ "") × (r.1 ≢ zero_time) × IsEntry r w.fsms × All (NotBefore r) w.fsms)
      ⊎ ((r.0 ≡ "") × All (λ e. e.1.next_wake ≡ zero_time) w.fsms)
unfolding soonest
soonest_lem w n =
    let (origin, later, kept) = soonest_from_lem w.fsms "" zero_time n in
    elim origin [
      | inl e ↦ inr (
        ap (λ x. x.0) e,
        asleep (soonest_from "" zero_time w.fsms) w.fsms (ap (λ x. x.0) e) later,
      )
      | inr (a, b, i) ↦ inl (a, b, i, later)
    ]
  where
    asleep :
        (r : String × Time) (fs : List (String × AccountFsm))
        → r.0 ≡ ""
        → All (NotBefore r) fs
        → All (λ e. e.1.next_wake ≡ zero_time) fs
    asleep r [] h k = tt
    asleep r (e ∷ fs) h k =
        (elim (k.0) [ inl z ↦ z | inr (a, b) ↦ absurd (a h) ], asleep r fs h k.1)

-- No account wakes within `d` of `now`.
abbrev pub SleepsUntil : Time → Duration → List (String × AccountFsm) → Type 0
SleepsUntil now d fs = All (λ e. (e.1.next_wake ≡ zero_time) ⊎ (now +ℤ d ≤ℤ e.1.next_wake)) fs

sub_time-bound : (t u : Time) → u ≤ℤ t → u +ℤ sub_time t u ≤ℤ t
unfolding sub_time
sub_time-bound t u h =
    ground (arith, h, -ℤ_parts t u, +ℤ_parts u (t -ℤ u), +ℤ_parts u (pos 9223372036854775807))

sleeps-All :
    (now : Time) (d : Duration) (r : String × Time) (fs : List (String × AccountFsm))
    → now +ℤ d ≤ℤ r.1
    → All (NotBefore r) fs
    → SleepsUntil now d fs
sleeps-All now d r [] h k = tt
sleeps-All now d r (e ∷ fs) h k = (
  elim (k.0) [ inl z ↦ inl z | inr (a, b) ↦ inr (ground (arith, h, b)) ],
  sleeps-All now d r fs h k.1,
)

unwoken-All :
    (now : Time) (d : Duration) (fs : List (String × AccountFsm))
    → All (λ e. e.1.next_wake ≡ zero_time) fs
    → SleepsUntil now d fs
unwoken-All now d [] h = tt
unwoken-All now d (e ∷ fs) h = (inl h.0, unwoken-All now d fs h.1)

module _ {H : Type 0} (host : Host H) where
  run_account-sleep :
      (id : String) (wake : Time) (d : Duration) (s : Running H)
      → (run_account host id wake s).0 ≡ sleep d
      → (host.now s.out.host).0 +ℤ d ≤ℤ wake
  unfolding run_account
  run_account-sleep id wake d s e =
      let now = (host.now s.out.host).0 in ground (arith, e, sub_time-bound wake now)

  run_served-sleep :
      (s : Running H) (d : Duration)
      → Named s.worker.fsms
      → (run_served host (soonest s.worker) s).0 ≡ sleep d
      → SleepsUntil (host.now s.out.host).0 d s.worker.fsms
  unfolding run_served
  run_served-sleep s d n e = elim (soonest_lem s.worker n) [
    | inl (a, b, i, later) ↦
        let proper : str_eq (soonest s.worker).0 "" ≡ false =
          ground (arith, eq_iff (soonest s.worker).0 "", a) in
        sleeps-All _ d (soonest s.worker) s.worker.fsms
          (run_account-sleep (soonest s.worker).0 (soonest s.worker).1 d s (rw proper at e)) later
    | inr (z, unwoken) ↦ unwoken-All _ d s.worker.fsms unwoken
  ]

  awake-sleep :
      (b : Bool) (x : R H Turn) (s : Running H) (d : Duration)
      → ((if b then pure returned else x) s).0 ≡ sleep d
      → (x s).0 ≡ sleep d
  awake-sleep true x s d e = absurd (ground (arith, e))
  awake-sleep false x s d e = e

  -- The worker as a turn finds it when it chooses the account.
  abbrev pub served : Running H → Running H
  served s = (retry_missing_fsms host (maybe_resolve_wildcard host s).1).1

  -- A turn of the loop that goes to sleep sleeps past no account's wake, measured from the clock that it
  -- read last: each account that it serves, if it has a wake, wakes after the sleep.
  pub run_once-sleep :
      (s : Running H) (d : Duration)
      → Named (served s).worker.fsms
      → (run_once host s).0 ≡ sleep d
      → SleepsUntil (host.now (served s).out.host).0 d (served s).worker.fsms
  unfolding run_once
  run_once-sleep s d n e = run_served-sleep (served s) d n (awake-sleep s.worker.stopped _ s d e)
