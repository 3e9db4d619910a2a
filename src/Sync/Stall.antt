-- ===== src/Sync/Stall.antt =====
-- A CCU that falls silent, in the phases 2 and 3 of BcuGdThreadEntry in
-- 1.0.x/ProdExplUnits/sourcecode/bcu_gd_sync.cxx.
use mitcbcu.Common.{
  ℕ, zero, suc, ◌<◌, ◌≡◌, ◌≢◌, refl, ◌∙◌, Bool, true, false, List, [], ◌∷◌, Option, none, some,
  arith,
}
use mathlib.Core.Path.{subst}
use mitcbcu.Sync.{
  running, Sync, Package, send_db_sync_req, expire, subevent_type_end_sync,
  subevent_type_ready_sync_req,
}
use mitcbcu.Sync.Phases.{switch_phase, phase_ready}
use mitcbcu.Sync.Receive.{
  receive, receive_ind, receive_bep, receive_row, repeat_bep, repeat_ready, Round, round, run,
}

-- Not a READY package, and not the end of the update.
abbrev pub IsOther : Option Package → Type 0
IsOther none = Unit
IsOther (some p) =
    (p.gd_sync_mask ≢ subevent_type_ready_sync_req) × (p.gd_sync_mask ≢ subevent_type_end_sync)

abbrev pub AreOther : List Round → Type 0
AreOther [] = Unit
AreOther (r ∷ rs) = IsOther r.waiting × AreOther rs

-- Waiting for READY responses, below the limits of both counters.
pub record IsWaiting (s : Sync) : Type 0 where
  pub phase : s.current_phase ≡ 2
  pub responses : s.ready_package_response_count < 3
  pub timeouts : s.ready_package_request_timeouts < 10

-- Still waiting, with as many time-outs counted.
abbrev pub StillWaits : Sync → Sync → Type 0
StillWaits s s' =
    IsWaiting s' × (s'.ready_package_request_timeouts ≡ s.ready_package_request_timeouts)

expire-IsWaiting : (f : Bool) (s : Sync) → IsWaiting s → IsWaiting (expire f s)
expire-IsWaiting f s w = record { phase = w.phase; responses = w.responses; timeouts = w.timeouts }

switch-waits : (s : Sync) (sent : Bool) → IsWaiting s → StillWaits s (switch_phase s sent).0
unfolding switch_phase phase_ready
switch-waits s sent w = ground (arith, w.phase)

receive-waits :
    (s : Sync) (o : Option Package) → IsOther o → IsWaiting s → StillWaits s (receive s o).0
unfolding receive_bep receive_row
receive-waits s o other w =
    receive_ind (λ r. StillWaits s r.0) s o (w, refl) (λ p. ground (arith, w.phase))
      (λ p. (record { phase = w.phase; responses = w.responses; timeouts = w.timeouts }, refl))
      (λ p e _ h. absurd ((subst IsOther e other).0 h))
      (λ p e _ h. absurd ((subst IsOther e other).1 h)) (λ p. (w, refl))

repeat-waits :
    (s : Sync) → IsWaiting s → StillWaits s (repeat_bep s).0 × StillWaits s (repeat_ready s).0
unfolding repeat_bep repeat_ready send_db_sync_req
repeat-waits s w = ground (arith, w.phase)

round-waits : (s : Sync) (r : Round) → IsOther r.waiting → IsWaiting s → StillWaits s (round s r).0
unfolding round
round-waits s r other w =
    let (w1, e1) = switch-waits (expire r.before_switch s) r.sent (expire-IsWaiting _ s w) in
    let (w2, e2) = receive-waits _ r.waiting other (expire-IsWaiting r.before_receive _ w1) in
    let (w3, e3) = (repeat-waits _ (expire-IsWaiting r.before_bep _ w2)).0 in
    let (w4, e4) = (repeat-waits _ (expire-IsWaiting r.before_ready _ w3)).1 in
    (w4, e4 ∙ e3 ∙ e2 ∙ e1)

-- Phase 2 does not give up on a CCU that does not answer: with less than three READY responses and less
-- than ten time-outs counted, however often the alarm times out and the request is repeated, as long
-- as no READY package and no package that ends the update comes, the thread stays in phase 2 with
-- these counts below their limits, and no further time-out is counted.
pub ready_stalls :
    (s : Sync) (rs : List Round) → AreOther rs → IsWaiting s → StillWaits s (run s rs).0
ready_stalls s [] o w = (w, refl)
ready_stalls s (r ∷ rs) (o, os) w =
    let (w', e) = round-waits s r o w in
    let (w'', e') = ready_stalls (round s r).0 rs os w' in (w'', e' ∙ e)

-- Waiting for rows of the tables with `n` time-outs.
pub record IsStarved (n : ℕ) (s : Sync) : Type 0 where
  pub phase : s.current_phase ≡ 3
  pub no_row : s.receive_ccu_table_item_flag ≡ false
  pub alarm : s.timer ≡ running
  pub timeouts : s.table_package_timeouts ≡ n

-- A turn in which the alarm times out first, and no package comes.
abbrev pub timed_round : Round
timed_round = record {
  before_switch = true;
  sent = false;
  before_receive = false;
  waiting = none;
  before_bep = false;
  before_ready = false;
}

abbrev pub timed_rounds : ℕ → List Round
timed_rounds zero = []
timed_rounds (suc n) = timed_round ∷ timed_rounds n
