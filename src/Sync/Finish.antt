-- ===== src/Sync/Finish.antt =====
-- After the package that ends the update, in BcuGdThreadEntry of
-- 1.0.x/ProdExplUnits/sourcecode/bcu_gd_sync.cxx.
use mitcbcu.Common.{
  ◌≡◌, ◌⊎◌, inl, inr, refl, Bool, true, ◌&&◌, if◌then◌else◌, ◌==◌, List, [], ◌∷◌, ◌++◌, Option,
  none, some, arith, Bool-cases,
}
use mitcbcu.Sync.{
  send_db_sync_req, stopped, Sync, Package, Output, request, response, table_row,
  send_common_net_response, expire, event_type_sys_update_sync, subevent_type_end_sync,
}
use mitcbcu.Sync.Phases.{switch_phase, switch_phase_ind, phase_end}
use mitcbcu.Sync.Receive.{
  receive, receive_ind, receive_sync, receive_bep, receive_row, receive_ready, receive_end,
  repeat_bep, repeat_ready, Round, part1, part2, part3, part4, round, run,
}

-- The update is over: the thread is in its last two phases, and in the last one its alarm is off.
pub record IsFinished (s : Sync) : Type 0 where
  pub finish : s.bcu_update_finish ≡ true
  pub last : (s.current_phase ≡ 4) ⊎ ((s.current_phase ≡ 5) × (s.timer ≡ stopped))

-- Only responses.
abbrev pub OnlyResponses : List Output → Type 0
OnlyResponses [] = Unit
OnlyResponses (request a b c ∷ os) = ⊥
OnlyResponses (table_row p ∷ os) = ⊥
OnlyResponses (response p n ∷ os) = OnlyResponses os

only-append : (xs ys : List Output) → OnlyResponses xs → OnlyResponses ys → OnlyResponses (xs ++ ys)
only-append [] ys h k = k
only-append (request a b c ∷ xs) ys h k = elim h [ ]
only-append (table_row p ∷ xs) ys h k = elim h [ ]
only-append (response p n ∷ xs) ys h k = only-append xs ys h k

-- Behind the switch of such a thread.
record IsQuiet (s : Sync) : Type 0 where
  finish : s.bcu_update_finish ≡ true
  last : (s.current_phase ≡ 4) ⊎ (s.current_phase ≡ 5)
  off : s.timer ≡ stopped

-- A part of a turn that keeps the thread so and puts out responses only.
abbrev Quiet : Sync × List Output → Type 0
Quiet r = IsQuiet r.0 × OnlyResponses r.1

switch-Quiet :
    (f : Bool) (s : Sync) (sent : Bool) → IsFinished s → Quiet (switch_phase (expire f s) sent)
unfolding phase_end
switch-Quiet f s sent v =
    switch_phase_ind Quiet (expire f s) sent (λ e. ground (arith, v.last))
      (λ e. ground (arith, v.last)) (λ e. ground (arith, v.last)) (λ e. ground (arith, v.last))
      (λ e. (record { finish = v.finish; last = inr refl; off = refl }, tt))
      (λ e. ground (arith, v.last))

response-only : (s : Sync) (p : Package) → OnlyResponses (send_common_net_response s p)
unfolding send_common_net_response
response-only s p = elim (Bool-cases (p.gd_sync_req == 1 && p.gd_sync_res == 0)) [
  | inl e ↦ rw e tt
  | inr e ↦ rw e tt
]

row-Quiet : (s : Sync) (p : Package) → IsQuiet s → Quiet (receive_row s p)
unfolding receive_row
row-Quiet s p v = (
  record { finish = v.finish; last = v.last; off = v.off },
  only-append (send_common_net_response s p) (if s.bcu_update_finish then [] else table_row p ∷ [])
      (response-only s p) (rw v.finish tt),
)

end-Quiet : (s : Sync) (p : Package) → IsQuiet s → Quiet (receive_end s p)
unfolding receive_end
end-Quiet s p v = (record { finish = refl; last = inl refl; off = v.off }, response-only s p)

bep-IsQuiet : (s : Sync) (p : Package) → IsQuiet s → IsQuiet (receive_bep s p)
unfolding receive_bep
bep-IsQuiet s p v = ground (arith, v.off, v.last)

ready-IsQuiet : (s : Sync) (p : Package) → IsQuiet s → IsQuiet (receive_ready s p)
unfolding receive_ready
ready-IsQuiet s p v = ground (arith, v.off, v.last)

receive-Quiet : (s : Sync) (o : Option Package) → IsQuiet s → Quiet (receive s o)
receive-Quiet s o v =
    receive_ind Quiet s o (v, tt) (λ p. (bep-IsQuiet s p v, tt)) (λ p. row-Quiet s p v)
      (λ p _ _ _. (ready-IsQuiet s p v, tt)) (λ p _ _ _. end-Quiet s p v)
      (λ p. (v, response-only s p))

expire-IsQuiet : (f : Bool) (s : Sync) → IsQuiet s → IsQuiet (expire f s)
expire-IsQuiet f s v = record { finish = v.finish; last = v.last; off = ground (arith, v.off) }

repeat_idle : (s : Sync) → s.timer ≡ stopped → (repeat_bep s ≡ (s, [])) × (repeat_ready s ≡ (s, []))
unfolding repeat_bep repeat_ready
repeat_idle s e = ground (arith, e)

repeat-Quiet : (s : Sync) → IsQuiet s → Quiet (repeat_bep s) × Quiet (repeat_ready s)
repeat-Quiet s v = let (bep, ready) = repeat_idle s v.off in (rw bep (v, tt), rw ready (v, tt))

round-IsFinished :
    (s : Sync) (r : Round) → IsFinished s → IsFinished (round s r).0 × OnlyResponses (round s r).1
unfolding round
round-IsFinished s r v =
    let (q1, o1) = switch-Quiet r.before_switch s r.sent v in
    let (q2, o2) =
      receive-Quiet (expire r.before_receive (part1 s r).0) r.waiting (expire-IsQuiet _ _ q1) in
    let (q3, o3) = (repeat-Quiet _ (expire-IsQuiet r.before_bep _ q2)).0 in
    let (q4, o4) = (repeat-Quiet _ (expire-IsQuiet r.before_ready _ q3)).1 in
    (
      record { finish = q4.finish; last = ground (arith, q4.last, q4.off) },
      only-append (part1 s r).1 ((part2 s r).1 ++ ((part3 s r).1 ++ (part4 s r).1)) o1 (
          only-append (part2 s r).1 ((part3 s r).1 ++ (part4 s r).1) o2
            (only-append (part3 s r).1 (part4 s r).1 o3 o4)),
    )

run-IsFinished :
    (s : Sync) (rs : List Round)
    → IsFinished s
    → IsFinished (run s rs).0 × OnlyResponses (run s rs).1
run-IsFinished s [] v = (v, tt)
run-IsFinished s (r ∷ rs) v =
    let (v', o) = round-IsFinished s r v in
    let (v'', os) = run-IsFinished (round s r).0 rs v' in
    (v'', only-append (round s r).1 (run (round s r).0 rs).1 o os)

-- A package that ends the update.
abbrev pub IsEnd : Option Package → Type 0
IsEnd none = ⊥
IsEnd (some p) =
    (p.event_type_common ≡ event_type_sys_update_sync) × (p.gd_sync_mask ≡ subevent_type_end_sync)

after_repeats :
    (s : Sync)
    → (s.bcu_update_finish ≡ true)
    → s.current_phase ≡ 4
    → ((repeat_bep s).0.bcu_update_finish ≡ true)
      × ((repeat_bep s).0.current_phase ≡ 4)
      × ((repeat_ready s).0.bcu_update_finish ≡ true)
      × ((repeat_ready s).0.current_phase ≡ 4)
unfolding repeat_bep repeat_ready send_db_sync_req
after_repeats s f e = ground (arith, f, e)

receive-end :
    (s : Sync) (o : Option Package)
    → IsEnd o
    → ((receive s o).0.bcu_update_finish ≡ true) × ((receive s o).0.current_phase ≡ 4)
unfolding receive receive_sync receive_end
receive-end s none h = elim h [ ]
receive-end s (some p) (h, k) = ground (arith, h, k)

round-end : (s : Sync) (r : Round) → IsEnd r.waiting → IsFinished (round s r).0
unfolding round
round-end s r h =
    let (f2, e2) = receive-end (expire r.before_receive (part1 s r).0) r.waiting h in
    let (f3, e3, _, _) = after_repeats (expire r.before_bep (part2 s r).0) f2 e2 in
    let (_, _, f4, e4) = after_repeats (expire r.before_ready (part3 s r).0) f3 e3 in
    record { finish = f4; last = inl e4 }

-- After the turn in which the thread has read the package that ends the update, in whatever state and
-- phase it was, it is in one of its phases 4 and 5 and stays there: in the later turns, whatever
-- packages come, it stores no row of a table and sends no request, but only responses. Of the turn
-- itself nothing is said about what is sent.
pub finished_lem :
    (s : Sync) (r : Round) (rs : List Round)
    → IsEnd r.waiting
    → IsFinished (run (round s r).0 rs).0 × OnlyResponses (run (round s r).0 rs).1
finished_lem s r rs h = run-IsFinished (round s r).0 rs (round-end s r h)
