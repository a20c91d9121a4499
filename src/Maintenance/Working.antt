-- ===== src/Maintenance/Working.antt =====
-- The worker and `stop` keep the supervisor's invariant
-- (memory/maintenance/background_supervisor.py).
use prima_next.Base.{
  ◌≡◌, refl, Bool, false, not, ◌||◌, Option, List, [], ◌∷◌, length, leb, nat_eq, arith, if-cases,
}
use prima_next.Base.Text.{Text, text_eq}
use prima_next.Events.{Event}
use prima_next.Maintenance.{
  Worker, stopped, waiting, handling, Supervisor, start, take_first, work, put_back, cancel,
  is_running, rebind_queue, stop, Step, enqueue_step, start_step, work_step, stop_step, step,
}
use prima_next.Maintenance.Invariant.{in_hand, hands, IsConsistent, enqueue-IsConsistent}
use prima_next.Maintenance.Handling.{after_call-IsConsistent, put_back-IsConsistent}

take_first-IsConsistent :
    (queue : List Event) (s : Supervisor)
    → IsConsistent s
    → s.worker ≡ waiting
    → s.queue ≡ queue
    → IsConsistent (take_first queue s)
take_first-IsConsistent [] s c h e = c
take_first-IsConsistent (event ∷ rest) s c h e = record {
  bounded = ground (arith, c.bounded);
  counted = ground (arith, c.counted);
  held = λ k. ground (arith, c.held k);
  pending_open = c.pending_open;
  one_end = c.one_end;
  tried = ground arith;
}

pub work-IsConsistent :
    (w : Worker) (answer : Option Text) (s : Supervisor)
    → IsConsistent s
    → s.worker ≡ w
    → IsConsistent (work w answer s)
work-IsConsistent stopped answer s c h = c
work-IsConsistent waiting answer s c h = take_first-IsConsistent s.queue s c h refl
work-IsConsistent (handling event n) answer s c h = after_call-IsConsistent event n s c h answer

stopped-hands : (w : Worker) → is_running w ≡ false → hands w ≡ 0
stopped-hands stopped h = refl
stopped-hands waiting h = refl
stopped-hands (handling event n) h = ground arith

stopped-in_hand : (k : Text) (w : Worker) → is_running w ≡ false → in_hand k w ≡ 0
stopped-in_hand k stopped h = refl
stopped-in_hand k waiting h = refl
stopped-in_hand k (handling event n) h = ground arith

put_back-idle : (event : Event) (s : Supervisor) → hands (put_back event s).1.worker ≡ 0
put_back-idle event s =
    if-cases (λ (r : Bool × Supervisor). hands r.1.worker ≡ 0)
      (leb s.max_queue_size (length s.queue)) (λ _. refl) (λ _. refl)

cancel-IsConsistent :
    (w : Worker) (s : Supervisor)
    → IsConsistent s
    → s.worker ≡ w
    → IsConsistent (cancel w s).1 × (hands (cancel w s).1.worker ≡ 0)
cancel-IsConsistent stopped s c h = (c, ground arith)
cancel-IsConsistent waiting s c h = (
  record {
    bounded = c.bounded;
    counted = ground (arith, c.counted);
    held = λ k. ground (arith, c.held k);
    pending_open = c.pending_open;
    one_end = c.one_end;
    tried = ground arith;
  },
  refl,
)
cancel-IsConsistent (handling event n) s c h =
    (put_back-IsConsistent event n s c h, put_back-idle event s)

rebind_queue-IsConsistent :
    (s : Supervisor) → IsConsistent s → hands s.worker ≡ 0 → IsConsistent (rebind_queue s)
rebind_queue-IsConsistent s c h = record {
  bounded = c.bounded;
  counted = ground (arith, h);
  held = c.held;
  pending_open = c.pending_open;
  one_end = c.one_end;
  tried = c.tried;
}

stop-IsConsistent : (s : Supervisor) → IsConsistent s → IsConsistent (stop s)
unfolding stop
stop-IsConsistent s c =
    let cancelled = cancel-IsConsistent s.worker s c refl in
    if-cases IsConsistent (cancel s.worker s).0 (λ _. cancelled.0)
      (λ _. rebind_queue-IsConsistent (cancel s.worker s).1 cancelled.0 cancelled.1)

start-IsConsistent : (s : Supervisor) → IsConsistent s → IsConsistent (start s)
unfolding start
start-IsConsistent s c =
    if-cases IsConsistent (not s.enabled || is_running s.worker) (λ _. c)
      (λ halted. record {
        bounded = c.bounded;
        counted = ground (arith, c.counted, stopped-hands s.worker);
        held = λ k. ground (arith, c.held k, stopped-in_hand k s.worker);
        pending_open = c.pending_open;
        one_end = c.one_end;
        tried = ground arith;
      })

pub step-IsConsistent : (a : Step) (s : Supervisor) → IsConsistent s → IsConsistent (step a s)
unfolding step
step-IsConsistent (enqueue_step event) s c = enqueue-IsConsistent event s c
step-IsConsistent start_step s c = start-IsConsistent s c
step-IsConsistent (work_step answer) s c = work-IsConsistent s.worker answer s c refl
step-IsConsistent stop_step s c = stop-IsConsistent s c
