-- ===== src/Labrpc/Timers.antt =====
-- The timers of processReq in labrpc/labrpc.go.
use native.Mathlib.Nat.{mod-lt}
use distributed_system.Prelude.{
  ℕ, ◌+◌, ◌%◌, ◌<◌, ◌&&◌, none, some, arith, ltb, if◌then◌else◌, if_cases, Str, comparable_nat,
  comparable_list,
}
use distributed_system.Labrpc.{
  Network, route, is_server_dead, long_delay, max_delay, Stage, sent, executing, abandoned,
  unreachable, timing_out, delayed, replied, is_lost, begin, tick, handler_returns, look_again,
  finish, fire,
}
use distributed_system.Labrpc.Delivery.{
  Op, Step, Run, Any, AnyReply, operates, begins, ticks, returns, looks, decides, fails, waits,
  times_out, delivers, here, next,
}

-- Timers are shorter than MAXDELAY.
abbrev pub IsBounded : Stage → Type 0
IsBounded (timing_out ms) = ms < max_delay
IsBounded (delayed ms reply) = ms < max_delay
IsBounded _ = Unit

begin-IsBounded : (draw : ℕ) (rn : Network) (e : Str) → IsBounded (begin draw rn e)
unfolding begin
begin-IsBounded draw rn e =
    elim (route rn e)
      as (λ x. IsBounded (elim x as (λ x. Stage) [
        | none ↦ unreachable
        | some x ↦
            if is_lost rn.reliable draw
            then replied none
            else executing x.0 x.1 rn.reliable rn.long_reordering
      ])) [
        | none ↦ tt
        | some (name, server) ↦
            if_cases IsBounded (is_lost rn.reliable draw) _ _ (λ h. tt) (λ h. tt)
      ]

delay_bound : (ms bound : ℕ) → 200 + ms % (1 + bound % 2000) < max_delay
delay_bound ms bound =
    let outer : ms % (1 + bound % 2000) < 1 + bound % 2000 = mod-lt ms (omega arith) in
    let inner : bound % 2000 < 2000 = mod-lt bound (omega arith) in omega (arith, outer, inner)

Step-IsBounded :
    {Allowed : Op → Type 0} {Answers : ℕ → Str → Type 0} {e : Str} {rn rn' : Network}
    {st st' : Stage}
    → Step Allowed Answers e rn st rn' st'
    → IsBounded st
    → IsBounded st'
unfolding begin tick handler_returns look_again finish fire
Step-IsBounded (operates op a h) b = b
Step-IsBounded {e} {rn} (begins draw) b = begin-IsBounded draw rn e
Step-IsBounded {e} {rn} (ticks name server reliable reordering) b =
    if_cases IsBounded (is_server_dead rn e name server) abandoned
      (executing name server reliable reordering) (λ h. tt) (λ h. tt)
Step-IsBounded (returns name server reliable reordering reply a) b = tt
Step-IsBounded {e} {rn} (looks name server reliable reordering reply) b =
    if_cases IsBounded (is_server_dead rn e name server) _ _ (λ h. tt) (λ h. tt)
Step-IsBounded (decides loss reorder bound ms reliable reordering reply) b =
    if_cases IsBounded (is_lost reliable loss) _ _ (λ h. tt)
      (λ h.
        if_cases IsBounded (reordering && ltb (reorder % 900) 600) _ _ (λ h. delay_bound ms bound)
          (λ h. tt))
Step-IsBounded (fails loss reorder bound ms) b = tt
Step-IsBounded {rn} (waits loss reorder bound ms) b =
    if_cases (λ d. d < max_delay) rn.long_delays (ms % long_delay) (ms % 100) (λ h. ground arith)
      (λ h. ground arith)
Step-IsBounded (times_out ms) b = tt
Step-IsBounded (delivers ms reply) b = tt

Run-IsBounded :
    {Allowed : Op → Type 0} {Answers : ℕ → Str → Type 0} {e : Str} {rn : Network} {st : Stage}
    {rn' : Network} {st' : Stage}
    → Run Allowed Answers e rn st rn' st'
    → IsBounded st
    → IsBounded st'
Run-IsBounded here b = b
Run-IsBounded (next r s) b = Step-IsBounded s (Run-IsBounded r b)

-- Whatever else happens to the network, a request never waits on a timer of MAXDELAY milliseconds
-- or more.
pub Run-sent-IsBounded :
    (e : Str) (rn rn' : Network) (st : Stage) → Run Any AnyReply e rn sent rn' st → IsBounded st
Run-sent-IsBounded e rn rn' st r = Run-IsBounded r tt
