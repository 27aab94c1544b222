-- ===== src/Labrpc/Deleted.antt =====
-- DeleteServer of labrpc/labrpc.go, and the requests that are under way.
use distributed_system.Prelude.{
  ℕ, ◌≡◌, ◌≢◌, sym, subst, inl, inr, true, Option, none, some, arith, if_cases, Bool-cases, ◌==◌,
  Str, comparable_nat, comparable_list, Map, get, put, get-put, ==_false, Option-cases, ap, ltb,
  refl, ◌%◌, ◌&&◌, ◌+◌, ◌∙◌,
}
use distributed_system.Labrpc.{
  Network, ok, set_reliable, set_long_reordering, set_long_delays, make_end, delete_end, add_server,
  delete_server, connect, enable, take_request, server_at, is_server_dead, Stage, sent, executing,
  returned, abandoned, answering, unreachable, timing_out, delayed, replied, begin, tick,
  handler_returns, look_again, finish, fire, count_reply, route, is_lost,
}
use distributed_system.Labrpc.Delivery.{
  Op, Step, Run, apply, operates, begins, ticks, returns, looks, decides, fails, waits, times_out,
  delivers, here, next, reliable_op, long_reordering_op, long_delays_op, make_end_op, delete_end_op,
  delete_server_op, take_request_op, add_server_op, connect_op, enable_op,
}

-- No server of the network is the object `server`.
abbrev pub IsGone : ℕ → Network → Type 0
IsGone server rn = (name : Str) → server_at rn name ≢ some server

-- Nobody adds the object `server` to the network again.
abbrev pub NeverAdds : ℕ → Op → Type 0
NeverAdds server (add_server_op name s) = s ≢ server
NeverAdds server _ = Unit

-- The request was given to `server`, and nothing but failures can come back of it.
abbrev pub IsUnanswered : ℕ → Stage → Type 0
IsUnanswered server (executing name s reliable reordering) = s ≡ server
IsUnanswered server (returned name s reliable reordering reply) = s ≡ server
IsUnanswered server abandoned = Unit
IsUnanswered server unreachable = Unit
IsUnanswered server (timing_out ms) = Unit
IsUnanswered server (replied none) = Unit
IsUnanswered server _ = ⊥

-- The reply was given by the handler of another server.
abbrev pub FromOther : (ℕ → Str → Type 0) → ℕ → Str → Type 0
FromOther Answers server reply = (s : ℕ) × (s ≢ server) × Answers s reply

-- The request is not given to `server`, and a reply is not of its handler.
abbrev pub IsElsewhere : (ℕ → Str → Type 0) → ℕ → Stage → Type 0
IsElsewhere Answers server (executing name s reliable reordering) = s ≢ server
IsElsewhere Answers server (returned name s reliable reordering reply) =
    FromOther Answers server reply
IsElsewhere Answers server (answering reliable reordering reply) = FromOther Answers server reply
IsElsewhere Answers server (delayed ms reply) = FromOther Answers server reply
IsElsewhere Answers server (replied (some reply)) = FromOther Answers server reply
IsElsewhere Answers server _ = Unit

put_server-IsGone :
    (server : ℕ) (rn : Network) (name : Str) (s : Option ℕ)
    → s ≢ some server
    → IsGone server rn
    → IsGone server (record rn { servers = put rn.servers name s })
put_server-IsGone server rn name s ne gone other =
    ground (arith, get-put rn.servers name other s, gone other, ne)

same_servers-IsGone :
    (server : ℕ) (rn rn' : Network)
    → rn'.servers ≡ rn.servers
    → IsGone server rn
    → IsGone server rn'
same_servers-IsGone server rn rn' e gone name =
    subst
      (λ (m : Map Str (Option ℕ)).
        elim (get m name) as (λ x. Option ℕ) [ none ↦ none | some s ↦ s ] ≢ some server)
      (sym e) (gone name)

apply-IsGone :
    (server : ℕ) (op : Op) (rn rn' : Network)
    → NeverAdds server op
    → apply op rn ≡ ok rn'
    → IsGone server rn
    → IsGone server rn'
unfolding apply set_reliable set_long_reordering set_long_delays make_end delete_end delete_server
    take_request add_server connect enable
apply-IsGone server (reliable_op b) rn rn' a h gone =
    same_servers-IsGone server rn rn' (ground (arith, h)) gone
apply-IsGone server (long_reordering_op b) rn rn' a h gone =
    same_servers-IsGone server rn rn' (ground (arith, h)) gone
apply-IsGone server (long_delays_op b) rn rn' a h gone =
    same_servers-IsGone server rn rn' (ground (arith, h)) gone
apply-IsGone server (make_end_op e) rn rn' a h gone =
    same_servers-IsGone server rn rn' (ground (arith, h)) gone
apply-IsGone server (delete_end_op e) rn rn' a h gone =
    same_servers-IsGone server rn rn' (ground (arith, h)) gone
apply-IsGone server (delete_server_op name) rn rn' a h gone =
    let p : rn' ≡ delete_server name rn = ground (arith, h) in
    subst (IsGone server) (sym p)
      (put_server-IsGone server rn name none (λ e. ground (arith, e)) gone)
apply-IsGone server (take_request_op args) rn rn' a h gone =
    same_servers-IsGone server rn rn' (ground (arith, h)) gone
apply-IsGone server (add_server_op name s) rn rn' a h gone =
    let p : rn' ≡ add_server name s rn = ground (arith, h) in
    subst (IsGone server) (sym p)
      (put_server-IsGone server rn name (some s) (λ e. a (ground (arith, e))) gone)
apply-IsGone server (connect_op e name) rn rn' a h gone =
    same_servers-IsGone server rn rn' (ground (arith, h)) gone
apply-IsGone server (enable_op e b) rn rn' a h gone =
    same_servers-IsGone server rn rn' (ground (arith, h)) gone

gone-is_server_dead :
    (server : ℕ) (rn : Network) (e name : Str)
    → IsGone server rn
    → is_server_dead rn e name server ≡ true
unfolding is_server_dead
gone-is_server_dead server rn e name gone = ground (arith, gone name)

count_reply-servers : (st : Stage) (rn : Network) → (count_reply st rn).servers ≡ rn.servers
unfolding count_reply
count_reply-servers (replied (some reply)) rn = refl
count_reply-servers (replied none) rn = refl
count_reply-servers sent rn = refl
count_reply-servers (executing name server reliable reordering) rn = refl
count_reply-servers (returned name server reliable reordering reply) rn = refl
count_reply-servers abandoned rn = refl
count_reply-servers (answering reliable reordering reply) rn = refl
count_reply-servers unreachable rn = refl
count_reply-servers (timing_out ms) rn = refl
count_reply-servers (delayed ms reply) rn = refl

count_reply-IsGone :
    (server : ℕ) (st : Stage) (rn : Network) → IsGone server rn → IsGone server (count_reply st rn)
count_reply-IsGone server st rn gone =
    same_servers-IsGone server rn (count_reply st rn) (count_reply-servers st rn) gone

Step-IsUnanswered :
    {Answers : ℕ → Str → Type 0} {server : ℕ} {e : Str} {rn rn' : Network} {st st' : Stage}
    → Step (NeverAdds server) Answers e rn st rn' st'
    → IsGone server rn
    → IsUnanswered server st
    → IsUnanswered server st'
unfolding tick handler_returns look_again finish fire
Step-IsUnanswered (operates op a h) gone u = u
Step-IsUnanswered (begins draw) gone u = elim u [ ]
Step-IsUnanswered {server} {e} {rn} (ticks name s reliable reordering) gone u =
    if_cases (IsUnanswered server) (is_server_dead rn e name s) abandoned
      (executing name s reliable reordering) (λ h. tt) (λ h. u)
Step-IsUnanswered (returns name s reliable reordering reply a) gone u = u
Step-IsUnanswered {server} {e} {rn} (looks name s reliable reordering reply) gone u =
    let dead : is_server_dead rn e name s ≡ true =
      rw u (gone-is_server_dead server rn e name gone) in
    rw dead tt
Step-IsUnanswered (decides loss reorder bound ms reliable reordering reply) gone u = elim u [ ]
Step-IsUnanswered (fails loss reorder bound ms) gone u = tt
Step-IsUnanswered (waits loss reorder bound ms) gone u = tt
Step-IsUnanswered (times_out ms) gone u = tt
Step-IsUnanswered (delivers ms reply) gone u = elim u [ ]

route-server_at :
    (rn : Network) (e name : Str) (s : ℕ) → route rn e ≡ some (name, s) → server_at rn name ≡ some s
unfolding route
route-server_at rn e name s h = ground (arith, h)

begin-IsElsewhere :
    (Answers : ℕ → Str → Type 0) (server draw : ℕ) (rn : Network) (e : Str)
    → IsGone server rn
    → IsElsewhere Answers server (begin draw rn e)
unfolding begin
begin-IsElsewhere Answers server draw rn e gone = elim (Option-cases (route rn e)) [
  | inl missing ↦ rw (begin, missing) tt
  | inr ((name, s), found) ↦
      let other : s ≢ server = λ q. gone name (route-server_at rn e name s found ∙ ap some q) in
      rw (begin, found)
        (if_cases (IsElsewhere Answers server) (is_lost rn.reliable draw) (replied none)
          (executing name s rn.reliable rn.long_reordering) (λ h. tt) (λ h. other))
]

Step-IsElsewhere :
    {Answers : ℕ → Str → Type 0} {server : ℕ} {e : Str} {rn rn' : Network} {st st' : Stage}
    → Step (NeverAdds server) Answers e rn st rn' st'
    → IsGone server rn
    → IsElsewhere Answers server st
    → IsElsewhere Answers server st'
unfolding tick handler_returns look_again finish fire
Step-IsElsewhere (operates op a h) gone u = u
Step-IsElsewhere {Answers} {server} {e} {rn} (begins draw) gone u =
    begin-IsElsewhere Answers server draw rn e gone
Step-IsElsewhere {Answers} {server} {e} {rn} (ticks name s reliable reordering) gone u =
    if_cases (IsElsewhere Answers server) (is_server_dead rn e name s) abandoned
      (executing name s reliable reordering) (λ h. tt) (λ h. u)
Step-IsElsewhere (returns name s reliable reordering reply a) gone u = (s, u, a)
Step-IsElsewhere {Answers} {server} {e} {rn} (looks name s reliable reordering reply) gone u =
    if_cases (IsElsewhere Answers server) (is_server_dead rn e name s) abandoned
      (answering reliable reordering reply) (λ h. tt) (λ h. u)
Step-IsElsewhere {Answers} {server} (decides loss reorder bound ms reliable reordering reply) gone
      u =
    if_cases (IsElsewhere Answers server) (is_lost reliable loss) (replied none) _ (λ h. tt)
      (λ h.
        if_cases (IsElsewhere Answers server) (reordering && ltb (reorder % 900) 600)
          (delayed (200 + ms % (1 + bound % 2000)) reply) (replied (some reply)) (λ h. u) (λ h. u))
Step-IsElsewhere (fails loss reorder bound ms) gone u = tt
Step-IsElsewhere (waits loss reorder bound ms) gone u = tt
Step-IsElsewhere (times_out ms) gone u = tt
Step-IsElsewhere (delivers ms reply) gone u = u

Step-IsGone :
    {Answers : ℕ → Str → Type 0} {server : ℕ} {e : Str} {rn rn' : Network} {st st' : Stage}
    → Step (NeverAdds server) Answers e rn st rn' st'
    → IsGone server rn
    → IsGone server rn'
unfolding fire
Step-IsGone {server} {rn} {rn'} (operates op a h) gone = apply-IsGone server op rn rn' a h gone
Step-IsGone (begins draw) gone = gone
Step-IsGone (ticks name s reliable reordering) gone = gone
Step-IsGone (returns name s reliable reordering reply a) gone = gone
Step-IsGone (looks name s reliable reordering reply) gone = gone
Step-IsGone {server} {rn} (decides loss reorder bound ms reliable reordering reply) gone =
    count_reply-IsGone server
      (finish loss reorder bound ms rn (answering reliable reordering reply)) rn gone
Step-IsGone (fails loss reorder bound ms) gone = gone
Step-IsGone (waits loss reorder bound ms) gone = gone
Step-IsGone (times_out ms) gone = gone
Step-IsGone {server} {rn} (delivers ms reply) gone =
    count_reply-IsGone server (replied (some reply)) rn gone

Run-IsGone :
    {Answers : ℕ → Str → Type 0} {server : ℕ} {e : Str} {rn : Network} {st : Stage} {rn' : Network}
    {st' : Stage}
    → Run (NeverAdds server) Answers e rn st rn' st'
    → IsGone server rn
    → IsGone server rn'
      × (IsUnanswered server st → IsUnanswered server st')
      × (IsElsewhere Answers server st → IsElsewhere Answers server st')
Run-IsGone here gone = (gone, λ u. u, λ o. o)
Run-IsGone (next r s) gone =
    let (gone', keeps, stays) = Run-IsGone r gone in
    (
      Step-IsGone s gone',
      λ u. Step-IsUnanswered s gone' (keeps u),
      λ o. Step-IsElsewhere s gone' (stays o),
    )

-- After DeleteServer, whatever happens to the network: a request that was given to the server, and for
-- which processReq has not yet looked at the server for the last time, never gets a positive reply; and
-- a request that is begun later is never given to the server, so that its client gets a failure or the
-- reply of another server. The server is not under a second name, and is not added again.
pub delete_server-IsUnanswered :
    (Answers : ℕ → Str → Type 0) (e name : Str) (server : ℕ) (rn rn' : Network) (st st' : Stage)
    → ((other : Str) → name ≢ other → server_at rn other ≢ some server)
    → Run (NeverAdds server) Answers e (delete_server name rn) st rn' st'
    → (IsUnanswered server st → IsUnanswered server st')
      × (st ≡ sent → IsElsewhere Answers server st')
unfolding delete_server
delete_server-IsUnanswered Answers e name server rn rn' st st' only r =
    let gone : IsGone server (delete_server name rn) = λ other q.
      elim (Bool-cases (name == other)) [
        | inl hit ↦ ground (arith, get-put rn.servers name other none, hit, q)
        | inr miss ↦
            only other (==_false name other miss)
              (ground (arith, get-put rn.servers name other none, miss, q))
      ] in
    let (gone', keeps, stays) = Run-IsGone r gone in
    (keeps, λ new. stays (subst (IsElsewhere Answers server) (sym new) tt))
