-- ===== src/Labrpc/Replies.antt =====
-- What a client of labrpc/labrpc.go gets: the reply of the handler on an end that reaches a server in
-- a reliable network, a failure on an end that does not reach one.
use distributed_system.Prelude.{
  Str, arith, comparable_nat, comparable_list, Bool-cases, false, get, get-put, get-remove, inl,
  inr, none, refl, some, subst, sym, true, ℕ, ◌==◌, ◌≡◌, ◌≢◌, ◌⊎◌, ==_false,
}
use distributed_system.Labrpc.{
  Network, ok, is_enabled, connection, server_at, route, is_server_dead, Stage, sent, executing,
  returned, answering, unreachable, timing_out, replied, begin, tick, handler_returns, look_again,
  finish, fire, set_reliable, set_long_reordering, set_long_delays, make_end, delete_end,
  delete_server, connect, enable, take_request, count_reply,
}
use distributed_system.Labrpc.Delivery.{
  Op, Step, Run, AnyReply, apply, operates, begins, ticks, returns, looks, decides, fails, waits,
  times_out, delivers, here, next, reliable_op, long_reordering_op, long_delays_op, make_end_op,
  delete_end_op, delete_server_op, take_request_op, add_server_op, connect_op, enable_op,
}
use distributed_system.Labrpc.Frame.{
  SparesEnd, SparesServer, KeepsReliable, IsReliable, apply-SparesEnd, apply-SparesServer,
  apply-IsReliable,
}

-- The end is disabled, or is not connected, or its server is not there.

abbrev pub IsCut : Str → Network → Type 0
IsCut e rn =
    (is_enabled rn e ≡ false)
    ⊎ ((connection rn e ≡ none)
        ⊎ ((name : Str) × (connection rn e ≡ some name) × (server_at rn name ≡ none)))

-- Nobody connects or enables the end, or adds a server.
abbrev pub KeepsCut : Str → Op → Type 0
KeepsCut e (connect_op e' name) = e' ≢ e
KeepsCut e (enable_op e' b) = (b ≡ false) ⊎ (e' ≢ e)
KeepsCut e (add_server_op name server) = ⊥
KeepsCut e _ = Unit

-- The request is not taken up yet, or no server was asked and the client has no positive reply.
abbrev pub IsFailing : Stage → Type 0
IsFailing sent = Unit
IsFailing unreachable = Unit
IsFailing (timing_out ms) = Unit
IsFailing (replied none) = Unit
IsFailing _ = ⊥

same_end-IsCut :
    (e : Str) (rn rn' : Network)
    → get rn'.enabled e ≡ get rn.enabled e
    → get rn'.connections e ≡ get rn.connections e
    → ((name : Str) → server_at rn name ≡ none → server_at rn' name ≡ none)
    → IsCut e rn
    → IsCut e rn'
same_end-IsCut e rn rn' p q s (inl off) = inl (ground (arith, p, off))
same_end-IsCut e rn rn' p q s (inr (inl loose)) = inr (inl (ground (arith, q, loose)))
same_end-IsCut e rn rn' p q s (inr (inr (name, to, gone))) =
    inr (inr (name, ground (arith, q, to), s name gone))

spared-IsCut :
    (e : Str) (op : Op) (rn rn' : Network)
    → SparesEnd e op
    → apply op rn ≡ ok rn'
    → ((name : Str) → server_at rn name ≡ none → server_at rn' name ≡ none)
    → IsCut e rn
    → IsCut e rn'
spared-IsCut e op rn rn' a h s cut =
    let (p, q) = apply-SparesEnd e op rn rn' a h in same_end-IsCut e rn rn' p q s cut

apply-IsCut :
    (e : Str) (op : Op) (rn rn' : Network)
    → KeepsCut e op
    → apply op rn ≡ ok rn'
    → IsCut e rn
    → IsCut e rn'
unfolding apply set_reliable set_long_reordering set_long_delays make_end delete_end delete_server
    take_request connect enable
apply-IsCut e (reliable_op b) rn rn' a h cut =
    spared-IsCut e (reliable_op b) rn rn' tt h (λ name g. ground (arith, h, g)) cut
apply-IsCut e (long_reordering_op b) rn rn' a h cut =
    spared-IsCut e (long_reordering_op b) rn rn' tt h (λ name g. ground (arith, h, g)) cut
apply-IsCut e (long_delays_op b) rn rn' a h cut =
    spared-IsCut e (long_delays_op b) rn rn' tt h (λ name g. ground (arith, h, g)) cut
apply-IsCut e (make_end_op e') rn rn' a h cut = elim (Bool-cases (e' == e)) [
  | inl hit ↦ inl (ground (arith, h, hit, get-put rn.enabled e' e false))
  | inr miss ↦
      spared-IsCut e (make_end_op e') rn rn' (==_false e' e miss) h (λ name g. ground (arith, h, g))
        cut
]
apply-IsCut e (delete_end_op e') rn rn' a h cut = elim (Bool-cases (e' == e)) [
  | inl hit ↦ inl (ground (arith, h, hit, get-remove rn.enabled e' e))
  | inr miss ↦
      spared-IsCut e (delete_end_op e') rn rn' (==_false e' e miss) h
        (λ name g. ground (arith, h, g)) cut
]
apply-IsCut e (delete_server_op n) rn rn' a h cut =
    spared-IsCut e (delete_server_op n) rn rn' tt h
      (λ name g. ground (arith, h, g, get-put rn.servers n name none)) cut
apply-IsCut e (take_request_op args) rn rn' a h cut =
    spared-IsCut e (take_request_op args) rn rn' tt h (λ name g. ground (arith, h, g)) cut
apply-IsCut e (add_server_op n s) rn rn' a h cut = elim a [ ]
apply-IsCut e (connect_op e' n) rn rn' a h cut =
    spared-IsCut e (connect_op e' n) rn rn' a h (λ name g. ground (arith, h, g)) cut
apply-IsCut e (enable_op e' b) rn rn' (inr ne) h cut =
    spared-IsCut e (enable_op e' b) rn rn' ne h (λ name g. ground (arith, h, g)) cut
apply-IsCut e (enable_op e' b) rn rn' (inl off) h cut = elim (Bool-cases (e' == e)) [
  | inl hit ↦ inl (ground (arith, h, hit, off, get-put rn.enabled e' e b))
  | inr miss ↦
      spared-IsCut e (enable_op e' b) rn rn' (==_false e' e miss) h (λ name g. ground (arith, h, g))
        cut
]

begin-unreachable : (draw : ℕ) (e : Str) (rn : Network) → IsCut e rn → begin draw rn e ≡ unreachable
unfolding begin route
begin-unreachable draw e rn (inl off) = ground (arith, off)
begin-unreachable draw e rn (inr (inl loose)) = ground (arith, loose)
begin-unreachable draw e rn (inr (inr (name, to, gone))) = ground (arith, to, gone)

Step-IsFailing :
    {Answers : ℕ → Str → Type 0} {e : Str} {rn rn' : Network} {st st' : Stage}
    → Step (KeepsCut e) Answers e rn st rn' st'
    → IsCut e rn
    → IsFailing st
    → IsCut e rn' × IsFailing st'
unfolding finish fire
Step-IsFailing {e} {rn} {rn'} (operates op a h) cut f = (apply-IsCut e op rn rn' a h cut, f)
Step-IsFailing {e} {rn} (begins draw) cut f =
    (cut, subst IsFailing (sym (begin-unreachable draw e rn cut)) tt)
Step-IsFailing (ticks name server reliable reordering) cut f = elim f [ ]
Step-IsFailing (returns name server reliable reordering reply a) cut f = elim f [ ]
Step-IsFailing (looks name server reliable reordering reply) cut f = elim f [ ]
Step-IsFailing (decides loss reorder bound ms reliable reordering reply) cut f = elim f [ ]
Step-IsFailing (fails loss reorder bound ms) cut f = elim f [ ]
Step-IsFailing (waits loss reorder bound ms) cut f = (cut, tt)
Step-IsFailing (times_out ms) cut f = (cut, tt)
Step-IsFailing (delivers ms reply) cut f = elim f [ ]

Run-IsFailing :
    {Answers : ℕ → Str → Type 0} {e : Str} {rn : Network} {st : Stage} {rn' : Network} {st' : Stage}
    → Run (KeepsCut e) Answers e rn st rn' st'
    → IsCut e rn
    → IsFailing st
    → IsCut e rn' × IsFailing st'
Run-IsFailing here cut f = (cut, f)
Run-IsFailing (next r s) cut f = let (cut', f') = Run-IsFailing r cut f in Step-IsFailing s cut' f'

-- While an end is disabled, not connected, or connected to a server that is not there, a request on
-- it never asks a server and never gets a positive reply, whatever happens to the network around it,
-- as long as nobody connects or enables this end or adds a server.
pub Run-sent-IsFailing :
    (e : Str) (rn rn' : Network) (st : Stage)
    → IsCut e rn
    → Run (KeepsCut e) AnyReply e rn sent rn' st
    → IsFailing st
Run-sent-IsFailing e rn rn' st cut r = (Run-IsFailing r cut tt).1

-- The end reaches the server, in a reliable network.
pub record Reaches (e name : Str) (server : ℕ) (rn : Network) : Type 0 where
  pub orderly : IsReliable rn
  pub enabled_end : is_enabled rn e ≡ true
  pub connected : connection rn e ≡ some name
  pub present : server_at rn name ≡ some server

-- The others leave the end, its server and the reliability alone.
abbrev pub KeepsReach : Str → Str → Op → Type 0
KeepsReach e name op = SparesEnd e op × SparesServer name op × KeepsReliable op

apply-Reaches :
    (e name : Str) (server : ℕ) (op : Op) (rn rn' : Network)
    → KeepsReach e name op
    → apply op rn ≡ ok rn'
    → Reaches e name server rn
    → Reaches e name server rn'
apply-Reaches e name server op rn rn' (a, b, c) h r =
    let (p, q) = apply-SparesEnd e op rn rn' a h in
    let s = apply-SparesServer name op rn rn' b h in
    record {
      orderly = apply-IsReliable op rn rn' c h r.orderly;
      enabled_end = ground (arith, p, r.enabled_end);
      connected = ground (arith, q, r.connected);
      present = ground (arith, s, r.present);
    }

-- The request is on its way through this server, or the client has a reply that the handler gave.
abbrev pub IsServed : Str → ℕ → (ℕ → Str → Type 0) → Stage → Type 0
IsServed name server Answers sent = Unit
IsServed name server Answers (executing n s reliable reordering) =
    (n ≡ name) × (s ≡ server) × (reliable ≡ true) × (reordering ≡ false)
IsServed name server Answers (returned n s reliable reordering reply) =
    (n ≡ name) × (s ≡ server) × (reliable ≡ true) × (reordering ≡ false) × Answers server reply
IsServed name server Answers (answering reliable reordering reply) =
    (reliable ≡ true) × (reordering ≡ false) × Answers server reply
IsServed name server Answers (replied (some reply)) = Answers server reply
IsServed name server Answers _ = ⊥

begin-executing :
    (draw : ℕ) (e name : Str) (server : ℕ) (rn : Network)
    → Reaches e name server rn
    → begin draw rn e ≡ executing name server true false
unfolding begin route
begin-executing draw e name server rn r =
    ground (arith, r.orderly, r.enabled_end, r.connected, r.present)

Reaches-alive :
    (e name : Str) (server : ℕ) (rn : Network)
    → Reaches e name server rn
    → is_server_dead rn e name server ≡ false
unfolding is_server_dead
Reaches-alive e name server rn r = ground (arith, r.enabled_end, r.present)

alive_at :
    (e name : Str) (server : ℕ) (rn : Network) (n : Str) (s : ℕ)
    → Reaches e name server rn
    → n ≡ name
    → s ≡ server
    → is_server_dead rn e n s ≡ false
alive_at e name server rn n s r p q = rw (p, q) (Reaches-alive e name server rn r)

Step-IsServed :
    {name : Str} {server : ℕ} {Answers : ℕ → Str → Type 0} {e : Str} {rn rn' : Network}
    {st st' : Stage}
    → Step (KeepsReach e name) Answers e rn st rn' st'
    → Reaches e name server rn
    → IsServed name server Answers st
    → Reaches e name server rn' × IsServed name server Answers st'
unfolding tick handler_returns look_again finish fire count_reply
Step-IsServed {name} {server} {e} {rn} {rn'} (operates op a h) r f =
    (apply-Reaches e name server op rn rn' a h r, f)
Step-IsServed {name} {server} {Answers} {e} {rn} (begins draw) r f = (
  r,
  subst (IsServed name server Answers) (sym (begin-executing draw e name server rn r))
      (refl, refl, refl, refl),
)
Step-IsServed {name} {server} {e} {rn} (ticks n s reliable reordering) r f =
    rw (alive_at e name server rn n s r f.0 f.1) (r, f)
Step-IsServed {Answers} (returns n s reliable reordering reply a) r f =
    (r, (f.0, f.1, f.2, f.3, subst (λ x. Answers x reply) f.1 a))
Step-IsServed {name} {server} {e} {rn} (looks n s reliable reordering reply) r f =
    rw (alive_at e name server rn n s r f.0 f.1) (r, (f.2, f.3, f.4))
Step-IsServed (decides loss reorder bound ms reliable reordering reply) r f =
    rw (f.0, f.1)
      (
        record {
          orderly = r.orderly;
          enabled_end = r.enabled_end;
          connected = r.connected;
          present = r.present;
        },
        f.2,
      )
Step-IsServed (fails loss reorder bound ms) r f = elim f [ ]
Step-IsServed (waits loss reorder bound ms) r f = elim f [ ]
Step-IsServed (times_out ms) r f = elim f [ ]
Step-IsServed (delivers ms reply) r f = elim f [ ]

Run-IsServed :
    {name : Str} {server : ℕ} {Answers : ℕ → Str → Type 0} {e : Str} {rn : Network} {st : Stage}
    {rn' : Network} {st' : Stage}
    → Run (KeepsReach e name) Answers e rn st rn' st'
    → Reaches e name server rn
    → IsServed name server Answers st
    → Reaches e name server rn' × IsServed name server Answers st'
Run-IsServed here r f = (r, f)
Run-IsServed (next run s) r f = let (r', f') = Run-IsServed run r f in Step-IsServed s r' f'

-- In a reliable network that does not reorder replies, a request on an end that is enabled and
-- connected to a server that is there never fails: whatever happens around it, as long as nobody
-- touches this end, its server or the reliability, it is on its way through this server, or has been
-- answered by a reply that the handler of the server gave.
pub Run-sent-IsServed :
    (Answers : ℕ → Str → Type 0) (e name : Str) (server : ℕ) (rn rn' : Network) (st : Stage)
    → Reaches e name server rn
    → Run (KeepsReach e name) Answers e rn sent rn' st
    → IsServed name server Answers st
Run-sent-IsServed Answers e name server rn rn' st r run = (Run-IsServed run r tt).1
