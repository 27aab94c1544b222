-- ===== src/Labrpc/Delivery.antt =====
-- One request through the network of labrpc/labrpc.go, while anything else happens to the network.
use distributed_system.Prelude.{ℕ, ◌≡◌, Bool, Str, comparable_nat, comparable_list}
use distributed_system.Labrpc.{
  Network, Outcome, ok, set_reliable, set_long_reordering, set_long_delays, make_end, delete_end,
  add_server, delete_server, connect, enable, take_request, Stage, sent, executing, returned,
  abandoned, unreachable, timing_out, delayed, answering, begin, tick, handler_returns, look_again,
  finish, fire, count_reply,
}

-- The operations on a network that others may do at any time.

pub data Op : Type 0 where
  reliable_op long_reordering_op long_delays_op : Bool → Op
  make_end_op delete_end_op delete_server_op take_request_op : Str → Op
  add_server_op : Str → ℕ → Op
  connect_op : Str → Str → Op
  enable_op : Str → Bool → Op

unfoldable pub apply : Op → Network → Outcome
apply (reliable_op b) rn = ok (set_reliable b rn)
apply (long_reordering_op b) rn = ok (set_long_reordering b rn)
apply (long_delays_op b) rn = ok (set_long_delays b rn)
apply (make_end_op e) rn = make_end e rn
apply (delete_end_op e) rn = delete_end e rn
apply (delete_server_op name) rn = ok (delete_server name rn)
apply (take_request_op args) rn = ok (take_request args rn)
apply (add_server_op name server) rn = ok (add_server name server rn)
apply (connect_op e name) rn = ok (connect e name rn)
apply (enable_op e b) rn = ok (enable e b rn)

-- The steps of the request of end `e`, and of the network around it, in any order. `Allowed` says
-- which operations the others do, `Answers` which replies the handler of a server may return.
pub data Step (Allowed : Op → Type 0) (Answers : ℕ → Str → Type 0) (e : Str)
    : Network → Stage → Network → Stage → Type 0 where
  operates :
      {rn rn' : Network} {st : Stage} (op : Op)
      → Allowed op
      → apply op rn ≡ ok rn'
      → Step Allowed Answers e rn st rn' st
  begins : {rn : Network} (draw : ℕ) → Step Allowed Answers e rn sent rn (begin draw rn e)
  ticks :
      {rn : Network} (name : Str) (server : ℕ) (reliable reordering : Bool)
      → Step Allowed Answers e rn
          (executing name server reliable reordering)
          rn
          (tick rn e (executing name server reliable reordering))
  returns :
      {rn : Network} (name : Str) (server : ℕ) (reliable reordering : Bool) (reply : Str)
      → Answers server reply
      → Step Allowed Answers e rn
          (executing name server reliable reordering)
          rn
          (handler_returns reply (executing name server reliable reordering))
  looks :
      {rn : Network} (name : Str) (server : ℕ) (reliable reordering : Bool) (reply : Str)
      → Step Allowed Answers e rn
          (returned name server reliable reordering reply)
          rn
          (look_again rn e (returned name server reliable reordering reply))
  decides :
      {rn : Network} (loss reorder bound ms : ℕ) (reliable reordering : Bool) (reply : Str)
      → Step Allowed Answers e rn
          (answering reliable reordering reply)
          (count_reply (finish loss reorder bound ms rn (answering reliable reordering reply)) rn)
          (finish loss reorder bound ms rn (answering reliable reordering reply))
  fails :
      {rn : Network} (loss reorder bound ms : ℕ)
      → Step Allowed Answers e rn abandoned rn (finish loss reorder bound ms rn abandoned)
  waits :
      {rn : Network} (loss reorder bound ms : ℕ)
      → Step Allowed Answers e rn unreachable rn (finish loss reorder bound ms rn unreachable)
  times_out :
      {rn : Network} (ms : ℕ) → Step Allowed Answers e rn (timing_out ms) rn (fire (timing_out ms))
  delivers :
      {rn : Network} (ms : ℕ) (reply : Str)
      → Step Allowed Answers e rn
          (delayed ms reply)
          (count_reply (fire (delayed ms reply)) rn)
          (fire (delayed ms reply))

pub data Run (Allowed : Op → Type 0) (Answers : ℕ → Str → Type 0) (e : Str) (rn : Network)
    (st : Stage) : Network → Stage → Type 0 where
  here : Run Allowed Answers e rn st rn st
  next :
      {rn' rn'' : Network} {st' st'' : Stage}
      → Run Allowed Answers e rn st rn' st'
      → Step Allowed Answers e rn' st' rn'' st''
      → Run Allowed Answers e rn st rn'' st''

abbrev pub Any : Op → Type 0
Any op = Unit

abbrev pub AnyReply : ℕ → Str → Type 0
AnyReply server reply = Unit
