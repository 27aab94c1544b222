-- ===== src/Labrpc/Samples.antt =====
-- A small network for labrpc/labrpc.go: one server, one client end.
use distributed_system.Prelude.{
  ◌<◌, ==_ne, ◌≡◌, ◌≢◌, refl, true, false, none, some, [], ◌∷◌, arith, Str, bytes, comparable_nat,
  comparable_list, get, put, remove, inl, ℕ,
}
use distributed_system.Labrpc.{
  Network, ok, make_network, set_reliable, set_long_reordering, set_long_delays, make_end,
  delete_end, add_server, delete_server, connect, enable, take_request, server_at, route,
  is_server_dead, max_delay, sent, executing, timing_out, replied, begin, tick, handler_returns,
  look_again, finish, fire, count_reply, make_server, add_service, dispatch, split_last_dot,
}
use distributed_system.Labrpc.Delivery.{
  Run, here, next, begins, returns, looks, decides, fails, waits, times_out, operates,
  take_request_op, Any, AnyReply, apply,
}
use distributed_system.Labrpc.Timers.{Run-sent-IsBounded}
use distributed_system.Labrpc.Deleted.{
  NeverAdds, IsUnanswered, IsElsewhere, delete_server-IsUnanswered,
}
use distributed_system.Labrpc.Replies.{
  IsCut, KeepsCut, IsFailing, Run-sent-IsFailing, Reaches, KeepsReach, Run-sent-IsServed,
}

program : Unit {0}
unfolding make_network set_reliable set_long_reordering set_long_delays make_end delete_end
    add_server delete_server connect enable take_request route is_server_dead begin tick
    handler_returns look_again apply finish fire count_reply make_server add_service dispatch
    split_last_dot get put remove
program = tt

abbrev client : Str
client = bytes "client"

abbrev server_0 : Str
server_0 = bytes "server-0"

-- The end is made, connected and enabled, and the server is the object 7.
abbrev connected : Network
connected = record {
  reliable = true;
  long_delays = false;
  long_reordering = false;
  ends = (client, client) ∷ [];
  enabled = (client, true) ∷ [];
  servers = (server_0, some 7) ∷ [];
  connections = (client, some server_0) ∷ [];
  count = 0;
  bytes = 0;
}

connected_test :
    make_end client make_network
    ≡ ok (record make_network {
      ends = (client, client) ∷ [];
      enabled = (client, false) ∷ [];
      connections = (client, none) ∷ [];
    })
unfolding program
connected_test = refl

dispatch_test : dispatch (bytes "Raft") make_server ≡ none
unfolding program
dispatch_test = refl

abbrev SaysR : ℕ → Str → Type 0
SaysR server reply = reply ≡ bytes "r"

connected-Reaches : Reaches client server_0 7 connected
unfolding program
connected-Reaches = record {
  orderly = (refl, refl);
  enabled_end = refl;
  connected = refl;
  present = refl;
}

-- The request is executed and answered, while another request of three bytes is taken.
abbrev counted : Network
counted = record connected { count = 1; bytes = 4 }

served :
    Run
      (KeepsReach client server_0)
      SaysR
      client
      connected
      sent
      counted
      (replied (some (bytes "r")))
unfolding program
served =
    next
      (next
        (next (next (next here (begins 50)) (returns server_0 7 true false (bytes "r") refl))
          (looks server_0 7 true false (bytes "r")))
        (operates (take_request_op (bytes "abc")) (tt, tt, tt) refl))
      (decides 5 1 2 3 true false (bytes "r"))

Run-sent-IsServed_example : SaysR 7 (bytes "r")
Run-sent-IsServed_example =
    Run-sent-IsServed SaysR client server_0 7 connected counted (replied (some (bytes "r")))
      connected-Reaches served

-- The end has no route, and the failure waits for 42 milliseconds.
timed_out : Run Any AnyReply client make_network sent make_network (timing_out 42)
unfolding program
timed_out = next (next here (begins 0)) (waits 0 0 0 1042)

Run-sent-IsBounded_example : 42 < max_delay
Run-sent-IsBounded_example =
    Run-sent-IsBounded client make_network make_network (timing_out 42) timed_out

no_end-IsCut : IsCut client make_network
unfolding program
no_end-IsCut = inl refl

waited : Run (KeepsCut client) AnyReply client make_network sent make_network (replied none)
unfolding program
waited = next (next (next here (begins 0)) (waits 0 0 0 1042)) (times_out 42)

Run-sent-IsFailing_example : IsFailing (replied none)
Run-sent-IsFailing_example =
    Run-sent-IsFailing client make_network make_network (replied none) no_end-IsCut waited

-- The handler returns after the server was deleted.
after_delete :
    Run
      (NeverAdds 7)
      AnyReply
      client
      (delete_server server_0 connected)
      (executing server_0 7 true false)
      (delete_server server_0 connected)
      (replied none)
unfolding program
after_delete =
    next
      (next (next here (returns server_0 7 true false (bytes "r") tt))
        (looks server_0 7 true false (bytes "r")))
      (fails 5 1 2 3)

only_server : (other : Str) → server_0 ≢ other → server_at connected other ≢ some 7
unfolding program
only_server other ne q = ground (arith, ==_ne server_0 other ne, q)

delete_server-IsUnanswered_example :
    (IsUnanswered 7 (executing server_0 7 true false) → IsUnanswered 7 (replied none))
    × (executing server_0 7 true false ≡ sent → IsElsewhere AnyReply 7 (replied none))
delete_server-IsUnanswered_example =
    delete_server-IsUnanswered AnyReply client server_0 7 connected
      (delete_server server_0 connected) (executing server_0 7 true false) (replied none)
      only_server after_delete
