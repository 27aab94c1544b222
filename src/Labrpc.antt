-- ===== src/Labrpc.antt =====
-- labrpc/labrpc.go: the simulated network. Names of ends and servers are strings. A server is a
-- pointer, so it is a number: two servers are equal when they are the same object. What is random in
-- the source comes as an argument, a number that is reduced as the source reduces it.
pub mod Route
pub mod Delivery
pub mod Frame
pub mod Timers
pub mod Deleted
pub mod Replies
pub mod Dispatch
mod Samples
use distributed_system.Prelude.{
  ℕ, zero, suc, ◌+◌, ◌%◌, Bool, true, false, not, ◌&&◌, ◌||◌, Option, none, some, List, [], ◌∷◌,
  ◌++◌, length, ltb, eqb, if◌then◌else◌, ◌==◌, Str, comparable_nat, comparable_list, Map, get, put,
  remove, contains,
}

abbrev pub long_delay : ℕ
long_delay = 7000

abbrev pub max_delay : ℕ
max_delay = long_delay + 100

-- `ends` holds the names of the ends. A connection and a server can be nil.
pub record Network : Type 0 where
  pub reliable : Bool
  pub long_delays : Bool
  pub long_reordering : Bool
  pub ends : Map Str Str
  pub enabled : Map Str Bool
  pub servers : Map Str (Option ℕ)
  pub connections : Map Str (Option Str)
  pub count : ℕ
  pub bytes : ℕ

pub data Outcome : Type 0 where
  ok : Network → Outcome
  fatal : Outcome

unfoldable pub make_network : Network
make_network = record {
  reliable = true;
  long_delays = false;
  long_reordering = false;
  ends = [];
  enabled = [];
  servers = [];
  connections = [];
  count = 0;
  bytes = 0;
}

unfoldable pub set_reliable : Bool → Network → Network
set_reliable on rn = record rn { reliable = on }

unfoldable pub set_long_reordering : Bool → Network → Network
set_long_reordering on rn = record rn { long_reordering = on }

unfoldable pub set_long_delays : Bool → Network → Network
set_long_delays on rn = record rn { long_delays = on }

-- A channel of the network and its `done` are the same for every end.
unfoldable pub make_end : Str → Network → Outcome
make_end e rn = elim (get rn.ends e) [
  | some _ ↦ fatal
  | none ↦ ok (record rn {
    ends = put rn.ends e e;
    enabled = put rn.enabled e false;
    connections = put rn.connections e none;
  })
]

unfoldable pub delete_end : Str → Network → Outcome
delete_end e rn = elim (get rn.ends e) [
  | none ↦ fatal
  | some _ ↦ ok (record rn {
    ends = remove rn.ends e;
    enabled = remove rn.enabled e;
    connections = remove rn.connections e;
  })
]

unfoldable pub add_server : Str → ℕ → Network → Network
add_server name server rn = record rn { servers = put rn.servers name (some server) }

unfoldable pub delete_server : Str → Network → Network
delete_server name rn = record rn { servers = put rn.servers name none }

unfoldable pub connect : Str → Str → Network → Network
connect e name rn = record rn { connections = put rn.connections e (some name) }

unfoldable pub enable : Str → Bool → Network → Network
enable e on rn = record rn { enabled = put rn.enabled e on }

-- The goroutine of `MakeNetwork` takes a request of some argument bytes.
unfoldable pub take_request : Str → Network → Network
take_request args rn = record rn { count = rn.count + 1; bytes = rn.bytes + length args }

abbrev pub is_enabled : Network → Str → Bool
is_enabled rn e = elim (get rn.enabled e) [ none ↦ false | some b ↦ b ]

abbrev pub connection : Network → Str → Option Str
connection rn e = elim (get rn.connections e) [ none ↦ none | some c ↦ c ]

abbrev pub server_at : Network → Str → Option ℕ
server_at rn name = elim (get rn.servers name) [ none ↦ none | some s ↦ s ]

-- The connected server name and server, when the end is enabled and neither of them is nil: the
-- part of `readEndnameInfo` that `processReq` tests.
unfoldable pub route : Network → Str → Option (Str × ℕ)
route rn e =
    if is_enabled rn e
    then elim (connection rn e) [
      | none ↦ none
      | some name ↦ elim (server_at rn name) [ none ↦ none | some server ↦ some (name, server) ]
    ]
    else none

unfoldable pub is_server_dead : Network → Str → Str → ℕ → Bool
is_server_dead rn e name server =
    not (is_enabled rn e) || not (elim (server_at rn name) [ none ↦ false | some s ↦ eqb s server ])

-- Where `processReq` stands with one request.
pub data Stage : Type 0 where
  sent : Stage
  -- the handler of the server runs; with `reliable` and `longreordering` as they were read
  executing : Str → ℕ → Bool → Bool → Stage
  -- the handler has returned this reply
  returned : Str → ℕ → Bool → Bool → Str → Stage
  -- the server was found dead
  abandoned : Stage
  -- the server was found alive once more: this reply is to be sent
  answering : Bool → Bool → Str → Stage
  -- no server can be reached
  unreachable : Stage
  -- a failure follows after so many milliseconds
  timing_out : ℕ → Stage
  -- the reply follows after so many milliseconds
  delayed : ℕ → Str → Stage
  -- the reply to the client: none stands for a failure
  replied : Option Str → Stage

-- A loss in an unreliable network: `reliable == false && (rand.Int()%1000) < 100`.
abbrev pub is_lost : Bool → ℕ → Bool
is_lost reliable draw = not reliable && ltb (draw % 1000) 100

unfoldable pub begin : ℕ → Network → Str → Stage
begin draw rn e = elim (route rn e) [
  | none ↦ unreachable
  | some (name, server) ↦
      if is_lost rn.reliable draw
      then replied none
      else executing name server rn.reliable rn.long_reordering
]

-- The 100 ms timer of the waiting loop.
unfoldable pub tick : Network → Str → Stage → Stage
tick rn e (executing name server reliable reordering) =
    if is_server_dead rn e name server then abandoned else executing name server reliable reordering
tick rn e stage = stage

unfoldable pub handler_returns : Str → Stage → Stage
handler_returns reply (executing name server reliable reordering) =
    returned name server reliable reordering reply
handler_returns reply stage = stage

-- The look at the server behind the waiting loop.
unfoldable pub look_again : Network → Str → Stage → Stage
look_again rn e (returned name server reliable reordering reply) =
    if is_server_dead rn e name server then abandoned else answering reliable reordering reply
look_again rn e stage = stage

-- What is sent to the client, or which timer is set, with four random numbers.
unfoldable pub finish : ℕ → ℕ → ℕ → ℕ → Network → Stage → Stage
finish loss reorder bound ms rn (answering reliable reordering reply) =
    if is_lost reliable loss
    then replied none
    else if reordering && ltb (reorder % 900) 600
    then delayed (200 + ms % (1 + bound % 2000)) reply
    else replied (some reply)
finish loss reorder bound ms rn abandoned = replied none
finish loss reorder bound ms rn unreachable =
    timing_out (if rn.long_delays then ms % long_delay else ms % 100)
finish loss reorder bound ms rn stage = stage

-- A timer of `time.AfterFunc` fires.
unfoldable pub fire : Stage → Stage
fire (timing_out ms) = replied none
fire (delayed ms reply) = replied (some reply)
fire stage = stage

-- The bytes of a reply are counted when it is sent to the client.
unfoldable pub count_reply : Stage → Network → Network
count_reply (replied (some reply)) rn = record rn { bytes = rn.bytes + length reply }
count_reply stage rn = rn

-- `strings.LastIndex(svcMeth, ".")`, and the parts before and behind it: `none` is the panic of a
-- slice that ends at -1.
unfoldable pub split_last_dot : Str → Option (Str × Str)
split_last_dot [] = none
split_last_dot (c ∷ cs) =
    let rest = split_last_dot cs in
    elim rest [
      | some (service, method) ↦ some (c ∷ service, method)
      | none ↦ if eqb c b'.' then some ([], cs) else none
    ]

-- A server object: the method names of its services, and the count of its incoming requests.
pub record Server : Type 0 where
  pub services : Map Str (List Str)
  pub incoming : ℕ

unfoldable pub make_server : Server
make_server = record { services = []; incoming = 0 }

unfoldable pub add_service : Str → List Str → Server → Server
add_service name methods rs = record rs { services = put rs.services name methods }

-- `Server.dispatch` up to the call of the handler: the service and the method that are called.
-- `none` ends the process.
unfoldable pub dispatch : Str → Server → Option (Server × Str × Str)
dispatch svc_meth rs = elim (split_last_dot svc_meth) [
  | none ↦ none
  | some (service, method) ↦ elim (get rs.services service) [
    | none ↦ none
    | some methods ↦
        if contains method methods
        then some (record rs { incoming = rs.incoming + 1 }, service, method)
        else none
  ]
]
