-- ===== src/Groups/Samples.antt =====
-- Small tests for tester1/group.go and tester1/srv.go: a group of three servers, whose ends are named
-- by two letters.
use distributed_system.Prelude.{
  comparable_nat, comparable_list, comparable_int, pos, negsuc, true, false, List, Str, [], arith,
  bytes, get, length, none, put, refl, some, subst, suc, sym, zero, ℕ, ◌+◌, ◌<◌, ◌∷◌, ◌≡◌, Option,
  contains, ◌≢◌, Bool,
}
use distributed_system.Groups.{
  World, ServerGrp, server_name, make_srv_grp, make_servers, make_server, make_ends, start_server,
  shutdown_server, connect_server, disconnect_server, connect_out, connect_in, disconnect_out,
  disconnect_in, enable_each, disable_each, end_at, itoa_int,
}
use distributed_system.Groups.Operations.{
  start_one, shutdown_one, partition_servers, isolate, make_partition, fill_partition,
  StartFunction,
}
use distributed_system.Groups.Persistence.{Persister, make_persister, copy, save}
use distributed_system.Groups.Ends.{HasEnds, AreDistinct}
use distributed_system.Groups.Partitions.{partition_servers-Split, AreDisjoint}
use distributed_system.Groups.Making.{IsMade, Same, make_srv_grp-HasEnds}
use distributed_system.Groups.Minority.{make_partition-AreParts, AreParts}
use distributed_system.Groups.Restarts.{save_at, saves_at, Holds, restart-Holds}
use distributed_system.Labrpc.{
  Network, make_network, make_end, connect, enable, is_enabled, add_server, delete_server,
}
use distributed_system.Prelude.Decimal.{itoa}

program : Unit {0}
unfolding server_name itoa_int make_srv_grp make_servers make_server make_ends start_server
    shutdown_server connect_server disconnect_server connect_out connect_in disconnect_out
    disconnect_in enable_each disable_each start_one shutdown_one partition_servers isolate
    make_partition fill_partition make_persister copy save save_at make_network make_end connect
    enable add_server delete_server get put itoa
program = tt

abbrev name : ℕ → ℕ → Str
name a b = (b'a' + a) ∷ (b'a' + b) ∷ []

abbrev nothing : ServerGrp × World
nothing = (
  record { srvs = []; servernames = []; gid = pos 0; connected = [] },
  record {
    net = record {
      reliable = true;
      long_delays = false;
      long_reordering = false;
      ends = [];
      enabled = [];
      servers = [];
      connections = [];
      count = 0;
      bytes = 0;
    };
    persisters = [];
    killed = [];
  },
)

group : ServerGrp × World
unfolding program
group = elim (make_srv_grp name (pos 0) 3 nothing.1) [ none ↦ nothing | some st ↦ st ]

name_test : server_name (negsuc 1) 12 ≡ bytes "server--2-12"
unfolding program
name_test = refl

group_test : length group.0.srvs ≡ 3
unfolding program group
group_test = refl

partition_test : make_partition 0 group.0 ≡ some (1 ∷ 2 ∷ [], 0 ∷ [])
unfolding program group
partition_test = refl

-- With four servers, the first one is listed twice.
four_test :
    elim (make_srv_grp name (pos 0) 4 nothing.1) [ none ↦ none | some st ↦ make_partition 3 st.0 ]
    ≡ some (0 ∷ 1 ∷ 2 ∷ [], 0 ∷ 3 ∷ [])
unfolding program
four_test = refl

name-AreDistinct : AreDistinct 3 name
name-AreDistinct a b c d ha hb hc hd e = ground (arith, e)

no_ends : (a b : ℕ) → a < 3 → b < 3 → get nothing.1.net.ends (name a b) ≡ none
unfolding get
no_ends a b la lb = refl

make_srv_grp-HasEnds_example :
    (sg : ServerGrp) × (w' : World) × (make_srv_grp name (pos 0) 3 nothing.1 ≡ some (sg, w'))
    × HasEnds 3 name sg
    × ((a b : ℕ) → a < 3 → b < 3 → IsMade w'.net (name a b) (server_name (pos 0) b))
    × ((e : Str) → ((a b : ℕ) → a < 3 → b < 3 → name a b ≢ e) → Same nothing.1.net w'.net e)
make_srv_grp-HasEnds_example =
    make_srv_grp-HasEnds 3 name name-AreDistinct (pos 0) nothing.1 no_ends

below_3 : (P : ℕ → Type 0) → P 0 → P 1 → P 2 → (a : ℕ) → a < 3 → P a
below_3 P x y z zero h = x
below_3 P x y z (suc zero) h = y
below_3 P x y z (suc (suc zero)) h = z
below_3 P x y z (suc (suc (suc a))) h = absurd (omega (arith, h))

group-HasEnds : HasEnds 3 name group.0
unfolding program group
group-HasEnds = record {
  servers = refl;
  flags = refl;
  ends = λ a b ha hb.
      below_3 (λ x. end_at group.0.srvs x b ≡ some (name x b))
        (below_3 (λ y. end_at group.0.srvs 0 y ≡ some (name 0 y)) refl refl refl b hb)
        (below_3 (λ y. end_at group.0.srvs 1 y ≡ some (name 1 y)) refl refl refl b hb)
        (below_3 (λ y. end_at group.0.srvs 2 y ≡ some (name 2 y)) refl refl refl b hb) a ha;
}

parts-AreDisjoint : AreDisjoint (1 ∷ 2 ∷ []) (0 ∷ [])
parts-AreDisjoint j h = ground (arith, h)

make_partition-AreParts_example :
    (p1 p2 : List ℕ) × (make_partition 0 group.0 ≡ some (p1, p2))
    × AreParts (length group.0.srvs) 0 p1 p2
make_partition-AreParts_example =
    make_partition-AreParts 0 group.0 0 group_test
      (subst (λ m. 0 < m) (sym group_test) (omega arith))

-- Server 0 is cut off.
partition_servers-Split_example :
    (st : ServerGrp × Network) × (partition_servers (1 ∷ 2 ∷ []) (0 ∷ []) (group.0, group.1.net)
      ≡ some st)
    × ((a b : ℕ)
        → a < 3
        → b < 3
        → (contains a (1 ∷ 2 ∷ []) ≡ true
            → contains b (1 ∷ 2 ∷ []) ≡ true
            → is_enabled st.1 (name a b) ≡ true)
          × (contains a (0 ∷ []) ≡ true
              → contains b (0 ∷ []) ≡ true
              → is_enabled st.1 (name a b) ≡ true)
          × (contains a (1 ∷ 2 ∷ []) ≡ true
              → contains b (0 ∷ []) ≡ true
              → (is_enabled st.1 (name a b) ≡ false) × (is_enabled st.1 (name b a) ≡ false)))
partition_servers-Split_example =
    partition_servers-Split 3 name name-AreDistinct (1 ∷ 2 ∷ []) (0 ∷ []) (group.0, group.1.net)
      (omega arith, (omega arith, tt)) (omega arith, tt) parts-AreDisjoint group-HasEnds

abbrev service : StartFunction
service ends gid i p = 5 ∷ []

abbrev fresh : ℕ → Str
fresh j = b'x' ∷ (b'a' + j) ∷ []

abbrev saved_as : Str → Persister
saved_as raftstate = record { raftstate = raftstate; snapshot = [] }

-- A group of one server, with the persister 0.
abbrev one_end : Str
one_end = bytes "e"

abbrev running : ServerGrp
running = record {
  srvs = record { saved = some 0; svcs = 5 ∷ []; end_names = one_end ∷ [] } ∷ [];
  servernames = bytes "server-0-0" ∷ [];
  gid = pos 0;
  connected = true ∷ [];
}

abbrev net_of : List (Str × Bool) → List (Str × Option ℕ) → Network
net_of enabled servers = record {
  reliable = true;
  long_delays = false;
  long_reordering = false;
  ends = [];
  enabled = enabled;
  servers = servers;
  connections = [];
  count = 0;
  bytes = 0;
}

abbrev world : Network → List Persister → List ℕ → World
world net persisters killed = record { net = net; persisters = persisters; killed = killed }

abbrev term_2 : Persister
term_2 = saved_as (bytes "2")

abbrev before : World
before = world (net_of ((one_end, true) ∷ []) []) (term_2 ∷ []) []

abbrev down : ServerGrp
down = record running {
  srvs = record { saved = some 1; svcs = []; end_names = one_end ∷ [] } ∷ [];
  connected = false ∷ [];
}

abbrev cut_net : Network
cut_net = net_of ((one_end, false) ∷ []) ((bytes "server-0-0", none) ∷ [])

shut : shutdown_one 0 (running, before) ≡ some (down, world cut_net (term_2 ∷ term_2 ∷ []) (5 ∷ []))
unfolding program
shut = refl

abbrev late : World
late = world cut_net (saved_as (bytes "9") ∷ term_2 ∷ []) (5 ∷ [])

saved_late :
    saves_at 0 ((bytes "9", []) ∷ []) (world cut_net (term_2 ∷ term_2 ∷ []) (5 ∷ [])) ≡ some late
unfolding program
saved_late = refl

abbrev up : ServerGrp
up = record down { srvs = record { saved = some 2; svcs = 5 ∷ []; end_names = fresh 0 ∷ [] } ∷ [] }

abbrev again : World
again = record late {
  net = record cut_net {
    ends = (fresh 0, fresh 0) ∷ [];
    enabled = (one_end, false) ∷ (fresh 0, false) ∷ [];
    servers = (bytes "server-0-0", some 91) ∷ [];
    connections = (fresh 0, some (bytes "server-0-0")) ∷ [];
  };
  persisters = saved_as (bytes "9") ∷ term_2 ∷ term_2 ∷ [];
}

started : start_one service fresh 91 0 (down, late) ≡ some (up, again)
unfolding program
started = refl

-- Server 0 is shut down, its old instance saves once more, and it is started anew.
restart-Holds_example : (q : ℕ) × (q ≢ 0) × Holds up again 0 q term_2
restart-Holds_example =
    restart-Holds service fresh 91 0 0 term_2 running down up before
      (world cut_net (term_2 ∷ term_2 ∷ []) (5 ∷ [])) late again again ((bytes "9", []) ∷ []) []
      (_, refl, refl, refl) shut saved_late started refl
