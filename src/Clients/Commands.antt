-- ===== src/Clients/Commands.antt =====
-- tester1/clnts.go: what a clerk reaches after a fresh start of its connections.
use distributed_system.Prelude.{
  comparable_nat, comparable_list, true, false, ◌>>=◌, Bool, List, Map, Option, Str, [], ap, arith,
  bind-some, contains, get, refl, some, some_inj, subst, sym, ◌==◌, ◌∙◌, ◌∷◌, ◌≡◌,
}
use distributed_system.Clients.{
  Clnt, make_clnt_to, allowed, make_clnt_end, switch_ends, clnt_connect_all, clnt_connect_to,
  clnt_disconnect, clnt_disconnect_all,
}
use distributed_system.Clients.Ends.{IsOwn}
use distributed_system.Clients.Reach.{
  Clerk, IsOwn-imp, hits-own, is_enabled-switch_ends, make_clnt_end-Clerk, switch_ends-ends,
}
use distributed_system.Labrpc.{Network, is_enabled}

-- Calls of a clerk: the random name of an end, should one be made, and the server.
abbrev pub calls : List (Str × Str) → Clnt × Network → Option (Clnt × Network)
calls [] st = some st
calls ((name, server) ∷ rest) st =
    make_clnt_end name server st >>= λ (m : Str × Clnt × Network). calls rest (m.1, m.2)

pub data Command : Type 0 where
  call : Str → Str → Command
  to_all to_none : Command
  to : List Str → Command
  away : Str → Command

abbrev command : Command → Clnt × Network → Option (Clnt × Network)
command (call name server) st =
    make_clnt_end name server st >>= λ (m : Str × Clnt × Network). some (m.1, m.2)
command to_all st = some (clnt_connect_all st)
command to_none st = some (clnt_disconnect_all st)
command (to srvs) st = some (clnt_connect_to srvs st)
command (away server) st = some (clnt_disconnect server st)

abbrev pub commands : List Command → Clnt × Network → Option (Clnt × Network)
commands [] st = some st
commands (c ∷ cs) st = command c st >>= commands cs

-- A fresh start: ConnectAll, DisconnectAll, or DisconnectAll and then ConnectTo.
pub data Reset : Type 0 where
  every none_of_them : Reset
  only : List Str → Reset

abbrev pub reset : Reset → Clnt × Network → Clnt × Network
reset every st = clnt_connect_all st
reset none_of_them st = clnt_disconnect_all st
reset (only srvs) st = clnt_connect_to srvs (clnt_disconnect_all st)

abbrev pub wanted : Reset → Str → Bool
wanted every server = true
wanted none_of_them server = false
wanted (only srvs) server = contains server srvs

switch_ends-IsOwn :
    (p : Str → Bool) (on : Bool) (ends : Map Str Str) (net : Network)
    → IsOwn ends net
    → IsOwn ends (switch_ends p on ends net)
switch_ends-IsOwn p on ends net h =
    IsOwn-imp ends net _
      (λ e there q. there (ap (λ m. get m e) (sym (switch_ends-ends p on ends net)) ∙ q)) h

command-IsOwn :
    (c : Command) (st st' : Clnt × Network)
    → IsOwn st.0.ends st.1
    → command c st ≡ some st'
    → IsOwn st'.0.ends st'.1
unfolding clnt_connect_all clnt_disconnect_all clnt_connect_to clnt_disconnect
command-IsOwn (call name server) st st' h eq =
    let ((e, clnt', net'), made, rest) = bind-some (make_clnt_end name server st) _ eq in
    let begun : Clerk false st = record { own = h; follows = λ q. cc } in
    let kept = make_clnt_end-Clerk false name server st e clnt' net' begun made in
    subst (λ m. IsOwn m.0.ends m.1) (some_inj rest) kept.0.own
command-IsOwn to_all st st' h eq =
    subst (λ m. IsOwn m.0.ends m.1) (some_inj eq)
      (switch_ends-IsOwn (λ _. true) true st.0.ends st.1 h)
command-IsOwn to_none st st' h eq =
    subst (λ m. IsOwn m.0.ends m.1) (some_inj eq)
      (switch_ends-IsOwn (λ _. true) false st.0.ends st.1 h)
command-IsOwn (to srvs) st st' h eq =
    subst (λ m. IsOwn m.0.ends m.1) (some_inj eq)
      (switch_ends-IsOwn (allowed (some srvs)) true st.0.ends st.1 h)
command-IsOwn (away server) st st' h eq =
    subst (λ m. IsOwn m.0.ends m.1) (some_inj eq)
      (switch_ends-IsOwn (λ s. s == server) false st.0.ends st.1 h)

commands-IsOwn :
    (cs : List Command) (st st' : Clnt × Network)
    → IsOwn st.0.ends st.1
    → commands cs st ≡ some st'
    → IsOwn st'.0.ends st'.1
commands-IsOwn [] st st' h eq = subst (λ m. IsOwn m.0.ends m.1) (some_inj eq) h
commands-IsOwn (c ∷ cs) st st' h eq =
    let (mid, first, rest) = bind-some (command c st) (commands cs) eq in
    commands-IsOwn cs mid st' (command-IsOwn c st mid h first) rest

calls-Clerk :
    (cs : List (Str × Str)) (st st' : Clnt × Network)
    → Clerk true st
    → calls cs st ≡ some st'
    → Clerk true st' × (st'.0.srvs ≡ st.0.srvs)
calls-Clerk [] st st' h eq =
    (subst (Clerk true) (some_inj eq) h, sym (ap (λ m. m.0.srvs) (some_inj eq)))
calls-Clerk ((name, server) ∷ cs) st st' h eq =
    let ((e, clnt', net'), made, rest) = bind-some (make_clnt_end name server st) _ eq in
    let kept = make_clnt_end-Clerk true name server st e clnt' net' h made in
    let (done_, same) = calls-Clerk cs (clnt', net') st' kept.0 rest in (done_, same ∙ kept.1)

reset-Clerk : (r : Reset) (st : Clnt × Network) → IsOwn st.0.ends st.1 → Clerk true (reset r st)
unfolding clnt_connect_all clnt_disconnect_all clnt_connect_to allowed
reset-Clerk every (clnt, net) h = record {
  own = switch_ends-IsOwn (λ _. true) true clnt.ends net h;
  follows = λ _ s e q. ground (
    arith,
    is_enabled-switch_ends (λ _. true) true clnt.ends net e,
    hits-own (λ _. true) clnt.ends net s e h q,
  );
}
reset-Clerk none_of_them (clnt, net) h = record {
  own = switch_ends-IsOwn (λ _. true) false clnt.ends net h;
  follows = λ _ s e q. ground (
    arith,
    is_enabled-switch_ends (λ _. true) false clnt.ends net e,
    hits-own (λ _. true) clnt.ends net s e h q,
  );
}
reset-Clerk (only srvs) (clnt, net) h =
    let off = switch_ends (λ _. true) false clnt.ends net in
    record {
      own =
          switch_ends-IsOwn (allowed (some srvs)) true clnt.ends off
            (switch_ends-IsOwn (λ _. true) false clnt.ends net h);
      follows = λ _ s e q. ground (
        arith,
        is_enabled-switch_ends (allowed (some srvs)) true clnt.ends off e,
        is_enabled-switch_ends (λ _. true) false clnt.ends net e,
        hits-own (λ _. true) clnt.ends net s e h q,
        hits-own (allowed (some srvs)) clnt.ends net s e h q,
      );
    }

reset-wanted :
    (r : Reset) (st : Clnt × Network) (s : Str) → allowed (reset r st).0.srvs s ≡ wanted r s
unfolding clnt_connect_all clnt_disconnect_all clnt_connect_to allowed
reset-wanted every st s = refl
reset-wanted none_of_them st s = refl
reset-wanted (only srvs) st s = refl

-- After ConnectAll, or DisconnectAll, or DisconnectAll and then ConnectTo, the clerk reaches all
-- servers, none, or those of the list: each end that it has then, or makes in the calls that follow,
-- is enabled exactly when its server is one of them, whatever the clerk did before.
pub calls-reset :
    (srvs : Option (List Str)) (net : Network) (before : List Command) (r : Reset)
    (after : List (Str × Str)) (st st' : Clnt × Network)
    → commands before (make_clnt_to srvs, net) ≡ some st
    → calls after (reset r st) ≡ some st'
    → (s e : Str) → get st'.0.ends s ≡ some e
    → is_enabled st'.1 e ≡ wanted r s
unfolding make_clnt_to
calls-reset srvs net before r after st st' e1 e2 s e q =
    let own = commands-IsOwn before (make_clnt_to srvs, net) st tt e1 in
    let (clerk, same) = calls-Clerk after (reset r st) st' (reset-Clerk r st own) e2 in
    clerk.follows refl s e q ∙ ap (λ v. allowed v s) same ∙ reset-wanted r st s
