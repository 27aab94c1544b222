-- ===== src/Clients/Reach.antt =====
-- tester1/clnts.go: which servers a clerk reaches.
use distributed_system.Prelude.{
  comparable_nat, comparable_list, true, false, ◌>>=◌, Bool, Bool-cases, Map, Str, [], arith, get,
  get-put, if◌then◌else◌, inl, inr, none, refl, some, ◌&&◌, ◌==◌, ◌||◌, ◌∙◌, ◌∷◌, ◌≡◌, ◌≢◌, ==_ne,
  ==_refl, Option-cases, ap, put, some_inj, subst, sym, bind-some, Option,
}
use distributed_system.Clients.{Clnt, allowed, new_end, make_clnt_end, switch_ends}
use distributed_system.Labrpc.{Network, enable, is_enabled}
use distributed_system.Clients.Ends.{IsOwn, new_end-is_enabled, IsOwn-put, IsOwn-registered}

-- Whether `e` is the end of a server that satisfies `p`.
abbrev pub hits : (Str → Bool) → Map Str Str → Str → Bool
hits p [] e = false
hits p ((server, e') ∷ ends) e = (p server && e' == e) || hits p ends e

is_enabled-enable :
    (e e' : Str) (on : Bool) (net : Network)
    → is_enabled (enable e on net) e' ≡ (if e == e' then on else is_enabled net e')
unfolding enable
is_enabled-enable e e' on net = ground (arith, get-put net.enabled e e' on)

pub is_enabled-switch_ends :
    (p : Str → Bool) (on : Bool) (ends : Map Str Str) (net : Network) (e : Str)
    → is_enabled (switch_ends p on ends net) e ≡ (if hits p ends e then on else is_enabled net e)
unfolding switch_ends
is_enabled-switch_ends p on [] net e = refl
is_enabled-switch_ends p on ((server, e') ∷ ends) net e = elim (Bool-cases (p server)) [
  | inl hit ↦ rw hit (
      is_enabled-switch_ends p on ends (enable e' on net) e
      ∙ ground (arith, is_enabled-enable e' e on net))
  | inr miss ↦ rw miss (is_enabled-switch_ends p on ends net e)
]

pub switch_ends-ends :
    (p : Str → Bool) (on : Bool) (ends : Map Str Str) (net : Network)
    → (switch_ends p on ends net).ends ≡ net.ends
unfolding switch_ends enable
switch_ends-ends p on [] net = refl
switch_ends-ends p on ((server, e) ∷ ends) net = elim (Bool-cases (p server)) [
  | inl hit ↦ rw (hit, switch_ends) (switch_ends-ends p on ends (enable e on net))
  | inr miss ↦ rw (miss, switch_ends) (switch_ends-ends p on ends net)
]

-- The registration reads the table of ends alone.
pub IsOwn-imp :
    (ends : Map Str Str) (net net' : Network)
    → ((e : Str) → get net.ends e ≢ none → get net'.ends e ≢ none)
    → IsOwn ends net
    → IsOwn ends net'
IsOwn-imp [] net net' f h = tt
IsOwn-imp ((s, e) ∷ ends) net net' f h = (h.0, h.1, f e h.2, IsOwn-imp ends net net' f h.3)

get-first : (server e : Str) (ends : Map Str Str) → get ((server, e) ∷ ends) server ≡ some e
unfolding get
get-first server e ends = ground (arith, ==_refl server)

get-later :
    (server e' s e : Str) (ends : Map Str Str)
    → get ends server ≡ none
    → get ends s ≡ some e
    → get ((server, e') ∷ ends) s ≡ some e
unfolding get
get-later server e' s e ends gone h = elim (Bool-cases (server == s)) [
  | inl hit ↦
      let same : server ≡ s = (comparable_list.exact server s).0 hit in
      let there : get ends server ≡ some e = subst (λ k. get ends k ≡ some e) (sym same) h in
      absurd (ground (arith, gone, there))
  | inr miss ↦ ground (arith, miss, h)
]

hits-none :
    (p : Str → Bool) (ends : Map Str Str) (net : Network) (e : Str)
    → IsOwn ends net
    → ((s : Str) → get ends s ≢ some e)
    → hits p ends e ≡ false
unfolding get
hits-none p [] net e h k = refl
hits-none p ((server, e') ∷ ends) net e h k =
    let apart : (e' == e) ≡ false =
      ==_ne e' e (λ q. k server (get-first server e' ends ∙ ap some q)) in
    let rest = hits-none p ends net e h.3 (λ s q. k s (get-later server e' s e ends h.1 q)) in
    ground (arith, apart, rest)

pub hits-own :
    (p : Str → Bool) (ends : Map Str Str) (net : Network) (s e : Str)
    → IsOwn ends net
    → get ends s ≡ some e
    → hits p ends e ≡ p s
unfolding get
hits-own p [] net s e h k = cc
hits-own p ((server, e') ∷ ends) net s e h k = elim (Bool-cases (server == s)) [
  | inl hit ↦
      let same : server ≡ s = (comparable_list.exact server s).0 hit in
      let e'e : e' ≡ e =
        some_inj (subst (λ b. (if b then some e' else get ends s) ≡ some e) hit k) in
      let none_else = hits-none p ends net e' h.3 h.0 in
      subst (λ x. ((p server && e' == x) || hits p ends x) ≡ p s) e'e
        (ground (arith, ==_refl e', none_else, ap p same))
  | inr miss ↦
      let later : get ends s ≡ some e =
        subst (λ b. (if b then some e' else get ends s) ≡ some e) miss k in
      let apart : (e' == e) ≡ false = ==_ne e' e (λ q. h.0 s (later ∙ ap some (sym q))) in
      ground (arith, apart, hits-own p ends net s e h.3 later)
]

-- Each end that the clerk has is enabled as its list of servers allows.
abbrev pub Follows : Clnt × Network → Type 0
Follows (clnt, net) =
    (s e : Str) → get clnt.ends s ≡ some e → is_enabled net e ≡ allowed clnt.srvs s

make_clnt_end-new :
    (name server : Str) (clnt : Clnt) (net : Network)
    → get clnt.ends server ≡ none
    → make_clnt_end name server (clnt, net) ≡ (
        new_end name server (allowed clnt.srvs server) net >>= λ net'.
        some (name, record clnt { ends = put clnt.ends server name }, net'))
unfolding make_clnt_end
make_clnt_end-new name server clnt net gone = rw (gone, make_clnt_end) refl

make_clnt_end-old :
    (name server e : Str) (clnt : Clnt) (net : Network)
    → get clnt.ends server ≡ some e
    → make_clnt_end name server (clnt, net) ≡ some (e, clnt, net)
unfolding make_clnt_end
make_clnt_end-old name server e clnt net there = rw (there, make_clnt_end) refl

-- What holds of a clerk and the network: the ends are its own; when `on` holds, they follow its list.
pub record Clerk (on : Bool) (st : Clnt × Network) : Type 0 where
  pub own : IsOwn st.0.ends st.1
  pub follows : on ≡ true → Follows st

picked :
    (b : Bool) (x y : Option Str) (e : Str) → b ≡ true → (if b then x else y) ≡ some e → x ≡ some e
picked b x y e h q = subst (λ c. (if c then x else y) ≡ some e) h q

passed :
    (b : Bool) (x y : Option Str) (e : Str) → b ≡ false → (if b then x else y) ≡ some e → y ≡ some e
passed b x y e h q = subst (λ c. (if c then x else y) ≡ some e) h q

new_end-Clerk :
    (on : Bool) (name server : Str) (clnt : Clnt) (net net1 : Network)
    → Clerk on (clnt, net)
    → get clnt.ends server ≡ none
    → new_end name server (allowed clnt.srvs server) net ≡ some net1
    → Clerk on (record clnt { ends = put clnt.ends server name }, net1)
new_end-Clerk on name server clnt net net1 h gone made =
    let (fresh, ends, enabled) = new_end-is_enabled name server _ net net1 made in
    record {
      own = IsOwn-put clnt.ends net net1 server name gone fresh ends h.own;
      follows = λ now s e q.
          let is = sym (get-put clnt.ends server s name) ∙ q in
          elim (Bool-cases (server == s)) [
            | inl hit ↦
                let same : server ≡ s = (comparable_list.exact server s).0 hit in
                let e_is : name ≡ e = some_inj (picked _ _ _ e hit is) in
                let eq : (name == e) ≡ true = subst (λ k. (name == k) ≡ true) e_is (==_refl name) in
                enabled e
                ∙ ap (λ b. if b then allowed clnt.srvs server else is_enabled net e) eq
                ∙ ap (allowed clnt.srvs) same
            | inr miss ↦
                let old : get clnt.ends s ≡ some e = passed _ _ _ e miss is in
                let apart : (name == e) ≡ false = ==_ne name e (λ p.
                  IsOwn-registered clnt.ends net s e h.own old
                    (subst (λ k. get net.ends k ≡ none) p fresh)) in
                enabled e
                ∙ ap (λ b. if b then allowed clnt.srvs server else is_enabled net e) apart
                ∙ h.follows now s e old
          ];
    }

pub make_clnt_end-Clerk :
    (on : Bool) (name server : Str) (st : Clnt × Network) (e : Str) (clnt' : Clnt) (net' : Network)
    → Clerk on st
    → make_clnt_end name server st ≡ some (e, clnt', net')
    → Clerk on (clnt', net') × (clnt'.srvs ≡ st.0.srvs)
make_clnt_end-Clerk on name server (clnt, net) e clnt' net' h eq =
    elim (Option-cases (get clnt.ends server)) [
      | inl gone ↦
          let (net1, made, rest) =
            bind-some (new_end name server (allowed clnt.srvs server) net) _
              (sym (make_clnt_end-new name server clnt net gone) ∙ eq) in
          let is = some_inj rest in
          (
            subst (λ (m : Str × Clnt × Network). Clerk on (m.1, m.2)) is
                (new_end-Clerk on name server clnt net net1 h gone made),
            sym (ap (λ (m : Str × Clnt × Network). m.1.srvs) is),
          )
      | inr (e0, there) ↦
          let is = some_inj (sym (make_clnt_end-old name server e0 clnt net there) ∙ eq) in
          (
            subst (λ (m : Str × Clnt × Network). Clerk on (m.1, m.2)) is h,
            sym (ap (λ (m : Str × Clnt × Network). m.1.srvs) is),
          )
    ]
