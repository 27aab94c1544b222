-- ===== src/Clients/Ends.antt =====
-- tester1/clnts.go: the ends of a clerk, and what making one changes.
use distributed_system.Prelude.{
  comparable_nat, comparable_list, true, false, Bool, Bool-cases, Map, Option-cases, Str, [], ap,
  arith, get, get-put, if◌then◌else◌, inl, inr, none, none-ne-some, put, refl, some, some_inj,
  subst, sym, ◌==◌, ◌∙◌, ◌∷◌, ◌≡◌, ◌≢◌, ==_ne, ==_refl, get-put_self,
}
use distributed_system.Clients.{new_end}
use distributed_system.Labrpc.{Network, make_end, connect, enable, is_enabled}

-- Every end of the clerk belongs to one server alone and is registered at the network.
abbrev pub IsOwn : Map Str Str → Network → Type 0
IsOwn [] net = Unit
IsOwn ((server, e) ∷ ends) net =
    ((s : Str) → get ends s ≢ some e)
    × (get ends server ≡ none)
    × (get net.ends e ≢ none)
    × IsOwn ends net

new_end-fresh :
    (name server : Str) (on : Bool) (net : Network)
    → get net.ends name ≡ none
    → new_end name server on net
      ≡ some (record net {
        ends = put net.ends name name;
        enabled = put (put net.enabled name false) name on;
        connections = put (put net.connections name none) name (some server);
      })
unfolding make_end connect enable
new_end-fresh name server on net fresh = rw (fresh, new_end, make_end) refl

new_end-taken :
    (name server : Str) (on : Bool) (net : Network) (e : Str)
    → get net.ends name ≡ some e
    → new_end name server on net ≡ none
unfolding make_end
new_end-taken name server on net e taken = rw (taken, new_end, make_end) refl

-- What a new end changes.
pub new_end-is_enabled :
    (name server : Str) (on : Bool) (net net' : Network)
    → new_end name server on net ≡ some net'
    → (get net.ends name ≡ none)
      × (net'.ends ≡ put net.ends name name)
      × ((e : Str) → is_enabled net' e ≡ (if name == e then on else is_enabled net e))
new_end-is_enabled name server on net net' h = elim (Option-cases (get net.ends name)) [
  | inl fresh ↦
      let is = some_inj (sym (new_end-fresh name server on net fresh) ∙ h) in
      (
        fresh,
        sym (ap (λ n. n.ends) is),
        λ e.
            sym (ap (λ n. is_enabled n e) is)
            ∙ ground (
              arith,
              get-put (put net.enabled name false) name e on,
              get-put net.enabled name e false,
            ),
      )
  | inr (e, taken) ↦ absurd (none-ne-some (sym (new_end-taken name server on net e taken) ∙ h))
]

pub IsOwn-registered :
    (ends : Map Str Str) (net : Network) (s e : Str)
    → IsOwn ends net
    → get ends s ≡ some e
    → get net.ends e ≢ none
unfolding get
IsOwn-registered [] net s e h k = cc
IsOwn-registered ((server, e') ∷ ends) net s e h k = elim (Bool-cases (server == s)) [
  | inl hit ↦
      let same : e' ≡ e =
        some_inj (subst (λ b. (if b then some e' else get ends s) ≡ some e) hit k) in
      subst (λ x. get net.ends x ≢ none) same h.2
  | inr miss ↦
      IsOwn-registered ends net s e h.3
        (subst (λ b. (if b then some e' else get ends s) ≡ some e) miss k)
]

-- A new server with an end whose name is not registered.
pub kept :
    (net net' : Network) (name e : Str)
    → net'.ends ≡ put net.ends name name
    → get net.ends e ≢ none
    → get net'.ends e ≢ none
kept net net' name e made there q =
    let is : (if name == e then some name else get net.ends e) ≡ none =
      sym (get-put net.ends name e name) ∙ ap (λ m. get m e) (sym made) ∙ q in
    elim (Bool-cases (name == e)) [
      | inl hit ↦ ground (arith, hit, is)
      | inr miss ↦ there (ground (arith, miss, is))
    ]

put-other :
    (ends : Map Str Str) (net : Network) (server name s e : Str)
    → get net.ends name ≡ none
    → get net.ends e ≢ none
    → get ends s ≢ some e
    → get (put ends server name) s ≢ some e
put-other ends net server name s e fresh there other q =
    let is : (if server == s then some name else get ends s) ≡ some e =
      sym (get-put ends server s name) ∙ q in
    elim (Bool-cases (server == s)) [
      | inl hit ↦
          let same : name ≡ e =
            some_inj (subst (λ b. (if b then some name else get ends s) ≡ some e) hit is) in
          there (subst (λ k. get net.ends k ≡ none) same fresh)
      | inr miss ↦ other (subst (λ b. (if b then some name else get ends s) ≡ some e) miss is)
    ]

pub IsOwn-put :
    (ends : Map Str Str) (net net' : Network) (server name : Str)
    → get ends server ≡ none
    → get net.ends name ≡ none
    → net'.ends ≡ put net.ends name name
    → IsOwn ends net
    → IsOwn (put ends server name) net'
unfolding get put
IsOwn-put [] net net' server name gone fresh made h =
    let there : get net'.ends name ≡ some name =
      ap (λ m. get m name) made ∙ get-put_self net.ends name name in
    (λ s q. none-ne-some q, refl, λ q. none-ne-some (sym q ∙ there), tt)
IsOwn-put ((s0, e0) ∷ ends) net net' server name gone fresh made h =
    elim (Bool-cases (s0 == server)) [
      | inl hit ↦
          let found : get ((s0, e0) ∷ ends) server ≡ some e0 = ground (arith, hit) in
          absurd (none-ne-some (sym gone ∙ found))
      | inr miss ↦
          let gone' : get ends server ≡ none = ground (arith, miss, gone) in
          let apart : (server == s0) ≡ false =
            ==_ne server s0
              (λ q. ground (arith, miss, subst (λ k. (k == server) ≡ true) q (==_refl server))) in
          let absent : get (put ends server name) s0 ≡ none =
            ground (arith, get-put ends server s0 name, apart, h.1) in
          rw miss (
            λ s q. put-other ends net server name s e0 fresh h.2 (h.0 s) q,
            absent,
            kept net net' name e0 made h.2,
            IsOwn-put ends net net' server name gone' fresh made h.3,
          )
    ]
