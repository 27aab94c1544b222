-- ===== src/RaftTest/Leaders.antt =====
-- The checks of raft1/test.go on the leaders and the terms of the connected servers.
use distributed_system.Prelude.{
  ℕ, zero, suc, ◌+◌, ◌≤◌, ◌≡◌, ◌≢◌, refl, ap, sym, ◌∙◌, subst, inl, inr, Bool, true, false, ◌&&◌,
  Option, none, some, List, [], ◌∷◌, ◌++◌, arith, length, get_elem?, eqb, eqb_iff, ltb,
  if◌then◌else◌, Bool-cases, Option-cases, contains, comparable_nat, Map, get, put, get-put, ◌⊎◌,
  none-ne-some,
}
use mathlib.Core.List.{append_assoc, append-nil}
use distributed_system.RaftTest.{
  Outcome, Outcome-cases, ok, fatal, Peer, leaders_by_term, scan_leaders, leader_round,
  check_one_leader,
}

-- The servers from number `i` on that are connected and claim to lead in term `t`.
abbrev pub is_leader : Peer → Bool
is_leader p = p.connected && p.leader

abbrev leading : ℕ → ℕ → List Peer → List ℕ
leading t i [] = []
leading t i (p ∷ ps) =
    if is_leader p && eqb p.term t then i ∷ leading t (suc i) ps else leading t (suc i) ps

abbrev list_at : Map ℕ (List ℕ) → ℕ → List ℕ
list_at m t = elim (get m t) [ none ↦ [] | some is ↦ is ]

list_at-leaders_by_term :
    (i : ℕ) (ps : List Peer) (m : Map ℕ (List ℕ)) (t : ℕ)
    → list_at (leaders_by_term i ps m) t ≡ list_at m t ++ leading t i ps
unfolding leaders_by_term
list_at-leaders_by_term i [] m t = sym (append-nil (list_at m t))
list_at-leaders_by_term i (p ∷ ps) m t = elim (Bool-cases (is_leader p)) [
  | inr other ↦ rw other (list_at-leaders_by_term (suc i) ps m t)
  | inl lead ↦
      let next : Map ℕ (List ℕ) = put m p.term (list_at m p.term ++ i ∷ []) in
      let rest = list_at-leaders_by_term (suc i) ps next t in
      elim (Bool-cases (eqb p.term t)) [
        | inl hit ↦
            let same : p.term ≡ t = (eqb_iff p.term t).0 hit in
            let now : list_at next t ≡ list_at m t ++ i ∷ [] =
              ground (arith, get-put m p.term t (list_at m p.term ++ i ∷ []), hit, same) in
            rw (lead, hit)
              (rest
                ∙ ap (λ l. l ++ leading t (suc i) ps) now
                ∙ append_assoc (list_at m t) (i ∷ []) (leading t (suc i) ps))
        | inr miss ↦
            let now : list_at next t ≡ list_at m t =
              ground (arith, get-put m p.term t (list_at m p.term ++ i ∷ []), miss) in
            rw (lead, miss) (rest ∙ ap (λ l. l ++ leading t (suc i) ps) now)
      ]
]

-- A leader is in the list of its term.
contains-leading :
    (t i j : ℕ) (ps : List Peer) (q : Peer)
    → get_elem? ps j ≡ some q
    → is_leader q ≡ true
    → q.term ≡ t
    → contains (i + j) (leading t i ps) ≡ true
contains-leading t i j [] q e l s = cc
contains-leading t i zero (p ∷ ps) q e l s = ground (arith, e, l, s)
contains-leading t i (suc j) (p ∷ ps) q e l s =
    let shift : i + suc j ≡ suc i + j = omega arith in
    let rest = contains-leading t (suc i) j ps q e l s in ground (arith, shift, rest)

-- The first of the list is such a server.
leading-head :
    (t i x : ℕ) (ps : List Peer) (xs : List ℕ)
    → leading t i ps ≡ x ∷ xs
    → (j : ℕ) × (q : Peer) × (x ≡ i + j)
      × (get_elem? ps j ≡ some q)
      × (is_leader q ≡ true)
      × (q.term ≡ t)
leading-head t i x [] xs e = cc
leading-head t i x (p ∷ ps) xs e = elim (Bool-cases (is_leader p && eqb p.term t)) [
  | inl hit ↦ (0, p, ground (arith, hit, e), refl, ground (arith, hit), ground (arith, hit))
  | inr miss ↦
      let (j, q, at, found, lead, term) =
        leading-head t (suc i) x ps xs (ground (arith, miss, e)) in
      (suc j, q, omega (arith, at), found, lead, term)
]

-- What the loop over the terms has found when it ends.
record Scanned (m : Map ℕ (List ℕ)) (from last : Option ℕ) : Type 0 where
  single : (t : ℕ) (is : List ℕ) → get m t ≡ some is → length is ≤ 1
  largest : (t : ℕ) (is : List ℕ) → get m t ≡ some is → (l : ℕ) × (last ≡ some l) × (t ≤ l)
  grows : (f : ℕ) → from ≡ some f → (l : ℕ) × (last ≡ some l) × (f ≤ l)

cons-Scanned :
    (t : ℕ) (is : List ℕ) (m : Map ℕ (List ℕ)) (from last : Option ℕ) (n : ℕ)
    → length is ≤ 1
    → Scanned m (some n) last
    → t ≤ n
    → ((f : ℕ) → from ≡ some f → f ≤ n)
    → Scanned ((t, is) ∷ m) from last
unfolding get
cons-Scanned t is m from last n one r le le' =
    let (l, e, above) = r.grows n refl in
    record {
      single = λ t' is' e'. elim (Bool-cases (eqb t t')) [
        | inl hit ↦ ground (arith, hit, e', one)
        | inr miss ↦ r.single t' is' (ground (arith, miss, e'))
      ];
      largest = λ t' is' e'. elim (Bool-cases (eqb t t')) [
        | inl hit ↦ (l, e, ground (arith, hit, le, above))
        | inr miss ↦ r.largest t' is' (ground (arith, miss, e'))
      ];
      grows = λ f q. (l, e, omega (arith, le' f q, above));
    }

scan_leaders-Scanned :
    (m : Map ℕ (List ℕ)) (from last : Option ℕ)
    → scan_leaders m from ≡ ok last
    → Scanned m from last
unfolding scan_leaders get
scan_leaders-Scanned [] from last h = record {
  single = λ t is e. cc;
  largest = λ t is e. cc;
  grows = λ f e. (f, ground (arith, h, e), omega arith);
}
scan_leaders-Scanned ((t, is) ∷ m) none last h =
    let run : scan_leaders m (some t) ≡ ok last = ground (arith, h) in
    cons-Scanned t is m none last t (ground (arith, h)) (scan_leaders-Scanned m (some t) last run)
      (omega arith) (λ f e. ground (arith, e))
scan_leaders-Scanned ((t, is) ∷ m) (some f) last h = elim (Bool-cases (ltb f t)) [
  | inl later ↦
      let run : scan_leaders m (some t) ≡ ok last = ground (arith, h, later) in
      cons-Scanned t is m (some f) last t (ground (arith, h))
        (scan_leaders-Scanned m (some t) last run) (omega arith) (λ f' e. ground (arith, e, later))
  | inr earlier ↦
      let run : scan_leaders m (some f) ≡ ok last = ground (arith, h, earlier) in
      cons-Scanned t is m (some f) last f (ground (arith, h))
        (scan_leaders-Scanned m (some f) last run) (ground (arith, earlier))
        (λ f' e. ground (arith, e))
]

two-short :
    (j k : ℕ) (is : List ℕ) → length is ≤ 1 → contains j is ≡ true → contains k is ≡ true → j ≡ k
two-short j k [] h a b = ground (arith, a)
two-short j k (x ∷ []) h a b = ground (arith, a, b)
two-short j k (x ∷ y ∷ is) h a b = omega (arith, h)

-- What a leader that `checkOneLeader` returns is.
pub record IsLeader (ps : List Peer) (i : ℕ) : Type 0 where
  pub peer : Peer
  pub found : get_elem? ps i ≡ some peer
  pub connected : peer.connected ≡ true
  pub leads : peer.leader ≡ true
  pub last_term :
      (j : ℕ) (q : Peer) → get_elem? ps j ≡ some q → is_leader q ≡ true → q.term ≤ peer.term
  pub one_per_term :
      (j k : ℕ) (q r : Peer)
      → get_elem? ps j ≡ some q
      → get_elem? ps k ≡ some r
      → is_leader q ≡ true
      → is_leader r ≡ true
      → q.term ≡ r.term
      → j ≡ k

-- A leader stands in the collected map.
listed :
    (ps : List Peer) (j : ℕ) (q : Peer)
    → get_elem? ps j ≡ some q
    → is_leader q ≡ true
    → (is : List ℕ) × (get (leaders_by_term 0 ps []) q.term ≡ some is) × (contains j is ≡ true)
unfolding get
listed ps j q e l =
    let m = leaders_by_term 0 ps [] in
    let start : 0 + j ≡ j = omega arith in
    let inside : contains j (list_at m q.term) ≡ true =
      ap (contains j) (list_at-leaders_by_term 0 ps [] q.term)
      ∙ subst (λ x. contains x (leading q.term 0 ps) ≡ true) start
          (contains-leading q.term 0 j ps q e l refl) in
    elim (Option-cases (get m q.term)) [
      | inl missing ↦ absurd (let no : false ≡ true = ground (arith, missing, inside) in cc)
      | inr (is, found) ↦ (is, found, ground (arith, found, inside))
    ]

fatal-ne : {i : ℕ} → fatal ≢ ok (some i)
fatal-ne e = ground (arith, e)

fatal-ne_none : ◌≢◌ {A = Outcome (Option ℕ)} fatal (ok none)
fatal-ne_none e = ground (arith, e)

none-ne : {i : ℕ} → ok none ≢ ok (some i)
none-ne e = ground (arith, e)

chosen-IsLeader :
    (ps : List Peer) (i t : ℕ) (is : List ℕ)
    → scan_leaders (leaders_by_term 0 ps []) none ≡ ok (some t)
    → get (leaders_by_term 0 ps []) t ≡ some is
    → elim is as (λ x. Outcome (Option ℕ)) [ [] ↦ fatal | x ∷ _ ↦ ok (some x) ] ≡ ok (some i)
    → IsLeader ps i
unfolding get
chosen-IsLeader ps i t [] run found e = absurd (fatal-ne e)
chosen-IsLeader ps i t (x ∷ xs) run found e =
    let m = leaders_by_term 0 ps [] in
    let r = scan_leaders-Scanned m none (some t) run in
    let same : x ≡ i = ground (arith, e) in
    let first : leading t 0 ps ≡ x ∷ xs =
      sym (list_at-leaders_by_term 0 ps [] t)
      ∙ ap (λ o. elim o as (λ x. List ℕ) [ none ↦ [] | some is ↦ is ]) found in
    let (j, q, at, here, lead, term) = leading-head t 0 x ps xs first in
    let place : j ≡ i = omega (arith, at, same) in
    record {
      peer = q;
      found = subst (λ y. get_elem? ps y ≡ some q) place here;
      connected = ground (arith, lead);
      leads = ground (arith, lead);
      last_term = λ k p e' l.
          let (is', found', _) = listed ps k p e' l in
          let (last, is_last, le) = r.largest p.term is' found' in
          ground (arith, is_last, le, term);
      one_per_term = λ k k' p p' e1 e2 l1 l2 s.
          let (is1, found1, in1) = listed ps k p e1 l1 in
          let (is2, found2, in2) = listed ps k' p' e2 l2 in
          let same_list : is1 ≡ is2 = ground (arith, found1, found2, s) in
          two-short k k' is1 (r.single p.term is1 found1) in1 (rw same_list in2);
    }

leader_round-IsLeader : (ps : List Peer) (i : ℕ) → leader_round ps ≡ ok (some i) → IsLeader ps i
unfolding leader_round
leader_round-IsLeader ps i h =
    let m = leaders_by_term 0 ps [] in
    elim (Outcome-cases (scan_leaders m none)) [
      | inl stop ↦ absurd (fatal-ne (rw (leader_round, stop) at h))
      | inr (none, run) ↦ absurd (none-ne (rw (leader_round, run) at h))
      | inr (some t, run) ↦
          let chosen = rw (leader_round, run) at h in
          elim (Option-cases (get m t)) [
            | inl missing ↦ absurd (fatal-ne (rw missing at chosen))
            | inr (is, found) ↦ chosen-IsLeader ps i t is run found (rw found at chosen)
          ]
    ]

-- Nobody who is connected leads.
abbrev pub HasNoLeader : List Peer → Type 0
HasNoLeader ps = (j : ℕ) (q : Peer) → get_elem? ps j ≡ some q → is_leader q ≡ false

-- The server leads in one of the rounds, and in none before it there is a leader.
abbrev pub LeadsIn : List (List Peer) → ℕ → Type 0
LeadsIn [] i = ⊥
LeadsIn (ps ∷ rounds) i = IsLeader ps i ⊎ (HasNoLeader ps × LeadsIn rounds i)

not_chosen :
    (is : List ℕ)
    → elim is as (λ x. Outcome (Option ℕ)) [ [] ↦ fatal | x ∷ _ ↦ ok (some x) ] ≢ ok none
not_chosen [] e = ground (arith, e)
not_chosen (x ∷ xs) e = ground (arith, e)

leader_round-HasNoLeader : (ps : List Peer) → leader_round ps ≡ ok none → HasNoLeader ps
unfolding leader_round
leader_round-HasNoLeader ps h j q e =
    let m = leaders_by_term 0 ps [] in
    elim (Outcome-cases (scan_leaders m none)) [
      | inl stop ↦ absurd (fatal-ne_none (rw (leader_round, stop) at h))
      | inr (none, run) ↦ elim (Bool-cases (is_leader q)) [
        | inr off ↦ off
        | inl on ↦
            let (is, found, _) = listed ps j q e on in
            let (l, is_last, _) = (scan_leaders-Scanned m none none run).largest q.term is found in
            absurd (none-ne-some is_last)
      ]
      | inr (some t, run) ↦
          let chosen = rw (leader_round, run) at h in
          elim (Option-cases (get m t)) [
            | inl missing ↦ absurd (fatal-ne_none (rw missing at chosen))
            | inr (is, found) ↦ absurd (not_chosen is (rw found at chosen))
          ]
    ]

-- The server that checkOneLeader returns is connected and leads in the first of its rounds with a
-- leader; in this round no connected leader has a later term, and no two connected leaders have the
-- same term.
pub check_one_leader-IsLeader :
    (rounds : List (List Peer)) (i : ℕ) → check_one_leader rounds ≡ ok i → LeadsIn rounds i
unfolding check_one_leader
check_one_leader-IsLeader [] i h = ground (arith, h)
check_one_leader-IsLeader (ps ∷ rounds) i h = elim (Outcome-cases (leader_round ps)) [
  | inl stop ↦ ground (arith, stop, h)
  | inr (none, run) ↦ inr (
    leader_round-HasNoLeader ps run,
    check_one_leader-IsLeader rounds i (rw (check_one_leader, run) at h),
  )
  | inr (some k, run) ↦
      let same : k ≡ i = ground (arith, rw (check_one_leader, run) at h) in
      inl (subst (IsLeader ps) same (leader_round-IsLeader ps k run))
]
