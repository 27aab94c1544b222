-- ===== src/RaftTest.antt =====
-- raft1/server.go and raft1/test.go: the test harness that reads what the Raft servers apply, and
-- checks it. An entry of a log is a Go `any`: a comparable type with a value `nil`. A test failure
-- (`Fatalf`, and `log.Fatalf` in an applier) ends the process: `fatal`. The applier of a server is the
-- one of the server that the test has now: one that a restart has replaced is left out.
pub mod Agreement
pub mod Committed
pub mod Snapshot
pub mod Applying
pub mod Leaders
pub mod Terms
mod Samples
use distributed_system.Prelude.{
  ℕ, zero, suc, ◌+◌, ◌%◌, ◌≡◌, refl, ◌⊎◌, inl, inr, Bool, true, false, not, ◌&&◌, ◌||◌, Option,
  none, some, List, [], ◌∷◌, ◌++◌, length, get_elem?, set, ltb, leb, eqb, if◌then◌else◌, ◌==◌,
  comparable_nat, comparable_list, Comparable, Map, get, put, Str,
}

pub data Outcome (A : Type 0) : Type 0 where
  ok : A → Outcome A
  fatal : Outcome A

pub Outcome-cases : {A : Type 0} (o : Outcome A) → (o ≡ fatal) ⊎ ((a : A) × (o ≡ ok a))
Outcome-cases fatal = inl refl
Outcome-cases (ok a) = inr (a, refl)

abbrev pub snapshot_interval : ℕ
snapshot_interval = 10

-- What labgob leaves to encoding/gob, on a buffer of bytes. `write_log` is what `Encode` has written of
-- entries, also when it ends with an error, which the caller ignores: it has none on `IsEncodable`
-- entries. Reading an index leaves the rest of the buffer. An index is not negative.
pub record Gob (Entry : Type 0) : Type 1 where
  pub IsEncodable : List Entry → Type 0
  pub write_index : ℕ → Str
  pub write_log : List Entry → Str
  pub read_index : Str → Option (ℕ × Str)
  pub read_log : Str → Option (List Entry)
  pub read_index-write_index :
      (i : ℕ) (rest : Str) → read_index (write_index i ++ rest) ≡ some (i, rest)
  pub read_log-write_log : (es : List Entry) → IsEncodable es → read_log (write_log es) ≡ some es

-- `rfsrv`: the copy of the committed entries, and the index that was applied last.
pub record Server (Entry : Type 0) : Type 0 where
  pub logs : Map ℕ Entry
  pub last_applied : ℕ

-- `Test`: its servers, and the largest index applied.
pub record Tester (Entry : Type 0) : Type 0 where
  pub srvs : List (Server Entry)
  pub max_index : ℕ

-- `raftapi.ApplyMsg`
pub record ApplyMsg (Entry : Type 0) : Type 0 where
  pub command_valid : Bool
  pub command : Entry
  pub command_index : ℕ
  pub snapshot_valid : Bool
  -- none is nil
  pub snapshot : Option Str
  pub snapshot_index : ℕ

module _ {Entry : Type 0} ⦃cmp : Comparable Entry⦄ where
  unfoldable pub new_server : Server Entry
  new_server = record { logs = []; last_applied = 0 }

  abbrev pub has_log : Server Entry → ℕ → Bool
  has_log rs i = elim (get rs.logs i) [ none ↦ false | some _ ↦ true ]

  -- Has some server another entry at this index?
  unfoldable pub conflicts : ℕ → Entry → List (Server Entry) → Bool
  conflicts i v [] = false
  conflicts i v (rs ∷ rest) =
      let more = conflicts i v rest in
      elim (get rs.logs i) [ none ↦ more | some old ↦ not (old == v) || more ]

  -- The entry in front of index `i`; there is no index -1.
  abbrev pub prev_ok : Server Entry → ℕ → Bool
  prev_ok rs zero = false
  prev_ok rs (suc i) = has_log rs i

  -- `checkLogs`: the state after it, whether there is an error, and `prevok`. A server number out of
  -- range panics.
  unfoldable pub check_logs : ℕ → ℕ → Entry → Tester Entry → Outcome (Tester Entry × Bool × Bool)
  check_logs me i v ts = elim (get_elem? ts.srvs me) [
    | none ↦ fatal
    | some rs ↦
        let rs' : Server Entry = record rs { logs = put rs.logs i v } in
        ok (
          record ts {
            srvs = set ts.srvs me rs';
            max_index = if ltb ts.max_index i then i else ts.max_index;
          },
          conflicts i v ts.srvs,
          prev_ok rs i,
        )
  ]

  -- `checkLogs` and the test for a gap, as both appliers use it.
  unfoldable pub check_apply : ℕ → ℕ → Entry → Tester Entry → Outcome (Tester Entry)
  check_apply me i v ts = elim (check_logs me i v ts) [
    | fatal ↦ fatal
    | ok (ts', err, prev) ↦ if err || (ltb 1 i && not prev) then fatal else ok ts'
  ]

  -- One round of `applier`.
  unfoldable pub applier : ℕ → ApplyMsg Entry → Tester Entry → Outcome (Tester Entry)
  applier me m ts = if m.command_valid then check_apply me m.command_index m.command ts else ok ts

  -- The rounds of all appliers, in the order in which they take the lock: each with its server.
  unfoldable pub applier_all : List (ℕ × ApplyMsg Entry) → Tester Entry → Outcome (Tester Entry)
  applier_all [] ts = ok ts
  applier_all ((me, m) ∷ ms) ts = elim (applier me m ts) [
    | fatal ↦ fatal
    | ok ts' ↦ applier_all ms ts'
  ]

  -- `nCommitted`, over the servers from some point on: the count and the entry so far.
  unfoldable pub n_committed : ℕ → ℕ → Entry → List (Server Entry) → Outcome (ℕ × Entry)
  n_committed i count entry [] = ok (count, entry)
  n_committed i count entry (rs ∷ rest) = elim (get rs.logs i) [
    | none ↦ n_committed i count entry rest
    | some v ↦ if ltb 0 count && not (entry == v) then fatal else n_committed i (count + 1) v rest
  ]

  module _ (nil : Entry) where
    -- `checkNoAgreement`
    unfoldable pub check_no_agreement : ℕ → Tester Entry → Bool
    check_no_agreement i ts = elim (n_committed i 0 nil ts.srvs) [
      | fatal ↦ false
      | ok (n, entry) ↦ not (ltb 0 n)
    ]

    -- The entries from index `j` on, `left` of them; a missing one reads as nil.
    unfoldable pub log_prefix : Server Entry → ℕ → ℕ → List Entry
    log_prefix rs j zero = []
    log_prefix rs j (suc left) =
        elim (get rs.logs j) [ none ↦ nil | some v ↦ v ] ∷ log_prefix rs (suc j) left

    -- The bytes of the snapshot that `applierSnap` makes after index `i`.
    unfoldable pub make_snapshot : Gob Entry → Server Entry → ℕ → Str
    make_snapshot gob rs i = gob.write_index i ++ gob.write_log (log_prefix rs 0 (suc i))

  -- The loop of `ingestSnap` that fills the log, from index `j` on.
  unfoldable pub fill_logs : ℕ → List Entry → Map ℕ Entry → Map ℕ Entry
  fill_logs j [] logs = logs
  fill_logs j (v ∷ vs) logs = fill_logs (suc j) vs (put logs j v)

  -- The two calls of `Decode`.
  unfoldable pub decode_snapshot : Gob Entry → Str → Option (ℕ × List Entry)
  decode_snapshot gob snapshot = elim (gob.read_index snapshot) [
    | none ↦ none
    | some (last, rest) ↦ elim (gob.read_log rest) [
      | none ↦ none
      | some entries ↦ some (last, entries)
    ]
  ]

  -- `ingestSnap`: the server after it, and whether it returns an error. No snapshot, and one that
  -- does not decode, end the process. For the index, `none` is the -1 of a restart.
  unfoldable pub ingest_snap :
      Gob Entry → Option Str → Option ℕ → Server Entry → Outcome (Server Entry × Bool)
  ingest_snap gob none index rs = fatal
  ingest_snap gob (some snapshot) index rs = elim (decode_snapshot gob snapshot) [
    | none ↦ fatal
    | some (last, entries) ↦
        let rs' : Server Entry = record rs { logs = fill_logs 0 entries []; last_applied = last } in
        elim index [
          | none ↦ ok (rs', false)
          | some i ↦ if eqb i last then ok (rs', false) else ok (rs, true)
        ]
  ]

  -- The checks of `applierSnap` on a command: the test and the server after them, and whether there
  -- is an error.
  unfoldable pub check_command :
      ℕ
      → ApplyMsg Entry
      → Server Entry
      → Tester Entry
      → Outcome (Tester Entry × Server Entry × Bool)
  check_command me m rs ts =
      let i = m.command_index in
      if not (eqb i (rs.last_applied + 1))
      then ok (ts, rs, true)
      else elim (check_logs me i m.command ts) [
        | fatal ↦ fatal
        | ok (ts', err, prev) ↦
            ok (ts', record rs { logs = put rs.logs i m.command }, err || (ltb 1 i && not prev))
      ]

  module _ (nil : Entry) (gob : Gob Entry) where
    -- One round of `applierSnap`, with the snapshot that it hands to Raft. An error ends the process
    -- at the end of the round.
    unfoldable pub applier_snap :
        ℕ → ApplyMsg Entry → Tester Entry → Outcome (Tester Entry × Option Str)
    applier_snap me m ts = elim (get_elem? ts.srvs me) [
      | none ↦ fatal
      | some rs ↦
          if m.snapshot_valid
          then elim (ingest_snap gob m.snapshot (some m.snapshot_index) rs) [
            | fatal ↦ fatal
            | ok (rs', err) ↦
                if err then fatal else ok (record ts { srvs = set ts.srvs me rs' }, none)
          ]
          else if not m.command_valid
          then ok (ts, none)
          else elim (check_command me m rs ts) [
            | fatal ↦ fatal
            | ok (ts', rs1, err) ↦
                let i = m.command_index in
                let rs' : Server Entry = record rs1 { last_applied = i } in
                let snap : Option Str =
                  if eqb ((i + 1) % snapshot_interval) 0
                  then some (make_snapshot nil gob rs' i)
                  else none in
                if err then fatal else ok (record ts' { srvs = set ts'.srvs me rs' }, snap)
          ]
    ]

-- What `GetState` says of a server, and whether it is connected.
pub record Peer : Type 0 where
  pub connected : Bool
  pub term : ℕ
  pub leader : Bool

-- The loop of `checkOneLeader` that collects the leaders of each term.
unfoldable pub leaders_by_term : ℕ → List Peer → Map ℕ (List ℕ) → Map ℕ (List ℕ)
leaders_by_term i [] leaders = leaders
leaders_by_term i (p ∷ ps) leaders =
    let old : List ℕ = elim (get leaders p.term) [ none ↦ [] | some is ↦ is ] in
    let next : Map ℕ (List ℕ) = put leaders p.term (old ++ i ∷ []) in
    leaders_by_term (suc i) ps (if p.connected && p.leader then next else leaders)

-- The loop of `checkOneLeader` over the terms, with the last term so far; `none` is -1.
unfoldable pub scan_leaders : Map ℕ (List ℕ) → Option ℕ → Outcome (Option ℕ)
scan_leaders [] last = ok last
scan_leaders ((t, is) ∷ rest) last =
    let later : Bool = elim last [ none ↦ true | some l ↦ ltb l t ] in
    if ltb 1 (length is) then fatal else scan_leaders rest (if later then some t else last)

-- One round of `checkOneLeader`: the leader of the last term, if there is a leader.
unfoldable pub leader_round : List Peer → Outcome (Option ℕ)
leader_round ps =
    let leaders = leaders_by_term 0 ps [] in
    elim (scan_leaders leaders none) [
      | fatal ↦ fatal
      | ok none ↦ ok none
      | ok (some t) ↦ elim (get leaders t) [
        | none ↦ fatal
        | some is ↦ elim is [ [] ↦ fatal | i ∷ _ ↦ ok (some i) ]
      ]
    ]

-- `checkOneLeader`, with what the servers say in each of its rounds, of which there are ten.
unfoldable pub check_one_leader : List (List Peer) → Outcome ℕ
check_one_leader [] = fatal
check_one_leader (ps ∷ rounds) =
    let later = check_one_leader rounds in
    elim (leader_round ps) [ fatal ↦ fatal | ok none ↦ later | ok (some i) ↦ ok i ]

-- `checkTerms` from some server on, with the term so far: `none` is -1.
unfoldable pub check_terms : Option ℕ → List Peer → Outcome (Option ℕ)
check_terms term [] = ok term
check_terms term (p ∷ ps) =
    if p.connected
    then elim term [
      | none ↦ check_terms (some p.term) ps
      | some t ↦ if eqb t p.term then check_terms (some t) ps else fatal
    ]
    else check_terms term ps

-- `checkNoLeader`: does it pass?
unfoldable pub check_no_leader : List Peer → Bool
check_no_leader [] = true
check_no_leader (p ∷ ps) = not (p.connected && p.leader) && check_no_leader ps
