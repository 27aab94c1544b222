-- ===== src/RaftTest/Snapshot.antt =====
-- The snapshots of raft1/server.go: applierSnap makes them and ingestSnap reads them.
use distributed_system.Prelude.{
  ℕ, zero, suc, ◌+◌, ◌≤◌, ◌<◌, ◌≡◌, ◌≢◌, refl, ap, sym, ◌∙◌, subst, Option, none, some, List, [],
  ◌∷◌, arith, length, get_elem?, comparable_nat, Comparable, Map, get, put, get-put_self,
  get-put_ne, Bool, Str, eqb, false, if◌then◌else◌, true, Bool-cases, inl, inr, not,
}
use distributed_system.RaftTest.{
  ok, Server, Gob, log_prefix, make_snapshot, decode_snapshot, fill_logs, ingest_snap,
}

-- Whether a snapshot of index `last` is the one that is asked for; a restart asks for any.

abbrev pub fits : Option ℕ → ℕ → Bool
fits none last = true
fits (some i) last = eqb i last

module _ {Entry : Type 0} ⦃cmp : Comparable Entry⦄ where
  -- Writing from index `j` on leaves what is in front and behind.
  fill_logs_other :
      (j : ℕ) (vs : List Entry) (logs : Map ℕ Entry) (i : ℕ)
      → ((k : ℕ) → k < length vs → j + k ≢ i)
      → get (fill_logs j vs logs) i ≡ get logs i
  unfolding fill_logs
  fill_logs_other j [] logs i h = refl
  fill_logs_other j (v ∷ vs) logs i h =
      fill_logs_other (suc j) vs (put logs j v) i
        (λ k lt e. h (suc k) (omega arith) (omega (arith, e)))
      ∙ get-put_ne logs j i v (λ e. h 0 (omega arith) (omega (arith, e)))

  fill_logs_at :
      (j : ℕ) (vs : List Entry) (logs : Map ℕ Entry) (k : ℕ) (v : Entry)
      → get_elem? vs k ≡ some v
      → get (fill_logs j vs logs) (j + k) ≡ some v
  unfolding fill_logs
  fill_logs_at j [] logs k v e = cc
  fill_logs_at j (x ∷ vs) logs zero v e =
      let same : x ≡ v = cc in
      let first : j + 0 ≡ j = omega arith in
      ap (get (fill_logs j (x ∷ vs) logs)) first
      ∙ fill_logs_other (suc j) vs (put logs j x) j (λ k lt q. omega (arith, q))
      ∙ get-put_self logs j x
      ∙ ap some same
  fill_logs_at j (x ∷ vs) logs (suc k) v e =
      let shift : j + suc k ≡ suc j + k = omega arith in
      ap (get (fill_logs j (x ∷ vs) logs)) shift ∙ fill_logs_at (suc j) vs (put logs j x) k v e

  module _ (nil : Entry) where
    abbrev pub or_nil : Option Entry → Entry
    or_nil none = nil
    or_nil (some v) = v

    length-log_prefix : (rs : Server Entry) (j left : ℕ) → length (log_prefix nil rs j left) ≡ left
    unfolding log_prefix
    length-log_prefix rs j zero = refl
    length-log_prefix rs j (suc left) = ap suc (length-log_prefix rs (suc j) left)

    get_elem?-log_prefix :
        (rs : Server Entry) (j left k : ℕ)
        → k < left
        → get_elem? (log_prefix nil rs j left) k ≡ some (or_nil (get rs.logs (j + k)))
    unfolding log_prefix
    get_elem?-log_prefix rs j zero k h = absurd (omega arith)
    get_elem?-log_prefix rs j (suc left) zero h =
        let first : j + 0 ≡ j = omega arith in
        subst (λ x. get_elem? (log_prefix nil rs j (suc left)) 0 ≡ some (or_nil (get rs.logs x)))
          (sym first) refl
    get_elem?-log_prefix rs j (suc left) (suc k) h =
        let shift : suc j + k ≡ j + suc k = omega arith in
        get_elem?-log_prefix rs (suc j) left k (omega arith)
        ∙ ap (λ x. some (or_nil (get rs.logs x))) shift

    -- What a server has after it has read the snapshot that another one made at index `last`.
    pub record Restored (last : ℕ) (rs rs' : Server Entry) : Type 0 where
      pub applied : rs'.last_applied ≡ last
      pub copied : (i : ℕ) → i ≤ last → get rs'.logs i ≡ some (or_nil (get rs.logs i))
      pub cleared : (i : ℕ) → last < i → get rs'.logs i ≡ none

    decode_snapshot-result :
        (gob : Gob Entry) (snapshot rest : Str) (last : ℕ) (entries : List Entry)
        → gob.read_index snapshot ≡ some (last, rest)
        → gob.read_log rest ≡ some entries
        → decode_snapshot gob snapshot ≡ some (last, entries)
    unfolding decode_snapshot
    decode_snapshot-result gob snapshot rest last entries h k = rw (h, k, decode_snapshot) refl

    decode_snapshot-make_snapshot :
        (gob : Gob Entry) (rs : Server Entry) (last : ℕ)
        → gob.IsEncodable (log_prefix nil rs 0 (suc last))
        → decode_snapshot gob (make_snapshot nil gob rs last)
          ≡ some (last, log_prefix nil rs 0 (suc last))
    unfolding make_snapshot
    decode_snapshot-make_snapshot gob rs last good =
        let entries = log_prefix nil rs 0 (suc last) in
        decode_snapshot-result gob _ (gob.write_log entries) last entries
          (gob.read_index-write_index last (gob.write_log entries))
          (gob.read_log-write_log entries good)

    ingest_snap-result :
        (gob : Gob Entry) (snapshot : Str) (last : ℕ) (entries : List Entry) (index : Option ℕ)
        (old : Server Entry)
        → decode_snapshot gob snapshot ≡ some (last, entries)
        → ingest_snap gob (some snapshot) index old
          ≡ ok (
              if fits index last
              then (record old { logs = fill_logs 0 entries []; last_applied = last }, false)
              else (old, true))
    unfolding ingest_snap
    ingest_snap-result gob snapshot last entries none old h = rw (h, ingest_snap) refl
    ingest_snap-result gob snapshot last entries (some i) old h = elim (Bool-cases (eqb i last)) [
      | inl hit ↦ rw (h, ingest_snap, hit) refl
      | inr miss ↦ rw (h, ingest_snap, miss) refl
    ]

    filled-Restored :
        (rs old : Server Entry) (last : ℕ)
        → Restored last rs (record old {
          logs = fill_logs 0 (log_prefix nil rs 0 (suc last)) [];
          last_applied = last;
        })
    unfolding get
    filled-Restored rs old last =
        let entries = log_prefix nil rs 0 (suc last) in
        let size : length entries ≡ suc last = length-log_prefix rs 0 (suc last) in
        record {
          applied = refl;
          copied = λ i le.
              let start : 0 + i ≡ i = omega arith in
              subst (λ x. get (fill_logs 0 entries []) x ≡ some (or_nil (get rs.logs x))) start
                (fill_logs_at 0 entries [] i (or_nil (get rs.logs (0 + i)))
                  (get_elem?-log_prefix rs 0 (suc last) i (omega arith)));
          cleared = λ i lt.
              fill_logs_other 0 entries [] i (λ k small q. omega (arith, small, size, lt, q));
        }

    -- ingestSnap of a snapshot that applierSnap made at an index, of entries that gob can encode: at a
    -- restart, and when the message has this index, it returns no error, and the server then has the
    -- entries of the snapshot and no other, a missing one as nil, whatever it had before; when the
    -- message has another index, it returns an error and leaves the server as it was.
    pub ingest_snap-make_snapshot :
        (gob : Gob Entry) (rs old : Server Entry) (last : ℕ) (index : Option ℕ)
        → gob.IsEncodable (log_prefix nil rs 0 (suc last))
        → (rs' : Server Entry) × (ingest_snap gob (some (make_snapshot nil gob rs last)) index old
            ≡ ok (rs', not (fits index last)))
          × (fits index last ≡ true → Restored last rs rs')
          × (fits index last ≡ false → rs' ≡ old)
    ingest_snap-make_snapshot gob rs old last index good =
        let entries = log_prefix nil rs 0 (suc last) in
        let run =
          ingest_snap-result gob _ last entries index old
            (decode_snapshot-make_snapshot gob rs last good) in
        elim (Bool-cases (fits index last)) [
          | inl hit ↦ (
            record old { logs = fill_logs 0 entries []; last_applied = last },
            run ∙ rw hit refl,
            λ _. filled-Restored rs old last,
            λ miss. absurd (let no : true ≡ false = sym hit ∙ miss in cc),
          )
          | inr miss ↦ (
            old,
            run ∙ rw miss refl,
            λ hit. absurd (let no : true ≡ false = sym hit ∙ miss in cc),
            λ _. refl,
          )
        ]
