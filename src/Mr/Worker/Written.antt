-- ===== src/Mr/Worker/Written.antt =====
-- The files that writeIntermediate of mr/worker.go writes.
use distributed_system.Mr.Coordinator.{intermediate_name}
use distributed_system.Mr.Worker.Buckets.{bucket, length-dispatch, dispatch-bucket}
use distributed_system.Mr.Worker.Names.{intermediate_name_inj}
use distributed_system.Prelude.{
  comparable_nat, comparable_list, List, Str, [], ap, arith, get, get-put_self, get-put_ne,
  get_elem?, length, length-replicate, put, refl, replicate, some, subst, suc, zero, ℕ, ◌+◌, ◌<◌,
  ◌∙◌, ◌∷◌, ◌≡◌, ◌≢◌, ◌≤◌,
}
use distributed_system.Mr.Worker.{
  Files, Format, KeyValue, dispatch, write_buckets, write_intermediate,
}

module _ (format : Format) where
  open format use {File, IsUtf8, encode, decode, text, read_all}

  -- Writing the buckets leaves every other file alone.
  write_buckets_other :
      (j r : ℕ) (buckets : List (List KeyValue)) (fs : Files format) (name : Str)
      → ((i : ℕ) → r ≤ i → i < r + length buckets → intermediate_name j i ≢ name)
      → get (write_buckets format j r buckets fs) name ≡ get fs name
  unfolding write_buckets
  write_buckets_other j r [] fs name h = refl
  write_buckets_other j r (b ∷ bs) fs name h =
      write_buckets_other j (suc r) bs (put fs (intermediate_name j r) (encode b)) name
        (λ i le lt. h i (omega arith) (omega arith))
      ∙ get-put_ne fs (intermediate_name j r) name (encode b) (h r (omega arith) (omega arith))

  -- Each bucket stands in the file of its number.
  write_buckets_each :
      (j r i : ℕ) (buckets : List (List KeyValue)) (fs : Files format) (b : List KeyValue)
      → get_elem? buckets i ≡ some b
      → get (write_buckets format j r buckets fs) (intermediate_name j (r + i)) ≡ some (encode b)
  unfolding write_buckets
  write_buckets_each j r i [] fs b e = cc
  write_buckets_each j r zero (a ∷ bs) fs b e =
      let same : a ≡ b = cc in
      let pos_r : r + 0 ≡ r = omega arith in
      ap (λ x. get (write_buckets format j r (a ∷ bs) fs) (intermediate_name j x)) pos_r
      ∙ write_buckets_other j (suc r) bs (put fs (intermediate_name j r) (encode a))
          (intermediate_name j r)
          (λ i le lt e. absurd (omega (arith, le, (intermediate_name_inj j i j r e).1)))
      ∙ get-put_self fs (intermediate_name j r) (encode a)
      ∙ ap (λ x. some (encode x)) same
  write_buckets_each j r (suc i) (a ∷ bs) fs b e =
      let shift : r + suc i ≡ suc r + i = omega arith in
      ap (λ x. get (write_buckets format j r (a ∷ bs) fs) (intermediate_name j x)) shift
      ∙ write_buckets_each j (suc r) i bs (put fs (intermediate_name j r) (encode a)) b e

  -- What `write_intermediate` leaves, with at least one reduce task.
  pub record Wrote (j n : ℕ) (kvs : List KeyValue) (fs fs' : Files format) : Type 0 where
    pub written : (i : ℕ) → i < n → get fs' (intermediate_name j i) ≡ some (encode (bucket n i kvs))
    pub others :
        (name : Str) → ((i : ℕ) → i < n → intermediate_name j i ≢ name) → get fs' name ≡ get fs name

  -- writeIntermediate gives each partition its entries, in their order, in the file of the map
  -- task and the partition, and leaves every other file alone.
  pub write_intermediate-Wrote :
      (j n : ℕ) (kvs : List KeyValue) (fs : Files format)
      → 0 < n
      → (fs' : Files format) × (write_intermediate format j n kvs fs ≡ some fs')
        × Wrote j n kvs fs fs'
  unfolding write_intermediate
  write_intermediate-Wrote j n kvs fs pos_n =
      let buckets = dispatch n kvs (replicate n []) in
      let size : length buckets ≡ n =
        length-dispatch n kvs (replicate n []) ∙ length-replicate n [] in
      (
        write_buckets format j 0 buckets fs,
        ground arith,
        record {
          written = λ i lt.
              let start : 0 + i ≡ i = omega arith in
              subst
                (λ x.
                  get (write_buckets format j 0 buckets fs) (intermediate_name j x)
                  ≡ some (encode (bucket n i kvs)))
                start
                (write_buckets_each j 0 i buckets fs (bucket n i kvs) (dispatch-bucket n i kvs lt));
          others = λ name ne.
              write_buckets_other j 0 buckets fs name (λ i le lt. ne i (omega (arith, size, lt)));
        },
      )
