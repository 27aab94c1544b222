-- ===== src/Mr/WordCount.antt =====
-- mrapps/wc.go: the word count application, and what a whole MapReduce job makes of it.
-- `strings.FieldsFunc` with `unicode.IsLetter`, which gives the words of a text, is a parameter.
use mathlib.Core.Logic.{∥∥₁_elim}
use mathlib.Core.List.{Permᴰ}
use native.Mathlib.Nat.{ℕ_set}
use distributed_system.Prelude.{
  ℕ, suc, ◌+◌, ◌%◌, ◌<◌, ◌≡◌, refl, ap, ◌∙◌, inl, inr, true, Option, none, some, List, [], ◌∷◌,
  length, length-append, eqb, arith, if◌then◌else◌, Bool-cases, Str, bytes, comparable_nat,
  comparable_list, get, put, count, contains, All,
}
use distributed_system.Prelude.Decimal.{itoa}
use distributed_system.Mr.Worker.{
  KeyValue, ihash, Sorter, Format, Files, handle_reduce_task, output_name, output_text,
}
use distributed_system.Mr.Worker.Grouping.{values_of, values_of-append, IsDistinct}
use distributed_system.Mr.Worker.Job.{
  reduce_reply, all_emitted, IsInput, run_maps, partition_values, run_maps-handle_reduce_task,
}
use distributed_system.Mr.Sequential.Agreement.{
  IsUnordered, results, result_of, IsGrouping-results, results-IsDistinct,
}

-- `Reduce`: the number of occurrences of this word.

unfoldable pub wc_reduce : Str → List Str → Str
wc_reduce key values = itoa (length values)

length-permᴰ : (vs ws : List Str) → Permᴰ vs ws → length vs ≡ length ws
length-permᴰ _ _ Permᴰ.nil = refl
length-permᴰ _ _ (Permᴰ.cons {l₁} {l₂} e p) = ap suc (length-permᴰ l₁ l₂ p)
length-permᴰ _ _ (Permᴰ.swap e e') = refl
length-permᴰ _ _ (Permᴰ.trans {l₁} {l₂} {l₃} p q) = length-permᴰ l₁ l₂ p ∙ length-permᴰ l₂ l₃ q

pub wc_reduce-IsUnordered : IsUnordered wc_reduce
unfolding wc_reduce
wc_reduce-IsUnordered k vs ws p =
    ap itoa (∥∥₁_elim p (ℕ_set (length vs) (length ws)) (length-permᴰ vs ws))

module _ (words_of : Str → List Str) where
  -- The loop of `Map` over the words.
  unfoldable pub emit_words : List Str → List KeyValue
  emit_words [] = []
  emit_words (w ∷ words) = record { key = w; value = bytes "1" } ∷ emit_words words

  unfoldable pub wc_map : Str → Str → List KeyValue
  wc_map filename contents = emit_words (words_of contents)

  length-emit_words :
      (k : Str) (words : List Str) → length (values_of k (emit_words words)) ≡ count k words
  unfolding emit_words values_of
  length-emit_words k [] = refl
  length-emit_words k (w ∷ words) = ground (arith, length-emit_words k words)

  module _ (format : Format) (sorter : Sorter) where
    open format use {File, text, read_all}

    -- How often a word occurs in all input files.
    abbrev pub total : Str → List (Str × File) → ℕ
    total k [] = 0
    total k ((name, file) ∷ inputs) = count k (words_of (read_all file)) + total k inputs

    length-all_emitted :
        (k : Str) (inputs : List (Str × File))
        → length (values_of k (all_emitted format wc_map inputs)) ≡ total k inputs
    unfolding wc_map values_of
    length-all_emitted k [] = refl
    length-all_emitted k ((name, file) ∷ inputs) =
        let here = emit_words (words_of (read_all file)) in
        let rest = all_emitted format wc_map inputs in
        ap length (values_of-append k here rest)
        ∙ length-append (values_of k here) (values_of k rest)
        ∙ omega (arith, length-emit_words k (words_of (read_all file)), length-all_emitted k inputs)

    -- The line of a word: its number of occurrences, if there are any.
    abbrev pub word_line : ℕ → Option Str
    word_line n = if eqb n 0 then none else some (itoa n)

    result_of-word_line :
        (k : Str) (vs : List Str) → result_of wc_reduce k vs ≡ word_line (length vs)
    unfolding wc_reduce
    result_of-word_line k [] = refl
    result_of-word_line k (v ∷ vs) = ground arith

    -- The word count of a whole job: map tasks that run in any order, each one or more times, and
    -- then reduce task `i`, all succeed, and the output has for each word of its partition that
    -- occurs in the inputs one line, with the number of its occurrences in all of them, and no other
    -- line. The inputs are there, are not named like intermediate files and give valid UTF-8.
    pub word_count-total :
        (n i : ℕ) (inputs : List (Str × File)) (js : List ℕ) (fs : Files format)
        → i < n
        → All (IsInput format wc_map fs) inputs
        → All (λ j. j < length inputs) js
        → ((j : ℕ) → j < length inputs → contains j js ≡ true)
        → (fs' : Files format) × (groups : List (Str × List Str)) × (run_maps format wc_map n inputs
              js fs
            ≡ some fs')
          × (handle_reduce_task format sorter wc_reduce (reduce_reply n (length inputs) i) fs'
              ≡ some (put fs' (output_name i) (text (output_text wc_reduce groups))))
          × IsDistinct (results wc_reduce groups)
          × ((k : Str)
              → get (results wc_reduce groups) k
                ≡ (if eqb (ihash k % n) i then word_line (total k inputs) else none))
    word_count-total n i inputs js fs lt ready in_range all_run =
        let (fs', groups, ran, written, g) =
          run_maps-handle_reduce_task format wc_map sorter wc_reduce n i inputs js fs lt ready
            in_range all_run in
        (
          fs',
          groups,
          ran,
          written,
          results-IsDistinct wc_reduce groups g.distinct,
          λ k.
              IsGrouping-results wc_reduce groups (partition_values format wc_map n i inputs)
                wc_reduce-IsUnordered g k
              ∙ result_of-word_line k (partition_values format wc_map n i inputs k)
              ∙ elim (Bool-cases (eqb (ihash k % n) i)) [
                | inl hit ↦ rw hit (ap word_line (length-all_emitted k inputs))
                | inr miss ↦ rw miss refl
              ],
        )
