-- ===== src/Tests/Aria.antt =====
-- The theorems on aria2c-download.py at concrete inputs, with numbers written in unary.
use solutions_library.Prelude.{
  ℕ, suc, ◌+◌, ◌≤◌, ◌≡◌, refl, sym, ap, ◌∙◌, Bool, true, false, some, List, [], ◌∷◌, map, ◌==◌,
  ◌||◌, if◌then◌else◌, is_nil, length, length-replicate, replicate, All, arith, ltb,
}
use solutions_library.Prelude.Text.{Text, codes, text_eq, join}
use solutions_library.Prelude.Lines.{rstrip, read_lines}
use solutions_library.Prelude.Calls.{ok}
use solutions_library.Prelude.Dict.{Dict, lookup, insert}
use solutions_library.Transfer.Shard.{append_at}
use solutions_library.Aria.{
  Runtime, parse_aria2c_entries, parse_loop, flush, kind_of, is_blank, is_indented, split_entries,
  shard_files, shard_name, shard_content, deal,
}
use solutions_library.Aria.Shards.{dealt, lookup-split_entries}
use solutions_library.Aria.Parsed.{
  Block, block_text, raw, IsBlock, parse_aria2c_entries-shard_content,
}
use solutions_library.Aria.Pods.{
  Call, Cluster, has_ended, wait_for_pods_completion, log_failures, main,
}
use solutions_library.Aria.Waited.{AllEnded, wait_for_pods_completion-AllEnded}
use solutions_library.Aria.Completes.{CleansUp, main-CleansUp}

abbrev is_space : ℕ → Bool
is_space c = (c == b' ') || ((c == b'\t') || (c == b'\n'))

abbrev runtime : Runtime
runtime = record { str_of = λ n. replicate n b'1'; is_space = is_space; json_dump = λ j. [] }

str_of-injective : (i j : ℕ) → runtime.str_of i ≡ runtime.str_of j → i ≡ j
str_of-injective i j e = sym (length-replicate i b'1') ∙ (ap length e ∙ length-replicate j b'1')

abbrev three : List Text
three = codes "a" ∷ codes "b" ∷ codes "c" ∷ []

split_three :
    split_entries runtime three 2
    ≡ some (
        (codes "aria2-shard-.txt", codes "a\n\nc\n")
        ∷ (codes "aria2-shard-1.txt", codes "b\n")
        ∷ [])
unfolding split_entries shard_files shard_name shard_content deal append_at join insert text_eq
split_three = refl

lookup-split_entries_example :
    (shards : Dict Text) × (split_entries runtime three 2 ≡ some shards)
    × (lookup (shard_name runtime 0) shards ≡ some (shard_content (dealt 2 0 0 three)))
lookup-split_entries_example = lookup-split_entries runtime str_of-injective three 2 0 (omega arith)

abbrev blocks : List Block
blocks = (codes "u", codes " o" ∷ []) ∷ (codes "v", []) ∷ []

IsBlock-blocks : All (IsBlock is_space) blocks
unfolding kind_of is_blank is_indented
IsBlock-blocks =
    (((refl, (refl, tt)), ((refl, (refl, (refl, tt))), tt)), (((refl, (refl, tt)), tt), tt))

parse_aria2c_entries-shard_content_example :
    parse_aria2c_entries is_space (map raw (read_lines (shard_content (map block_text blocks))))
    ≡ map block_text blocks
parse_aria2c_entries-shard_content_example =
    parse_aria2c_entries-shard_content is_space blocks IsBlock-blocks

-- The one worker runs until the twelfth call, and fails.
abbrev cluster : Cluster
cluster = record {
  succeeds = λ k c. true;
  node_names = λ k. codes "n2" ∷ codes "n1" ∷ [];
  pods = λ k. (codes "w", (if ltb k 12 then codes "Running" else codes "Failed")) ∷ [];
  not_found = λ k. false;
}

cluster-AllEnded : (k : ℕ) → 12 ≤ k → AllEnded cluster k
unfolding has_ended text_eq
cluster-AllEnded k h = let late : ltb k 12 ≡ false = ground arith in rw late refl

wait_for_pods_completion-AllEnded_example :
    (m : ℕ) × (pauses : List ℕ) × (calls' : List Call) × ((wait_for_pods_completion cluster 20 15 []
        ≡ (log_failures (cluster.pods (0 + m)) calls', ok pauses))
      × (All (λ p. p ≤ 60) pauses
          × ((length pauses ≡ m) × ((length calls' ≡ suc (0 + m)) × AllEnded cluster (0 + m)))))
wait_for_pods_completion-AllEnded_example =
    wait_for_pods_completion-AllEnded cluster (λ k c. refl) 12 20 15 [] cluster-AllEnded
      (omega arith) (omega arith) (omega arith)

abbrev file : List Text
file = codes "http://a/x\n" ∷ codes " out=x\n" ∷ []

file_has_entry : is_nil (parse_aria2c_entries is_space file) ≡ false
unfolding parse_aria2c_entries parse_loop flush kind_of is_blank is_indented rstrip
file_has_entry = refl

main-CleansUp_example : CleansUp (main runtime cluster 20 2 (some file) [])
main-CleansUp_example =
    main-CleansUp cluster (λ k c. refl) runtime (λ k. refl) 12 20 2 file cluster-AllEnded
      (omega arith) (omega arith) file_has_entry
