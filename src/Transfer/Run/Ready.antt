-- ===== src/Transfer/Run/Ready.antt =====
-- run.py: the steps up to the launch, on a cluster in which everything goes well.
use solutions_library.Prelude.{
  ℕ, suc, ◌≤◌, ◌<◌, ◌≡◌, ap, ◌∙◌, Bool, true, false, not, List, [], ◌∷◌, ◌++◌, map, if◌then◌else◌,
  length, select, is_nil, arith,
}
use solutions_library.Prelude.Calls.{pure, ◌>>=◌}
use solutions_library.Prelude.Calls.Yields.{Yields-if}
use solutions_library.Prelude.Text.{Text, codes}
use solutions_library.Prelude.Int.{ℤ, pos, leb_ℤ}
use solutions_library.Transfer.Shard.{parse_tsv, packed, bin_pack, write_shards, path_join}
use solutions_library.Transfer.Config.{Config, effective_num_pods, is_nfs, is_import}
use solutions_library.Transfer.Shard.Balance.{paths, total, bin_pack_partitions}
use solutions_library.Transfer.Manifests.{storage_class, shard_dir}
use solutions_library.Transfer.Kubectl.{
  Call, call, mutate, list_ready_nodes, ready_names, cluster_exists, get_version, apply_cluster,
  write_file, cp_to,
}
use solutions_library.Transfer.Run.{
  World, die, is_running, preflight, list_source, write_all, push_all, push_packed, shard_listing,
  shard_locally, listing, lsf, basename,
}
use solutions_library.Prelude.Calls.Finishes.{
  Ends, Finishes, Finishes-bind, Ends-bind, Finishes-pure,
}
use solutions_library.Transfer.Run.Ends.{
  call-Finishes, mutate-Finishes, list_ready_nodes-Ends, exec_in-Ends, cluster_exists-Finishes,
}

-- A cluster in which every call succeeds and as many nodes as wanted stay ready, a source with
-- objects, and pods that have ended by the call number `last`.
pub record GoesWell {F : Type 0} (w : World F) (c : Config F) (nodes pods last : ℕ) : Type 0 where
  pub succeeds : (k : ℕ) (x : Call) → w.cluster.succeeds k x ≡ true
  pub some_nodes : c.num_nodes ≡ pos (suc nodes)
  pub enough : (k : ℕ) → suc nodes ≤ length (ready_names (w.cluster.nodes k))
  pub some_pods : effective_num_pods c ≡ pos (suc pods)
  pub objects : (k : ℕ) → is_nil (parse_tsv w.python (w.cluster.output k)) ≡ false
  pub ended : (k : ℕ) → last ≤ k → is_nil (select is_running (w.cluster.pods k)) ≡ true
  pub patient : last < w.rounds

module _ {F : Type 0} (w : World F) (c : Config F) (nodes pods last : ℕ)
    (well : GoesWell w c nodes pods last) where
  abbrev is_short : List Text → Bool
  is_short names = not (leb_ℤ c.num_nodes (pos (length names)))

  enough_nodes : (k : ℕ) → is_short (ready_names (w.cluster.nodes k)) ≡ false
  enough_nodes k = let fits = well.enough k in let some_nodes = well.some_nodes in ground arith

  reached-Finishes : Ends (λ r. r.1 ≡ true) (call w.cluster get_version)
  unfolding call
  reached-Finishes = record { from = λ calls u. well.succeeds (length calls) get_version }

  create-Finishes : Finishes (
      cluster_exists w.cluster c.storage_class >>= λ found.
      if found
      then pure tt
      else mutate w.cluster false (apply_cluster (storage_class c.storage_class)))
  create-Finishes =
      Finishes-bind (cluster_exists-Finishes w.cluster well.succeeds c.storage_class) (λ found.
        Yields-if found (λ _. Finishes-pure) (λ _. mutate-Finishes w.cluster well.succeeds _ false))

  passes : (b : Bool) → b ≡ true → Finishes (if b then pure tt else die)
  passes true e = Finishes-pure
  passes false e = absurd (cc e)

  classed-Finishes :
      (names : List Text)
      → is_short names ≡ false
      → Finishes (
          if is_short names
          then die
          else if is_nfs c
          then pure tt
          else if is_import c
          then pure tt
          else (cluster_exists w.cluster c.storage_class >>= λ found.
              if found
              then pure tt
              else mutate w.cluster false (apply_cluster (storage_class c.storage_class))))
  classed-Finishes names e = rw e (
      Yields-if (is_nfs c) (λ _. Finishes-pure)
        (λ _. Yields-if (is_import c) (λ _. Finishes-pure) (λ _. create-Finishes)))

  nodes-Finishes : Finishes (
      list_ready_nodes w.cluster c.instance_class >>= λ names.
      if is_short names
      then die
      else if is_nfs c
      then pure tt
      else if is_import c
      then pure tt
      else (cluster_exists w.cluster c.storage_class >>= λ found.
          if found
          then pure tt
          else mutate w.cluster false (apply_cluster (storage_class c.storage_class))))
  nodes-Finishes =
      Ends-bind (λ names. is_short names ≡ false)
        (list_ready_nodes-Ends w.cluster well.succeeds c.instance_class _ enough_nodes)
        classed-Finishes

  pub preflight-Finishes : Finishes (preflight w c false)
  unfolding preflight
  preflight-Finishes =
      Ends-bind (λ r. r.1 ≡ true) reached-Finishes
        (λ r e. Finishes-bind (passes r.1 e) (λ u. nodes-Finishes))

  write_all-Finishes : (files : List (Text × Text)) → Finishes (write_all w c files)
  unfolding write_all
  write_all-Finishes [] = Finishes-pure
  write_all-Finishes ((path, content) ∷ files) =
      Finishes-bind (call-Finishes w.cluster well.succeeds (write_file path content))
        (λ k. write_all-Finishes files)

  push_all-Finishes : (files : List (Text × Text)) → Finishes (push_all w c false files)
  unfolding push_all
  push_all-Finishes [] = Finishes-pure
  push_all-Finishes ((path, content) ∷ files) =
      Finishes-bind
        (mutate-Finishes w.cluster well.succeeds
          (cp_to c.master_pod_name path (shard_dir c ++ (b'/' ∷ basename path))) false)
        (λ k. push_all-Finishes files)

  push_packed-Finishes :
      (bins : List (List Text)) (sizes : List ℤ)
      → Finishes (push_packed w c false (packed bins sizes))
  unfolding push_packed
  push_packed-Finishes bins sizes =
      let files = write_shards w.python 0 bins (path_join w.run_dir (codes "shards")) in
      Finishes-bind (write_all-Finishes files) (λ u. push_all-Finishes files)

  shard_listing-Finishes :
      (lines : List Text)
      → is_nil (parse_tsv w.python lines) ≡ false
      → Finishes (shard_listing w c false lines)
  unfolding shard_listing
  shard_listing-Finishes lines some_objects =
      let (groups, (made, rest)) = bin_pack_partitions (parse_tsv w.python lines) pods in
      let bins : bin_pack (parse_tsv w.python lines) (effective_num_pods c)
          ≡ packed (map paths groups) (map total groups) =
        ap (bin_pack (parse_tsv w.python lines)) well.some_pods ∙ made in
      rw some_objects (rw bins (push_packed-Finishes (map paths groups) (map total groups)))

  pub shard_locally-Finishes : Finishes (shard_locally w c false)
  unfolding shard_locally
  shard_locally-Finishes =
      Ends-bind (λ lines. is_nil (parse_tsv w.python lines) ≡ false)
        (exec_in-Ends w.cluster well.succeeds c.master_pod_name (codes "cat" ∷ listing w c ∷ []) _
          well.objects)
        (λ lines some_objects. shard_listing-Finishes lines some_objects)

  pub list_source-Finishes : Finishes (list_source w c false)
  unfolding list_source
  list_source-Finishes =
      Finishes-bind
        (exec_in-Ends w.cluster well.succeeds c.master_pod_name
          (codes "/bin/sh" ∷ codes "-c" ∷ lsf w c ∷ []) (λ lines. Unit) (λ k. tt))
        (λ out. Finishes-pure)
