-- ===== src/Transfer/Run/Launched.antt =====
-- run.py: the launch of the workers, on a cluster in which everything goes well.
use solutions_library.Prelude.{
  ℕ, zero, suc, ◌%◌, ◌≤◌, ◌<◌, ◌≡◌, refl, ap, ◌∙◌, false, not, Option, none, some, List, [], ◌∷◌,
  if◌then◌else◌, length, length-take, get_elem?, inl, inr, Bool-cases, arith,
}
use solutions_library.Prelude.Text.{Text}
use solutions_library.Prelude.Int.{pos, leb_ℤ, pos_part}
use solutions_library.Prelude.Sort.{sorted, insert_sorted}
use solutions_library.Transfer.Shard.{text_le}
use solutions_library.Transfer.Config.{Config, effective_num_pods}
use solutions_library.Transfer.Sizing.{Sizing}
use solutions_library.Transfer.Run.{World, die, slice_to, launch_on, launch_from, launch_workers}
use solutions_library.Prelude.Calls.Finishes.{Finishes, Finishes-bind, Ends-bind, Finishes-pure}
use solutions_library.Transfer.Run.Ends.{mutate-Finishes, list_ready_nodes-Ends}
use solutions_library.Transfer.Run.Ready.{GoesWell}

get_elem?-some :
    {A : Type 0} (xs : List A) (i : ℕ) → i < length xs → (x : A) × (get_elem? xs i ≡ some x)
get_elem?-some [] i h = absurd (omega arith)
get_elem?-some (x ∷ xs) zero h = (x, refl)
get_elem?-some (x ∷ xs) (suc i) h = get_elem?-some xs i (omega arith)

length-insert_sorted :
    (x : Text) (xs : List Text) → length (insert_sorted text_le x xs) ≡ suc (length xs)
unfolding insert_sorted
length-insert_sorted x [] = refl
length-insert_sorted x (y ∷ ys) = elim (Bool-cases (text_le x y)) [
  | inl e ↦ rw e refl
  | inr e ↦ rw e (ap suc (length-insert_sorted x ys))
]

length-sorted : (xs : List Text) → length (sorted text_le xs) ≡ length xs
unfolding sorted
length-sorted [] = refl
length-sorted (x ∷ xs) = length-insert_sorted x (sorted text_le xs) ∙ ap suc (length-sorted xs)

module _ {F : Type 0} (w : World F) (c : Config F) (nodes pods last : ℕ)
    (well : GoesWell w c nodes pods last) where
  launch_on-Finishes :
      (z : Sizing F) (o : Option Text) (i : ℕ)
      → ((node : Text) × (o ≡ some node))
      → Finishes (launch_on w c false z o i)
  unfolding launch_on
  launch_on-Finishes z none i (node, e) = absurd (cc e)
  launch_on-Finishes z (some node) i h =
      Finishes-bind (mutate-Finishes w.cluster well.succeeds _ false) (λ u. Finishes-pure)

  launch_from-Finishes :
      (z : Sizing F) (chosen : List Text) (i n : ℕ)
      → 0 < length chosen
      → Finishes (launch_from w c false z chosen i n)
  unfolding launch_from
  launch_from-Finishes z chosen i zero h = Finishes-pure
  launch_from-Finishes z chosen i (suc n) h =
      Finishes-bind
        (launch_on-Finishes z (get_elem? chosen (i % length chosen)) i
          (get_elem?-some chosen (i % length chosen) (omega arith)))
        (λ name. Finishes-bind (launch_from-Finishes z chosen (suc i) n h) (λ names. Finishes-pure))

  abbrev chosen_of : List Text → List Text
  chosen_of ready = slice_to c.num_nodes (sorted text_le ready)

  length-chosen :
      (ready : List Text) → suc nodes ≤ length ready → length (chosen_of ready) ≡ suc nodes
  unfolding slice_to
  length-chosen ready h =
      rw well.some_nodes
        (omega (arith, length-take (suc nodes) (sorted text_le ready), length-sorted ready))

  ready-Finishes :
      (z : Sizing F) (ready : List Text)
      → suc nodes ≤ length ready
      → Finishes (
          if not (leb_ℤ c.num_nodes (pos (length (chosen_of ready))))
          then die
          else launch_from w c false z (chosen_of ready) 0 (pos_part (effective_num_pods c)))
  ready-Finishes z ready h =
      let size = length-chosen ready h in
      let enough : not (leb_ℤ c.num_nodes (pos (length (chosen_of ready)))) ≡ false =
        (let some_nodes = well.some_nodes in ground arith) in
      rw enough (launch_from-Finishes z (chosen_of ready) 0 _ (omega arith))

  pub launch_workers-Finishes : (z : Sizing F) → Finishes (launch_workers w c false z)
  unfolding launch_workers
  launch_workers-Finishes z =
      Ends-bind (λ ready. suc nodes ≤ length ready)
        (list_ready_nodes-Ends w.cluster well.succeeds c.instance_class _ well.enough)
        (ready-Finishes z)
