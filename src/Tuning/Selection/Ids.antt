-- ===== src/Tuning/Selection/Ids.antt =====
-- run.py: the list of the uploaded ids has a new id.
use solutions_library.Prelude.{
  ◌≡◌, refl, ◌∙◌, true, List, [], ◌∷◌, map, if◌then◌else◌, arith, inl, inr, Bool-cases,
}
use solutions_library.Prelude.Sort.{sorted, insert_sorted}
use solutions_library.Prelude.Text.{Text, text_eq, text_eq_refl}
use solutions_library.Prelude.Json.{Json, elements, items, elements-items}
use solutions_library.Transfer.Shard.{text_le}
use solutions_library.Tuning.Swagger.{has_str}
use solutions_library.Tuning.Selection.{has_text, add_id}

has_text-add_id : (id : Text) (ids : List Text) → has_text id (add_id id ids) ≡ true
unfolding add_id
has_text-add_id id [] = rw (text_eq_refl id) refl
has_text-add_id id (x ∷ ids) = ground (arith, has_text-add_id id ids)

has_text-insert_sorted :
    (t x : Text) (xs : List Text)
    → has_text t (insert_sorted text_le x xs) ≡ (if text_eq x t then true else has_text t xs)
unfolding insert_sorted
has_text-insert_sorted t x [] = refl
has_text-insert_sorted t x (y ∷ ys) = elim (Bool-cases (text_le x y)) [
  | inl e ↦ rw e refl
  | inr e ↦ rw e (ground (arith, has_text-insert_sorted t x ys))
]

has_text-sorted : (t : Text) (xs : List Text) → has_text t (sorted text_le xs) ≡ has_text t xs
unfolding sorted
has_text-sorted t [] = refl
has_text-sorted t (x ∷ xs) =
    ground (arith, has_text-sorted t xs, has_text-insert_sorted t x (sorted text_le xs))

has_str-map : (t : Text) (xs : List Text) → has_str t (map Json.str xs) ≡ has_text t xs
unfolding has_str
has_str-map t [] = refl
has_str-map t (x ∷ xs) = ground (arith, has_str-map t xs)

-- What is saved behind an upload lists the new file.
pub has_str-add_id :
    (id : Text) (ids : List Text)
    → has_str id (elements (items (map Json.str (sorted text_le (add_id id ids))))) ≡ true
has_str-add_id id ids =
    rw (elements-items (map Json.str (sorted text_le (add_id id ids))))
      (has_str-map id _ ∙ (has_text-sorted id _ ∙ has_text-add_id id ids))
