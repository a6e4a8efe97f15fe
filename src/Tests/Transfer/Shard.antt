-- ===== src/Tests/Transfer/Shard.antt =====
-- The theorems on shard_manifest.py at concrete inputs. Sizes are written in unary, as a sign and
-- that many digits `1`.
use solutions_library.Prelude.{
  ℕ, zero, suc, ◌≡◌, refl, sym, ap, ◌∙◌, Option, none, some, List, [], ◌∷◌, map, flatten, ◌==◌,
  if◌then◌else◌, length, length-replicate, ◌||◌, All, arith, replicate,
}
use mathlib.Core.List.{Permᴰ}
use solutions_library.Prelude.Lines.{rstrip, read_lines}
use solutions_library.Prelude.Text.{Text, codes, IsFreeOf}
use solutions_library.Prelude.Dict.{HasUniqueKeys}
use solutions_library.Prelude.Int.{ℤ, pos, negsuc, ◌+ℤ◌}
use solutions_library.Prelude.Sort.{sorted, insert_sorted}
use solutions_library.Transfer.Shard.{
  Python, Object, packed, value_error, bin_pack, pack_loop, object_le, text_le, slot_le,
  empty_slots, append_at, parse_tsv, parse_line, lstrip, partition, size_and_path, exits, main,
}
use solutions_library.Transfer.Shard.Balance.{paths, total, bin_pack_partitions}
use solutions_library.Transfer.Shard.Spread.{IsBalanced, bin_pack-IsBalanced}
use solutions_library.Transfer.Shard.Order.{bin_pack_of_Permᴰ}
use solutions_library.Transfer.Shard.Listing.{parse_tsv-listed, main-listed, listed, IsPath}

abbrev four : List Object
four = (pos 2, codes "b") ∷ (pos 7, codes "a") ∷ (pos 5, codes "c") ∷ (pos 2, codes "a") ∷ []

packed_four :
    bin_pack four (pos 2)
    ≡ packed ((codes "a" ∷ codes "b" ∷ []) ∷ (codes "c" ∷ codes "a" ∷ []) ∷ []) (pos 9 ∷ pos 7 ∷ [])
unfolding bin_pack pack_loop object_le text_le slot_le empty_slots append_at sorted insert_sorted
    ◌+ℤ◌
packed_four = refl

no_bins : bin_pack four (pos 0) ≡ value_error
unfolding bin_pack
no_bins = refl

bin_pack_partitions_example :
    (groups : List (List Object)) × ((bin_pack four (pos 2)
        ≡ packed (map paths groups) (map total groups))
      × (Permᴰ (flatten groups) four × (length groups ≡ 2)))
bin_pack_partitions_example = bin_pack_partitions four 1

bin_pack-IsBalanced_example :
    (bins : List (List Text)) × (sizes : List ℤ) × ((bin_pack four (pos 2) ≡ packed bins sizes)
      × IsBalanced 7 sizes)
bin_pack-IsBalanced_example = bin_pack-IsBalanced 7 1 four (
  (omega arith, omega arith),
  ((omega arith, omega arith), ((omega arith, omega arith), ((omega arith, omega arith), tt))),
)

abbrev four_swapped : List Object
four_swapped =
    (pos 7, codes "a") ∷ (pos 2, codes "b") ∷ (pos 5, codes "c") ∷ (pos 2, codes "a") ∷ []

bin_pack_of_Permᴰ_example : bin_pack four (pos 2) ≡ bin_pack four_swapped (pos 2)
bin_pack_of_Permᴰ_example = bin_pack_of_Permᴰ (pos 2) (Permᴰ.swap refl refl)

abbrev int_text : ℤ → Text
int_text (pos n) = b'+' ∷ replicate n b'1'
int_text (negsuc n) = b'-' ∷ replicate n b'1'

abbrev int_of : Text → Option ℤ
int_of [] = none
int_of (c ∷ s) =
    if c == b'+'
    then some (pos (length s))
    else if c == b'-'
    then some (negsuc (length s))
    else none

abbrev python : Python
python = record {
  int_of = int_of;
  str_of = λ n. replicate n b'1';
  is_space = λ c. (c == b' ') || ((c == b'\t') || (c == b'\n'));
}

int_of-int_text : (z : ℤ) → int_of (int_text z) ≡ some z
int_of-int_text (pos n) = ap (λ k. some (pos k)) (length-replicate n b'1')
int_of-int_text (negsuc n) = ap (λ k. some (negsuc k)) (length-replicate n b'1')

digits-IsFreeOf : (n : ℕ) → IsFreeOf b'\t' (replicate n b'1')
digits-IsFreeOf zero = tt
digits-IsFreeOf (suc n) = (refl, digits-IsFreeOf n)

int_text-IsFreeOf : (z : ℤ) → IsFreeOf b'\t' (int_text z)
int_text-IsFreeOf (pos n) = (refl, digits-IsFreeOf n)
int_text-IsFreeOf (negsuc n) = (refl, digits-IsFreeOf n)

abbrev two : List Object
two = (pos 2, codes "b c") ∷ (pos 3, codes "a") ∷ []

two-IsPath : All (λ o. IsPath python o.1) two
unfolding lstrip rstrip
two-IsPath = ((refl, refl, refl, (refl, (refl, (refl, tt)))), ((refl, refl, refl, (refl, tt)), tt))

str_of-injective : (i j : ℕ) → python.str_of i ≡ python.str_of j → i ≡ j
str_of-injective i j e = sym (length-replicate i b'1') ∙ (ap length e ∙ length-replicate j b'1')

parse_two :
    parse_tsv python (codes "+11\tb c\n" ∷ codes "\n" ∷ codes "x\ty" ∷ codes "+111 a" ∷ []) ≡ two
unfolding parse_tsv parse_line rstrip lstrip partition size_and_path
parse_two = refl

parse_tsv-listed_example : parse_tsv python (map (listed int_text) two) ≡ two
parse_tsv-listed_example =
    parse_tsv-listed python int_text int_of-int_text int_text-IsFreeOf refl two two-IsPath

main-listed_example :
    (files : List (Text × Text)) × (main python (map (listed int_text) two) (pos 2) (codes "out")
      ≡ exits 0 files)
    × Permᴰ (flatten (map (λ f. read_lines f.1) files)) (paths two)
    × (length files ≡ 2)
    × HasUniqueKeys files
main-listed_example =
    main-listed python int_text int_of-int_text int_text-IsFreeOf refl two 1 (codes "out") refl
      two-IsPath str_of-injective
