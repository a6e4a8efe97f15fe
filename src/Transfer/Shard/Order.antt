-- ===== src/Transfer/Shard/Order.antt =====
-- shard_manifest.py: the same listing gives the same shards, in whatever order its lines stand.
use solutions_library.Prelude.{◌≡◌, refl, true, false, List, [], ◌∷◌, arith}
use mathlib.Core.List.{Permᴰ}
use solutions_library.Prelude.Text.{Text}
use solutions_library.Prelude.Int.{ℤ, eq_of_parts}
use solutions_library.Prelude.Sort.{IsTotalOrder, sorted_of_Permᴰ}
use solutions_library.Transfer.Shard.{Object, text_le, object_le, bin_pack}

text_le_total : (s t : Text) → text_le s t ≡ false → text_le t s ≡ true
unfolding text_le
text_le_total [] t h = cc
text_le_total (a ∷ s) [] h = refl
text_le_total (a ∷ s) (b ∷ t) h = ground (arith, text_le_total s t)

text_le_trans : (s t u : Text) → text_le s t ≡ true → text_le t u ≡ true → text_le s u ≡ true
unfolding text_le
text_le_trans [] t u h k = refl
text_le_trans (a ∷ s) [] u h k = cc
text_le_trans (a ∷ s) (b ∷ t) [] h k = cc
text_le_trans (a ∷ s) (b ∷ t) (c ∷ u) h k = ground (arith, text_le_trans s t u)

text_le_antisym : (s t : Text) → text_le s t ≡ true → text_le t s ≡ true → s ≡ t
unfolding text_le
text_le_antisym [] [] h k = refl
text_le_antisym [] (b ∷ t) h k = cc
text_le_antisym (a ∷ s) [] h k = cc
text_le_antisym (a ∷ s) (b ∷ t) h k = ground (arith, text_le_antisym s t)

object_le_antisym : (o p : Object) → object_le o p ≡ true → object_le p o ≡ true → o ≡ p
unfolding object_le
object_le_antisym (a, s) (b, t) h k =
    let size : a ≡ b = eq_of_parts a b (ground arith) in
    let path : s ≡ t = text_le_antisym s t (ground arith) (ground arith) in cc

pub object_le-IsTotalOrder : IsTotalOrder object_le
unfolding object_le
object_le-IsTotalOrder = record {
  total = λ (a, s) (b, t) h. ground (arith, text_le_total s t);
  trans = λ (a, s) (b, t) (c, u) h k. ground (arith, text_le_trans s t u);
  antisym = object_le_antisym;
}

-- The bins depend on the objects alone and not on the order in which they were listed.
pub bin_pack_of_Permᴰ :
    {objects objects' : List Object} (num_bins : ℤ)
    → Permᴰ objects objects'
    → bin_pack objects num_bins ≡ bin_pack objects' num_bins
unfolding bin_pack
bin_pack_of_Permᴰ num_bins p = rw (sorted_of_Permᴰ object_le object_le-IsTotalOrder p) refl
