-- ===== src/Transfer/Grid/Names.antt =====
-- sweep.py: the name of the file of a point.
use solutions_library.Prelude.{ℕ, ◌≡◌, refl, ap, false, [], ◌∷◌, take, ◌==◌}
use solutions_library.Prelude.Text.{Text, codes, text_eq, IsFreeOf}
use solutions_library.Transfer.Grid.{replace_csv}

dotless : (c : ℕ) (s : Text) → (c == b'.') ≡ false → text_eq (take 4 (c ∷ s)) (codes ".csv") ≡ false
unfolding text_eq
dotless c s e = rw e refl

-- A name without a dot stands for the file of a point as well, so that the collector empties the
-- file of the results when it opens its own.
pub replace_csv_free : (new s : Text) → IsFreeOf b'.' s → replace_csv new 0 s ≡ s
unfolding replace_csv
replace_csv_free new [] h = refl
replace_csv_free new (c ∷ s) h = rw (dotless c s h.0) (ap (◌∷◌ c) (replace_csv_free new s h.1))
