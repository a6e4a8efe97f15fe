-- ===== src/Transfer/Shard/Listing.antt =====
-- shard_manifest.py: the listing that is read, the shard files that are written, and the program.
use solutions_library.Prelude.{
  ℕ, suc, ◌<◌, ◌≡◌, refl, sym, ap, subst, ◌∙◌, inl, inr, Bool, Bool-cases, true, false, none, some,
  List, [], ◌∷◌, ◌++◌, map, flatten, ◌==◌, is_nil, length, All, All-append_parts, arith,
}
use mathlib.Core.List.{Permᴰ, append_assoc, append_cancel_left, append_cancel_right}
use mathlib.Core.List.Permᴰ
use solutions_library.Prelude.Lines.{
  rstrip, is_nil-append, rstrip-append, rstrip-snoc, rstrip_weaken, read_lines, read_lines-join,
}
use solutions_library.Prelude.Text.{Text, codes, join, split_first, IsFreeOf, text_eq, text_eq_iff}
use solutions_library.Prelude.Dict.{lookup, HasUniqueKeys}
use solutions_library.Prelude.Int.{ℤ, pos}
use solutions_library.Transfer.Shard.{
  Python, Object, lstrip, partition, size_and_path, parse_line, parse_tsv, content, path_join,
  write_shards, exits, main,
}
use solutions_library.Transfer.Shard.Heap.{All-Permᴰ}
use solutions_library.Transfer.Shard.Balance.{paths, bin_pack_partitions}

partition-append : (c : ℕ) (s t : Text) → IsFreeOf c s → partition c (s ++ (c ∷ t)) ≡ (s, true, t)
unfolding partition
partition-append c [] t h = ground arith
partition-append c (x ∷ s) t h = ground (arith, partition-append c s t h.1)

-- The lines of a shard's file are its paths, if no path has a line break.
read_lines-content :
    (keys : List Text) → All (IsFreeOf b'\n') keys → read_lines (content keys) ≡ keys
unfolding content join split_first read_lines
read_lines-content [] h = refl
read_lines-content (k ∷ ks) h = read_lines-join k ks h

size_and_path-append :
    (s path : Text) → IsFreeOf b'\t' s → size_and_path (s ++ (b'\t' ∷ path)) ≡ (s, path)
unfolding size_and_path
size_and_path-append s path h = rw (partition-append b'\t' s path h) refl

rstrip-listed :
    (p : ℕ → Bool) (s path : Text)
    → p b'\n' ≡ true
    → is_nil path ≡ false
    → rstrip p path ≡ path
    → rstrip (λ c. c == b'\n') (s ++ (b'\t' ∷ (path ++ (b'\n' ∷ [])))) ≡ s ++ (b'\t' ∷ path)
rstrip-listed p s path space n h =
    let newline : ℕ → Bool = λ c. c == b'\n' in
    let front = s ++ (b'\t' ∷ path) in
    let kept : rstrip newline path ≡ path =
      rstrip_weaken p newline path (λ c e. (let same : c ≡ b'\n' = ground arith in rw same space))
        h in
    let kept' : rstrip newline front ≡ front =
      rstrip-append newline s (b'\t' ∷ path) refl
        (rstrip-append newline (b'\t' ∷ []) path n kept) in
    subst (λ l. rstrip newline l ≡ front) (append_assoc s (b'\t' ∷ path) (b'\n' ∷ []))
      (rstrip-snoc newline front b'\n' refl ∙ kept')

-- The path is not empty, has no line break, and `strip` leaves it as it is.
abbrev pub IsPath : Python → Text → Type 0
IsPath py path =
    (is_nil path ≡ false)
    × (lstrip py.is_space path ≡ path)
    × (rstrip py.is_space path ≡ path)
    × IsFreeOf b'\n' path

All-paths :
    (py : Python) (g : List Object) → All (λ o. IsPath py o.1) g → All (IsFreeOf b'\n') (paths g)
All-paths py [] h = tt
All-paths py (o ∷ g) h = (h.0.3, All-paths py g h.1)

paths-append : (g k : List Object) → paths (g ++ k) ≡ paths g ++ paths k
paths-append [] k = refl
paths-append (o ∷ g) k = ap (◌∷◌ o.1) (paths-append g k)

flatten-paths : (groups : List (List Object)) → flatten (map paths groups) ≡ paths (flatten groups)
unfolding flatten
flatten-paths [] = refl
flatten-paths (g ∷ groups) = rw (flatten-paths groups) (sym (paths-append g (flatten groups)))

length-paths : (groups : List (List Object)) → length (map paths groups) ≡ length groups
length-paths [] = refl
length-paths (g ∷ groups) = ap suc (length-paths groups)

write_shards-read :
    (py : Python) (i : ℕ) (bins : List (List Text)) (out : Text)
    → All (All (IsFreeOf b'\n')) bins
    → map (λ f. read_lines f.1) (write_shards py i bins out) ≡ bins
unfolding write_shards
write_shards-read py i [] out h = refl
write_shards-read py i (keys ∷ bins) out h =
    rw (read_lines-content keys h.0) (ap (◌∷◌ keys) (write_shards-read py (suc i) bins out h.1))

length-write_shards :
    (py : Python) (i : ℕ) (bins : List (List Text)) (out : Text)
    → length (write_shards py i bins out) ≡ length bins
unfolding write_shards
length-write_shards py i [] out = refl
length-write_shards py i (keys ∷ bins) out = ap suc (length-write_shards py (suc i) bins out)

All-flatten_lines :
    (py : Python) (groups : List (List Object))
    → All (λ o. IsPath py o.1) (flatten groups)
    → All (All (IsFreeOf b'\n')) (map paths groups)
unfolding flatten
All-flatten_lines py [] h = tt
All-flatten_lines py (g ∷ groups) h =
    let (here, there) = All-append_parts (λ o. IsPath py o.1) g (flatten groups) h in
    (All-paths py g here, All-flatten_lines py groups there)

path_join-append : (out name : Text) → path_join out name ≡ path_join out [] ++ name
unfolding path_join
path_join-append [] name = refl
path_join-append (c ∷ []) name = ground arith
path_join-append (c ∷ d ∷ s) name = ap (◌∷◌ c) (path_join-append (d ∷ s) name)

module _ (py : Python) (str_of-injective : (i j : ℕ) → py.str_of i ≡ py.str_of j → i ≡ j)
    (out : Text) where
  -- The file of the shard with an index.
  abbrev pub file_path : ℕ → Text
  file_path i = path_join out (codes "shard-" ++ (py.str_of i ++ codes ".txt"))

  file_path-injective : (i j : ℕ) → file_path i ≡ file_path j → i ≡ j
  file_path-injective i j e =
      let name : ℕ → Text = λ k. codes "shard-" ++ (py.str_of k ++ codes ".txt") in
      let tails =
        append_cancel_left (codes "shard-") (py.str_of i ++ codes ".txt")
          (py.str_of j ++ codes ".txt")
          (append_cancel_left (path_join out []) (name i) (name j)
            (sym (path_join-append out (name i)) ∙ e ∙ path_join-append out (name j))) in
      str_of-injective i j (append_cancel_right (py.str_of i) (py.str_of j) (codes ".txt") tails)

  lookup_later :
      (j i : ℕ) (bins : List (List Text))
      → j < i
      → lookup (file_path j) (write_shards py i bins out) ≡ none
  unfolding write_shards lookup
  lookup_later j i [] h = refl
  lookup_later j i (keys ∷ bins) h = elim (Bool-cases (text_eq (file_path i) (file_path j))) [
    | inl e ↦ absurd (omega (arith, h, file_path-injective i j ((text_eq_iff _ _).0 e)))
    | inr e ↦ rw e (lookup_later j (suc i) bins (omega (arith, h)))
  ]

  write_shards-HasUniqueKeys :
      (i : ℕ) (bins : List (List Text)) → HasUniqueKeys (write_shards py i bins out)
  unfolding write_shards
  write_shards-HasUniqueKeys i [] = tt
  write_shards-HasUniqueKeys i (keys ∷ bins) =
      (lookup_later i (suc i) bins (omega arith), write_shards-HasUniqueKeys (suc i) bins)

-- The line that `rclone lsf` prints for an object.
abbrev pub listed : (ℤ → Text) → Object → Text
listed int_text (size, path) = int_text size ++ (b'\t' ∷ (path ++ (b'\n' ∷ [])))

module _ (py : Python) (int_text : ℤ → Text)
    (int_of-int_text : (z : ℤ) → py.int_of (int_text z) ≡ some z)
    (int_text-IsFreeOf : (z : ℤ) → IsFreeOf b'\t' (int_text z))
    (newline_is_space : py.is_space b'\n' ≡ true) where
  parse_line-listed : (o : Object) → IsPath py o.1 → parse_line py (listed int_text o) ≡ some o
  unfolding parse_line
  parse_line-listed (size, path) h =
      let line = int_text size ++ (b'\t' ∷ path) in
      let whole : rstrip (λ c. c == b'\n') (listed int_text (size, path)) ≡ line =
        rstrip-listed py.is_space (int_text size) path newline_is_space h.0 h.2 in
      let parts = size_and_path-append (int_text size) path (int_text-IsFreeOf size) in
      let kept : is_nil line ≡ false = is_nil-append (int_text size) (b'\t' ∷ path) refl in
      rw whole (
        rw kept (
          rw parts (
            rw h.1 (
              rw h.2 (
                rw h.0 (rw (int_of-int_text size) (rw whole (rw parts (rw h.1 (rw h.2 refl))))))))))

  -- Reading a listing gives the objects back, in order, where a size is printed without a tab and
  -- so that `int` reads it back, a line break is white space, and each path is not empty, has no
  -- line break, and neither begins nor ends with white space.
  pub parse_tsv-listed :
      (objects : List Object)
      → All (λ o. IsPath py o.1) objects
      → parse_tsv py (map (listed int_text) objects) ≡ objects
  unfolding parse_tsv
  parse_tsv-listed [] h = refl
  parse_tsv-listed (o ∷ objects) h =
      rw (parse_line-listed o h.0, parse_tsv) (ap (◌∷◌ o) (parse_tsv-listed objects h.1))

  -- For a positive number of shards and the listing of at least one object, where a size is printed
  -- without a tab and so that `int` reads it back, `str` gives each number its own text, a line
  -- break is white space, and each path is not empty, has no line break, and neither begins nor
  -- ends with white space, the program exits with 0, having written that many files, each under a
  -- name of its own, and the lines of the files together are the listed paths, each as often as it
  -- was listed.
  pub main-listed :
      (objects : List Object) (n : ℕ) (out : Text)
      → is_nil objects ≡ false
      → All (λ o. IsPath py o.1) objects
      → ((i j : ℕ) → py.str_of i ≡ py.str_of j → i ≡ j)
      → (files : List (Text × Text)) × (main py (map (listed int_text) objects) (pos (suc n)) out
          ≡ exits 0 files)
        × Permᴰ (flatten (map (λ f. read_lines f.1) files)) (paths objects)
        × (length files ≡ suc n)
        × HasUniqueKeys files
  unfolding main
  main-listed objects n out some_object h str_of-injective =
      let (groups, (eq, (perm, len))) = bin_pack_partitions objects n in
      let good = All-Permᴰ (λ o. IsPath py o.1) (Permᴰ.symm perm) h in
      let files = write_shards py 0 (map paths groups) out in
      let read = write_shards-read py 0 (map paths groups) out (All-flatten_lines py groups good) in
      (
        files,
        rw (parse_tsv-listed objects h) (rw some_object (rw eq refl)),
        subst (λ l. Permᴰ l (paths objects)) (sym (ap flatten read ∙ flatten-paths groups))
            (Permᴰ.map (λ o. o.1) perm),
        length-write_shards py 0 (map paths groups) out ∙ (length-paths groups ∙ len),
        write_shards-HasUniqueKeys py str_of-injective out 0 (map paths groups),
      )
