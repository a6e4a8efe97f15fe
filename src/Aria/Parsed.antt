-- ===== src/Aria/Parsed.antt =====
-- aria2c-download.py: the parser reads back what the shards are made of.
use solutions_library.Prelude.{
  ℕ, ◌≡◌, refl, sym, ap, subst, ◌∙◌, Bool, List, [], ◌∷◌, ◌++◌, map, ◌==◌, All, All-append, All-map,
}
use mathlib.Core.List.{append_assoc, append-nil}
use solutions_library.Prelude.Text.{Text, codes, join, IsFreeOf, split_first}
use solutions_library.Prelude.Lines.{rstrip, rstrip-snoc, rstrip_free, read_lines, read_lines-join}
use solutions_library.Aria.{
  Kind, url_line, option_line, kind_of, is_blank, flush, parse_loop, parse_aria2c_entries,
  shard_content,
}

-- The lines of an entry: the one with the address, and the options.
abbrev pub Block : Type 0
Block = Text × List Text

abbrev pub block_text : Block → Text
block_text (url, options) = join (codes "\n") (url ∷ options)

abbrev pub IsLine : (ℕ → Bool) → Kind → Text → Type 0
IsLine is_space kind line = (kind_of is_space line ≡ kind) × IsFreeOf b'\n' line

abbrev pub IsBlock : (ℕ → Bool) → Block → Type 0
IsBlock is_space (url, options) =
    IsLine is_space url_line url × All (IsLine is_space option_line) options

-- The lines behind the first one, where a blank line stands between two blocks.
abbrev tail_lines : List Text → List Block → List Text
tail_lines options [] = options
tail_lines options ((url, more) ∷ blocks) = options ++ ([] ∷ url ∷ tail_lines more blocks)

-- A line as a file gives it.
abbrev pub raw : Text → Text
raw line = line ++ codes "\n"

rstrip-raw : (line : Text) → IsFreeOf b'\n' line → rstrip (λ c. c == b'\n') (raw line) ≡ line
rstrip-raw line h = rstrip-snoc (λ c. c == b'\n') line b'\n' refl ∙ rstrip_free line h

parse_loop_blank :
    (is_space : ℕ → Bool) (raws current : List Text)
    → parse_loop is_space (raw [] ∷ raws) current ≡ flush current (parse_loop is_space raws [])
unfolding parse_loop rstrip kind_of is_blank
parse_loop_blank is_space raws current = refl

parse_loop_url :
    (is_space : ℕ → Bool) (line : Text) (raws current : List Text)
    → IsLine is_space url_line line
    → parse_loop is_space (raw line ∷ raws) current
      ≡ flush current (parse_loop is_space raws (line ∷ []))
unfolding parse_loop
parse_loop_url is_space line raws current h =
    rw (rstrip-raw line h.1, parse_loop) (rw h.0 (rw (rstrip-raw line h.1) refl))

parse_loop_option :
    (is_space : ℕ → Bool) (line : Text) (raws current : List Text)
    → IsLine is_space option_line line
    → parse_loop is_space (raw line ∷ raws) current
      ≡ parse_loop is_space raws (current ++ (line ∷ []))
unfolding parse_loop
parse_loop_option is_space line raws current h =
    rw (rstrip-raw line h.1, parse_loop) (rw h.0 (rw (rstrip-raw line h.1) refl))

parse_loop_options :
    (is_space : ℕ → Bool) (options rest current : List Text)
    → All (IsLine is_space option_line) options
    → parse_loop is_space (map raw (options ++ rest)) current
      ≡ parse_loop is_space (map raw rest) (current ++ options)
parse_loop_options is_space [] rest current h =
    ap (parse_loop is_space (map raw rest)) (sym (append-nil current))
parse_loop_options is_space (o ∷ options) rest current h =
    parse_loop_option is_space o (map raw (options ++ rest)) current h.0
    ∙ (parse_loop_options is_space options rest (current ++ (o ∷ [])) h.1
        ∙ ap (parse_loop is_space (map raw rest)) (append_assoc current (o ∷ []) options))

parse_loop_blocks :
    (is_space : ℕ → Bool) (u : Text) (options current : List Text) (blocks : List Block)
    → All (IsLine is_space option_line) options
    → All (IsBlock is_space) blocks
    → parse_loop is_space (map raw (tail_lines options blocks)) (u ∷ current)
      ≡ join (codes "\n") (u ∷ (current ++ options)) ∷ map block_text blocks
unfolding parse_loop flush
parse_loop_blocks is_space u options current [] h k =
    subst
      (λ l.
        parse_loop is_space (map raw l) (u ∷ current)
        ≡ join (codes "\n") (u ∷ (current ++ options)) ∷ [])
      (append-nil options) (parse_loop_options is_space options [] (u ∷ current) h)
parse_loop_blocks is_space u options current ((url, more) ∷ blocks) h k =
    let next = parse_loop_blocks is_space url more [] blocks k.0.1 k.1 in
    parse_loop_options is_space options ([] ∷ url ∷ tail_lines more blocks) (u ∷ current) h
    ∙ (parse_loop_blank is_space (map raw (url ∷ tail_lines more blocks)) (u ∷ (current ++ options))
        ∙ ap (◌∷◌ (join (codes "\n") (u ∷ (current ++ options))))
            (parse_loop_url is_space url (map raw (tail_lines more blocks)) [] k.0.0 ∙ next))

join-append :
    (sep x y : Text) (xs ys : List Text)
    → join sep (x ∷ (xs ++ (y ∷ ys))) ≡ join sep (x ∷ xs) ++ (sep ++ join sep (y ∷ ys))
unfolding join
join-append sep x y [] ys = refl
join-append sep x y (z ∷ xs) ys = rw (join-append sep z y xs ys) (
    sym (
      append_assoc x (sep ++ join sep (z ∷ xs)) (sep ++ join sep (y ∷ ys))
      ∙ ap (λ r. x ++ r) (append_assoc sep (join sep (z ∷ xs)) (sep ++ join sep (y ∷ ys)))))

shard_content-lines :
    (u : Text) (options : List Text) (blocks : List Block)
    → shard_content (map block_text ((u, options) ∷ blocks))
      ≡ join (codes "\n") (u ∷ tail_lines options blocks) ++ codes "\n"
unfolding shard_content join
shard_content-lines u options [] = refl
shard_content-lines u options ((v, more) ∷ blocks) =
    let nl = codes "\n" in
    let entry = join nl (u ∷ options) in
    let lines = v ∷ tail_lines more blocks in
    let rest = join (codes "\n\n") (map block_text ((v, more) ∷ blocks)) in
    append_assoc entry (b'\n' ∷ b'\n' ∷ rest) nl
    ∙ (ap (λ r. entry ++ (b'\n' ∷ b'\n' ∷ r)) (shard_content-lines v more blocks)
        ∙ (sym (append_assoc entry (b'\n' ∷ b'\n' ∷ join nl lines) nl)
            ∙ ap (λ l. l ++ nl) (sym (join-append nl u [] options lines))))

All-tail_lines :
    (is_space : ℕ → Bool) (options : List Text) (blocks : List Block)
    → All (IsLine is_space option_line) options
    → All (IsBlock is_space) blocks
    → All (IsFreeOf b'\n') (tail_lines options blocks)
All-tail_lines is_space options [] h k =
    All-map (IsLine is_space option_line) (IsFreeOf b'\n') (λ l p. p.1) options h
All-tail_lines is_space options ((v, more) ∷ blocks) h k =
    All-append (IsFreeOf b'\n') options ([] ∷ v ∷ tail_lines more blocks)
      (All-map (IsLine is_space option_line) (IsFreeOf b'\n') (λ l p. p.1) options h)
      (tt, (k.0.0.1, All-tail_lines is_space more blocks k.0.1 k.1))

parse_loop_no_block :
    (is_space : ℕ → Bool) → parse_loop is_space (map raw (read_lines (shard_content []))) [] ≡ []
unfolding parse_loop flush shard_content join read_lines split_first rstrip kind_of is_blank
parse_loop_no_block is_space = refl

-- The lines of a shard's file parse to the entries that were put into it, in order, where each
-- entry is a line that is neither blank nor indented, and then indented lines that are not blank,
-- and no line has a line break inside it. The file of an empty shard has no entries.
pub parse_aria2c_entries-shard_content :
    (is_space : ℕ → Bool) (blocks : List Block)
    → All (IsBlock is_space) blocks
    → parse_aria2c_entries is_space (map raw (read_lines (shard_content (map block_text blocks))))
      ≡ map block_text blocks
unfolding parse_aria2c_entries flush
parse_aria2c_entries-shard_content is_space [] h = parse_loop_no_block is_space
parse_aria2c_entries-shard_content is_space ((u, options) ∷ blocks) h =
    let lines = tail_lines options blocks in
    let read =
      ap read_lines (shard_content-lines u options blocks)
      ∙ read_lines-join u lines (h.0.0.1, All-tail_lines is_space options blocks h.0.1 h.1) in
    ap (λ l. parse_loop is_space (map raw l) []) read
    ∙ (parse_loop_url is_space u (map raw lines) [] h.0.0
        ∙ parse_loop_blocks is_space u options [] blocks h.0.1 h.1)
