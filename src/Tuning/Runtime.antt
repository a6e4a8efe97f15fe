-- ===== src/Tuning/Runtime.antt =====
-- crusoe-managed-finetuning-example/src/runtime.py: the prompts. What the user types at a prompt is
-- a list of lines, whose end is the end of the input or Ctrl-C. `none` stands for that end: the
-- prompt leaves by `abort`.
pub mod Replies
use solutions_library.Prelude.{
  ℕ, zero, suc, ◌-◌, Bool, true, false, Option, none, some, List, [], ◌∷◌, if◌then◌else◌, not, ◌&&◌,
  ◌||◌, is_nil, leb, length, get_elem?,
}
use solutions_library.Prelude.Options.{◌>>=◌}
use solutions_library.Prelude.Text.{Text, codes, text_eq, split_first}
use solutions_library.Prelude.Json.{Json}
use solutions_library.Prelude.Int.{ℤ, pos, negsuc}
use solutions_library.Transfer.Config.Sources.{strip}

-- What the program uses of Python, over its floats: `int(s)` and `float(s)`, where `none` is the
-- `ValueError`; `v > 0`, `v >= n` and `v <= n`; the JSON value of a float; `str(v)`; `s.lower()`;
-- and `f"{n / 1024 ** k:.1f}"`.
pub record Builtins (F : Type 0) : Type 0 where
  pub int_of : Text → Option ℤ
  pub float_of : Text → Option F
  pub is_positive : F → Bool
  pub is_at_least : F → ℕ → Bool
  pub is_at_most : F → ℕ → Bool
  pub json_of : F → Json
  pub str_of : Json → Text
  pub lower : Text → Text
  pub is_space : ℕ → Bool
  pub scaled : ℕ → ℕ → Text

-- `options[idx - 1]` where `1 <= idx <= len(options)`
unfoldable pub numbered : List Text → ℤ → Option Text
numbered options (pos zero) = none
numbered options (pos (suc i)) = if leb (suc i) (length options) then get_elem? options i else none
numbered options (negsuc i) = none

-- `options[i - 1]`, which counts from the end where the index is negative; `none` is the
-- `IndexError`.
unfoldable pub indexed : List Text → ℤ → Option Text
indexed options (pos zero) =
    if leb 1 (length options) then get_elem? options (length options - 1) else none
indexed options (pos (suc i)) = get_elem? options i
indexed options (negsuc i) =
    if leb (suc (suc i)) (length options)
    then get_elem? options (length options - suc (suc i))
    else none

-- The first reply that is one, to a question that is asked again and again.
unfoldable pub first_reply : {A : Type 0} → (Text → Option A) → List Text → Option A
first_reply read [] = none
first_reply read (raw ∷ lines) =
    let rest = first_reply read lines in elim (read raw) [ some a ↦ some a | none ↦ rest ]

module _ {F : Type 0} (py : Builtins F) where
  abbrev stripped : Text → Text
  stripped raw = strip py.is_space raw

  unfoldable pub read_pick : List Text → Text → Option Text
  read_pick options raw = do idx ← py.int_of (stripped raw); numbered options idx

  unfoldable pub input_pick : List Text → List Text → Option Text
  input_pick options lines = first_reply (read_pick options) lines

  -- `[options[int(x) - 1] for x in parts if x.strip()]`
  unfoldable pub picks : List Text → List Text → Option (List Text)
  picks options [] = some []
  picks options (x ∷ parts) =
      let rest = picks options parts in
      if is_nil (stripped x)
      then rest
      else (do i ← py.int_of x; option ← indexed options i; others ← rest; some (option ∷ others))

  -- `none` for no choice, after which the prompt is shown again.
  abbrev some_picks : Option (List Text) → Option (List Text)
  some_picks none = none
  some_picks (some chosen) = if is_nil chosen then none else some chosen

  unfoldable pub read_multi : List Text → Text → Option (List Text)
  read_multi options raw =
      let (part, parts) = split_first b',' (stripped raw) in
      if is_nil (stripped raw) then some [] else some_picks (picks options (part ∷ parts))

  unfoldable pub input_multi : List Text → List Text → Option (List Text)
  input_multi options lines = first_reply (read_multi options) lines

  unfoldable pub read_confirm : Bool → Text → Option Bool
  read_confirm default raw =
      let answer = py.lower (stripped raw) in
      if is_nil answer
      then some default
      else if text_eq answer (codes "y") || text_eq answer (codes "yes")
      then some true
      else if text_eq answer (codes "n") || text_eq answer (codes "no")
      then some false
      else none

  unfoldable pub input_confirm : Bool → List Text → Option Bool
  input_confirm default lines = first_reply (read_confirm default) lines

  unfoldable pub input_text : Text → List Text → Option Text
  input_text default [] = none
  input_text default (raw ∷ lines) = some (if is_nil (stripped raw) then default else stripped raw)

-- The end of a menu of questionary: an answer, `KeyboardInterrupt` or `EOFError`, or another
-- exception.
pub data Menu {ℓ} (A : Type ℓ) : Type ℓ where
  answered : A → Menu A
  interrupted : Menu A
  broken : Menu A

-- `_ask`: the menu, where there is a terminal and questionary, and else the reply to `_input`.
unfoldable pub ask : {A : Type 0} → Bool → Bool → Menu A → Option A → Option A
ask isatty installed menu reply =
    if isatty && installed
    then elim menu [ answered a ↦ some a | interrupted ↦ none | broken ↦ reply ]
    else reply
