-- ===== src/Transfer/Config/Load/Precedence.antt =====
-- config.py: which of the sources a setting comes from.
use solutions_library.Prelude.{
  ◌≡◌, refl, sym, ap, ◌∙◌, subst, inl, inr, Bool, true, false, Option, none, some, List, [], ◌∷◌,
  if◌then◌else◌, ◌||◌, Bool-cases, arith,
}
use mathlib.Core.Option.{some-injective}
use solutions_library.Prelude.Options.{◌>>=◌, >>=-eq-some}
use solutions_library.Prelude.Text.{Text, text_eq, text_eq_iff, text_eq_refl}
use solutions_library.Prelude.Dict.{Dict, lookup, contains, lookup-insert, HasUniqueKeys}
use solutions_library.Transfer.Config.Sources.{Value, Reader, load_dotenv, env_map}
use solutions_library.Transfer.Config.Load.{
  coerce, set_given, set_raw, set_env, set_cli, override, merge, Flags, cli_map, load_config,
}

-- The first of two optional values that is there.
abbrev pub first_of {ℓ} : {A : Type ℓ} → Option A → Option A → Option A
first_of none b = b
first_of (some a) b = some a

lookup-override :
    (k key : Text) (v : Option Text) (d : Dict Text)
    → lookup k (override key v d) ≡ (if text_eq key k then first_of v (lookup k d) else lookup k d)
unfolding override
lookup-override k key none d = ground arith
lookup-override k key (some v) d = ground (arith, lookup-insert key k v d)

-- For a key of the table the environment goes before the file.
lookup-merge :
    (table d env : Dict Text) (k : Text)
    → lookup k (merge table d env)
      ≡ (if contains k table then first_of (lookup k env) (lookup k d) else lookup k d)
unfolding merge lookup
lookup-merge [] d env k = refl
lookup-merge ((key, name) ∷ table) d env k = ground (
  arith,
  text_eq_iff key k,
  lookup-override k key (lookup key env) d,
  lookup-merge table (override key (lookup key env) d) env k,
)

lookup-merge_known :
    (table d env : Dict Text) (k f : Text)
    → lookup k table ≡ some f
    → lookup k (merge table d env) ≡ first_of (lookup k env) (lookup k d)
lookup-merge_known table d env k f at = ground (arith, lookup-merge table d env k)

-- The table sets the field.
abbrev pub is_named : Text → Dict Text → Bool
is_named f [] = false
is_named f ((key, name) ∷ table) = text_eq name f || is_named f table

-- No field is set twice.
abbrev pub HasUniqueNames : Dict Text → Type 0
HasUniqueNames [] = Unit
HasUniqueNames ((key, name) ∷ table) = (is_named name table ≡ false) × HasUniqueNames table

lookup-is_named :
    (k f : Text) (table : Dict Text) → lookup k table ≡ some f → is_named f table ≡ true
unfolding lookup
lookup-is_named k f [] h = cc
lookup-is_named k f ((key, name) ∷ table) h =
    ground (arith, text_eq_iff name f, lookup-is_named k f table)

unnamed :
    (name f : Text) (table : Dict Text)
    → is_named name table ≡ false
    → is_named f table ≡ true
    → text_eq name f ≡ false
unnamed name f table h k = ground (arith, text_eq_iff name f)

-- What the command line gives for a field.
abbrev pub given : {A : Type 0} → Option (Option A) → Option A
given none = none
given (some v) = v

module _ {F : Type 0} (rd : Reader F) where
  -- The value of a field behind its raw text, where it has one, and its old value elsewhere.
  abbrev pub env_value : Text → Option Text → Option (Value F) → Option (Option (Value F))
  env_value f none old = some old
  env_value f (some raw) old = coerce rd f raw >>= λ v. some (first_of v old)

  lookup-set_given :
      (f name : Text) (v : Option (Value F)) (c : Dict (Value F))
      → lookup f (set_given rd name v c)
        ≡ (if text_eq name f then first_of v (lookup f c) else lookup f c)
  unfolding set_given
  lookup-set_given f name none c = ground arith
  lookup-set_given f name (some v) c = ground (arith, lookup-insert name f v c)

  lookup-set_raw_other :
      (f name : Text) (raw : Option Text) (c r : Dict (Value F))
      → text_eq name f ≡ false
      → set_raw rd name raw c ≡ some r
      → lookup f r ≡ lookup f c
  unfolding set_raw
  lookup-set_raw_other f name none c r n h = ground arith
  lookup-set_raw_other f name (some raw) c r n h =
      let (v, e, set) = >>=-eq-some (coerce rd name raw) _ h in
      ground (arith, lookup-set_given f name v c)

  lookup-set_raw :
      (f : Text) (raw : Option Text) (c r : Dict (Value F))
      → set_raw rd f raw c ≡ some r
      → env_value f raw (lookup f c) ≡ some (lookup f r)
  unfolding set_raw
  lookup-set_raw f none c r h = ground arith
  lookup-set_raw f (some raw) c r h =
      let (v, e, set) = >>=-eq-some (coerce rd f raw) _ h in
      let same : text_eq f f ≡ true = text_eq_refl f in
      let left : env_value f (some raw) (lookup f c) ≡ some (first_of v (lookup f c)) =
        ap (λ o. o >>= λ u. some (first_of u (lookup f c))) e in
      let right : lookup f r ≡ first_of v (lookup f c) = ground (arith, lookup-set_given f f v c) in
      left ∙ ap some (sym right)

  lookup-set_env_other :
      (f : Text) (table merged : Dict Text) (c r : Dict (Value F))
      → is_named f table ≡ false
      → set_env rd table merged c ≡ some r
      → lookup f r ≡ lookup f c
  unfolding set_env
  lookup-set_env_other f [] merged c r n h = ground arith
  lookup-set_env_other f ((key, name) ∷ table) merged c r n h =
      let (c', first, rest) = >>=-eq-some (set_raw rd name (lookup key merged) c) _ h in
      lookup-set_env_other f table merged c' r (ground arith) rest
      ∙ lookup-set_raw_other f name (lookup key merged) c c' (ground arith) first

  lookup-set_env :
      (k f : Text) (table merged : Dict Text) (c r : Dict (Value F))
      → lookup k table ≡ some f
      → HasUniqueNames table
      → set_env rd table merged c ≡ some r
      → env_value f (lookup k merged) (lookup f c) ≡ some (lookup f r)
  unfolding set_env lookup
  lookup-set_env k f [] merged c r at unique h = cc
  lookup-set_env k f ((key, name) ∷ table) merged c r at unique h =
      let (c', first, rest) = >>=-eq-some (set_raw rd name (lookup key merged) c) _ h in
      elim (Bool-cases (text_eq key k)) [
        | inl e ↦
            let same_key : key ≡ k = (text_eq_iff key k).0 e in
            let same_name : name ≡ f = ground arith in
            let raw = subst (λ q. set_raw rd name (lookup q merged) c ≡ some c') same_key first in
            let hit =
              lookup-set_raw f (lookup k merged) c c'
                (subst (λ n. set_raw rd n (lookup k merged) c ≡ some c') same_name raw) in
            let free = subst (λ n. is_named n table ≡ false) same_name unique.0 in
            hit ∙ ap some (sym (lookup-set_env_other f table merged c' r free rest))
        | inr e ↦
            let later : lookup k table ≡ some f = ground arith in
            let differ = unnamed name f table unique.0 (lookup-is_named k f table later) in
            let kept = lookup-set_raw_other f name (lookup key merged) c c' differ first in
            subst (λ o. env_value f (lookup k merged) o ≡ some (lookup f r)) kept
              (lookup-set_env k f table merged c' r later unique.1 rest)
      ]

  lookup-set_cli :
      (f : Text) (cli : Dict (Option (Value F))) (c : Dict (Value F))
      → HasUniqueKeys cli
      → lookup f (set_cli rd cli c) ≡ first_of (given (lookup f cli)) (lookup f c)
  unfolding set_cli lookup
  lookup-set_cli f [] c unique = refl
  lookup-set_cli f ((name, v) ∷ cli) c unique = ground (
    arith,
    text_eq_iff name f,
    lookup-set_given f name v c,
    lookup-set_cli f cli (set_given rd name v c) unique.1,
    unique.0,
  )

env_map-HasUniqueNames : HasUniqueNames env_map
unfolding text_eq
env_map-HasUniqueNames = ground arith

cli_map-HasUniqueKeys : {F : Type 0} (args : Flags F) → HasUniqueKeys (cli_map args)
unfolding lookup text_eq
cli_map-HasUniqueKeys args = ground arith

-- If the settings can be loaded, each field that a variable sets has: what the command line gives
-- for it, and else the value of the variable in the environment, or else in the file, if it has one
-- there that is not `None`, and else its default.
pub lookup-load_config :
    {F : Type 0} (rd : Reader F) (lines : List Text) (env : Dict Text) (args : Flags F)
    (cfg r : Dict (Value F)) (k f : Text)
    → lookup k env_map ≡ some f
    → load_config rd lines env args cfg ≡ some r
    → (v : Option (Value F)) × (env_value rd f
          (first_of (lookup k env) (lookup k (load_dotenv rd.is_space lines [])))
          (lookup f cfg)
        ≡ some v)
      × (lookup f r ≡ first_of (given (lookup f (cli_map args))) v)
unfolding load_config
lookup-load_config rd lines env args cfg r k f at h =
    let file = load_dotenv rd.is_space lines [] in
    let (c, set, cli) = >>=-eq-some (set_env rd env_map (merge env_map file env) cfg) _ h in
    let raw : lookup k (merge env_map file env) ≡ first_of (lookup k env) (lookup k file) =
      lookup-merge_known env_map file env k f at in
    (
      lookup f c,
      subst (λ o. env_value rd f o (lookup f cfg) ≡ some (lookup f c)) raw
          (lookup-set_env rd k f env_map (merge env_map file env) cfg c at env_map-HasUniqueNames
            set),
      ap (lookup f) (sym (some-injective _ _ cli))
          ∙ lookup-set_cli rd f (cli_map args) c (cli_map-HasUniqueKeys args),
    )
