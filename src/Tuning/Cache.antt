-- ===== src/Tuning/Cache.antt =====
-- crusoe-managed-finetuning-example/src/path_cache.py: a file that keeps what was fetched. Times
-- are ticks. Writing the file is taken to succeed.
use solutions_library.Prelude.{
  ℕ, ◌+◌, ◌≤◌, ◌≡◌, ◌≢◌, refl, sym, ap, ◌∙◌, Option-cases, inl, inr, Bool, true, false, Option,
  none, some, ltb, if◌then◌else◌, arith,
}
use solutions_library.Prelude.Text.{Text}
use solutions_library.Prelude.Json.{Json, null}
use solutions_library.Prelude.Options.{◌>>=◌}

-- `json.loads`, where `none` is the `JSONDecodeError`, and `json.dumps`.
pub record Codec : Type 0 where
  pub loads : Text → Option Json
  pub dumps : Json → Text

-- A file: what `read_text` gives, where `none` is the `OSError`, and the time of its last change.
pub record File : Type 0 where
  pub read_text : Option Text
  pub st_mtime : ℕ

-- The end of a call of `load`: the file, what is returned, where `none` is the `CacheMissError`,
-- and whether `fetch` was called.
pub record Loaded : Type 0 where
  pub file : Option File
  pub result : Option Json
  pub fetched : Bool

-- `None`, which `load` does not tell from a file that is missing.
unfoldable pub not_none : Json → Option Json
not_none null = none
not_none v = some v

module _ (codec : Codec) where
  unfoldable pub read_any : Option File → Option Json
  read_any none = none
  read_any (some f) = do content ← f.read_text; value ← codec.loads content; not_none value

  unfoldable pub read_fresh : ℕ → ℕ → Option File → Option Json
  read_fresh ttl_seconds now none = none
  read_fresh ttl_seconds now (some f) =
      if ltb (f.st_mtime + ttl_seconds) now then none else read_any (some f)

  unfoldable pub write : ℕ → Json → File
  write now value = record { read_text = some (codec.dumps value); st_mtime = now }

  -- The part of `load` behind a cache that is not fresh; `none` is an exception of `fetch`.
  unfoldable pub refresh : ℕ → Option File → Option Json → Loaded
  refresh now file none = record { file = file; result = read_any file; fetched = true }
  refresh now file (some value) = record {
    file = some (write now value);
    result = some value;
    fetched = true;
  }

  -- `load` behind the reading of a fresh cache.
  unfoldable pub load_from : Option Json → ℕ → Option File → Option Json → Loaded
  load_from (some value) now file fetch = record {
    file = file;
    result = some value;
    fetched = false;
  }
  load_from none now file fetch = refresh now file fetch

  -- What `fetch` would give is an argument; `now` is the time of both the check and the writing.
  unfoldable pub load : ℕ → ℕ → Option File → Option Json → Loaded
  load ttl_seconds now file fetch = load_from (read_fresh ttl_seconds now file) now file fetch

not_none-some : (v : Json) → v ≢ null → not_none v ≡ some v
unfolding not_none
not_none-some null h = absurd (h refl)
not_none-some (Json.bool b) h = refl
not_none-some (Json.num n) h = refl
not_none-some (Json.str s) h = refl
not_none-some (Json.arr xs) h = refl
not_none-some (Json.obj fs) h = refl

read_any-write :
    (codec : Codec) (now : ℕ) (v : Json)
    → ((v : Json) → codec.loads (codec.dumps v) ≡ some v)
    → v ≢ null
    → read_any codec (some (write codec now v)) ≡ some v
unfolding read_any write
read_any-write codec now v survive some_value = rw (survive v) (not_none-some v some_value)

read_fresh-write :
    (codec : Codec) (ttl now later : ℕ) (v : Json)
    → ltb (now + ttl) later ≡ false
    → read_fresh codec ttl later (some (write codec now v))
      ≡ read_any codec (some (write codec now v))
unfolding read_fresh write
read_fresh-write codec ttl now later v lives = rw lives refl

load_eq :
    (codec : Codec) (ttl now : ℕ) (file : Option File) (fetch : Option Json) (o : Option Json)
    → read_fresh codec ttl now file ≡ o
    → load codec ttl now file fetch ≡ load_from codec o now file fetch
unfolding load
load_eq codec ttl now file fetch o e = ap (λ p. load_from codec p now file fetch) e

-- If JSON values survive being written, a value that was fetched where there was no fresh cache,
-- and is not `null`, is what every later call gives for as long as the cache lives, without
-- fetching and without changing the file.
pub load-load :
    (codec : Codec) (ttl_seconds now later : ℕ) (file : Option File) (v : Json)
    (fetch : Option Json)
    → ((v : Json) → codec.loads (codec.dumps v) ≡ some v)
    → v ≢ null
    → read_fresh codec ttl_seconds now file ≡ none
    → later ≤ now + ttl_seconds
    → load codec ttl_seconds later (load codec ttl_seconds now file (some v)).file fetch ≡ record {
      file = (load codec ttl_seconds now file (some v)).file;
      result = some v;
      fetched = false;
    }
unfolding load_from refresh
load-load codec ttl now later file v fetch survive some_value stale soon =
    let first = load_eq codec ttl now file (some v) none stale in
    let lives : ltb (now + ttl) later ≡ false = ground arith in
    let again : read_fresh codec ttl later (some (write codec now v)) ≡ some v =
      read_fresh-write codec ttl now later v lives
      ∙ read_any-write codec now v survive some_value in
    rw first (load_eq codec ttl later (some (write codec now v)) fetch (some v) again)

read_fresh-read_any :
    (codec : Codec) (ttl now : ℕ) (file : Option File) (v : Json)
    → read_fresh codec ttl now file ≡ some v
    → read_any codec file ≡ some v
unfolding read_fresh
read_fresh-read_any codec ttl now none v h = absurd (ground arith)
read_fresh-read_any codec ttl now (some f) v h = ground arith

-- Where the value cannot be fetched, the call gives what the file holds, however old it is, and
-- raises where the file holds no value; the file stays as it is.
pub load_unfetched :
    (codec : Codec) (ttl_seconds now : ℕ) (file : Option File)
    → ((load codec ttl_seconds now file none).file ≡ file)
      × ((load codec ttl_seconds now file none).result ≡ read_any codec file)
unfolding load_from refresh
load_unfetched codec ttl now file = elim (Option-cases (read_fresh codec ttl now file)) [
  | inl e ↦ rw (load_eq codec ttl now file none none e) (refl, refl)
  | inr (v, e) ↦
      rw (load_eq codec ttl now file none (some v) e)
        (refl, sym (read_fresh-read_any codec ttl now file v e))
]
