-- ===== src/Store/Directory.antt =====
-- The directory of workflow/filestore/store.go: one file for each run, found by the run's id.
use ai_workload_platform.Common.{
  ◌==◌, if◌then◌else◌, String, ◌≡◌, refl, Bool, false, not, ◌&&◌, ◌||◌, Option, none, some, List,
  [], ◌∷◌, arith, eq_iff, str_eq,
}
use Prim.Native.Char.{code}

-- The path `id + ".json"` of a valid id names one file; it is kept under the id, with its text.
abbrev pub Files : Type 0
Files = List (String × String)

abbrev pub read_file : Files → String → Option String
read_file [] id = none
read_file ((other, text) ∷ files) id = if str_eq other id then some text else read_file files id

unfoldable pub replace_file : Files → String → String → Files
replace_file [] id text = (id, text) ∷ []
replace_file ((other, before) ∷ files) id text =
    if str_eq other id then (id, text) ∷ files else (other, before) ∷ replace_file files id text

-- `strings.ContainsAny(value, "/\\")`
abbrev pub has_separator : String → Bool
has_separator String.[] = false
has_separator (String.◌∷◌ c s) = (code c == 47 || code c == 92) || has_separator s

-- The check of `path`.
unfoldable pub is_run_id : String → Bool
is_run_id id =
    not (str_eq id "") && (not (has_separator id) && (not (str_eq id ".") && not (str_eq id "..")))

pub read_file-replace_file :
    (files : Files) (id other text : String)
    → read_file (replace_file files id text) other
      ≡ (if str_eq id other then some text else read_file files other)
unfolding replace_file
read_file-replace_file [] id other text = refl
read_file-replace_file ((k, before) ∷ files) id other text = ground (
  arith,
  eq_iff id other,
  eq_iff k id,
  eq_iff k other,
  read_file-replace_file files id other text,
)
