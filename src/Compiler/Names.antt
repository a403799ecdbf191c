-- ===== src/Compiler/Names.antt =====
-- The texts that workflow/compiler.go accepts: identifiers, and actions that are not blank.
use ai_workload_platform.Common.{
  leb, ◌==◌, length, ℕ, String, Bool, true, ◌&&◌, ◌||◌, List, [], ◌∷◌,
}
use Prim.Native.Char.{code}

-- The code points of a text.
abbrev pub codes : String → List ℕ
codes String.[] = []
codes (String.◌∷◌ c s) = code c ∷ codes s

-- The class `[a-z0-9_-]`.
unfoldable pub is_identifier_code : ℕ → Bool
is_identifier_code c = (leb 97 c && leb c 122) || ((leb 48 c && leb c 57) || (c == 95 || c == 45))

unfoldable pub all_identifier : List ℕ → Bool
unfolding is_identifier_code
all_identifier [] = true
all_identifier (c ∷ cs) = is_identifier_code c && all_identifier cs

-- `identifierPattern`.
unfoldable pub is_identifier : String → Bool
unfolding all_identifier
is_identifier s = let cs = codes s in leb 1 (length cs) && (leb (length cs) 64 && all_identifier cs)

-- The white space that `strings.TrimSpace` cuts off.
unfoldable pub is_space : ℕ → Bool
is_space c =
    (leb 9 c && leb c 13)
    || ((c == 32 || (c == 133 || (c == 160 || c == 5760)))
        || ((leb 8192 c && leb c 8202)
            || (c == 8232 || (c == 8233 || (c == 8239 || (c == 8287 || c == 12288))))))

unfoldable pub all_space : List ℕ → Bool
unfolding is_space
all_space [] = true
all_space (c ∷ cs) = is_space c && all_space cs

-- `strings.TrimSpace(text) == ""`
unfoldable pub is_blank : String → Bool
unfolding all_space
is_blank s = all_space (codes s)
