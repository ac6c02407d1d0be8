-- ===== src/Store/Open.antt =====
-- internal/store/store.go: the data source name that Open builds (dsn, isMemory).
use Prim.Native.Char.{code}
use sund.Prelude.{◌≡◌, refl, nat_eq, Bool, true, false, ◌&&◌, ◌||◌, String, ◌<>◌, ◌==◌}

-- strings.HasPrefix and strings.Contains
unfoldable pub has_prefix : String → String → Bool
has_prefix s String.[] = true
has_prefix String.[] (String.◌∷◌ d p) = false
has_prefix (String.◌∷◌ c s) (String.◌∷◌ d p) = nat_eq (code c) (code d) && has_prefix s p

unfoldable pub contains : String → String → Bool
unfolding has_prefix
contains String.[] part = has_prefix String.[] part
contains (String.◌∷◌ c s) part = has_prefix (String.◌∷◌ c s) part || contains s part

-- isMemory
unfoldable pub is_memory : String → Bool
unfolding contains
is_memory path = path == "" || path == ":memory:" || contains path ":memory:"

abbrev pub pragmas : String
pragmas = "_pragma=busy_timeout(5000)&_pragma=foreign_keys(1)"

-- dsn
unfoldable pub dsn : String → Bool → String
dsn path true = "file::memory:?" <> pragmas
dsn path false = "file:" <> (path <> ("?" <> (pragmas <> "&_pragma=journal_mode(WAL)")))

memory_found : is_memory "file:x:memory:" ≡ true
unfolding is_memory contains has_prefix
memory_found = refl
