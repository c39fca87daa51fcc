-- ===== src/Audit/Engine.antt =====
-- packages/audit/db.py: `get_engine` and `get_sessionmaker`, with the caches of `lru_cache`.
use Prim.Native.Char.{code}
use Prim.Native.String as Str
use nervora.Base.{
  ℕ, zero, suc, String, Bool, true, false, Option, none, some, List, [], ◌∷◌, ◌==◌, ◌&&◌, nat_eq,
  if◌then◌else◌,
}
use nervora.Json.{bool, Dict, end, entry}

-- The calls that are cached, by their argument, the latest use first.
abbrev pub Cache : (A : Type 0) → Type 0
Cache A = List (String × A)

abbrev pub take : {A : Type 0} → ℕ → List A → List A
take zero xs = []
take (suc n) [] = []
take (suc n) (x ∷ xs) = x ∷ take n xs

unfoldable pub cached : {A : Type 0} → String → Cache A → Option A
cached k [] = none
cached k ((j, a) ∷ c) = if j == k then some a else cached k c

unfoldable pub without : {A : Type 0} → String → Cache A → Cache A
without k [] = []
without k ((j, a) ∷ c) = let rest = without k c in if j == k then rest else (j, a) ∷ rest

-- `maxsize` of `lru_cache`
abbrev pub max_size : ℕ
max_size = 128

-- A call of a cached function that makes a value from the argument and a state.
unfoldable pub cached_call :
    {A S : Type 0} → (String → S → A × S) → String → Cache A × S → A × (Cache A × S)
unfolding cached without
cached_call make k (c, s) = elim (cached k c) [
  | some a ↦ (a, ((k, a) ∷ without k c, s))
  | none ↦ let (a, s') = make k s in (a, (take max_size ((k, a) ∷ c), s'))
]

-- `s.startswith(prefix)`
unfoldable pub begins : String → String → Bool
begins s Str.[] = true
begins Str.[] (Str.◌∷◌ d prefix) = false
begins (Str.◌∷◌ c s) (Str.◌∷◌ d prefix) = nat_eq (code c) (code d) && begins s prefix

-- An engine of SQLAlchemy, by its arguments and how many were made before it.
pub record Engine : Type 0 where
  pub database_url : String
  pub connect_args : Dict
  pub number : ℕ

unfoldable pub create_engine : String → ℕ → Engine × ℕ
unfolding begins
create_engine database_url made = (
  record {
    database_url = database_url;
    connect_args =
        if begins database_url "sqlite" then entry "check_same_thread" (bool false) end else end;
    number = made;
  },
  suc made,
)

-- The engines of a process and how many it has made.
abbrev pub Engines : Type 0
Engines = Cache Engine × ℕ

unfoldable pub get_engine : String → Engines → Engine × Engines
unfolding cached_call create_engine
get_engine database_url s = cached_call create_engine database_url s

pub record Sessionmaker : Type 0 where
  pub bind : Engine

unfoldable pub make_sessionmaker : String → Engines → Sessionmaker × Engines
unfolding get_engine
make_sessionmaker database_url s =
    let (e, s') = get_engine database_url s in (record { bind = e }, s')

abbrev pub Sessionmakers : Type 0
Sessionmakers = Cache Sessionmaker × Engines

unfoldable pub get_sessionmaker : String → Sessionmakers → Sessionmaker × Sessionmakers
unfolding cached_call make_sessionmaker
get_sessionmaker database_url s = cached_call make_sessionmaker database_url s
