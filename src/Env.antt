-- ===== src/Env.antt =====
-- misc/nvedit.c: the environment, twenty rows of a key and a value, each in twenty bytes.
pub mod Rows
pub mod Laws
use emac_driver.Common.{
  ℕ, zero, suc, ◌+◌, ◌<◌, List, [], ◌∷◌, Option, none, some, Bool, ◌&&◌, not, ltb, ◌==◌,
  if◌then◌else◌, get_or, set, replicate, length,
}
use mathlib.Core.Option
use emac_driver.Text.{Text, strcmp}

pub record Env : Type 0 where
  pub keys : List Text
  pub vals : List Text

-- `static` rows are zero, so every key is empty at the start.
abbrev pub initial : Env
initial = record { keys = replicate 20 []; vals = replicate 20 [] }

abbrev pub is_empty : Text → Bool
is_empty [] = Bool.true
is_empty (c ∷ s) = Bool.false

-- `if (keys[idx][0]) if (strcmp(name, keys[idx]) == 0)`
unfoldable pub matches : Text → Text → Bool
unfolding strcmp
matches name key = not (is_empty key) && strcmp name key == 0

-- `for (; idx < idx + rounds; idx++)`: the first row that matches, or the index the loop ends at.
pub find_row : ℕ → ℕ → Text → List Text → ℕ
find_row zero idx name keys = idx
find_row (suc rounds) idx name keys =
    if matches name (get_or keys idx []) then idx else find_row rounds (idx + 1) name keys

-- `none` is a `strcpy` from NULL, or past the end of a row.
unfoldable pub env_set : Text → Option Text → Env → Option Env
unfolding find_row matches
env_set name none e = none
env_set name (some val) e =
    let idx = find_row 19 0 name e.keys in
    if ltb (length name) 20 && ltb (length val) 20
    then some (record { keys = set e.keys idx name; vals = set e.vals idx val })
    else none

-- `env_get` returns a pointer into `vals`: the row that it points to.
unfoldable pub env_get_row : Text → Env → Option ℕ
unfolding find_row matches
env_get_row name e = let idx = find_row 20 0 name e.keys in if ltb idx 20 then some idx else none

-- What the pointer points to now.
unfoldable pub env_get : Text → Env → Option Text
unfolding env_get_row
env_get name e = Option.map (λ idx. get_or e.vals idx []) (env_get_row name e)
