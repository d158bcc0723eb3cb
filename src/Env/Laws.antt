-- ===== src/Env/Laws.antt =====
-- What a variable reads as after it, or another, was set.
use emac_driver.Common.{
  ℕ, zero, suc, ◌+◌, ◌≤◌, ◌<◌, ◌≡◌, ◌≢◌, refl, ap, sym, subst, ◌∙◌, arith, [], none, some, false,
  ◌==◌, length, get_or, set, replicate, length-set, get_or-set_self, get_or-set_ne, Bool-cases, inl,
  inr, lt→ltb, ==→eq,
}
use emac_driver.Text.{Text, IsText}
use emac_driver.Env.{Env, initial, matches, find_row, env_set, env_get}
use emac_driver.Env.Rows.{
  find_row-le, find_row-misses, find_row-eq, matches_self, find_row_none, matches_empty,
  matches_other,
}

-- The rows are there.
pub record IsTable (e : Env) : Type 0 where
  pub key_rows : length e.keys ≡ 20
  pub val_rows : length e.vals ≡ 20

abbrev written : Text → Text → Env → ℕ → Env
written name val e idx = record { keys = set e.keys idx name; vals = set e.vals idx val }

env_set-eq :
    (name val : Text) (e e' : Env)
    → env_set name (some val) e ≡ some e'
    → e' ≡ written name val e (find_row 19 0 name e.keys)
unfolding env_set
env_set-eq name val e e' done = ground arith

-- A name and a value that fit into their rows are set.
pub env_set-fits :
    (name val : Text) (e : Env)
    → length name < 20
    → length val < 20
    → (e' : Env) × (env_set name (some val) e ≡ some e')
unfolding env_set
env_set-fits name val e h k = (
  written name val e (find_row 19 0 name e.keys),
  rw (lt→ltb (length name) 20 h, lt→ltb (length val) 20 k) refl,
)

env_get-found :
    (name : Text) (e : Env) (row : ℕ)
    → row < 20
    → find_row 20 0 name e.keys ≡ row
    → env_get name e ≡ some (get_or e.vals row [])
unfolding env_get
env_get-found name e row small found = rw (found, lt→ltb row 20 small)

env_get-written :
    (name val : Text) (e : Env)
    → IsTable e
    → IsText name
    → name ≢ []
    → env_get name (written name val e (find_row 19 0 name e.keys)) ≡ some val
env_get-written name val e table text ne =
    env_get-found name (written name val e row) row (omega (arith, row-le)) found
    ∙ ap some (get_or-set_self e.vals row val [] (omega (arith, row-le, table.val_rows)))
  where
    row : ℕ
    row = find_row 19 0 name e.keys

    row-le : row ≤ 0 + 19
    row-le = find_row-le 19 0 name e.keys

    found : find_row 20 0 name (set e.keys row name) ≡ row
    found =
        find_row-eq 20 0 row name (set e.keys row name) (omega arith) (omega (arith, row-le))
          (λ j l m.
            rw (get_or-set_ne e.keys row j name [] (omega arith))
              (find_row-misses 19 0 j name e.keys l m))
          (rw (get_or-set_self e.keys row name [] (omega (arith, row-le, table.key_rows)))
            (matches_self name text ne))

-- A variable with a non-empty name, which holds no NUL, reads as the text that it was set to, in an
-- environment that has its 20 rows of names and of values.
pub env_get-env_set :
    (name val : Text) (e e' : Env)
    → IsTable e
    → IsText name
    → name ≢ []
    → env_set name (some val) e ≡ some e'
    → env_get name e' ≡ some val
env_get-env_set name val e e' table text ne done =
    rw (env_set-eq name val e e' done) (env_get-written name val e table text ne)

-- What every environment looks like that was built by `env_set`: only the last row is used.
pub record OnlyLast (e : Env) : Type 0 where
  pub table : IsTable e
  pub unused : (j : ℕ) → j < 19 → get_or e.keys j [] ≡ []

initial-OnlyLast : OnlyLast initial
initial-OnlyLast = record {
  table = record { key_rows = refl; val_rows = refl };
  unused = λ j h. empty_rows 20 j;
}
  where
    empty_rows : (n j : ℕ) → get_or {A = Text} (replicate n []) j [] ≡ []
    empty_rows zero j = refl
    empty_rows (suc n) zero = refl
    empty_rows (suc n) (suc j) = empty_rows n j

last_row : (name : Text) (e : Env) → OnlyLast e → find_row 19 0 name e.keys ≡ 19
last_row name e h = find_row_none 19 0 name e.keys (λ j l m. rw (h.unused j m) (matches_empty name))

written-OnlyLast : (name val : Text) (e : Env) → OnlyLast e → OnlyLast (written name val e 19)
written-OnlyLast name val e h = record {
  table = record {
    key_rows = length-set e.keys 19 name ∙ h.table.key_rows;
    val_rows = length-set e.vals 19 val ∙ h.table.val_rows;
  };
  unused = λ j m. get_or-set_ne e.keys 19 j name [] (omega arith) ∙ h.unused j m;
}

env_set-OnlyLast :
    (name val : Text) (e e' : Env)
    → OnlyLast e
    → env_set name (some val) e ≡ some e'
    → OnlyLast e' × (e' ≡ written name val e 19)
env_set-OnlyLast name val e e' h done =
    let at : e' ≡ written name val e 19 =
      env_set-eq name val e e' done ∙ ap (written name val e) (last_row name e h) in
    (rw at (written-OnlyLast name val e h), at)

-- The environments that the program can have: zero rows, and then calls of `env_set`.
pub data Reachable : Env → Type 0 where
  start : (e : Env) → e ≡ initial → Reachable e
  set_var :
      (name val : Text) (e e' : Env)
      → Reachable e
      → env_set name (some val) e ≡ some e'
      → Reachable e'

Reachable-OnlyLast : {e : Env} → Reachable e → OnlyLast e
Reachable-OnlyLast (start e same) = rw same initial-OnlyLast
Reachable-OnlyLast (set_var name val e e' r done) =
    (env_set-OnlyLast name val e e' (Reachable-OnlyLast r) done).0

env_get-missing : (name : Text) (e : Env) → find_row 20 0 name e.keys ≡ 20 → env_get name e ≡ none
unfolding env_get
env_get-missing name e h = rw h

-- Setting a variable loses every other one: in an environment that the program can reach,
-- whatever was set before, a variable of another name reads as NULL after an `env_set`.
pub env_get-env_set_other :
    (name val other : Text) (e e' : Env)
    → Reachable e
    → IsText name
    → IsText other
    → other ≢ name
    → env_set name (some val) e ≡ some e'
    → env_get other e' ≡ none
env_get-env_set_other name val other e e' r text text' ne done =
    rw (env_set-OnlyLast name val e e' h done).1 (
      env_get-missing other (written name val e 19)
        (find_row_none 20 0 other (set e.keys 19 name) (λ j l m. misses j m)))
  where
    h : OnlyLast e
    h = Reachable-OnlyLast r

    misses : (j : ℕ) → j < 20 → matches other (get_or (set e.keys 19 name) j []) ≡ false
    misses j m = elim (Bool-cases (j == 19)) [
      | inl at ↦
          subst (λ i. matches other (get_or (set e.keys 19 name) i []) ≡ false)
            (sym (==→eq j 19 at))
            (rw (get_or-set_self e.keys 19 name [] (omega (arith, h.table.key_rows)))
              (matches_other other name text' text ne))
      | inr off ↦
          rw (get_or-set_ne e.keys 19 j name [] (ground arith))
            (rw (h.unused j (ground arith)) (matches_empty other))
    ]
