-- ===== src/Env/Rows.antt =====
-- Which row of the environment `env_set` and `env_get` find.
use emac_driver.Common.{
  ℕ, zero, suc, ◌+◌, ◌≤◌, ◌<◌, ◌≡◌, ◌≢◌, refl, sym, subst, ◌∙◌, arith, List, [], ◌∷◌, true, false,
  ◌==◌, get_or, Bool-cases, inl, inr, ==→eq, eq→==,
}
use emac_driver.Text.{Text, IsText}
use emac_driver.Text.Laws.{strcmp_iff}
use emac_driver.Env.{matches, find_row}

pub find_row-le :
    (rounds idx : ℕ) (name : Text) (keys : List Text) → find_row rounds idx name keys ≤ idx + rounds
unfolding find_row
find_row-le zero idx name keys = omega arith
find_row-le (suc rounds) idx name keys = ground (arith, find_row-le rounds (idx + 1) name keys)

pub find_row-misses :
    (rounds idx j : ℕ) (name : Text) (keys : List Text)
    → idx ≤ j
    → j < find_row rounds idx name keys
    → matches name (get_or keys j []) ≡ false
unfolding find_row
find_row-misses zero idx j name keys h k = absurd (omega arith)
find_row-misses (suc rounds) idx j name keys h k =
    elim (Bool-cases (matches name (get_or keys idx []))) [
      | inl hit ↦ absurd (let k' : j < idx = rw hit at k in omega arith)
      | inr miss ↦
          let k' : j < find_row rounds (idx + 1) name keys = rw miss at k in
          elim (Bool-cases (j == idx)) [
            | inl e ↦
                subst (λ i. matches name (get_or keys i []) ≡ false) (sym (==→eq j idx e)) miss
            | inr ne ↦ find_row-misses rounds (idx + 1) j name keys (ground arith) k'
          ]
    ]

-- The first row that matches is the one found.
pub find_row-eq :
    (rounds idx row : ℕ) (name : Text) (keys : List Text)
    → idx ≤ row
    → row < idx + rounds
    → ((j : ℕ) → idx ≤ j → j < row → matches name (get_or keys j []) ≡ false)
    → matches name (get_or keys row []) ≡ true
    → find_row rounds idx name keys ≡ row
unfolding find_row
find_row-eq zero idx row name keys h k misses hit = absurd (omega arith)
find_row-eq (suc rounds) idx row name keys h k misses hit = elim (Bool-cases (idx == row)) [
  | inl e ↦
      let same : idx ≡ row = ==→eq idx row e in
      let hit' : matches name (get_or keys idx []) ≡ true =
        subst (λ i. matches name (get_or keys i []) ≡ true) (sym same) hit in
      rw hit' same
  | inr ne ↦
      let miss : matches name (get_or keys idx []) ≡ false =
        misses idx (omega arith) (ground arith) in
      rw miss (
        find_row-eq rounds (idx + 1) row name keys (ground arith) (omega arith)
          (λ j l m. misses j (omega arith) m) hit)
]

pub matches_self : (name : Text) → IsText name → name ≢ [] → matches name name ≡ true
unfolding matches
matches_self [] h ne = absurd (ne refl)
matches_self (c ∷ name) h ne = eq→== _ 0 ((strcmp_iff (c ∷ name) (c ∷ name) h h).1 refl)

matches-eq : (name key : Text) → IsText name → IsText key → matches name key ≡ true → name ≡ key
unfolding matches
matches-eq name [] h k e = cc
matches-eq name (c ∷ key) h k e = (strcmp_iff name (c ∷ key) h k).0 (==→eq _ 0 e)

pub find_row_none :
    (rounds idx : ℕ) (name : Text) (keys : List Text)
    → ((j : ℕ) → idx ≤ j → j < idx + rounds → matches name (get_or keys j []) ≡ false)
    → find_row rounds idx name keys ≡ idx + rounds
unfolding find_row
find_row_none zero idx name keys h = omega arith
find_row_none (suc rounds) idx name keys h = rw (h idx (omega arith) (omega arith)) (
    find_row_none rounds (idx + 1) name keys (λ j l m. h j (omega arith) (omega arith))
    ∙ omega arith)

pub matches_empty : (name : Text) → matches name [] ≡ false
unfolding matches
matches_empty name = refl

pub matches_other :
    (other name : Text) → IsText other → IsText name → other ≢ name → matches other name ≡ false
matches_other other name h k ne = elim (Bool-cases (matches other name)) [
  | inl hit ↦ absurd (ne (matches-eq other name h k hit))
  | inr miss ↦ miss
]
