-- ===== src/Eth/Enetaddr/Laws.antt =====
-- An Ethernet address that is put into the environment is the one that is read from it.
use emac_driver.Common.{
  ℕ, zero, suc, ◌+◌, ◌^◌, ◌-◌, ◌<◌, ◌≡◌, ◌≢◌, refl, ap, ◌∙◌, arith, [], ◌∷◌, ◌++◌, some, Bool, true,
  false, not, ◌&&◌, ◌==◌, if◌then◌else◌, length, lt→ltb, leb, ltb, ne→==, ==→eq, ltb→lt, Bool-cases,
  inl, inr,
}
use emac_driver.Common.Buffer.{Buffer, IsBytes, store8, window}
use emac_driver.Text.{Text, IsText}
use emac_driver.Env.{Env, env_get}
use emac_driver.Env.Laws.{IsTable, env_set-fits, env_get-env_set}
use emac_driver.Printf.Format.{rest}
use emac_driver.Printf.Pointer.{mac_bytes}
use emac_driver.Printf.Mac.{Stops16, mac_text, sprintf_local-mac, simple_strtoul-hex_byte_pack}
use emac_driver.Eth.Ethaddr.{is_valid_ethaddr}
use emac_driver.Eth.Enetaddr.{
  parse_bytes, eth_parse_enetaddr, eth_env_get_enetaddr, eth_env_set_enetaddr,
}

-- What stands behind a byte.
abbrev behind : ℕ → Buffer → Text
behind k a = (if not (k == 0) then b':' ∷ [] else []) ++ mac_bytes false (window a 1) k

behind-Stops16 : (k : ℕ) (a : Buffer) → Stops16 (behind k a)
unfolding mac_bytes
behind-Stops16 zero a = tt
behind-Stops16 (suc k) a = rw (ne→== (suc k) 0 (λ e. omega (arith, e))) refl

rest-behind : (k : ℕ) (a : Buffer) → rest (behind k a) ≡ mac_bytes false (window a 1) k
unfolding mac_bytes
rest-behind zero a = refl
rest-behind (suc k) a = rw (ne→== (suc k) 0 (λ e. omega (arith, e))) refl

parse_bytes-suc :
    (k i : ℕ) (a b : Buffer)
    → IsBytes a
    → parse_bytes (suc k) i (mac_bytes false a (suc k)) b
      ≡ parse_bytes k (i + 1) (mac_bytes false (window a 1) k) (store8 b i (a 0))
unfolding parse_bytes mac_bytes
parse_bytes-suc k i a b h =
    rw (simple_strtoul-hex_byte_pack (a 0) (behind k a) (h 0) (behind-Stops16 k a))
      (ap (λ s. parse_bytes k (i + 1) s (store8 b i (a 0))) (rest-behind k a))

parse_bytes-mac_bytes :
    (k i : ℕ) (a b : Buffer)
    → IsBytes a
    → (j : ℕ)
    → parse_bytes k i (mac_bytes false a k) b j
      ≡ (if leb i j && ltb j (i + k) then a (j - i) else b j)
parse_bytes-mac_bytes zero i a b h j = unfold parse_bytes in ground arith
parse_bytes-mac_bytes (suc k) i a b h j =
    ap (λ (c : Buffer). c j) (parse_bytes-suc k i a b h)
    ∙ parse_bytes-mac_bytes k (i + 1) (window a 1) (store8 b i (a 0)) (λ m. h (1 + m)) j
    ∙ stored
  where
    stored :
        (if leb (i + 1) j && ltb j (i + 1 + k)
          then window a 1 (j - (i + 1))
          else store8 b i (a 0) j)
        ≡ (if leb i j && ltb j (i + suc k) then a (j - i) else b j)
    stored = elim (Bool-cases (j == i)) [
      | inl e ↦ rw (==→eq j i e) (ground (arith, h 0, ap a {x = i - i} {y = 0} (omega arith)))
      | inr e ↦ elim (Bool-cases (ltb i j)) [
        | inl l ↦
            ground (arith, ap a {x = 1 + (j - (i + 1))} {y = j - i} (omega (arith, ltb→lt i j l)))
        | inr l ↦ ground arith
      ]
    ]

-- Reading the text of an address gives its six bytes.
pub eth_parse_enetaddr-mac_text :
    (a b : Buffer) (j : ℕ)
    → IsBytes a
    → eth_parse_enetaddr (some (mac_text a)) b j ≡ (if ltb j 6 then a j else b j)
unfolding eth_parse_enetaddr
eth_parse_enetaddr-mac_text a b j h = parse_bytes-mac_bytes 6 0 a b h j ∙ ground arith

pub valid_same :
    (a b : Buffer) → ((j : ℕ) → j < 6 → b j ≡ a j) → is_valid_ethaddr b ≡ is_valid_ethaddr a
unfolding is_valid_ethaddr
valid_same a b same =
    rw
      (
        same 0 (omega arith),
        same 1 (omega arith),
        same 2 (omega arith),
        same 3 (omega arith),
        same 4 (omega arith),
        same 5 (omega arith),
      )
      refl

read_back :
    (name : Text) (a b : Buffer) (e : Env)
    → IsBytes a
    → is_valid_ethaddr a ≡ true
    → env_get name e ≡ some (mac_text a)
    → ((eth_env_get_enetaddr name b e).1 ≡ true)
      × ((j : ℕ) → (eth_env_get_enetaddr name b e).0 j ≡ (if ltb j 6 then a j else b j))
unfolding eth_env_get_enetaddr
read_back name a b e bytes valid found =
    let same : (j : ℕ) → eth_parse_enetaddr (env_get name e) b j ≡ (if ltb j 6 then a j else b j) =
      λ j. rw found (eth_parse_enetaddr-mac_text a b j bytes) in
    (
      valid_same a (eth_parse_enetaddr (env_get name e) b)
            (λ j h. same j ∙ ap (λ (t : Bool). if t then a j else b j) (lt→ltb j 6 h))
          ∙ valid,
      same,
    )

-- Setting an address is no fault where the name fits.
pub eth_env_set_enetaddr-defined :
    (place : ℕ) (old a : Buffer) (name : Text) (e : Env)
    → place < 2 ^ 63
    → IsBytes a
    → length name < 20
    → (r : Env × ℕ) × (eth_env_set_enetaddr place old name a e ≡ some r)
unfolding eth_env_set_enetaddr
eth_env_set_enetaddr-defined place old a name e low bytes fits =
    let set_it = env_set-fits name (mac_text a) e fits (omega arith) in
    elim (Bool-cases (eth_env_get_enetaddr name old e).1) [
      | inl f ↦ rw f ((e, 2 ^ 32 - 17), refl)
      | inr f ↦
          rw
            (
              f,
              sprintf_local-mac place place (eth_env_get_enetaddr name old e).0 a low bytes,
              set_it.1,
            )
            ((set_it.0, 0), refl)
    ]

-- A valid address that is set, under a non-empty name that fits and has no valid address yet, is the
-- one that is read afterwards, and is valid; 0 is returned. The text of the address fits into the buffer
-- and into the row.
pub eth_env_get_enetaddr-eth_env_set_enetaddr :
    (place : ℕ) (old a : Buffer) (name : Text) (e : Env)
    → place < 2 ^ 63
    → IsBytes a
    → IsTable e
    → IsText name
    → name ≢ []
    → length name < 20
    → is_valid_ethaddr a ≡ true
    → (eth_env_get_enetaddr name old e).1 ≡ false
    → (e' : Env) × (eth_env_set_enetaddr place old name a e ≡ some (e', 0))
      × ((b : Buffer)
          → ((eth_env_get_enetaddr name b e').1 ≡ true)
            × ((j : ℕ) → (eth_env_get_enetaddr name b e').0 j ≡ (if ltb j 6 then a j else b j)))
unfolding eth_env_set_enetaddr
eth_env_get_enetaddr-eth_env_set_enetaddr place old a name e low bytes table text ne fits valid
      unset =
    let set_it = env_set-fits name (mac_text a) e fits (omega arith) in
    (
      set_it.0,
      rw
          (
            unset,
            sprintf_local-mac place place (eth_env_get_enetaddr name old e).0 a low bytes,
            set_it.1,
          )
          refl,
      λ b.
          read_back name a b set_it.0 bytes valid
            (env_get-env_set name (mac_text a) e set_it.0 table text ne set_it.1),
    )
