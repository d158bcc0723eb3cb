-- ===== src/Io/Laws.antt =====
-- What the hardware gets to see of a program's stores.
use emac_driver.Common.{
  ℕ, zero, suc, ◌+◌, ◌*◌, ◌≤◌, ◌<◌, ◌≡◌, ◌⊎◌, inl, inr, refl, Bool, ◌&&◌, [], ◌∷◌, ◌++◌, ap, Option,
  none, some, ltb, leb, ◌==◌, if◌then◌else◌, arith,
}
use emac_driver.Io.{
  Access, load, store, clean, discard, wipe, fetch, tick, History, cacheline_size, clean_lines,
  discard_lines, line_of, line_count,
}

-- The value last stored at an address.
unfoldable pub last_store : History → ℕ → Option ℕ
last_store [] a = none
last_store (store b v ∷ h) a = if b == a then some v else last_store h a
last_store (load b ∷ h) a = last_store h a
last_store (clean b ∷ h) a = last_store h a
last_store (discard b ∷ h) a = last_store h a
last_store (wipe b n ∷ h) a = if leb b a && ltb a (b + n) then some 0 else last_store h a
last_store (fetch b ∷ h) a = last_store h a
last_store (tick ∷ h) a = last_store h a

abbrev pub on_line : ℕ → ℕ → Bool
on_line b a = leb b a && ltb a (b + cacheline_size)

-- The value in memory: the last one stored at the address before its line was last written back.
unfoldable pub in_memory : History → ℕ → Option ℕ
unfolding last_store
in_memory [] a = none
in_memory (clean b ∷ h) a = if on_line b a then last_store h a else in_memory h a
in_memory (store b v ∷ h) a = in_memory h a
in_memory (load b ∷ h) a = in_memory h a
in_memory (discard b ∷ h) a = in_memory h a
in_memory (wipe b n ∷ h) a = in_memory h a
in_memory (fetch b ∷ h) a = in_memory h a
in_memory (tick ∷ h) a = in_memory h a

-- Writing lines back stores nothing.
pub last_store-clean_lines :
    (n i : ℕ) (h : History) (a : ℕ) → last_store (clean_lines n i h) a ≡ last_store h a
unfolding clean_lines last_store
last_store-clean_lines zero i h a = refl
last_store-clean_lines (suc n) i h a = last_store-clean_lines n (i + cacheline_size) (clean i ∷ h) a

pub last_store-discard_lines :
    (n i : ℕ) (h : History) (a : ℕ) → last_store (discard_lines n i h) a ≡ last_store h a
unfolding discard_lines last_store
last_store-discard_lines zero i h a = refl
last_store-discard_lines (suc n) i h a =
    last_store-discard_lines n (i + cacheline_size) (discard i ∷ h) a

pub in_memory-discard_lines :
    (n i : ℕ) (h : History) (a : ℕ) → in_memory (discard_lines n i h) a ≡ in_memory h a
unfolding discard_lines in_memory
in_memory-discard_lines zero i h a = refl
in_memory-discard_lines (suc n) i h a =
    in_memory-discard_lines n (i + cacheline_size) (discard i ∷ h) a

-- What is in memory as last stored stays so, whatever lines are written back.
pub clean_lines_keep :
    (n i : ℕ) (h : History) (a : ℕ)
    → in_memory h a ≡ last_store h a
    → in_memory (clean_lines n i h) a ≡ last_store h a
unfolding clean_lines in_memory last_store
clean_lines_keep zero i h a e = e
clean_lines_keep (suc n) i h a e =
    clean_lines_keep n (i + cacheline_size) (clean i ∷ h) a (ground (arith, e))

pub clean_lines_reach :
    (n i : ℕ) (h : History) (a : ℕ)
    → i ≤ a
    → a < i + n * cacheline_size
    → in_memory (clean_lines n i h) a ≡ last_store h a
unfolding clean_lines in_memory last_store
clean_lines_reach zero i h a l u = absurd (omega arith)
clean_lines_reach (suc n) i h a l u = elim (near a i) [
  | inl p ↦ clean_lines_keep n (i + cacheline_size) (clean i ∷ h) a (ground (arith, p, l))
  | inr p ↦ clean_lines_reach n (i + cacheline_size) (clean i ∷ h) a p (omega arith)
]
  where
    near : (a i : ℕ) → (a < i + 64) ⊎ (i + 64 ≤ a)
    near a i = ground arith

-- After `flush_dcache_range`, what was last stored in the range is in memory.
pub flush_reaches :
    (start end : ℕ) (h : History) (a : ℕ)
    → start ≤ a
    → a < end
    → in_memory (clean_lines (line_count start end) (line_of start) h) a ≡ last_store h a
flush_reaches start end h a l u =
    clean_lines_reach (line_count start end) (line_of start) h a (omega arith) (omega arith)

-- A history that goes on from another one.
abbrev pub Extends : History → History → Type 0
Extends h' h = (later : History) × (h' ≡ later ++ h)

pub Extends-cons : (a : Access) (h' h : History) → Extends h' h → Extends (a ∷ h') h
Extends-cons a h' h (later, e) = (a ∷ later, ap (λ (t : History). a ∷ t) e)

pub clean_lines-Extends : (n i : ℕ) (h' h : History) → Extends h' h → Extends (clean_lines n i h') h
unfolding clean_lines
clean_lines-Extends zero i h' h e = e
clean_lines-Extends (suc n) i h' h e =
    clean_lines-Extends n (i + cacheline_size) (clean i ∷ h') h (Extends-cons (clean i) h' h e)
