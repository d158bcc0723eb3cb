-- ===== src/Mii/Access/Info.antt =====
-- The parts of a PHY identifier in net/miiphyutil.c.
use emac_driver.Common.{ℕ, ◌+◌, ◌*◌, ◌^◌, ◌<◌, ◌≡◌, refl, ◌∙◌, arith, bit_or, u32, ◌<<<◌, ◌>>>◌}
use emac_driver.Common.Bits.{bit_or-disjoint, bit_or_comm, bit_and-ones}
use emac_driver.Mii.Access.{split_id}

-- For two registers of 16 bits, the maker has 22 bits, the model 6 and the revision 4, and together
-- they are the 32 bits of the identifier.
pub split_id-bounds :
    (physid1 physid2 : ℕ)
    → physid1 < 2 ^ 16
    → physid2 < 2 ^ 16
    → ((split_id physid1 physid2).oui < 2 ^ 22)
      × ((split_id physid1 physid2).model < 2 ^ 6)
      × ((split_id physid1 physid2).rev < 2 ^ 4)
      × ((split_id physid1 physid2).oui * 1024
            + (split_id physid1 physid2).model * 16
            + (split_id physid1 physid2).rev
          ≡ physid1 * 2 ^ 16 + physid2)
unfolding split_id
split_id-bounds a b ha hb =
    let joined : bit_or b (u32 (a <<< 16)) ≡ a * 2 ^ 16 + b =
      let e : u32 (a <<< 16) ≡ a * 2 ^ 16 = omega arith in
      bit_or_comm b (u32 (a <<< 16)) ∙ rw e (bit_or-disjoint 16 a b hb) in
    let id = a * 2 ^ 16 + b in
    rw (joined, bit_and-ones 6 (id >>> 4) 0x3F refl, bit_and-ones 4 id 0xF refl) (omega arith)
