-- ===== src/Tests/Base.antt =====
-- The theorems on checksums, numbers, texts and the environment, at concrete inputs.
use emac_driver.Common.{◌-◌, ◌≡◌, ◌↔◌, ◌⊎◌, refl, arith, [], ◌∷◌, some, none, true, set}
use emac_driver.Common.Buffer.{Buffer, IsBytes, store16, store16-IsBytes}
use emac_driver.Checksum.{sum_words, compute_ip_checksum, add_ip_checksums, ip_checksum_ok}
use emac_driver.Checksum.Sum.{weigh}
use emac_driver.Checksum.Fold.{ones_sum, compute_ip_checksum-ones_sum, ip_checksum_ok_iff}
use emac_driver.Checksum.Compose.{compute_ip_checksum-add}
use emac_driver.Checksum.Fill.{compute_ip_checksum-fill}
use emac_driver.Printf.Decimal.{put_dec}
use emac_driver.Printf.Decimal.Laws.{dec_digits, put_dec-dec_digits}
use emac_driver.Text.{Text, simple_strtoul}
use emac_driver.Printf.Decimal.Parse.{written_out, simple_strtoul-put_dec}
use emac_driver.Env.{Env, initial, env_set, env_get}
use emac_driver.Env.Laws.{start, env_get-env_set, env_get-env_set_other}
use emac_driver.Tests.Stations.{filled}

-- Two words that are not 0, at the offsets 0 and 4.
abbrev sample : Buffer
sample = store16 (store16 (filled 0) 0 0x45aa) 4 54321

sample-IsBytes : IsBytes sample
sample-IsBytes = store16-IsBytes 4 54321 (store16-IsBytes 0 0x45aa (λ i. omega arith))

compute_ip_checksum-ones_sum_example :
    compute_ip_checksum sample 0 7 ≡ 65535 - ones_sum (weigh true sample 0 7)
compute_ip_checksum-ones_sum_example =
    compute_ip_checksum-ones_sum sample 0 7 sample-IsBytes (omega arith)

ip_checksum_ok_iff_example :
    (ip_checksum_ok sample 0 6 ≡ true)
    ↔ ((ones_sum (sum_words sample 0 6 0) ≡ 65535) ⊎ (ones_sum (sum_words sample 0 6 0) ≡ 65534))
ip_checksum_ok_iff_example = ip_checksum_ok_iff sample 0 6 sample-IsBytes (omega arith)

compute_ip_checksum-fill_example :
    ip_checksum_ok (store16 sample 2 (compute_ip_checksum sample 0 6)) 0 6 ≡ true
compute_ip_checksum-fill_example =
    compute_ip_checksum-fill sample 0 6 2 sample-IsBytes (omega arith) refl (omega arith) refl refl

compute_ip_checksum-add_example :
    compute_ip_checksum sample 0 8
    ≡ add_ip_checksums 5 (compute_ip_checksum sample 0 5) (compute_ip_checksum sample 5 3)
compute_ip_checksum-add_example = compute_ip_checksum-add sample 0 5 3 sample-IsBytes (omega arith)

put_dec-dec_digits_example : put_dec 1234567890123 ≡ dec_digits 20 1234567890123
put_dec-dec_digits_example = put_dec-dec_digits 1234567890123 (omega arith)

abbrev ip_name : Text
ip_name = b'i' ∷ b'p' ∷ []

abbrev mac_name : Text
mac_name = b'm' ∷ []

-- The environment after `env_set("ip", "m")`.
abbrev with_ip : Env
with_ip = record { keys = set initial.keys 19 ip_name; vals = set initial.vals 19 mac_name }

ip_set : env_set ip_name (some mac_name) initial ≡ some with_ip
unfolding env_set
ip_set = refl

env_get-env_set_example : env_get ip_name with_ip ≡ some mac_name
env_get-env_set_example =
    env_get-env_set ip_name mac_name initial with_ip (record { key_rows = refl; val_rows = refl })
      (omega arith, omega arith, (omega arith, omega arith, tt)) (λ e. ground (arith, e)) ip_set

env_get-env_set_other_example : env_get mac_name with_ip ≡ none
env_get-env_set_other_example =
    env_get-env_set_other ip_name mac_name mac_name initial with_ip (start initial refl)
      (omega arith, omega arith, (omega arith, omega arith, tt)) (omega arith, omega arith, tt)
      (λ e. ground (arith, e)) ip_set

simple_strtoul-put_dec_example :
    simple_strtoul (written_out (put_dec 4071) (b'.' ∷ [])) 10 ≡ (4071, b'.' ∷ [])
simple_strtoul-put_dec_example = simple_strtoul-put_dec 4071 (b'.' ∷ []) (omega arith) refl
