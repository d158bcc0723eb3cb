-- ===== src/Tests/Formats.antt =====
-- The theorems on formatted output, and on addresses as text, at concrete inputs.
use emac_driver.Common.{
  ℕ, ◌+◌, ◌-◌, ◌^◌, ◌<◌, ◌≤◌, ◌≡◌, refl, List, [], ◌∷◌, Option, some, none, arith, length, u32, inl,
  true, ltb, if◌then◌else◌,
}
use emac_driver.Common.Buffer.{Buffer, IsBytes, of_list}
use emac_driver.Text.{Text}
use emac_driver.Text.Memory.{memcpy}
use emac_driver.Text.Memory.Laws.{moved, memcpy-moved}
use emac_driver.Env.{Env, initial, env_get}
use emac_driver.Env.Laws.{IsTable}
use emac_driver.Printf.Output.{Writer, Out, put, add_char}
use emac_driver.Printf.Format.{Arg, int, text}
use emac_driver.Printf.Convert.{vsnprintf_internal}
use emac_driver.Printf.Convert.Laws.{formatted, vsnprintf_internal-formatted}
use emac_driver.Printf.Convert.Rounds.{Runs, IsPrinted, print-Runs}
use emac_driver.Printf.Plain.{string_in}
use emac_driver.Address.{ip_to_string, string_to_ip}
use emac_driver.Address.Print.{string_to_ip-ip_to_string}
use emac_driver.Eth.{Eth}
use emac_driver.Eth.Enetaddr.{eth_env_get_enetaddr, eth_env_set_enetaddr}
use emac_driver.Eth.Enetaddr.Laws.{eth_env_get_enetaddr-eth_env_set_enetaddr}
use emac_driver.Eth.Enetaddr.Names.{eth_text, ethaddr_name, macskip_name}
use emac_driver.Eth.Hwaddr.{eth_write_hwaddr}
use emac_driver.Eth.Hwaddr.Choice.{IsChosen}
use emac_driver.Eth.Hwaddr.Laws.{IsTold, eth_write_hwaddr-IsChosen}
use emac_driver.Tests.Stations.{of_list-IsBytes, one_device, alice_ip}

-- "%5d.%#x%-4s|"
abbrev sample_format : Text
sample_format =
    b'%' ∷ b'5' ∷ b'd' ∷ b'.' ∷ b'%' ∷ b'#' ∷ b'x' ∷ b'%' ∷ b'-' ∷ b'4' ∷ b's' ∷ b'|' ∷ []

abbrev sample_args : List Arg
sample_args = int (2 ^ 32 - 42) ∷ int 0xabc ∷ text (some (b'h' ∷ b'i' ∷ [])) ∷ []

abbrev filler : Buffer
filler i = 7

abbrev result : Option (ℕ × Out) → ℕ × Out
result none = (0, record { memory = filler; str = 0; stored = [] })
result (some r) = r

abbrev sample_result : ℕ × Out
sample_result = result (vsnprintf_internal 4096 10 sample_format sample_args filler)

-- The text of 16 characters is cut after nine.
sample_cut :
    string_in 10 sample_result.1.memory
    ≡ b' ' ∷ b' ' ∷ b'-' ∷ b'4' ∷ b'2' ∷ b'.' ∷ b'0' ∷ b'x' ∷ b'a' ∷ []
unfolding vsnprintf_internal string_in put add_char
sample_cut = refl

sample_defined : vsnprintf_internal 4096 10 sample_format sample_args filler ≡ some sample_result
unfolding vsnprintf_internal
sample_defined = refl

vsnprintf_internal-formatted_example :
    (t : Text) × ((buf' size' : ℕ) (b' : Buffer)
      → buf' + size' < 2 ^ 64
      → (o : Out) × (vsnprintf_internal buf' size' sample_format sample_args b'
          ≡ some (u32 (length t), o))
        × ((i : ℕ) → o.memory i ≡ formatted t size' b' i))
vsnprintf_internal-formatted_example =
    vsnprintf_internal-formatted sample_format sample_args 4096 10 filler sample_result
      sample_defined

print-Runs_example :
    (m : ℕ) × (r : Option Writer) × (m ≤ length sample_format)
    × Runs m sample_format sample_args r
    × IsPrinted sample_format sample_args (length sample_format) r
print-Runs_example = print-Runs sample_format sample_args

abbrev station_mac : Buffer
station_mac = of_list (0x6a ∷ 0xe3 ∷ 0xd1 ∷ 0x16 ∷ 0xb0 ∷ 0x50 ∷ [])

station_mac-IsBytes : IsBytes station_mac
station_mac-IsBytes = of_list-IsBytes (0x6a ∷ 0xe3 ∷ 0xd1 ∷ 0x16 ∷ 0xb0 ∷ 0x50 ∷ []) (omega arith)

initial-IsTable : IsTable initial
initial-IsTable = record { key_rows = refl; val_rows = refl }

eth_env_get_enetaddr-eth_env_set_enetaddr_example :
    (e' : Env) × (eth_env_set_enetaddr 4096 filler (ethaddr_name 0) station_mac initial
      ≡ some (e', 0))
    × ((b : Buffer)
        → ((eth_env_get_enetaddr (ethaddr_name 0) b e').1 ≡ true)
          × ((j : ℕ)
              → (eth_env_get_enetaddr (ethaddr_name 0) b e').0 j
                ≡ (if ltb j 6 then station_mac j else b j)))
unfolding eth_env_get_enetaddr env_get
eth_env_get_enetaddr-eth_env_set_enetaddr_example =
    eth_env_get_enetaddr-eth_env_set_enetaddr 4096 filler station_mac (ethaddr_name 0) initial
      (omega arith) station_mac-IsBytes initial-IsTable (omega arith) (λ e. cc) (omega arith) refl
      refl

string_to_ip-ip_to_string_example :
    (s' : Buffer) × (ip_to_string 4096 alice_ip filler ≡ some s')
    × (string_to_ip (some (string_in 16 s')) ≡ alice_ip)
string_to_ip-ip_to_string_example =
    string_to_ip-ip_to_string 4096 alice_ip filler (omega arith) (omega arith)

memcpy-moved_example : memcpy 16 64 20 station_mac 30 ≡ moved 16 64 20 station_mac 30
memcpy-moved_example = memcpy-moved 16 64 20 station_mac 30 station_mac-IsBytes (inl (omega arith))

abbrev new_device : Eth
new_device = record one_device { device = λ d. record (one_device.device d) { enetaddr = λ i. 0 } }

eth_write_hwaddr-IsChosen_example :
    (e' : Eth) × (r : ℕ) × (eth_write_hwaddr 4096 filler
        (λ d. true)
        (λ d a. 0)
        1
        eth_text
        0
        new_device
      ≡ some (e', r))
    × IsChosen
        (eth_env_get_enetaddr (ethaddr_name 0) filler initial).0
        (λ i. 0)
        (e'.device 1).enetaddr
    × IsTold (λ d. true) (λ d a. 0) 1 (macskip_name 0) new_device e' r
unfolding eth_env_get_enetaddr env_get
eth_write_hwaddr-IsChosen_example =
    eth_write_hwaddr-IsChosen 4096 filler 1 0 new_device (omega arith) (omega arith) (λ d. true)
      (λ d a. 0) (λ i. omega arith) (inl refl) (inl refl)
