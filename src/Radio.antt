-- ===== src/Radio.antt =====
-- The radio backend of sdr-node/src/radio_sdr.h and radio_sdr.cpp: the command lines of lora_rx and
-- lora_tx and the outcome of a transmission here, the receiver's output in Reader, and the threads
-- that keep it alive in Supervisor.
pub mod Reader
pub mod Supervisor
use meshcore_open_sdr.Shared.{
  Bool, List, Option, [], false, none, some, true, ℕ, ◌%◌, ◌++◌, ◌+◌, ◌-◌, ◌^◌, ◌∷◌,
}
use meshcore_open_sdr.Shared.Decimal.{show_i32, show_nat}
use meshcore_open_sdr.Shared.Lists.{drop, length, take}
use meshcore_open_sdr.Shared.Tests.{if◌then◌else◌, ◌==◌}
use meshcore_open_sdr.Shared.Text.{Str, codes, is_empty}
use Prim.Native.Char.{code}

-- The words int and uint32_t are bit patterns; a double is a value of the parameter's type.
pub record RadioConfig (Real : Type 0) : Type 0 where
  pub rx_binary : Str
  pub rx_device : Str
  pub rx_channels : Str
  pub rx_sfs : Str
  pub bw : ℕ
  pub rx_ppm : ℕ
  pub rx_agc : Bool
  pub tx_binary : Str
  pub tx_freq : ℕ
  pub tx_sf : ℕ
  pub tx_cr : ℕ
  pub tx_ppm : ℕ
  pub tx_vga : ℕ
  pub tx_amp : Bool
  pub tx_duty : Real

-- `if (!value.empty()) { argv.push_back(flag); argv.push_back(value); }`
abbrev pub option_with : Str → Str → List Str
option_with flag value = if is_empty value then [] else flag ∷ value ∷ []

-- `std::to_string` of a double is a parameter.
module _ {Real : Type 0} (show_real : Real → Str) where
  unfoldable pub rx_argv : RadioConfig Real → List Str
  rx_argv cfg =
      (cfg.rx_binary ∷ [])
      ++ (option_with (codes "-C") cfg.rx_channels
          ++ (option_with (codes "-S") cfg.rx_sfs
              ++ ((codes "-b" ∷ show_nat cfg.bw ∷ codes "-p" ∷ show_i32 cfg.rx_ppm ∷ [])
                  ++ ((if cfg.rx_agc then codes "-G" ∷ codes "-T" ∷ [] else [])
                      ++ option_with (codes "-d") cfg.rx_device))))

  abbrev pub plain_tx_argv : RadioConfig Real → Str → List Str
  plain_tx_argv cfg hex =
      cfg.tx_binary
      ∷ codes "-f"
      ∷ show_nat cfg.tx_freq
      ∷ codes "-S"
      ∷ show_i32 cfg.tx_sf
      ∷ codes "-b"
      ∷ show_nat cfg.bw
      ∷ codes "-c"
      ∷ show_i32 cfg.tx_cr
      ∷ codes "-p"
      ∷ show_i32 cfg.tx_ppm
      ∷ codes "-g"
      ∷ show_i32 cfg.tx_vga
      ∷ codes "-y"
      ∷ show_real cfg.tx_duty
      ∷ codes "-x"
      ∷ hex
      ∷ []

  -- `argv.insert(argv.end() - 2, "-a")`
  unfoldable pub insert_before_two : Str → List Str → List Str
  insert_before_two s argv = take (length argv - 2) argv ++ (s ∷ drop (length argv - 2) argv)

  unfoldable pub tx_argv : RadioConfig Real → Str → List Str
  unfolding insert_before_two
  tx_argv cfg hex =
      if cfg.tx_amp
      then insert_before_two (codes "-a") (plain_tx_argv cfg hex)
      else plain_tx_argv cfg hex

-- How a child ended: with an exit code, or by a signal.
pub data ExitStatus : Type 0 where
  exited : ℕ → ExitStatus
  signalled : ℕ → ExitStatus

abbrev pub succeeded : ExitStatus → Bool
succeeded (exited code) = code == 0
succeeded (signalled s) = false

-- `transmit` behind the command line: `none` is a fork that failed. The count is a uint64_t.
unfoldable pub transmit : ℕ → Option ExitStatus → ℕ × Bool
transmit tx_count none = (tx_count, false)
transmit tx_count (some status) =
    if succeeded status then ((tx_count + 1) % 2 ^ 64, true) else (tx_count, false)
