-- ===== src/Tests/Starts.antt =====
-- The start of the daemon at concrete inputs.
use mathlib.Core.Option
use meshcore_open_sdr.Shared.{
  Option, [], ap, arith, false, inl, inr, none, refl, some, sym, true, ℕ, ◌%◌, ◌&&◌, ◌*◌, ◌++◌, ◌+◌,
  ◌/◌, ◌<◌, ◌^◌, ◌∙◌, ◌∷◌, ◌≡◌, ◌≤◌,
}
use meshcore_open_sdr.Config.Channels.{all_hex, is_hex_digit, split_at, trim, trim_left, trim_right}
use meshcore_open_sdr.Config.IdentityFile.{NodeIdentity, create_identity, load_or_create, ok}
use meshcore_open_sdr.Config.IdentityFile.Again.{DerivesFromSeed, WritesSeeds}
use meshcore_open_sdr.Config.NodeFile.{
  NodeConfig, assign, default_config, find_key, load_config, read_option, read_options, set_option,
  tx_sf_key,
}
use meshcore_open_sdr.Config.NodeFile.Last.{last_value, load_config-last_value, setting}
use meshcore_open_sdr.Daemon.{
  FileSystem, Outside, Running, Start, boot, files_after, parse_args, running_with, up,
}
use meshcore_open_sdr.Daemon.Again.{boot-IsSound, boot-again}
use meshcore_open_sdr.Node.Invariant.{IsSound}
use meshcore_open_sdr.Node.Run.{at_work, begins}
use meshcore_open_sdr.Radio.Reader.{
  Reals, cfg_format, no_packet, packet_of_cfg, read_line, read_lines, read_pipe, trim_end,
}
use meshcore_open_sdr.Radio.Reader.Pairing.{frames, read_pipe-frames}
use meshcore_open_sdr.Radio.Supervisor.{
  Radio, RadioReach, after, and_then, at_first, at_loop, dies, ended, enters, flagged, flags,
  forked, fresh_radio, goes_on, joining, joins, kills, leaves, reading, reaping, reaps, returned,
  sees_stop, spawning, spawns, starts, stores, waited, waiting,
}
use meshcore_open_sdr.Radio.Supervisor.Receivers.{Reach-receivers}
use meshcore_open_sdr.Shared.Decimal.{has_prefix, lines}
use meshcore_open_sdr.Shared.Int.{pos}
use meshcore_open_sdr.Shared.Lists.{drop, length, replicate, take, take-append}
use meshcore_open_sdr.Shared.Scan.{ato_bits, convert, fgets_all, scan_with}
use meshcore_open_sdr.Shared.Tests.{==_iff, Bool-cases, if◌then◌else◌, ◌==◌}
use meshcore_open_sdr.Shared.Text.{Bytes, Str, codes, str_eq}
use meshcore_open_sdr.Tests.Samples.{digit, sample_lib}

-- An Ed25519 in which the public key is the seed itself.
abbrev copy_seed : Str → Option Str
copy_seed s = if all_hex (take 64 s) && length (take 64 s) == 64 then some (take 64 s) else none

copy_seed-checks : (s key : Str) → copy_seed s ≡ some key → (all_hex key ≡ true) × (length key ≡ 64)
copy_seed-checks s key h = elim (Bool-cases (all_hex (take 64 s))) [
  | inl e ↦ elim (Bool-cases (length (take 64 s) == 64)) [
    | inl k ↦
        let same : some (take 64 s) ≡ some key = rw (e, k) at h in
        let key_is : take 64 s ≡ key = cc in
        (ap all_hex (sym key_is) ∙ e, ap length (sym key_is) ∙ (==_iff (length (take 64 s)) 64).0 k)
    | inr k ↦ let bad : none ≡ some key = rw (e, k) at h in absurd (cc)
  ]
  | inr e ↦ let bad : none ≡ some key = rw e at h in absurd (cc)
]

copy_seed-DerivesFromSeed : DerivesFromSeed copy_seed
copy_seed-DerivesFromSeed = record {
  seed_only = λ seed s t h _ _. rw (take-append 64 seed s h.size, take-append 64 seed t h.size);
  public_digits = λ s key h. (copy_seed-checks s key h).0;
  public_length = λ s key h. (copy_seed-checks s key h).1;
}

abbrev nibbles : Bytes → Str
nibbles [] = []
nibbles (b ∷ bs) = digit (b / 16 % 16) ∷ digit (b % 16) ∷ nibbles bs

digit-hex : (d : ℕ) → d < 16 → is_hex_digit (digit d) ≡ true
digit-hex d h = ground arith

nibbles-all_hex : (bs : Bytes) → all_hex (nibbles bs) ≡ true
unfolding all_hex
nibbles-all_hex [] = refl
nibbles-all_hex (b ∷ bs) =
    rw (digit-hex (b / 16 % 16) (omega arith), digit-hex (b % 16) (omega arith), nibbles-all_hex bs)

length-nibbles : (bs : Bytes) → length (nibbles bs) ≡ 2 * length bs
length-nibbles [] = omega arith
length-nibbles (b ∷ bs) = omega (arith, length-nibbles bs)

nibbles-WritesSeeds : WritesSeeds nibbles
nibbles-WritesSeeds = record {
  seed_digits = λ seed h. nibbles-all_hex seed;
  seed_length = λ seed h. omega (arith, length-nibbles seed);
}

abbrev the_seed : Bytes
the_seed = replicate 32 0xa5

abbrev the_identity : NodeIdentity
the_identity = record {
  private_key_hex = nibbles the_seed ++ nibbles the_seed;
  public_key_hex = nibbles the_seed;
}

seed_is_32 : (seed : Bytes) → some the_seed ≡ some seed → length seed ≡ 32
seed_is_32 seed h = let same : the_seed ≡ seed = cc in ap length (sym same)

created : (load_or_create copy_seed nibbles true (some the_seed) none).result ≡ ok the_identity
unfolding load_or_create create_identity all_hex
created = refl

abbrev outside : Outside ℕ
outside = record {
  lib = record sample_lib { bytes_to_hex = nibbles };
  derive = copy_seed;
  atof = λ s. 0;
  ten = 10;
  pattern = λ x. x;
}

abbrev first_start : Start
first_start = record { now = 5; random = some the_seed; writable = true }

abbrev second_start : Start
second_start = record { now = 9; random = none; writable = false }

abbrev config_text : Str
config_text = codes "# node\n name = Base \ntx_sf=9\n"

abbrev disk : FileSystem
disk path = if str_eq path (codes "sdr-node.conf") then some config_text else none

abbrev the_config : NodeConfig ℕ
the_config = record (default_config 10) { name = codes "Base"; tx_sf = 9 }

abbrev first_run : Running ℕ
first_run =
    running_with outside first_start the_config true
      (files_after outside first_start the_config disk) the_identity

came_up : boot outside first_start disk (codes "-a" ∷ []) ≡ up first_run
unfolding boot parse_args load_config read_options read_option trim trim_left trim_right split_at
    set_option assign find_key str_eq load_or_create create_identity all_hex lines ato_bits
came_up = refl

boot-again_example :
    (r' : Running ℕ) × (boot outside second_start first_run.files (codes "-a" ∷ []) ≡ up r')
    × (r'.node.id ≡ first_run.node.id)
    × (r'.radio ≡ first_run.radio)
boot-again_example =
    boot-again outside first_start second_start copy_seed-DerivesFromSeed nibbles-WritesSeeds
      seed_is_32 disk (codes "-a" ∷ []) first_run came_up

boot-IsSound_example : IsSound first_run.node
boot-IsSound_example =
    boot-IsSound outside first_start disk (codes "-a" ∷ []) first_run (at_work first_run.node)
      came_up begins

load_config-last_value_example :
    Option.map (setting tx_sf_key) (load_config outside.atof 10 (some config_text))
    ≡ some (
        last_value outside.atof tx_sf_key
          (lines config_text)
          (setting tx_sf_key (default_config 10)))
load_config-last_value_example = load_config-last_value outside.atof tx_sf_key 10 config_text

-- The receiver's output, with no floating-point number read.
abbrev plain_reals : Reals
plain_reals = record {
  cut = λ s. some (take 1 s, drop 1 s);
  hundredths = λ s. pos (length s);
  micros = λ s. length s;
}

abbrev pipe_text : Str
pipe_text =
    codes "rx cfg: freq=869618000 sf=8 bw=62500 snr=1 cfo=2 time=3\nrx ok: 0a0b\nrx ok: ff\n"

pipe_read :
    (read_pipe plain_reals pipe_text 4 0).1
    ≡ record no_packet {
      hex = codes "0a0b";
      freq = 869618000;
      sf = 8;
      bw = 62500;
      snr = pos 1;
      cfo = pos 1;
      time = 1;
    }
      ∷ record no_packet { hex = codes "ff" }
      ∷ []
unfolding read_pipe read_lines fgets_all read_line packet_of_cfg cfg_format scan_with convert
    has_prefix trim_end
pipe_read = refl

read_pipe-frames_example :
    ((read_pipe plain_reals pipe_text 4 0).1 ≡ frames plain_reals [] (fgets_all 16384 pipe_text))
    × ((read_pipe plain_reals pipe_text 4 0).0.rx_count
        ≡ (4 + length (frames plain_reals [] (fgets_all 16384 pipe_text))) % 2 ^ 64)
read_pipe-frames_example = read_pipe-frames plain_reals pipe_text 4 0 (omega arith)

-- A receiver is spawned, and then the radio is stopped.
abbrev stopped_radio : Radio
stopped_radio = record {
  running = false;
  place = ended;
  caller = returned;
  rx_pid = none;
  alive = [];
}

stopped_radio-Reach : RadioReach fresh_radio stopped_radio
stopped_radio-Reach =
    let a = record fresh_radio { running = true; place = at_loop } in
    let b = record a { place = spawning } in
    let c = record b { place = forked 7; alive = 7 ∷ [] } in
    let d = record c { place = reading 7; rx_pid = some 7 } in
    let e = record d { running = false; caller = flagged } in
    let f = record e { caller = waiting 7 } in
    let g = record f { alive = [] } in
    let h = record g { caller = joining; rx_pid = none } in
    let i = record h { place = reaping 7 } in
    let j = record i { place = after } in
    let k = record j { place = at_loop } in
    let l = record k { place = ended } in
    and_then
      (and_then
        (and_then
          (and_then
            (and_then
              (and_then
                (and_then
                  (and_then
                    (and_then
                      (and_then
                        (and_then
                          (and_then (and_then at_first (starts fresh_radio refl refl))
                            (enters a refl refl))
                          (spawns b 7 refl))
                        (stores c 7 refl))
                      (flags d refl refl))
                    (kills e 7 refl refl))
                  (dies f [] [] 7 refl))
                (waited g 7 refl tt))
              (sees_stop h 7 refl refl))
            (reaps i 7 refl tt))
          (goes_on j refl))
        (leaves k refl refl))
      (joins l refl refl)

Reach-receivers_example :
    (length stopped_radio.alive ≤ 1) × (stopped_radio.caller ≡ returned → stopped_radio.alive ≡ [])
Reach-receivers_example = Reach-receivers stopped_radio stopped_radio-Reach
