-- ===== src/Audible/Stream.antt =====
-- Bytes in and out, of `audible/src/hw1.c`. Standard input is the list of the bytes still to come;
-- `fails` says whether `putchar` returns EOF for a byte after the output so far.
pub mod RoundTrip
pub mod Annotation
use cse.Base.{
  ℕ, zero, suc, ◌+◌, ◌-◌, ◌*◌, ◌%◌, Bool, true, false, not, ◌&&◌, ◌||◌, List, [], ◌∷◌, ◌++◌, ◌==◌,
  ltb, if◌then◌else◌, bit_or,
}
use cse.Base.Word.{u8, u32, ◌<<◌, ◌>>◌, sar, ◌-w◌}

-- `struct audio_header`
pub record AudioHeader : Type 0 where
  pub magic_number : ℕ
  pub data_offset : ℕ
  pub data_size : ℕ
  pub encoding : ℕ
  pub sample_rate : ℕ
  pub channels : ℕ

-- The loop of `readBytes`, with the rounds still to do.
unfoldable pub read_loop : ℕ → ℕ → List ℕ → Bool × ℕ × List ℕ
read_loop zero hp input = (true, hp, input)
read_loop (suc n) hp [] = (false, hp << 8, [])
read_loop (suc n) hp (temp ∷ input) = read_loop n (bit_or (hp << 8) temp) input

unfoldable pub read_bytes : ℕ → List ℕ → Bool × ℕ × List ℕ
read_bytes hp input = read_loop 4 hp input

-- The fields in the order of the reads, up to the first that fails.
unfoldable pub read_fields : AudioHeader → List ℕ → Bool × AudioHeader × List ℕ
read_fields hp input =
    let (ok_magic, magic, in1) = read_bytes hp.magic_number input in
    let (ok_offset, offset, in2) = read_bytes hp.data_offset in1 in
    let (ok_size, size, in3) = read_bytes hp.data_size in2 in
    let (ok_encoding, encoding, in4) = read_bytes hp.encoding in3 in
    let (ok_rate, rate, in5) = read_bytes hp.sample_rate in4 in
    let (ok_channels, channels, in6) = read_bytes hp.channels in5 in
    let hp1 = record hp { magic_number = magic } in
    let hp2 = record hp1 { data_offset = offset } in
    let hp3 = record hp2 { data_size = size } in
    let hp4 = record hp3 { encoding = encoding } in
    let hp5 = record hp4 { sample_rate = rate } in
    let hp6 = record hp5 { channels = channels } in
    if not ok_magic
    then (false, hp1, in1)
    else if not ok_offset
    then (false, hp2, in2)
    else if not ok_size
    then (false, hp3, in3)
    else if not ok_encoding
    then (false, hp4, in4)
    else if not ok_rate
    then (false, hp5, in5)
    else (ok_channels, hp6, in6)

-- The checks of `read_header` on the fields.
unfoldable pub is_valid : AudioHeader → Bool
is_valid hp =
    hp.magic_number == 0x2e736e64
    && (hp.data_offset % 8 == 0)
    && (hp.encoding == 2 || hp.encoding == 3 || hp.encoding == 4 || hp.encoding == 5)
    && (hp.channels == 1 || hp.channels == 2)

unfoldable pub read_header : AudioHeader → List ℕ → Bool × AudioHeader × List ℕ
read_header hp input = let (ok, hp', rest) = read_fields hp input in (ok && is_valid hp', hp', rest)

-- The loop of `read_annotation`, with the bytes still to read: the bytes it stores.
unfoldable pub annotation_loop : ℕ → List ℕ → Bool × List ℕ × List ℕ
annotation_loop zero input = (true, [], input)
annotation_loop (suc n) [] = (false, [], [])
annotation_loop (suc n) (temp ∷ input) =
    let (ok, ap, rest) = annotation_loop n input in
    if n == 0 && not (temp == 0) then (false, [], input) else (ok, temp ∷ ap, rest)

unfoldable pub read_annotation : ℕ → List ℕ → Bool × List ℕ × List ℕ
read_annotation size input =
    let done = annotation_loop size input in if ltb 1023 size then (false, [], input) else done

-- `read_frame` with the bytes still to read: the int that the buffer starts with.
unfoldable pub frame_loop : ℕ → ℕ → List ℕ → Bool × ℕ × List ℕ
frame_loop zero fp input = (true, fp, input)
frame_loop (suc n) fp [] = (false, fp, [])
frame_loop (suc n) fp (temp ∷ input) = frame_loop n (bit_or (fp << 8) temp) input

unfoldable pub read_frame : ℕ → ℕ → ℕ → List ℕ → Bool × ℕ × List ℕ
read_frame fp channels bytes_per_sample input = frame_loop (channels * bytes_per_sample) fp input

-- The bytes that `write_frame` puts, from byte n - 1 down to byte 0 of the int. The machine takes
-- a shift count of an int modulo 32.
unfoldable pub frame_bytes : ℕ → ℕ → List ℕ
frame_bytes zero fp = []
frame_bytes (suc i) fp = u8 (sar fp (i * 8 % 32)) ∷ frame_bytes i fp

module _ (fails : List ℕ → ℕ → Bool) where
  -- `putchar` of each value in turn, up to the first that fails.
  unfoldable pub put_all : List ℕ → List ℕ → Bool × List ℕ
  put_all [] out = (true, out)
  put_all (c ∷ cs) out =
      let rest = put_all cs (out ++ (u8 c ∷ [])) in if fails out (u8 c) then (false, out) else rest

  unfoldable pub write_bytes : ℕ → List ℕ → Bool × List ℕ
  write_bytes val out = put_all (val >> 24 ∷ val >> 16 ∷ val >> 8 ∷ val ∷ []) out

  unfoldable pub write_fields : List ℕ → List ℕ → Bool × List ℕ
  write_fields [] out = (true, out)
  write_fields (val ∷ vals) out =
      let (ok, out') = write_bytes val out in
      let rest = write_fields vals out' in if ok then rest else (false, out')

  unfoldable pub write_header : AudioHeader → List ℕ → Bool × List ℕ
  write_header hp out =
      write_fields
        (hp.magic_number ∷ hp.data_offset ∷ hp.data_size ∷ hp.encoding ∷ hp.sample_rate
          ∷ hp.channels ∷ [])
        out

  -- `write_annotation` does not look at the result of `putchar`.
  unfoldable pub write_annotation : List ℕ → List ℕ → Bool × List ℕ
  write_annotation [] out = (true, out)
  write_annotation (c ∷ ap) out =
      write_annotation ap (if fails out (u8 c) then out else out ++ (u8 c ∷ []))

  unfoldable pub write_frame : ℕ → ℕ → ℕ → List ℕ → Bool × List ℕ
  write_frame fp channels bytes_per_sample out =
      put_all (frame_bytes (channels * bytes_per_sample) fp) out
