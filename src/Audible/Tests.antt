-- ===== src/Audible/Tests.antt =====
-- Runs of the option parser and the stream functions, and the theorems at concrete inputs.
use cse.Base.{inl, inr, ℕ, ◌≡◌, refl, Bool, true, false, List, [], ◌∷◌, ◌++◌, codes, arith, length}
use cse.Audible.Options.{validargs, is_arg, speed, factor, dec_str_to_dec, dec_loop, string_equals}
use cse.Audible.Options.Outcome.{IsRecoding, validargs-IsRecoding}
use cse.Audible.Stream.{
  AudioHeader, read_header, write_header, read_annotation, write_annotation, is_valid,
}
use cse.Audible.Stream.RoundTrip.{IsWords, read_header-write_header}
use cse.Audible.Speed.{speed_up}
use cse.Audible.Speed.Kept.{picked, speed_up-picked}
use cse.Audible.Crypt.{Crypter, crypt_frames}
use cse.Audible.Crypt.Involution.{flat, crypt_frames-crypt_frames}
use cse.Audible.Stream.Annotation.{read_annotation-write_annotation}

abbrev slower : List (List ℕ)
slower = codes "audible" ∷ codes "-d" ∷ codes "-f" ∷ codes "10" ∷ codes "-p" ∷ []

slower_options : validargs slower ≡ (true, 0x2809000000000000)
unfolding validargs is_arg speed factor dec_str_to_dec dec_loop string_equals
slower_options = refl

validargs-IsRecoding_example : IsRecoding (validargs slower).1
unfolding validargs is_arg speed factor dec_str_to_dec dec_loop string_equals
validargs-IsRecoding_example = validargs-IsRecoding slower refl

abbrev always : List ℕ → ℕ → Bool
always out c = false

abbrev mono : AudioHeader
mono = record {
  magic_number = 0x2e736e64;
  data_offset = 32;
  data_size = 4;
  encoding = 3;
  sample_rate = 8000;
  channels = 1;
}

abbrev blank : AudioHeader
blank = record {
  magic_number = 0;
  data_offset = 0;
  data_size = 0;
  encoding = 0;
  sample_rate = 0;
  channels = 0;
}

mono-IsWords : IsWords mono
mono-IsWords =
    (omega arith, (omega arith, (omega arith, (omega arith, (omega arith, (omega arith, tt))))))

read_header-write_header_example :
    ((write_header always mono []).0 ≡ true)
    × (read_header blank ((write_header always mono []).1 ++ (0 ∷ 0 ∷ []))
        ≡ (true, mono, 0 ∷ 0 ∷ []))
unfolding is_valid
read_header-write_header_example =
    read_header-write_header always (λ out c. refl) blank mono (0 ∷ 0 ∷ []) mono-IsWords refl

abbrev note : List ℕ
note = b'h' ∷ b'i' ∷ 0 ∷ []

read_annotation-write_annotation_example :
    read_annotation (length note) ((write_annotation always note []).1 ++ (7 ∷ []))
    ≡ (true, note, 7 ∷ [])
read_annotation-write_annotation_example =
    read_annotation-write_annotation always (λ out c. refl) note (7 ∷ [])
      (omega arith, (omega arith, (omega arith, tt))) refl (omega arith)

abbrev stereo : AudioHeader
stereo = record mono { channels = 2; data_size = 8 }

abbrev two_frames : List (List ℕ)
two_frames = (1 ∷ 2 ∷ 3 ∷ 4 ∷ []) ∷ (250 ∷ 251 ∷ 252 ∷ 253 ∷ []) ∷ []

abbrev idle : Crypter
idle = record { input_frame = 0; output_frame = 0; next = 1 }

abbrev used : Crypter
used = record { input_frame = 77; output_frame = 0xffffffff; next = 5 }

crypt_frames-crypt_frames_example :
    ((crypt_frames always stereo 0xbeef idle (flat two_frames) []).0 ≡ true)
    × ((crypt_frames always stereo 0xbeef used
          (crypt_frames always stereo 0xbeef idle (flat two_frames) []).2
          []).0
        ≡ true)
    × ((crypt_frames always stereo 0xbeef used
          (crypt_frames always stereo 0xbeef idle (flat two_frames) []).2
          []).2
        ≡ flat two_frames)
crypt_frames-crypt_frames_example =
    crypt_frames-crypt_frames always (λ out c. refl) stereo 0xbeef idle used two_frames
      (inr (inl refl)) (omega arith)
      (
        (refl, (omega arith, (omega arith, (omega arith, (omega arith, tt))))),
        ((refl, (omega arith, (omega arith, (omega arith, (omega arith, tt))))), tt),
      )
      refl

-- Two frames with factor 2: the first frame, and since two is even the second once more.
speed_up-picked_example :
    ((speed_up always stereo 2 0
        ((1 ∷ 2 ∷ 3 ∷ 4 ∷ []) ++ flat ((250 ∷ 251 ∷ 252 ∷ 253 ∷ []) ∷ []))
        []).0
      ≡ true)
    × ((speed_up always stereo 2 0
          ((1 ∷ 2 ∷ 3 ∷ 4 ∷ []) ++ flat ((250 ∷ 251 ∷ 252 ∷ 253 ∷ []) ∷ []))
          []).2
        ≡ picked 2 0 (1 ∷ 2 ∷ 3 ∷ 4 ∷ []) ((250 ∷ 251 ∷ 252 ∷ 253 ∷ []) ∷ []))
speed_up-picked_example =
    speed_up-picked always (λ out c. refl) stereo 2 0 (1 ∷ 2 ∷ 3 ∷ 4 ∷ [])
      ((250 ∷ 251 ∷ 252 ∷ 253 ∷ []) ∷ []) (omega arith) (omega arith)
      (refl, (omega arith, (omega arith, (omega arith, (omega arith, tt)))))
      ((refl, (omega arith, (omega arith, (omega arith, (omega arith, tt))))), tt) refl
      (omega arith) (omega arith)
