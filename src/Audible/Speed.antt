-- ===== src/Audible/Speed.antt =====
-- The part of `recode` in `audible/src/hw1.c` for -u: of each `factor` frames one is written.
pub mod Kept
use cse.Base.{
  ℕ, zero, suc, ◌+◌, ◌-◌, ◌*◌, ◌/◌, ◌%◌, ◌^◌, Bool, true, false, ◌&&◌, List, [], ◌∷◌, ◌==◌,
  if◌then◌else◌,
}
use cse.Audible.Stream.{AudioHeader, read_frame, write_frame}

-- The change of the header.
unfoldable pub speed_header : AudioHeader → ℕ → AudioHeader
speed_header hp factor =
    let frame = hp.data_size / (hp.channels * (hp.encoding - 1)) + 1 in
    record hp { data_size = frame * factor % 2 ^ 32 }

module _ (fails : List ℕ → ℕ → Bool) where
  -- The loop with its rounds to go and `i`: whether all writes succeeded, the frame and the output.
  -- The result of `read_frame` is not looked at.
  unfoldable pub speed_loop : ℕ → ℕ → ℕ → AudioHeader → ℕ → List ℕ → List ℕ → Bool × ℕ × List ℕ
  speed_loop zero i factor hp frame input out = (true, frame, out)
  speed_loop (suc n) i factor hp frame input out =
      let (ok, next, input') = read_frame frame hp.channels (hp.encoding - 1) input in
      let (written, out') = write_frame fails next hp.channels (hp.encoding - 1) out in
      let (all, last, final) = speed_loop n (i + 1) factor hp next input' out' in
      let dropped = speed_loop n (i + 1) factor hp next input' out in
      if i % factor == 0 then (written && all, last, final) else dropped

  -- The loop after the header was changed.
  unfoldable pub speed_up : AudioHeader → ℕ → ℕ → List ℕ → List ℕ → Bool × ℕ × List ℕ
  speed_up hp factor frame input out =
      let changed = speed_header hp factor in
      speed_loop (changed.data_size / factor) 0 factor changed frame input out
