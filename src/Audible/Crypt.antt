-- ===== src/Audible/Crypt.antt =====
-- `audible/src/myrand.c` and the encryption loop of `recode` in `audible/src/hw1.c`.
pub mod Bytes
pub mod Involution
use cse.Base.{
  ℕ, zero, suc, ◌+◌, ◌-◌, ◌*◌, ◌/◌, ◌%◌, ◌^◌, Bool, true, false, ◌&&◌, List, [], ◌∷◌, ◌==◌,
  if◌then◌else◌, bit_or, bit_and, bit_xor,
}
use cse.Base.Word.{u32, u64, ◌<<◌, ◌>>◌}
use cse.Audible.Stream.{AudioHeader, read_frame, write_frame}

-- The number and the next state of the generator.
unfoldable pub myrand : ℕ → ℕ × ℕ
myrand next = let next' = u64 (next * 1103515245 + 12345) in (u32 (next' / 65536) % 32768, next')

unfoldable pub mysrand : ℕ → ℕ
mysrand seed = seed

unfoldable pub rand_loop : ℕ → ℕ → ℕ → ℕ × ℕ
rand_loop zero r next = (r, next)
rand_loop (suc n) r next =
    let (v, next') = myrand next in rand_loop n (bit_or (r << 8) (bit_and v 0x7fff >> 7)) next'

unfoldable pub myrand32 : ℕ → ℕ × ℕ
myrand32 next = rand_loop 4 0 next

-- The two buffers, as the int that the loop uses of each, and the state of the generator.
pub record Crypter : Type 0 where
  pub input_frame : ℕ
  pub output_frame : ℕ
  pub next : ℕ

-- Two numbers, the first shifted, or one, each under the mask.
unfoldable pub key_word : ℕ → ℕ → ℕ → ℕ → ℕ × ℕ
key_word mask shift channels next =
    let (r1, next1) = myrand32 next in
    let (r2, next2) = myrand32 next1 in
    if channels == 2
    then (bit_or (bit_and r1 mask << shift) (bit_and r2 mask), next2)
    else (bit_and r1 mask, next1)

-- What the loop puts in `output_frame` before the exclusive or.
unfoldable pub frame_key : AudioHeader → Crypter → ℕ × ℕ
frame_key hp st =
    if hp.encoding == 2
    then key_word 0xff 24 hp.channels st.next
    else if hp.encoding == 3
    then key_word 0xffff 16 hp.channels st.next
    else if hp.encoding == 4
    then key_word 0xffffff 8 hp.channels st.next
    else if hp.encoding == 5
    then key_word 0xffffffff 0 hp.channels st.next
    else (st.output_frame, st.next)

module _ (fails : List ℕ → ℕ → Bool) where
  -- The rounds of the loop: whether all writes succeeded, the state and the output. The result of
  -- `read_frame` is not looked at.
  unfoldable pub crypt_loop : ℕ → AudioHeader → Crypter → List ℕ → List ℕ → Bool × Crypter × List ℕ
  crypt_loop zero hp st input out = (true, st, out)
  crypt_loop (suc n) hp st input out =
      let (ok, frame, input') = read_frame st.input_frame hp.channels (hp.encoding - 1) input in
      let (word, next) = frame_key hp st in
      let coded = bit_xor word frame in
      let (written, out') = write_frame fails coded hp.channels (hp.encoding - 1) out in
      let st' = record st { input_frame = frame; output_frame = coded; next = next } in
      let (all, last, final) = crypt_loop n hp st' input' out' in (written && all, last, final)

  unfoldable pub crypt_frames :
      AudioHeader → ℕ → Crypter → List ℕ → List ℕ → Bool × Crypter × List ℕ
  crypt_frames hp key st input out =
      crypt_loop (hp.data_size / (hp.channels * (hp.encoding - 1))) hp
        (record st { next = mysrand key }) input out
