-- ===== src/Audible/Crypt/Involution.antt =====
-- The encryption loop of `recode` undoes itself.
use cse.Base.{
  ℕ, suc, ◌-◌, ◌*◌, ◌/◌, ◌<◌, ◌≡◌, refl, sym, ap, ap₂, ◌∙◌, Bool, true, List, [], ◌∷◌, ◌++◌,
  bit_xor, arith, All, length, inl, inr, ◌⊎◌,
}
use mathlib.Core.List.{append_assoc, append-nil}
use cse.Audible.Stream.{AudioHeader, read_frame, frame_bytes, write_frame}
use cse.Audible.Stream.RoundTrip.{Never, put_all-append}
use cse.Audible.Crypt.{Crypter, mysrand, frame_key, crypt_loop, crypt_frames}
use cse.Audible.Crypt.Bytes.{
  shift_all, coded, frame_loop-append, frame_bytes-coded, length-coded, coded-bytes, coded_twice,
  map-u8_frame,
}

abbrev pub flat : List (List ℕ) → List ℕ
flat [] = []
flat (f ∷ fs) = f ++ flat fs

abbrev pub frame_size : AudioHeader → ℕ
frame_size hp = hp.channels * (hp.encoding - 1)

-- A frame of n bytes.
abbrev pub IsFrame : ℕ → List ℕ → Type 0
IsFrame n f = (length f ≡ n) × All (λ b. b < 256) f

-- One of the four encodings that `read_header` lets pass.
abbrev pub IsPcm : AudioHeader → Type 0
IsPcm hp = (hp.encoding ≡ 2) ⊎ (hp.encoding ≡ 3) ⊎ (hp.encoding ≡ 4) ⊎ (hp.encoding ≡ 5)

abbrev key_at : AudioHeader → ℕ → ℕ × ℕ
key_at hp next = frame_key hp (record { input_frame = 0; output_frame = 0; next = next })

-- The key of a frame comes from the generator alone.
frame_key-next : (hp : AudioHeader) (st : Crypter) → IsPcm hp → frame_key hp st ≡ key_at hp st.next
unfolding frame_key
frame_key-next hp st (inl e) = rw e refl
frame_key-next hp st (inr (inl e)) = rw e refl
frame_key-next hp st (inr (inr (inl e))) = rw e refl
frame_key-next hp st (inr (inr (inr e))) = rw e refl

coded_frames : AudioHeader → ℕ → List (List ℕ) → List (List ℕ)
coded_frames hp next [] = []
coded_frames hp next (f ∷ fs) =
    let (word, next') = key_at hp next in
    coded (frame_bytes (frame_size hp) word) f ∷ coded_frames hp next' fs

coded_frames_twice :
    (hp : AudioHeader) (next : ℕ) (fs : List (List ℕ))
    → All (IsFrame (frame_size hp)) fs
    → coded_frames hp next (coded_frames hp next fs) ≡ fs
unfolding coded_frames
coded_frames_twice hp next [] h = refl
coded_frames_twice hp next (f ∷ fs) h =
    ap₂ (λ (g : List ℕ) (gs : List (List ℕ)). g ∷ gs)
      (coded_twice (frame_size hp) (key_at hp next).0 f h.0.0)
      (coded_frames_twice hp (key_at hp next).1 fs h.1)

length-coded_frames :
    (hp : AudioHeader) (next : ℕ) (fs : List (List ℕ))
    → length (coded_frames hp next fs) ≡ length fs
unfolding coded_frames
length-coded_frames hp next [] = refl
length-coded_frames hp next (f ∷ fs) = ap suc (length-coded_frames hp (key_at hp next).1 fs)

coded_frames-IsFrame :
    (hp : AudioHeader) (next : ℕ) (fs : List (List ℕ))
    → All (IsFrame (frame_size hp)) fs
    → All (IsFrame (frame_size hp)) (coded_frames hp next fs)
unfolding coded_frames
coded_frames-IsFrame hp next [] h = tt
coded_frames-IsFrame hp next (f ∷ fs) h = (
  (
    length-coded (frame_size hp) (key_at hp next).0 f h.0.0,
    coded-bytes (frame_size hp) (key_at hp next).0 f h.0.1,
  ),
  coded_frames-IsFrame hp (key_at hp next).1 fs h.1,
)

module _ (fails : List ℕ → ℕ → Bool) (never : Never fails) where
  pub read_frame-append :
      (hp : AudioHeader) (fp : ℕ) (f rest : List ℕ)
      → length f ≡ frame_size hp
      → read_frame fp hp.channels (hp.encoding - 1) (f ++ rest) ≡ (true, shift_all fp f, rest)
  unfolding read_frame
  read_frame-append hp fp f rest e = rw (sym e) (frame_loop-append fp f rest)

  write_frame-coded :
      (hp : AudioHeader) (word fp : ℕ) (f out : List ℕ)
      → frame_size hp < 5
      → IsFrame (frame_size hp) f
      → write_frame fails (bit_xor word (shift_all fp f)) hp.channels (hp.encoding - 1) out
        ≡ (true, out ++ coded (frame_bytes (frame_size hp) word) f)
  unfolding write_frame
  write_frame-coded hp word fp f out s h = rw (sym h.0) (
      put_all-append fails never (frame_bytes (length f) (bit_xor word (shift_all fp f))) out
      ∙ ap (λ t. (true, out ++ t))
          (map-u8_frame (length f) (bit_xor word (shift_all fp f))
            ∙ frame_bytes-coded word fp f (omega (arith, h.0)) h.1))

  -- The state after a round, and the bytes that the round writes.
  after : AudioHeader → Crypter → List ℕ → Crypter
  after hp st f = record {
    input_frame = shift_all st.input_frame f;
    output_frame = bit_xor (key_at hp st.next).0 (shift_all st.input_frame f);
    next = (key_at hp st.next).1;
  }

  written : AudioHeader → Crypter → List ℕ → List ℕ
  written hp st f = coded (frame_bytes (frame_size hp) (key_at hp st.next).0) f

  crypt_round :
      (n : ℕ) (hp : AudioHeader) (st : Crypter) (f rest out : List ℕ)
      → IsPcm hp
      → frame_size hp < 5
      → IsFrame (frame_size hp) f
      → crypt_loop fails (suc n) hp st (f ++ rest) out
        ≡ crypt_loop fails n hp (after hp st f) rest (out ++ written hp st f)
  unfolding crypt_loop after written
  crypt_round n hp st f rest out p s h =
      rw
        (
          read_frame-append hp st.input_frame f rest h.0,
          frame_key-next hp st p,
          write_frame-coded hp (key_at hp st.next).0 st.input_frame f out s h,
        )
        refl

  crypt_loop-coded_frames :
      (hp : AudioHeader) (st : Crypter) (fs : List (List ℕ)) (out : List ℕ)
      → IsPcm hp
      → frame_size hp < 5
      → All (IsFrame (frame_size hp)) fs
      → ((crypt_loop fails (length fs) hp st (flat fs) out).0 ≡ true)
        × ((crypt_loop fails (length fs) hp st (flat fs) out).2
            ≡ out ++ flat (coded_frames hp st.next fs))
  unfolding crypt_loop coded_frames after written
  crypt_loop-coded_frames hp st [] out p s h = (refl, sym (append-nil out))
  crypt_loop-coded_frames hp st (f ∷ fs) out p s h =
      let first = crypt_round (length fs) hp st f (flat fs) out p s h.0 in
      let ih = crypt_loop-coded_frames hp (after hp st f) fs (out ++ written hp st f) p s h.1 in
      (
        ap (λ r. r.0) first ∙ ih.0,
        ap (λ r. r.2) first
            ∙ ih.1
            ∙ append_assoc out (written hp st f) (flat (coded_frames hp (key_at hp st.next).1 fs)),
      )

  once :
      (hp : AudioHeader) (key : ℕ) (st : Crypter) (fs : List (List ℕ))
      → IsPcm hp
      → frame_size hp < 5
      → All (IsFrame (frame_size hp)) fs
      → hp.data_size / frame_size hp ≡ length fs
      → ((crypt_frames fails hp key st (flat fs) []).0 ≡ true)
        × ((crypt_frames fails hp key st (flat fs) []).2 ≡ flat (coded_frames hp key fs))
  unfolding crypt_frames mysrand
  once hp key st fs p s h e =
      rw e (crypt_loop-coded_frames hp (record st { next = key }) fs [] p s h)

  -- For a stream of frames of one of the four encodings and of at most four bytes each, as many as
  -- the header says: the loop writes all of its output where no byte fails, and run again with the
  -- same key on that output it writes the frames, whatever the buffers held at the start of
  -- either run.
  pub crypt_frames-crypt_frames :
      (hp : AudioHeader) (key : ℕ) (st st' : Crypter) (fs : List (List ℕ))
      → IsPcm hp
      → frame_size hp < 5
      → All (IsFrame (frame_size hp)) fs
      → hp.data_size / frame_size hp ≡ length fs
      → ((crypt_frames fails hp key st (flat fs) []).0 ≡ true)
        × ((crypt_frames fails hp key st' (crypt_frames fails hp key st (flat fs) []).2 []).0
            ≡ true)
        × ((crypt_frames fails hp key st' (crypt_frames fails hp key st (flat fs) []).2 []).2
            ≡ flat fs)
  crypt_frames-crypt_frames hp key st st' fs p s h e =
      let first = once hp key st fs p s h e in
      let again =
        once hp key st' (coded_frames hp key fs) p s (coded_frames-IsFrame hp key fs h)
          (e ∙ sym (length-coded_frames hp key fs)) in
      rw first.1 (first.0, again.0, again.1 ∙ ap flat (coded_frames_twice hp key fs h))
