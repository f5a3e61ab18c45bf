-- ===== src/Audible/Speed/Kept.antt =====
-- Which frames the loop for -u writes.
use cse.Base.{
  ℕ, zero, suc, ◌+◌, ◌-◌, ◌*◌, ◌/◌, ◌%◌, ◌^◌, ◌<◌, ◌≡◌, refl, sym, ap, ◌∙◌, Bool, true, false, List,
  [], ◌∷◌, ◌++◌, ◌==◌, if◌then◌else◌, All, length, arith, Bool-cases, inl, inr,
}
use native.Mathlib.Nat.{mul-div_cancel}
use mathlib.Core.List.{append_assoc, append-nil}
use cse.Audible.Stream.{AudioHeader, read_frame, frame_loop, frame_bytes, write_frame}
use cse.Audible.Stream.RoundTrip.{Never, put_all-append}
use cse.Audible.Crypt.Bytes.{shift_all, frame_bytes-shift_all, map-u8_frame}
use cse.Audible.Crypt.Involution.{flat, frame_size, IsFrame, read_frame-append}
use cse.Audible.Speed.{speed_header, speed_loop, speed_up}

-- A frame at a place that is a multiple of the factor.
abbrev pub pick : ℕ → ℕ → List ℕ → List ℕ
pick factor i f = if i % factor == 0 then f else []

-- The picked frames from place i on, where the last frame stands once more at the end.
abbrev pub picked : ℕ → ℕ → List ℕ → List (List ℕ) → List ℕ
picked factor i f [] = pick factor i f ++ pick factor (i + 1) f
picked factor i f (g ∷ gs) = pick factor i f ++ picked factor (i + 1) g gs

small : (x : ℕ) → x < 2 ^ 32 → x % 2 ^ 32 ≡ x
small x h = omega arith

frame_loop-nil : (k fp : ℕ) → frame_loop (suc k) fp [] ≡ (false, fp, [])
unfolding frame_loop
frame_loop-nil k fp = refl

module _ (fails : List ℕ → ℕ → Bool) (never : Never fails) where
  write_frame-shift_all :
      (hp : AudioHeader) (fp : ℕ) (f out : List ℕ)
      → frame_size hp < 5
      → IsFrame (frame_size hp) f
      → write_frame fails (shift_all fp f) hp.channels (hp.encoding - 1) out ≡ (true, out ++ f)
  unfolding write_frame
  write_frame-shift_all hp fp f out s h = rw (sym h.0) (
      put_all-append fails never (frame_bytes (length f) (shift_all fp f)) out
      ∙ ap (λ t. (true, out ++ t))
          (map-u8_frame (length f) (shift_all fp f)
            ∙ frame_bytes-shift_all fp f (omega (arith, h.0)) h.1))

  speed_round :
      (n i factor : ℕ) (hp : AudioHeader) (fp : ℕ) (f rest out : List ℕ)
      → frame_size hp < 5
      → IsFrame (frame_size hp) f
      → speed_loop fails (suc n) i factor hp fp (f ++ rest) out
        ≡ speed_loop fails n (i + 1) factor hp (shift_all fp f) rest (out ++ pick factor i f)
  unfolding speed_loop
  speed_round n i factor hp fp f rest out s h = elim (Bool-cases (i % factor == 0)) [
    | inl e ↦
        rw
          (read_frame-append fails never hp fp f rest h.0, write_frame-shift_all hp fp f out s h, e)
          refl
    | inr e ↦
        rw
          (
            read_frame-append fails never hp fp f rest h.0,
            write_frame-shift_all hp fp f out s h,
            e,
            append-nil out,
          )
          refl
  ]

  read_end :
      (hp : AudioHeader) (fp : ℕ)
      → 0 < frame_size hp
      → read_frame fp hp.channels (hp.encoding - 1) [] ≡ (false, fp, [])
  unfolding read_frame
  read_end hp fp p = nothing (frame_size hp) p
    where
      nothing : (k : ℕ) → 0 < k → frame_loop k fp [] ≡ (false, fp, [])
      nothing zero p = absurd (omega arith)
      nothing (suc k) p = frame_loop-nil k fp

  -- The round after the end of the input.
  end_round :
      (i factor : ℕ) (hp : AudioHeader) (fp : ℕ) (f out : List ℕ)
      → frame_size hp < 5
      → 0 < frame_size hp
      → IsFrame (frame_size hp) f
      → speed_loop fails 1 i factor hp (shift_all fp f) [] out
        ≡ (true, shift_all fp f, out ++ pick factor i f)
  unfolding speed_loop
  end_round i factor hp fp f out s p h = elim (Bool-cases (i % factor == 0)) [
    | inl e ↦ rw (read_end hp (shift_all fp f) p, write_frame-shift_all hp fp f out s h, e) refl
    | inr e ↦ rw (read_end hp (shift_all fp f) p, e, append-nil out) refl
  ]

  speed_loop-picked :
      (fs : List (List ℕ)) (i factor : ℕ) (hp : AudioHeader) (fp : ℕ) (f out : List ℕ)
      → frame_size hp < 5
      → 0 < frame_size hp
      → IsFrame (frame_size hp) f
      → All (IsFrame (frame_size hp)) fs
      → ((speed_loop fails (suc (suc (length fs))) i factor hp fp (f ++ flat fs) out).0 ≡ true)
        × ((speed_loop fails (suc (suc (length fs))) i factor hp fp (f ++ flat fs) out).2
            ≡ out ++ picked factor i f fs)
  speed_loop-picked [] i factor hp fp f out s p h hs =
      let e =
        speed_round 1 i factor hp fp f [] out s h
        ∙ end_round (i + 1) factor hp fp f (out ++ pick factor i f) s p h in
      (
        ap (λ r. r.0) e,
        ap (λ r. r.2) e ∙ append_assoc out (pick factor i f) (pick factor (i + 1) f),
      )
  speed_loop-picked (g ∷ gs) i factor hp fp f out s p h hs =
      let e = speed_round (suc (suc (length gs))) i factor hp fp f (g ++ flat gs) out s h in
      let ih =
        speed_loop-picked gs (i + 1) factor hp (shift_all fp f) g (out ++ pick factor i f) s p hs.0
          hs.1 in
      (
        ap (λ r. r.0) e ∙ ih.0,
        ap (λ r. r.2) e ∙ ih.1 ∙ append_assoc out (pick factor i f) (picked factor (i + 1) g gs),
      )

  -- For a stream of frames of at most four bytes, at least one and as many as the header says, with a
  -- factor that is not 0 and a new size below 2 ^ 32: where no byte fails, the loop for -u writes the
  -- frames at the places that the factor divides, where the last frame counts twice.
  pub speed_up-picked :
      (hp : AudioHeader) (factor fp : ℕ) (f : List ℕ) (fs : List (List ℕ))
      → frame_size hp < 5
      → 0 < frame_size hp
      → IsFrame (frame_size hp) f
      → All (IsFrame (frame_size hp)) fs
      → hp.data_size / frame_size hp ≡ suc (length fs)
      → 0 < factor
      → suc (suc (length fs)) * factor < 2 ^ 32
      → ((speed_up fails hp factor fp (f ++ flat fs) []).0 ≡ true)
        × ((speed_up fails hp factor fp (f ++ flat fs) []).2 ≡ picked factor 0 f fs)
  unfolding speed_up speed_header
  speed_up-picked hp factor fp f fs s p h hs e q b =
      rw (e, rounds) (speed_loop-picked fs 0 factor _ fp f [] s p h hs)
    where
      rounds : (suc (length fs) + 1) * factor % 2 ^ 32 / factor ≡ suc (suc (length fs))
      rounds =
          ap (λ k. k * factor % 2 ^ 32 / factor) (omega arith)
          ∙ ap (λ k. k / factor) (small (suc (suc (length fs)) * factor) b)
          ∙ mul-div_cancel (suc (suc (length fs))) q
