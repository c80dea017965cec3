-- ===== src/Protocol/Frame/Stream.antt =====
-- Laws of `decodeFrames` on a whole stream.
use mathlib.Core.Path.{subst}
use rongta_f11_open.Base.{
  ℕ, zero, suc, ◌≤◌, ◌<◌, ◌≡◌, ◌≢◌, ◌↔◌, inl, inr, refl, sym, ap, ◌∙◌, List, [], ◌∷◌, ◌++◌, arith,
  length, length-append, All, Bytes, IsByte, AllBytes, Result, Error, ok, err, panic, stuck, new,
  ◌>>=◌,
}
use rongta_f11_open.Protocol.Checksum.{checksum}
use rongta_f11_open.Protocol.Checksum.Laws.{checksum-lt, checksum_one_byte}
use rongta_f11_open.Protocol.Frame.{
  Frame, frame_body, frame_bytes, decode_frame, decode_frames_loop, decode_frames,
}
use rongta_f11_open.Protocol.Frame.Laws.{
  IsFrame, decode_frame-frame_bytes, decode_frame-bad_crc, sealed, length-frame_body,
  frame_body-bytes,
}
use rongta_f11_open.Protocol.Frame.Inversion.{
  decode_frame-eq-ok, decode_frame-shorter, decode_frame_returns,
}

-- The frames one behind the other, as `encodeRows` appends them.
unfoldable pub frames_bytes : List Frame → Bytes
frames_bytes [] = []
frames_bytes (f ∷ fs) = frame_bytes f ++ frames_bytes fs

abbrev pub AllFrames : List Frame → Type 0
AllFrames = All IsFrame

frames_bytes-cons :
    (f : Frame) (fs : List Frame) → frames_bytes (f ∷ fs) ≡ frame_bytes f ++ frames_bytes fs
unfolding frames_bytes
frames_bytes-cons f fs = refl

length-frame_bytes_pos : (f : Frame) → 0 < length (frame_bytes f)
unfolding frame_bytes
length-frame_bytes_pos f = omega arith

decode_frames_loop-cons :
    (fuel : ℕ) (bs : Bytes) {f : Frame} {rest : Bytes} {fs : List Frame}
    → 0 < length bs
    → decode_frame bs ≡ ok (f, rest)
    → decode_frames_loop fuel rest ≡ ok fs
    → decode_frames_loop (suc fuel) bs ≡ ok (f ∷ fs)
unfolding decode_frames_loop
decode_frames_loop-cons fuel [] h e k = absurd (omega arith)
decode_frames_loop-cons fuel (b ∷ bs) h e k = rw (e, k)

decode_frames_loop-frames_bytes :
    (fuel : ℕ) (fs : List Frame)
    → AllFrames fs
    → length (frames_bytes fs) ≤ fuel
    → decode_frames_loop fuel (frames_bytes fs) ≡ ok fs
unfolding frames_bytes
decode_frames_loop-frames_bytes fuel [] h k = unfold decode_frames_loop in refl
decode_frames_loop-frames_bytes zero (f ∷ fs) h k =
    absurd
      (omega (arith, length-append (frame_bytes f) (frames_bytes fs), length-frame_bytes_pos f))
decode_frames_loop-frames_bytes (suc fuel) (f ∷ fs) (hf, hfs) k =
    let len = length-append (frame_bytes f) (frames_bytes fs) in
    let pos = length-frame_bytes_pos f in
    decode_frames_loop-cons fuel (frame_bytes f ++ frames_bytes fs) (omega arith)
      (decode_frame-frame_bytes f (frames_bytes fs) hf)
      (decode_frames_loop-frames_bytes fuel fs hfs (omega arith))

-- Decoding reads a stream of frames back, whatever they are.
pub decode_frames-frames_bytes :
    (fs : List Frame) → AllFrames fs → decode_frames (frames_bytes fs) ≡ ok fs
unfolding decode_frames
decode_frames-frames_bytes fs h =
    decode_frames_loop-frames_bytes (length (frames_bytes fs)) fs h (omega arith)

All-parts : (xs ys : Bytes) → AllBytes (xs ++ ys) → AllBytes xs × AllBytes ys
All-parts [] ys h = (tt, h)
All-parts (x ∷ xs) ys (hx, h) = let (hxs, hys) = All-parts xs ys h in ((hx, hxs), hys)

cons-eq-ok :
    (r : Result (List Frame)) (f : Frame) {fs : List Frame}
    → (r >>= λ gs. ok (f ∷ gs)) ≡ ok fs
    → (gs : List Frame) × (r ≡ ok gs) × (fs ≡ f ∷ gs)
cons-eq-ok (ok gs) f e = (gs, refl, ground arith)
cons-eq-ok (err x) f e = cc
cons-eq-ok panic f e = cc
cons-eq-ok stuck f e = cc

loop_nil : (fuel : ℕ) {fs : List Frame} → decode_frames_loop fuel [] ≡ ok fs → fs ≡ []
unfolding decode_frames_loop
loop_nil fuel e = ground arith

loop_err :
    (fuel b : ℕ) (bs : Bytes) (x : Error)
    → decode_frame (b ∷ bs) ≡ err x
    → decode_frames_loop (suc fuel) (b ∷ bs) ≡ err x
unfolding decode_frames_loop
loop_err fuel b bs x p = rw p

loop_ok :
    (fuel b : ℕ) (bs : Bytes) {f : Frame} {rest : Bytes} {fs : List Frame}
    → decode_frame (b ∷ bs) ≡ ok (f, rest)
    → decode_frames_loop (suc fuel) (b ∷ bs) ≡ ok fs
    → (gs : List Frame) × (decode_frames_loop fuel rest ≡ ok gs) × (fs ≡ f ∷ gs)
unfolding decode_frames_loop
loop_ok fuel b bs {f} {rest} p e = cons-eq-ok (decode_frames_loop fuel rest) f (rw p at e)

decode_frames_loop-eq-ok :
    (fuel : ℕ) (bs : Bytes) (fs : List Frame)
    → AllBytes bs
    → decode_frames_loop fuel bs ≡ ok fs
    → AllFrames fs × (bs ≡ frames_bytes fs)
decode_frames_loop-eq-ok fuel [] fs h e = rw (loop_nil fuel e) (unfold frames_bytes in (tt, refl))
decode_frames_loop-eq-ok zero (b ∷ bs) fs h e = unfold decode_frames_loop in cc
decode_frames_loop-eq-ok (suc fuel) (b ∷ bs) fs h e = elim (decode_frame_returns (b ∷ bs)) [
  | inr (x, p) ↦ cc (loop_err fuel b bs x p)
  | inl ((f, rest), p) ↦
      let (hf, front) = decode_frame-eq-ok (b ∷ bs) h p in
      let (gs, q, more) = loop_ok fuel b bs p e in
      let (hgs, back) =
        decode_frames_loop-eq-ok fuel rest gs
          (All-parts (frame_bytes f) rest (subst AllBytes front h)).1 q in
      rw more ((hf, hgs), front ∙ ap (λ t. frame_bytes f ++ t) back ∙ sym (frames_bytes-cons f gs))
]

-- Exactly the streams of well-formed frames are accepted, and each is read as the frames it holds.
pub decode_frames-eq-ok_iff :
    (bs : Bytes) (fs : List Frame)
    → AllBytes bs
    → (decode_frames bs ≡ ok fs) ↔ (AllFrames fs × (bs ≡ frames_bytes fs))
unfolding decode_frames
decode_frames-eq-ok_iff bs fs h = (
  λ e. decode_frames_loop-eq-ok (length bs) bs fs h e,
  λ (all, e). rw e (decode_frames-frames_bytes fs all),
)

decode_frames_loop_returns :
    (fuel : ℕ) (bs : Bytes)
    → length bs ≤ fuel
    → (decode_frames_loop fuel bs ≢ panic) × (decode_frames_loop fuel bs ≢ stuck)
unfolding decode_frames_loop
decode_frames_loop_returns fuel [] h = ground arith
decode_frames_loop_returns zero (b ∷ bs) h = absurd (omega arith)
decode_frames_loop_returns (suc fuel) (b ∷ bs) h = elim (decode_frame_returns (b ∷ bs)) [
  | inr (x, p) ↦ rw p (ground arith)
  | inl ((f, rest), p) ↦ rw p (
      ground (
        arith,
        decode_frames_loop_returns fuel rest (omega (arith, decode_frame-shorter (b ∷ bs) p)),
      ))
]

-- On any input at all the loop ends, and returns frames or an error: no index is out of range.
pub decode_frames_returns : (bs : Bytes) → (decode_frames bs ≢ panic) × (decode_frames bs ≢ stuck)
unfolding decode_frames
decode_frames_returns bs = decode_frames_loop_returns (length bs) bs (omega arith)

decode_frames-bad_front :
    (b : ℕ) (bs : Bytes) (x : Error)
    → decode_frame (b ∷ bs) ≡ err x
    → decode_frames (b ∷ bs) ≡ err x
unfolding decode_frames decode_frames_loop
decode_frames-bad_front b bs x e = rw e

-- A frame with one byte of its body changed on the way is refused by its checksum, whatever follows.
pub decode_frames_one_byte :
    (f : Frame) (xs ys rest : Bytes) (a b : ℕ)
    → IsFrame f
    → frame_body f ≡ xs ++ (a ∷ ys)
    → IsByte b
    → a ≢ b
    → decode_frames (sealed (xs ++ (b ∷ ys)) (checksum (frame_body f)) rest) ≡ err (new "CRC")
decode_frames_one_byte f xs ys rest a b h e hb ne =
    let (hx, hay) = All-parts xs (a ∷ ys) (rw e at (frame_body-bytes f h)) in
    let size : length (xs ++ (b ∷ ys)) ≡ length (frame_body f) =
      rw e (omega (arith, length-append xs (a ∷ ys), length-append xs (b ∷ ys))) in
    decode_frames-bad_front _ _ _ (
      decode_frame-bad_crc (xs ++ (b ∷ ys)) rest (checksum (frame_body f))
        (omega (arith, length-frame_body f)) (omega (arith, length-frame_body f, h.payload_fits))
        (checksum-lt (frame_body f) (frame_body-bytes f h))
        (λ same. checksum_one_byte xs ys a b hx hay.1 hay.0 hb ne (sym (same ∙ ap checksum e))))
