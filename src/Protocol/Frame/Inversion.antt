-- ===== src/Protocol/Frame/Inversion.antt =====
-- What `decodeFrames` accepts, on one frame.
use rongta_f11_open.Base.{
  ℕ, ◌+◌, ◌-◌, ◌*◌, ◌/◌, ◌≤◌, ◌<◌, ◌≡◌, ◌≢◌, ◌⊎◌, inl, inr, refl, sym, ◌∙◌, ap, [], ◌∷◌, ◌++◌,
  append_assoc, arith, length, length-take, length-drop, take, drop, take-append-drop, All-take,
  All-drop, Bytes, IsByte, AllBytes, byte, uint16, put_uint32, get_uint16, get_uint32, Result, ok,
  err, Error, panic, stuck,
}
use rongta_f11_open.Protocol.Checksum.{checksum}
use rongta_f11_open.Protocol.Frame.{Frame, frame_body, frame_bytes, decode_frame}
use rongta_f11_open.Protocol.Frame.Reads.{read_frame, decode_frame-read_frame}
use rongta_f11_open.Protocol.Frame.Laws.{IsFrame, of_body}

-- The checks that a frame has passed: `t` is what follows the two length bytes `lo` and `hi`.
record Accepted (a b c d lo hi : ℕ) (t : Bytes) (f : Frame) (rest : Bytes) : Type 0 where
  pub sync_0 : a ≡ 0xa3
  sync_1 : b ≡ 0x1e
  sync_2 : c ≡ 0x1c
  sync_3 : d ≡ 0
  long : 5 ≤ lo + 256 * hi
  whole : lo + 256 * hi + 4 ≤ length t
  crc : checksum (take (lo + 256 * hi) t) ≡ get_uint32 (take 4 (drop (lo + 256 * hi) t))
  size : get_uint16 (take (lo + 256 * hi) t) 3 ≡ length (take (lo + 256 * hi) t) - 5
  value : f ≡ of_body (take (lo + 256 * hi) t)
  remains : rest ≡ drop 4 (drop (lo + 256 * hi) t)

read_frame-Accepted :
    (a b c d lo hi : ℕ) (t : Bytes) (f : Frame) (rest : Bytes)
    → read_frame (a ∷ b ∷ c ∷ d ∷ lo ∷ hi ∷ t) ≡ ok (f, rest)
    → Accepted a b c d lo hi t f rest
unfolding read_frame of_body
read_frame-Accepted a b c d lo hi t f rest e = ground arith

put_uint16-low : (a b : ℕ) → IsByte a → IsByte b → byte (uint16 (a + 256 * b)) ≡ a
put_uint16-low a b ha hb = omega arith

put_uint16-high : (a b : ℕ) → IsByte a → IsByte b → byte (uint16 (a + 256 * b) / 256) ≡ b
put_uint16-high a b ha hb = omega arith

put_uint32-get : (cs : Bytes) → AllBytes cs → length cs ≡ 4 → put_uint32 (get_uint32 cs) ≡ cs
put_uint32-get (a ∷ b ∷ c ∷ d ∷ []) (ha, (hb, (hc, (hd, _)))) h = ground arith
put_uint32-get [] hs h = absurd (omega arith)
put_uint32-get (a ∷ []) hs h = absurd (omega arith)
put_uint32-get (a ∷ b ∷ []) hs h = absurd (omega arith)
put_uint32-get (a ∷ b ∷ c ∷ []) hs h = absurd (omega arith)
put_uint32-get (a ∷ b ∷ c ∷ d ∷ e ∷ cs) hs h = absurd (omega arith)

-- A body with a right length field is that of the frame read from it.
frame_body-of_body :
    (body : Bytes)
    → AllBytes body
    → 5 ≤ length body
    → length body < 65536
    → get_uint16 body 3 ≡ length body - 5
    → (frame_body (of_body body) ≡ body) × IsFrame (of_body body)
unfolding frame_body of_body
frame_body-of_body (x ∷ y ∷ z ∷ p ∷ q ∷ w) (hx, (hy, (hz, (hp, (hq, hw))))) lo hi e = (
  let n : length w ≡ p + 256 * q = omega arith in
      rw (n, put_uint16-low p q hp hq, put_uint16-high p q hp hq),
  record {
    class_byte = hx;
    command_byte = hy;
    subcommand_byte = hz;
    payload_bytes = hw;
    payload_fits = omega arith;
  },
)
frame_body-of_body [] hs lo hi e = absurd (omega arith)
frame_body-of_body (x ∷ []) hs lo hi e = absurd (omega arith)
frame_body-of_body (x ∷ y ∷ []) hs lo hi e = absurd (omega arith)
frame_body-of_body (x ∷ y ∷ z ∷ []) hs lo hi e = absurd (omega arith)
frame_body-of_body (x ∷ y ∷ z ∷ p ∷ []) hs lo hi e = absurd (omega arith)

-- An accepted frame stands on the wire as `EncodeFrame` writes it.
Accepted-frame_bytes :
    {a b c d lo hi : ℕ} {t : Bytes} {f : Frame} {rest : Bytes}
    → AllBytes (a ∷ b ∷ c ∷ d ∷ lo ∷ hi ∷ t)
    → Accepted a b c d lo hi t f rest
    → IsFrame f × (a ∷ b ∷ c ∷ d ∷ lo ∷ hi ∷ t ≡ frame_bytes f ++ rest)
unfolding frame_bytes
Accepted-frame_bytes {a} {b} {c} {d} {lo} {hi} {t} {f} {rest} (_, (_, (_, (_, (hlo, (hhi, ht))))))
      h =
    let n : ℕ = lo + 256 * hi in
    let body : Bytes = take n t in
    let len : length body ≡ n = omega (arith, length-take n t, h.whole) in
    let crc_len : length (take 4 (drop n t)) ≡ 4 =
      omega (arith, length-take 4 (drop n t), length-drop n t, h.whole) in
    let bs : (frame_body (of_body body) ≡ body) × IsFrame (of_body body) =
      frame_body-of_body body (All-take IsByte n t ht) (omega (arith, h.long)) (omega arith)
        h.size in
    let crc_eq : put_uint32 (checksum body) ≡ take 4 (drop n t) = rw (h.crc) (
      put_uint32-get (take 4 (drop n t)) (All-take IsByte 4 (drop n t) (All-drop IsByte n t ht))
        crc_len) in
    rw (h.value, h.remains)
      (
        bs.1,
        rw (
          bs.0,
          len,
          put_uint16-low lo hi hlo hhi,
          put_uint16-high lo hi hlo hhi,
          crc_eq,
          append_assoc body (take 4 (drop n t)) (drop 4 (drop n t)),
          take-append-drop 4 (drop n t),
          take-append-drop n t,
          h.sync_0,
          h.sync_1,
          h.sync_2,
          h.sync_3,
        ),
      )

read_frame_short :
    (bs : Bytes) {f : Frame} {rest : Bytes} → read_frame bs ≡ ok (f, rest) → 15 ≤ length bs
unfolding read_frame
read_frame_short bs e = ground arith

decode_frame_short :
    (bs : Bytes) {f : Frame} {rest : Bytes} → decode_frame bs ≡ ok (f, rest) → 15 ≤ length bs
decode_frame_short bs e = read_frame_short bs (sym (decode_frame-read_frame bs) ∙ e)

-- A frame that is accepted stands at the front of the input, as `EncodeFrame` writes it.
pub decode_frame-eq-ok :
    (bs : Bytes) {f : Frame} {rest : Bytes}
    → AllBytes bs
    → decode_frame bs ≡ ok (f, rest)
    → IsFrame f × (bs ≡ frame_bytes f ++ rest)
decode_frame-eq-ok (a ∷ b ∷ c ∷ d ∷ lo ∷ hi ∷ t) h e =
    Accepted-frame_bytes h
      (read_frame-Accepted a b c d lo hi t _ _ (sym (decode_frame-read_frame _) ∙ e))
decode_frame-eq-ok [] h e = absurd (omega (arith, decode_frame_short [] e))
decode_frame-eq-ok (a ∷ []) h e = absurd (omega (arith, decode_frame_short (a ∷ []) e))
decode_frame-eq-ok (a ∷ b ∷ []) h e = absurd (omega (arith, decode_frame_short (a ∷ b ∷ []) e))
decode_frame-eq-ok (a ∷ b ∷ c ∷ []) h e =
    absurd (omega (arith, decode_frame_short (a ∷ b ∷ c ∷ []) e))
decode_frame-eq-ok (a ∷ b ∷ c ∷ d ∷ []) h e =
    absurd (omega (arith, decode_frame_short (a ∷ b ∷ c ∷ d ∷ []) e))
decode_frame-eq-ok (a ∷ b ∷ c ∷ d ∷ lo ∷ []) h e =
    absurd (omega (arith, decode_frame_short (a ∷ b ∷ c ∷ d ∷ lo ∷ []) e))

read_frame-rest :
    (bs : Bytes) {f : Frame} {rest : Bytes}
    → read_frame bs ≡ ok (f, rest)
    → rest ≡ drop 4 (drop (get_uint16 bs 4) (drop 6 bs))
unfolding read_frame
read_frame-rest bs e = ground arith

-- Each round of the loop takes bytes off the input.
pub decode_frame-shorter :
    (bs : Bytes) {f : Frame} {rest : Bytes}
    → decode_frame bs ≡ ok (f, rest)
    → length rest < length bs
decode_frame-shorter bs {f} {rest} e =
    let n : ℕ = get_uint16 bs 4 in
    omega (
      arith,
      decode_frame_short bs e,
      ap length (read_frame-rest bs (sym (decode_frame-read_frame bs) ∙ e)),
      length-drop 4 (drop n (drop 6 bs)),
      length-drop n (drop 6 bs),
      length-drop 6 bs,
    )

read_frame-total : (bs : Bytes) → (read_frame bs ≢ panic) × (read_frame bs ≢ stuck)
unfolding read_frame
read_frame-total bs = ground arith

decode_frame-total : (bs : Bytes) → (decode_frame bs ≢ panic) × (decode_frame bs ≢ stuck)
decode_frame-total bs = rw (decode_frame-read_frame bs) (read_frame-total bs)

-- The loop's body returns a frame or an error.
pub decode_frame_returns :
    (bs : Bytes)
    → ((p : Frame × Bytes) × (decode_frame bs ≡ ok p)) ⊎ ((e : Error) × (decode_frame bs ≡ err e))
decode_frame_returns bs = split (decode_frame bs) (decode_frame-total bs)
  where
    split :
        (r : Result (Frame × Bytes))
        → (r ≢ panic) × (r ≢ stuck)
        → ((p : Frame × Bytes) × (r ≡ ok p)) ⊎ ((e : Error) × (r ≡ err e))
    split (ok p) h = inl (p, refl)
    split (err e) h = inr (e, refl)
    split panic h = absurd (h.0 refl)
    split stuck h = absurd (h.1 refl)
