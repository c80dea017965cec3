-- ===== src/Protocol/Frame/Reads.antt =====
-- The loop body of `decodeFrames` reads no byte that its tests have not shown to be there.
use rongta_f11_open.Base.{
  ℕ, ◌+◌, ◌-◌, ◌≤◌, ◌≡◌, refl, inl, inr, Bool, true, false, not, ◌||◌, ltb, ◌==◌, length,
  length-take, length-drop, get_or, take, drop, Bytes, get_uint16, get_uint32, String, Result, ok,
  ◌>>◌, fail_if, arith, Bool-cases,
}
use rongta_f11_open.Base.Reads.{reads-eq}
use rongta_f11_open.Protocol.Checksum.{checksum}
use rongta_f11_open.Protocol.Frame.{Frame, is_synced, is_unsynced, decode_frame}

-- Behind a test that did not fail.
guard-ext {ℓ} :
    {A : Type ℓ} (b : Bool) (message : String) {x y : Result A}
    → (b ≡ false → x ≡ y)
    → (fail_if b message >> x) ≡ (fail_if b message >> y)
guard-ext true message h = refl
guard-ext false message h = h refl

is_unsynced_lem :
    (rest : Bytes) → is_unsynced rest ≡ ok (ltb (length rest) 15 || not (is_synced rest))
unfolding is_unsynced
is_unsynced_lem rest = elim (Bool-cases (ltb (length rest) 15)) [
  | inl short ↦ rw short refl
  | inr long ↦ rw (long, reads-eq 4 rest (ground arith)) refl
]

-- The loop body without the bounds.
unfoldable pub read_frame : Bytes → Result (Frame × Bytes)
read_frame rest = do
  fail_if (ltb (length rest) 15 || not (is_synced rest)) "sync/type"
  let n = get_uint16 rest 4
  fail_if (ltb n 5) "short body"
  fail_if (ltb (length rest) (6 + n + 4)) "truncated"
  let body = take n (drop 6 rest)
  let crc = take 4 (drop n (drop 6 rest))
  fail_if (not (checksum body == get_uint32 crc)) "CRC"
  let plen = get_uint16 body 3
  fail_if (not (plen == length body - 5)) "length"
  let f : Frame = record {
    app_class = get_or body 0 0;
    command = get_or body 1 0;
    subcommand = get_or body 2 0;
    payload = drop 5 body;
  }
  ok (f, drop 4 (drop n (drop 6 rest)))

-- No read is out of range.
pub decode_frame-read_frame : (rest : Bytes) → decode_frame rest ≡ read_frame rest
unfolding decode_frame read_frame
decode_frame-read_frame rest =
    let n : ℕ = get_uint16 rest 4 in
    let body : Bytes = take n (drop 6 rest) in
    rw (is_unsynced_lem rest) (
      guard-ext (ltb (length rest) 15 || not (is_synced rest)) "sync/type" λ long.
        let fifteen : 15 ≤ length rest = ground arith in
        rw (reads-eq 6 rest (omega (arith, fifteen))) (
          guard-ext (ltb n 5) "short body" λ some_body.
            guard-ext (ltb (length rest) (6 + n + 4)) "truncated" λ whole.
              let five : 5 ≤ n = ground arith in
              let there : 6 + n + 4 ≤ length rest = ground arith in
              let size : length body ≡ n =
                omega (arith, length-take n (drop 6 rest), length-drop 6 rest, there) in
              rw (reads-eq (6 + n + 4) rest there, reads-eq 5 body (omega (arith, size, five)))
                refl))
