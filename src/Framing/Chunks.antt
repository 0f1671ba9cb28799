-- ===== src/Framing/Chunks.antt =====
-- `streamFrames` over several frames, and `asyncStreamFrames` over any division into chunks.
use cursor_opencode_provider.Base.{
  ◌+◌, ◌<◌, ℕ, zero, suc, ◌≡◌, refl, sym, ap, ◌∙◌, inl, inr, none, some, List, [], ◌∷◌, ◌++◌, arith,
  if◌then◌else◌, Bool-cases, Option-cases, length, drop, All, string_eq, nat_eq,
}
use mathlib.Core.List.{append_assoc, append-nil}
use cursor_opencode_provider.Framing.{
  Frame, Bytes, frame_bytes, encode_frame, decode_frame_payload, is_gzip, take_frame, stream_frames,
  consumed, remaining, merge_chunks, async_stream_frames,
}
use cursor_opencode_provider.Framing.Frames.{
  take_frame-append, take_frame_sizes, take_frame-frame_bytes, stream_frames-none,
  stream_frames-some,
}

-- What stands behind the frames of a buffer.
abbrev rest_of : Bytes → Bytes
rest_of a = drop (consumed (stream_frames a)) a

drop-drop : {A : Type 0} (m n : ℕ) (a : List A) → drop (m + n) a ≡ drop n (drop m a)
drop-drop zero n a = let e : 0 + n ≡ n = omega arith in rw e
drop-drop (suc m) zero [] = let e : suc m + 0 ≡ suc (m + 0) = omega arith in rw e
drop-drop (suc m) (suc n) [] = let e : suc m + suc n ≡ suc (m + suc n) = omega arith in rw e
drop-drop (suc m) n (x ∷ a) =
    let e : suc m + n ≡ suc (m + n) = omega arith in rw e (drop-drop m n a)

rest_of-some :
    (a : Bytes) (f : Frame) (r : Bytes) → take_frame a ≡ some (f, r) → rest_of a ≡ rest_of r
rest_of-some a f r e =
    let (size, behind) = take_frame_sizes a f r e in
    rw (stream_frames-some a f r e)
      (drop-drop (5 + length f.payload) (consumed (stream_frames r)) a ∙ rw behind)

rest_of-none : (a : Bytes) → take_frame a ≡ none → rest_of a ≡ a
rest_of-none a e = rw (stream_frames-none a e)

-- Bytes that arrive later: the frames so far, then those of what is left and the new bytes.
split_frames :
    (n : ℕ) (a b : Bytes)
    → length a < n
    → stream_frames (a ++ b) ≡ stream_frames a ++ stream_frames (rest_of a ++ b)
split_frames zero a b h = absurd (omega arith)
split_frames (suc n) a b h = elim (Option-cases (take_frame a)) [
  | inl e ↦ rw (rest_of-none a e, stream_frames-none a e)
  | inr ((f, r), e) ↦
      let size = (take_frame_sizes a f r e).0 in
      stream_frames-some (a ++ b) f (r ++ b) (take_frame-append a b f r e)
      ∙ ap (λ t. f ∷ t) (split_frames n r b (omega arith))
      ∙ rw (rest_of-some a f r e, stream_frames-some a f r e)
]

remaining_lem : (a : Bytes) → remaining (stream_frames a) a ≡ rest_of a
remaining_lem a = by_frames (stream_frames a)
  where
    by_frames : (fs : List Frame) → remaining fs a ≡ drop (consumed fs) a
    by_frames [] = unfold remaining in refl
    by_frames (f ∷ fs) = unfold remaining in refl

-- However the bytes of a stream are cut into chunks, `asyncStreamFrames` yields the frames that
-- `streamFrames` finds in the whole, in order: none is lost, doubled or split at a chunk's end.
pub async_stream_frames-stream_frames :
    (pending : Bytes) (chunks : List Bytes)
    → async_stream_frames pending chunks ≡ stream_frames (pending ++ merge_chunks chunks)
unfolding async_stream_frames
async_stream_frames-stream_frames pending [] = rw (append-nil pending)
async_stream_frames-stream_frames pending (c ∷ cs) =
    rw (remaining_lem (pending ++ c), async_stream_frames-stream_frames (rest_of (pending ++ c)) cs)
      (sym (
          split_frames (suc (length (pending ++ c))) (pending ++ c) (merge_chunks cs) (omega arith))
        ∙ ap stream_frames (append_assoc pending c (merge_chunks cs)))

-- A frame to be written: its flag byte fits, and so does the length of what is written.
abbrev pub Fits : Frame → Type 0
Fits f = (f.flags < 256) × (length f.payload < 4294967296)

abbrev pub frames_bytes : List Frame → Bytes
frames_bytes [] = []
frames_bytes (f ∷ fs) = frame_bytes f.flags f.payload ++ frames_bytes fs

-- Reading what was written, cut into any chunks: the same frames with the same payloads, and an
-- incomplete frame at the end yields nothing. Each frame's flags fit a byte and its payload's
-- length 32 bits.
pub async_stream_frames-frames_bytes :
    (fs : List Frame) (tail : Bytes) (chunks : List Bytes)
    → All Fits fs
    → take_frame tail ≡ none
    → merge_chunks chunks ≡ frames_bytes fs ++ tail
    → async_stream_frames [] chunks ≡ fs
async_stream_frames-frames_bytes fs tail chunks fit short whole =
    async_stream_frames-stream_frames [] chunks ∙ ap stream_frames whole ∙ written fs fit
  where
    written : (gs : List Frame) → All Fits gs → stream_frames (frames_bytes gs ++ tail) ≡ gs
    written [] h = stream_frames-none tail short
    written (g ∷ gs) ((hf, hp), h) =
        ap stream_frames (append_assoc (frame_bytes g.flags g.payload) (frames_bytes gs) tail)
        ∙ stream_frames-some _ g (frames_bytes gs ++ tail)
            (take_frame-frame_bytes g.flags g.payload (frames_bytes gs ++ tail) hf hp)
        ∙ ap (λ t. g ∷ t) (written gs h)

-- `decodeFramePayload` undoes `encodeFrame` on the frame that is read back, whether or not the gzip
-- flag is set, if `gunzip` undoes `gzip` and the written bytes fit a frame.
pub decode_frame_payload-encode_frame :
    (gzip gunzip : Bytes → Bytes)
    → ((p : Bytes) → gunzip (gzip p) ≡ p)
    → (flags : ℕ) (payload rest : Bytes) → flags < 256
    → length (if is_gzip flags then gzip payload else payload) < 4294967296
    → (f : Frame) × (take_frame (encode_frame gzip gunzip flags payload ++ rest) ≡ some (f, rest))
      × (decode_frame_payload gzip gunzip f ≡ payload)
unfolding encode_frame decode_frame_payload
decode_frame_payload-encode_frame gzip gunzip undo flags payload rest hf hp = (
  record { flags = flags; payload = if is_gzip flags then gzip payload else payload },
  take_frame-frame_bytes flags (if is_gzip flags then gzip payload else payload) rest hf hp,
  elim (Bool-cases (is_gzip flags)) [ inl e ↦ rw e (undo payload) | inr e ↦ rw e ],
)
