-- ===== src/Framing.antt =====
-- src/protocol/framing.ts: Connect frames. Bytes are numbers, a `Uint8Array` is a list of them.
-- zlib is not part of the repository: its two functions are parameters.
pub mod Frames
pub mod Chunks
mod Tests
use cursor_opencode_provider.Base.{
  ◌+◌, ◌-◌, ◌*◌, ◌/◌, ◌%◌, ◌^◌, ◌≤◌, ◌<◌, min, max, ℕ, zero, suc, String, ◌≡◌, refl, sym, ap, ◌∙◌,
  subst, ◌≢◌, ◌↔◌, ◌⊎◌, inl, inr, Bool, true, false, not, ◌&&◌, ◌||◌, Option, none, some, List, [],
  ◌∷◌, ◌++◌, map, arith, ltb, leb, nat_beq, if◌then◌else◌, ltb→lt, lt→ltb, leb→le, nat_beq_iff,
  Bool-cases, Option-cases, is_some, get_or, length, take, drop, any, all, filter, length-append,
  length-filter-le, take-append-drop, length-take, length-drop, take-append, drop-append, All,
  All-append, All-filter, Eq, ◌==◌, eq_refl, string_eq, nat_eq,
}

pub record Frame : Type 0 where
  pub flags : ℕ
  pub payload : List ℕ

abbrev pub Bytes : Type 0
Bytes = List ℕ

-- `flags & FLAG_GZIP`
abbrev pub is_gzip : ℕ → Bool
is_gzip flags = nat_beq (flags % 2) 1

-- `header[1]` to `header[4]`: a store into a `Uint8Array` keeps the low byte.
abbrev pub header : ℕ → ℕ → Bytes → Bytes
header flags len rest =
    (flags % 256)
    ∷ (len / 16777216 % 256)
    ∷ (len / 65536 % 256)
    ∷ (len / 256 % 256)
    ∷ (len % 256)
    ∷ rest

pub frame_bytes : ℕ → Bytes → Bytes
frame_bytes flags data' = header flags (length data') data'

module _ (gzip gunzip : Bytes → Bytes) where
  pub encode_frame : ℕ → Bytes → Bytes
  unfolding frame_bytes
  encode_frame flags payload = frame_bytes flags (if is_gzip flags then gzip payload else payload)

  -- `FLAG_GZIP` is 1.
  pub encode_gzip_frame : Bytes → Bytes
  unfolding frame_bytes
  encode_gzip_frame payload = frame_bytes 1 (gzip payload)

  pub decode_frame_payload : Frame → Bytes
  decode_frame_payload frame = if is_gzip frame.flags then gunzip frame.payload else frame.payload

-- One round of `streamFrames`, on the bytes from `offset` on: the frame and the bytes behind it.
pub take_frame : Bytes → Option (Frame × Bytes)
take_frame (flags ∷ a ∷ b ∷ c ∷ d ∷ rest) =
    let len = a * 16777216 + b * 65536 + c * 256 + d in
    if leb len (length rest)
    then some (record { flags = flags; payload = take len rest }, drop len rest)
    else none
take_frame _ = none

-- A frame takes five bytes at least, so as many rounds as there are bytes are enough.
pub frames_loop : ℕ → Bytes → List Frame
frames_loop zero buffer = []
frames_loop (suc fuel) buffer = elim (take_frame buffer) [
  | none ↦ []
  | some (frame, rest) ↦ frame ∷ frames_loop fuel rest
]

pub stream_frames : Bytes → List Frame
unfolding frames_loop
stream_frames buffer = frames_loop (length buffer) buffer

-- `frames.reduce((sum, f) => sum + 5 + f.payload.length, 0)`
abbrev pub consumed : List Frame → ℕ
consumed [] = 0
consumed (f ∷ fs) = 5 + length f.payload + consumed fs

abbrev pub merge_chunks : List Bytes → Bytes
merge_chunks [] = []
merge_chunks (c ∷ cs) = c ++ merge_chunks cs

-- What `asyncStreamFrames` keeps of the merged bytes once it has yielded the frames.
pub remaining : List Frame → Bytes → Bytes
remaining [] merged = merged
remaining (f ∷ fs) merged = drop (consumed (f ∷ fs)) merged

-- The loop of `asyncStreamFrames` over the chunks that the reader gives; at the end the pending
-- bytes are parsed once more. `pending` is the merged content of `chunks`.
pub async_stream_frames : Bytes → List Bytes → List Frame
unfolding stream_frames remaining
async_stream_frames pending [] = stream_frames pending
async_stream_frames pending (value ∷ values) =
    let merged = pending ++ value in
    let frames = stream_frames merged in
    frames ++ async_stream_frames (remaining frames merged) values
