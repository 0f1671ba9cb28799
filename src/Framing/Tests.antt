-- ===== src/Framing/Tests.antt =====
-- A frame in three chunks, and the theorems at it.
use cursor_opencode_provider.Base.{◌≡◌, refl, some, List, [], ◌∷◌, ◌++◌, arith, string_eq, nat_eq}
use cursor_opencode_provider.Framing.{
  Frame, Bytes, frame_bytes, encode_frame, decode_frame_payload, take_frame, stream_frames,
  remaining, async_stream_frames, merge_chunks, frames_loop,
}
use cursor_opencode_provider.Framing.Chunks.{
  async_stream_frames-stream_frames, async_stream_frames-frames_bytes,
  decode_frame_payload-encode_frame,
}

abbrev frame : Frame
frame = record { flags = 0; payload = 7 ∷ 8 ∷ [] }

abbrev chunks : List Bytes
chunks = (0 ∷ 0 ∷ 0 ∷ []) ∷ (0 ∷ 2 ∷ 7 ∷ []) ∷ (8 ∷ 1 ∷ []) ∷ []

reads_frame : async_stream_frames [] chunks ≡ frame ∷ []
unfolding async_stream_frames stream_frames frames_loop remaining take_frame
reads_frame = refl

async_stream_frames-stream_frames_example :
    async_stream_frames (9 ∷ []) chunks ≡ stream_frames ((9 ∷ []) ++ merge_chunks chunks)
async_stream_frames-stream_frames_example = async_stream_frames-stream_frames (9 ∷ []) chunks

async_stream_frames-frames_bytes_example : async_stream_frames [] chunks ≡ frame ∷ []
unfolding take_frame frame_bytes
async_stream_frames-frames_bytes_example =
    async_stream_frames-frames_bytes (frame ∷ []) (1 ∷ []) chunks ((omega arith, omega arith), tt)
      refl refl

-- A codec that marks what it has packed.
abbrev mark : Bytes → Bytes
mark p = 31 ∷ p

abbrev unmark : Bytes → Bytes
unmark [] = []
unmark (x ∷ p) = p

decode_frame_payload-encode_frame_example :
    (f : Frame) × (take_frame (encode_frame mark unmark 1 (5 ∷ []) ++ (2 ∷ [])) ≡ some (f, 2 ∷ []))
    × (decode_frame_payload mark unmark f ≡ 5 ∷ [])
decode_frame_payload-encode_frame_example =
    decode_frame_payload-encode_frame mark unmark (λ p. refl) 1 (5 ∷ []) (2 ∷ []) (omega arith)
      (omega arith)
