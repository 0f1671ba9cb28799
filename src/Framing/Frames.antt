-- ===== src/Framing/Frames.antt =====
-- One frame, and the loop over a buffer.
use cursor_opencode_provider.Base.{
  ◌+◌, ◌*◌, ◌/◌, ◌%◌, ◌≤◌, ◌<◌, ℕ, zero, suc, ◌≡◌, refl, sym, ap, ◌∙◌, inl, inr, none, some, [],
  ◌∷◌, ◌++◌, arith, Option-cases, length, take, drop, length-append, length-take, length-drop,
  take-append, drop-append, drop-append_left, string_eq, nat_eq,
}
use cursor_opencode_provider.Framing.{
  Frame, Bytes, frame_bytes, take_frame, frames_loop, stream_frames,
}

take-append_left : (n : ℕ) (xs ys : Bytes) → n ≤ length xs → take n (xs ++ ys) ≡ take n xs
take-append_left zero xs ys h = refl
take-append_left (suc n) [] ys h = elim h [ ]
take-append_left (suc n) (x ∷ xs) ys h = ap (λ t. x ∷ t) (take-append_left n xs ys (omega arith))

-- More bytes behind a whole frame do not change it.
pub take_frame-append :
    (a b : Bytes) (f : Frame) (r : Bytes)
    → take_frame a ≡ some (f, r)
    → take_frame (a ++ b) ≡ some (f, r ++ b)
unfolding take_frame
take_frame-append (v ∷ w ∷ x ∷ y ∷ z ∷ rest) b f r h =
    let len = w * 16777216 + x * 65536 + y * 256 + z in
    ground (arith, length-append rest b, take-append_left len rest b, drop-append_left len rest b)
take_frame-append [] b f r h = cc
take_frame-append (v ∷ []) b f r h = cc
take_frame-append (v ∷ w ∷ []) b f r h = cc
take_frame-append (v ∷ w ∷ x ∷ []) b f r h = cc
take_frame-append (v ∷ w ∷ x ∷ y ∷ []) b f r h = cc

drop_five : (n v w x y z : ℕ) (rest : Bytes) → drop (5 + n) (v ∷ w ∷ x ∷ y ∷ z ∷ rest) ≡ drop n rest
drop_five n v w x y z rest = let e : 5 + n ≡ suc (suc (suc (suc (suc n)))) = omega arith in rw e

payload_sizes :
    (n v w x y z : ℕ) (rest p r : Bytes)
    → n ≤ length rest
    → p ≡ take n rest
    → r ≡ drop n rest
    → (length (v ∷ w ∷ x ∷ y ∷ z ∷ rest) ≡ 5 + length p + length r)
      × (drop (5 + length p) (v ∷ w ∷ x ∷ y ∷ z ∷ rest) ≡ r)
payload_sizes n v w x y z rest p r h ep er =
    let size : length p ≡ n = rw ep (omega (arith, length-take n rest)) in
    (
      rw (size, er) (omega (arith, length-drop n rest)),
      rw size (drop_five n v w x y z rest ∙ sym er),
    )

-- A frame takes its header and its payload off the front.
pub take_frame_sizes :
    (a : Bytes) (f : Frame) (r : Bytes)
    → take_frame a ≡ some (f, r)
    → (length a ≡ 5 + length f.payload + length r) × (drop (5 + length f.payload) a ≡ r)
unfolding take_frame
take_frame_sizes (v ∷ w ∷ x ∷ y ∷ z ∷ rest) f r h =
    payload_sizes (w * 16777216 + x * 65536 + y * 256 + z) v w x y z rest f.payload r (ground arith)
      (ground arith) (ground arith)
take_frame_sizes [] f r h = cc
take_frame_sizes (v ∷ []) f r h = cc
take_frame_sizes (v ∷ w ∷ []) f r h = cc
take_frame_sizes (v ∷ w ∷ x ∷ []) f r h = cc
take_frame_sizes (v ∷ w ∷ x ∷ y ∷ []) f r h = cc

-- The length field reads back what the header stored.
big_endian :
    (n : ℕ)
    → n < 4294967296
    → n / 16777216 % 256 * 16777216 + n / 65536 % 256 * 65536 + n / 256 % 256 * 256 + n % 256 ≡ n
big_endian n h = omega arith

pub take_frame-frame_bytes :
    (flags : ℕ) (p rest : Bytes)
    → flags < 256
    → length p < 4294967296
    → take_frame (frame_bytes flags p ++ rest) ≡ some (record { flags = flags; payload = p }, rest)
unfolding take_frame frame_bytes
take_frame-frame_bytes flags p rest hf hp =
    let low : flags % 256 ≡ flags = omega arith in
    rw (low, big_endian (length p) hp)
      (ground (arith, length-append p rest, take-append p rest, drop-append p rest))

-- The loop, one round at a time.
pub frames_loop-none : (fuel : ℕ) (a : Bytes) → take_frame a ≡ none → frames_loop fuel a ≡ []
unfolding frames_loop
frames_loop-none zero a e = refl
frames_loop-none (suc fuel) a e = rw (e, frames_loop)

frames_loop-some :
    (fuel : ℕ) (a : Bytes) (f : Frame) (r : Bytes)
    → take_frame a ≡ some (f, r)
    → frames_loop (suc fuel) a ≡ f ∷ frames_loop fuel r
unfolding frames_loop
frames_loop-some fuel a f r e = rw (e, frames_loop)

-- Once the fuel covers the bytes, more of it changes nothing.
pub frames_loop_fuel :
    (m n : ℕ) (a : Bytes) → length a ≤ m → length a ≤ n → frames_loop m a ≡ frames_loop n a
unfolding frames_loop
frames_loop_fuel zero n [] hm hn = sym (frames_loop-none n [] (unfold take_frame in refl))
frames_loop_fuel zero n (x ∷ a) hm hn = absurd (omega arith)
frames_loop_fuel (suc m) zero [] hm hn = frames_loop-none (suc m) [] (unfold take_frame in refl)
frames_loop_fuel (suc m) zero (x ∷ a) hm hn = absurd (omega arith)
frames_loop_fuel (suc m) (suc n) a hm hn = elim (Option-cases (take_frame a)) [
  | inl e ↦ frames_loop-none (suc m) a e ∙ sym (frames_loop-none (suc n) a e)
  | inr ((f, r), e) ↦
      let size = (take_frame_sizes a f r e).0 in
      frames_loop-some m a f r e
      ∙ ap (λ t. f ∷ t) (frames_loop_fuel m n r (omega arith) (omega arith))
      ∙ sym (frames_loop-some n a f r e)
]

pub stream_frames-none : (a : Bytes) → take_frame a ≡ none → stream_frames a ≡ []
unfolding stream_frames
stream_frames-none a e = frames_loop-none (length a) a e

-- `streamFrames` yields the first frame, and goes on behind it.
pub stream_frames-some :
    (a : Bytes) (f : Frame) (r : Bytes)
    → take_frame a ≡ some (f, r)
    → stream_frames a ≡ f ∷ stream_frames r
unfolding stream_frames
stream_frames-some a f r e =
    let size = (take_frame_sizes a f r e).0 in
    frames_loop_fuel (length a) (suc (length a)) a (omega arith) (omega arith)
    ∙ frames_loop-some (length a) a f r e
    ∙ ap (λ t. f ∷ t) (frames_loop_fuel (length a) (length r) r (omega arith) (omega arith))
