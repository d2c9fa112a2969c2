-- ===== src/Capture/Frames.antt =====
-- What a frame leaves in the table, whatever the buffer held before.
use eltex_summer.Base.{
  ℕ, zero, suc, ◌+◌, ◌-◌, ◌%◌, ◌≤◌, ◌<◌, ◌≡◌, refl, sym, ap, ◌∙◌, [], ◌∷◌, Bytes, length, drop,
  arith,
}
use eltex_summer.Capture.{
  Buffer, buffer_size, Env, CaptureState, receive_into, word_at, bytes_at, ip_at, udp_at,
  payload_length, decode, is_wanted,
}

-- The frame in a buffer of zeros
unfoldable pub as_buffer : Bytes → Buffer
as_buffer f = receive_into (λ i. 0) f

-- Both headers are there, with all their options, and the frame fits into the buffer.
pub record IsWhole (f : Bytes) : Type 0 where
  pub ip_header : 34 ≤ length f
  pub headers : udp_at (as_buffer f) + 8 ≤ length f
  pub fits : length f ≤ buffer_size

pub receive_into-agrees :
    (f : Bytes) (a b : Buffer) (i : ℕ) → i < length f → receive_into a f i ≡ receive_into b f i
unfolding receive_into
receive_into-agrees [] a b i h = absurd (omega arith)
receive_into-agrees (x ∷ f) a b zero h = refl
receive_into-agrees (x ∷ f) a b (suc i) h =
    receive_into-agrees f (λ j. a (suc j)) (λ j. b (suc j)) i (omega arith)

-- The bytes of the frame are the same in any buffer that received it.
pub as_buffer-agrees :
    (f : Bytes) (buffer : Buffer) (j : ℕ) → j < length f → receive_into buffer f j ≡ as_buffer f j
unfolding as_buffer
as_buffer-agrees f buffer = receive_into-agrees f buffer (λ i. 0)

bytes_at-agrees :
    (a b : Buffer) (n i k : ℕ)
    → ((j : ℕ) → j < k → a j ≡ b j)
    → i + n ≤ k
    → bytes_at a i n ≡ bytes_at b i n
unfolding bytes_at
bytes_at-agrees a b zero i k same h = refl
bytes_at-agrees a b (suc n) i k same h =
    rw (same i (omega arith), bytes_at-agrees a b n (suc i) k same (omega arith)) refl

bytes_at-suc :
    (x : ℕ) (a : Buffer) (f : Bytes) (n i : ℕ)
    → bytes_at (receive_into a (x ∷ f)) (suc i) n ≡ bytes_at (receive_into (λ j. a (suc j)) f) i n
unfolding bytes_at receive_into
bytes_at-suc x a f zero i = refl
bytes_at-suc x a f (suc n) i = rw (bytes_at-suc x a f n (suc i)) refl

drop_end : (f : Bytes) (i : ℕ) → i ≡ length f → drop i f ≡ []
drop_end [] zero e = refl
drop_end [] (suc i) e = refl
drop_end (x ∷ f) zero e = absurd (omega (arith, e))
drop_end (x ∷ f) (suc i) e = drop_end f i (omega arith)

pub bytes_at-drop :
    (f : Bytes) (a : Buffer) (i n : ℕ)
    → i + n ≡ length f
    → bytes_at (receive_into a f) i n ≡ drop i f
unfolding bytes_at receive_into
bytes_at-drop f a i zero e = sym (drop_end f i (omega arith))
bytes_at-drop [] a i (suc n) e = absurd (omega arith)
bytes_at-drop (x ∷ f) a zero (suc n) e =
    ap (λ l. x ∷ l) (bytes_at-suc x a f n 0 ∙ bytes_at-drop f (λ j. a (suc j)) 0 n (omega arith))
bytes_at-drop (x ∷ f) a (suc i) (suc n) e =
    bytes_at-suc x a f (suc n) i ∙ bytes_at-drop f (λ j. a (suc j)) i (suc n) (omega arith)

-- Two buffers that agree at the first `k` indices
module _ (a b : Buffer) (k : ℕ) (same : (j : ℕ) → j < k → a j ≡ b j) where
  word_at-agrees : (i : ℕ) → suc i < k → word_at a i ≡ word_at b i
  unfolding word_at
  word_at-agrees i h = rw (same i (omega arith), same (suc i) h) refl

  ip_at-agrees : (env : Env) (i : ℕ) → i + 3 < k → ip_at env a i ≡ ip_at env b i
  unfolding ip_at
  ip_at-agrees env i h =
      rw
        (
          ip_at,
          same i (omega arith),
          same (i + 1) (omega arith),
          same (i + 2) (omega arith),
          same (i + 3) h,
        )
        refl

  pub udp_at-agrees : 14 < k → udp_at a ≡ udp_at b
  unfolding udp_at
  udp_at-agrees h = rw (same 14 h) refl

  pub is_wanted-agrees :
      (env : Env) (s : CaptureState)
      → 34 ≤ k
      → udp_at b + 8 ≤ k
      → is_wanted env a s ≡ is_wanted env b s
  unfolding is_wanted
  is_wanted-agrees env s ip udp =
      rw
        (
          udp_at-agrees (omega arith),
          word_at-agrees 12 (omega arith),
          same 23 (omega arith),
          ip_at-agrees env 26 (omega arith),
          ip_at-agrees env 30 (omega arith),
          word_at-agrees (udp_at b) (omega arith),
          word_at-agrees (udp_at b + 2) (omega arith),
        )
        refl

  pub decode-agrees :
      (env : Env) (n : ℕ)
      → 34 ≤ k
      → udp_at b + 8 ≤ k
      → k ≤ 65536
      → decode env a k n ≡ decode env b k n
  unfolding decode payload_length
  decode-agrees env n ip udp fits =
      rw
        (
          udp_at-agrees (omega arith),
          word_at-agrees (udp_at b) (omega arith),
          word_at-agrees (udp_at b + 2) (omega arith),
          word_at-agrees (udp_at b + 4) (omega arith),
          ip_at-agrees env 26 (omega arith),
          ip_at-agrees env 30 (omega arith),
          bytes_at-agrees a b 6 6 k same (omega arith),
          bytes_at-agrees a b 6 0 k same (omega arith),
          bytes_at-agrees a b ((k + 65536 - (udp_at b + 8)) % 65536) (udp_at b + 8) k same
              (omega arith),
        )
        refl
