-- ===== src/Capture/Selection.antt =====
-- The loop of the capture against a selection from a list of frames.
use mathlib.Core.List.{append-nil, append_assoc}
use eltex_summer.Base.{
  take-append, ℕ, suc, ◌+◌, ◌≤◌, ◌<◌, ◌≡◌, refl, sym, ap, ◌∙◌, Bool, true, false, ◌&&◌, Option,
  some, List, [], ◌∷◌, ◌++◌, Bytes, ltb, leb, if◌then◌else◌, ◌>>=◌, length, take, map, All,
  Bool-cases, take_all, inl, inr, length-append, arith,
}
use eltex_summer.Capture.{
  Buffer, buffer_size, Env, Captured, CaptureState, receive_into, udp_at, payload_length, decode,
  add_packet, is_wanted, process_packet, frame, on_event, capture,
}
use eltex_summer.Capture.Frames.{
  as_buffer, IsWhole, as_buffer-agrees, udp_at-agrees, is_wanted-agrees, decode-agrees,
}

-- The entries for those of the frames that the tests let through, from number `n` on
unfoldable pub selected : Env → CaptureState → List Bytes → ℕ → List Captured
selected env s [] n = []
selected env s (f ∷ frames) n =
    if is_wanted env (as_buffer f) s
    then decode env (as_buffer f) (length f) n ∷ selected env s frames (suc n)
    else selected env s frames n

is_wanted-state :
    (env : Env) (b : Buffer) (s : CaptureState) (ps : List Captured)
    → is_wanted env b (record s { packets = ps }) ≡ is_wanted env b s
unfolding is_wanted
is_wanted-state env b s ps = refl

selected-state :
    (env : Env) (s : CaptureState) (ps : List Captured) (frames : List Bytes) (n : ℕ)
    → selected env (record s { packets = ps }) frames n ≡ selected env s frames n
unfolding selected is_wanted
selected-state env s ps [] n = refl
selected-state env s ps (f ∷ frames) n =
    rw (selected-state env s ps frames (suc n), selected-state env s ps frames n) refl

and_false : (b c : Bool) → c ≡ false → (b && c) ≡ false
and_false true c e = e
and_false false c e = refl

-- A whole frame is copied from inside the buffer.
copy_fits :
    (buffer : Buffer) (len : ℕ)
    → udp_at buffer + 8 ≤ len
    → len ≤ buffer_size
    → ltb buffer_size (udp_at buffer + 8 + payload_length buffer len) ≡ false
unfolding payload_length
copy_fits buffer len h fits = ground arith

add_packet-whole :
    (env : Env) (f : Bytes) (buffer : Buffer) (s : CaptureState)
    → IsWhole f
    → length s.packets < s.max_packets
    → add_packet env (receive_into buffer f) (length f) s
      ≡ some (record s {
        packets = s.packets ++ decode env (as_buffer f) (length f) (length s.packets) ∷ [];
      })
unfolding add_packet
add_packet-whole env f buffer s w room =
    let headers : udp_at (receive_into buffer f) + 8 ≤ length f = omega (
      arith,
      udp_at-agrees (receive_into buffer f) (as_buffer f) (length f) (as_buffer-agrees f buffer)
          (omega arith),
    ) in
    simp
      (
        full,
        and_false
            (ltb 0 (payload_length (receive_into buffer f) (length f))
              && env.malloc_ok (length s.packets))
            _ (copy_fits (receive_into buffer f) (length f) headers w.fits),
        decode-agrees (receive_into buffer f) (as_buffer f) (length f) (as_buffer-agrees f buffer)
            env (length s.packets) w.ip_header w.headers w.fits,
      )
      refl
  where
    full : leb s.max_packets (length s.packets) ≡ false
    full = ground arith

process_packet-whole :
    (env : Env) (f : Bytes) (buffer : Buffer) (s : CaptureState)
    → IsWhole f
    → length s.packets < s.max_packets
    → process_packet env (receive_into buffer f) (length f) s
      ≡ some (record s { packets = s.packets ++ selected env s (f ∷ []) (length s.packets) })
unfolding process_packet selected
process_packet-whole env f buffer s w room =
    rw
      (is_wanted-agrees (receive_into buffer f) (as_buffer f) (length f) (as_buffer-agrees f buffer)
        env s w.ip_header w.headers)
      (elim (Bool-cases (is_wanted env (as_buffer f) s)) [
        | inl e ↦ simp (e) (add_packet-whole env f buffer s w room)
        | inr e ↦
            simp (e) (ap (λ ps. some (record s { packets = ps })) (sym (append-nil s.packets)))
      ])

on_frame-whole :
    (env : Env) (again : Buffer → CaptureState → Option CaptureState) (f : Bytes) (buffer : Buffer)
    (s : CaptureState)
    → IsWhole f
    → length s.packets < s.max_packets
    → on_event env again (frame f) buffer s
      ≡ again
          (receive_into buffer f)
          (record s { packets = s.packets ++ selected env s (f ∷ []) (length s.packets) })
unfolding on_event
on_frame-whole env again [] buffer s w room = absurd (omega (arith, w.ip_header))
on_frame-whole env again (b ∷ bytes) buffer s w room =
    ap
      (λ got. process_packet env (receive_into buffer got) (length got) s >>= λ t.
        again (receive_into buffer got) t)
      (take_all 65536 (b ∷ bytes) w.fits)
    ∙ rw (process_packet-whole env (b ∷ bytes) buffer s w room) refl

-- The entries for the first frame and for the others
selected-cons :
    (env : Env) (s : CaptureState) (f : Bytes) (frames : List Bytes)
    → (s.packets ++ selected env s (f ∷ []) (length s.packets))
        ++ selected env s frames (length (s.packets ++ selected env s (f ∷ []) (length s.packets)))
      ≡ s.packets ++ selected env s (f ∷ frames) (length s.packets)
unfolding selected
selected-cons env s f frames = elim (Bool-cases (is_wanted env (as_buffer f) s)) [
  | inl e ↦ simp (e) (
      ap
        (λ n.
          (s.packets ++ decode env (as_buffer f) (length f) (length s.packets) ∷ [])
          ++ selected env s frames n)
        (omega (
          arith,
          length-append s.packets (decode env (as_buffer f) (length f) (length s.packets) ∷ []),
        ))
      ∙ append_assoc s.packets (decode env (as_buffer f) (length f) (length s.packets) ∷ [])
          (selected env s frames (suc (length s.packets))))
  | inr e ↦ simp (e, append-nil s.packets) refl
]

length-selected :
    (env : Env) (s : CaptureState) (f : Bytes) (n : ℕ) → length (selected env s (f ∷ []) n) ≤ 1
unfolding selected
length-selected env s f n = elim (Bool-cases (is_wanted env (as_buffer f) s)) [
  | inl e ↦ simp (e) omega arith
  | inr e ↦ simp (e) omega arith
]

-- While the capture runs and the table is not overfull, and all frames that `recv` delivers are whole: the
-- capture goes through them without a fault, and the table is then the entries that were there followed
-- by those for the frames that the tests let through, in their order, cut off at `max_packets`. What
-- the buffer held before plays no part.
pub capture-selected :
    (env : Env) (frames : List Bytes) (buffer : Buffer) (s : CaptureState)
    → s.running ≡ true
    → length s.packets ≤ s.max_packets
    → All IsWhole frames
    → capture env (map frame frames) buffer s
      ≡ some (record s {
        packets = take s.max_packets (s.packets ++ selected env s frames (length s.packets));
      })
unfolding capture selected
capture-selected env [] buffer s on room w =
    ap (λ ps. some (record s { packets = ps }))
      (sym (ap (take s.max_packets) (append-nil s.packets) ∙ take_all s.max_packets s.packets room))
capture-selected env (f ∷ frames) buffer s on room w =
    elim (Bool-cases (ltb (length s.packets) s.max_packets)) [
      | inl e ↦
          let goes : (s.running && ltb (length s.packets) s.max_packets) ≡ true =
            simp (on, e) refl in
          let entries : List Captured = selected env s (f ∷ []) (length s.packets) in
          let s1 : CaptureState = record s { packets = s.packets ++ entries } in
          let fits : length (s.packets ++ entries) ≤ s.max_packets =
            ground (
              arith,
              length-append s.packets entries,
              length-selected env s f (length s.packets),
            ) in
          simp (goes) (
            on_frame-whole env (capture env (map frame frames)) f buffer s w.0 (ground arith)
            ∙ (capture-selected env frames (receive_into buffer f) s1 on fits w.1
                ∙ ap (λ ps. some (record s { packets = take s.max_packets ps }))
                    (ap (λ l. (s.packets ++ entries) ++ l)
                        (selected-state env s (s.packets ++ entries) frames
                          (length (s.packets ++ entries)))
                      ∙ selected-cons env s f frames)))
      | inr e ↦
          let stops : (s.running && ltb (length s.packets) s.max_packets) ≡ false =
            simp (on, e) refl in
          simp (stops) (
            ap (λ ps. some (record s { packets = ps }))
              (sym (take-append s.max_packets s.packets _ (ground arith))))
    ]
