-- ===== src/Capture/Examples.antt =====
-- The capture on small frames.
use eltex_summer.Base.{
  ◌+◌, ◌<◌, ◌≡◌, refl, ◌↔◌, true, ◌||◌, ◌==◌, none, some, [], ◌∷◌, ◌++◌, Bytes, replicate, length,
  take, drop, map, arith,
}
use eltex_summer.Base.Int.{pos}
use eltex_summer.Capture.{
  Env, CaptureState, add_filter, init_filters, address_field, uses_nothing, wrong_port,
  wrong_address, apply_filter, receive_into, word_at, ip_at, udp_at, is_wanted, process_packet,
  frame, capture, chosen_filter, start_capture,
}
use eltex_summer.Capture.Frames.{as_buffer, IsWhole}
use eltex_summer.Capture.Selection.{selected, capture-selected}
use eltex_summer.Capture.Filters.{chosen_port, apply_filter-chosen_filter, process_packet-none}

abbrev env : Env
env = record {
  inet_ntop = λ a b c d. a ∷ b ∷ c ∷ d ∷ [];
  malloc_ok = λ n. true;
  time = λ n. (n, 0);
}

-- Headers of a packet from port 53 with the bytes 7 and 8
abbrev ethernet : Bytes
ethernet = replicate 6 1 ++ replicate 6 2 ++ 8 ∷ 0 ∷ []

abbrev dns_frame : Bytes
dns_frame =
    ethernet
    ++ 69 ∷ replicate 8 0
    ++ 17 ∷ 0 ∷ 0 ∷ 10 ∷ 0 ∷ 0 ∷ 1 ∷ 10 ∷ 0 ∷ 0 ∷ 2 ∷ 0 ∷ 53 ∷ 156 ∷ 64 ∷ 0 ∷ 10 ∷ 0 ∷ 0 ∷ 7 ∷ 8
      ∷ []

-- The same with another port
abbrev web_frame : Bytes
web_frame = take 34 dns_frame ++ 0 ∷ 80 ∷ drop 36 dns_frame

dns_frame-IsWhole : IsWhole dns_frame
unfolding as_buffer receive_into udp_at
dns_frame-IsWhole = record { ip_header = omega arith; headers = omega arith; fits = omega arith }

web_frame-IsWhole : IsWhole web_frame
unfolding as_buffer receive_into udp_at
web_frame-IsWhole = record { ip_header = omega arith; headers = omega arith; fits = omega arith }

abbrev dns_state : CaptureState
unfolding start_capture chosen_filter
dns_state = start_capture (some (pos 2))

capture-selected_example :
    capture env (map frame (web_frame ∷ dns_frame ∷ [])) (λ i. 9) dns_state
    ≡ some (record dns_state {
      packets = take 1000 (selected env dns_state (web_frame ∷ dns_frame ∷ []) 0);
    })
unfolding dns_state start_capture
capture-selected_example =
    capture-selected env (web_frame ∷ dns_frame ∷ []) (λ i. 9) dns_state refl (omega arith)
      (web_frame-IsWhole, (dns_frame-IsWhole, tt))

-- One of the two frames is selected.
length-selected_two : length (selected env dns_state (web_frame ∷ dns_frame ∷ []) 0) ≡ 1
unfolding selected is_wanted as_buffer receive_into word_at ip_at udp_at start_capture chosen_filter
    apply_filter init_filters add_filter address_field uses_nothing wrong_port wrong_address
length-selected_two = refl

apply_filter-chosen_filter_example :
    apply_filter init_filters (chosen_filter (some (pos 3))) [] [] 40000 123
    ≡ ((40000 == chosen_port (some (pos 3))) || (123 == chosen_port (some (pos 3))))
apply_filter-chosen_filter_example = apply_filter-chosen_filter (some (pos 3)) [] [] 40000 123

-- 40 bytes of the frame arrive: two less than the headers.
process_packet-none_example :
    (process_packet env (as_buffer dns_frame) 40 dns_state ≡ none)
    ↔ ((40 < udp_at (as_buffer dns_frame) + 8) × (true ≡ true))
unfolding selected is_wanted as_buffer receive_into word_at ip_at udp_at start_capture chosen_filter
    apply_filter init_filters add_filter address_field uses_nothing wrong_port wrong_address
process_packet-none_example =
    process_packet-none env (as_buffer dns_frame) 40 dns_state (omega arith) (omega arith) refl
      (omega arith)
