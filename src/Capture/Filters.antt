-- ===== src/Capture/Filters.antt =====
-- Which packets the three filters let through, what an entry holds, and which frames break the copying.
use eltex_summer.Base.{
  ℕ, zero, suc, ◌+◌, ◌-◌, ◌≤◌, ◌<◌, ◌≡◌, sym, ap, ◌∙◌, Bool, true, false, ◌&&◌, ◌||◌, Option, none,
  some, Bytes, ltb, leb, ◌==◌, if◌then◌else◌, length, drop, ◌↔◌, length-drop, arith,
}
use eltex_summer.Base.Int.{ℤ, pos, negsuc}
use eltex_summer.Capture.{
  Buffer, buffer_size, Env, CaptureState, add_filter, init_filters, address_field, uses_nothing,
  wrong_port, wrong_address, apply_filter, udp_at, payload_length, decode, add_packet, is_wanted,
  process_packet, chosen_filter,
}
use eltex_summer.Capture.Frames.{as_buffer, IsWhole, bytes_at-drop}

-- The port of the filter that `main` takes for an answer: 1 to 3, and the first one for all else
unfoldable pub chosen_port : Option ℤ → ℕ
chosen_port none = 51000
chosen_port (some (negsuc n)) = 51000
chosen_port (some (pos n)) = if n == 2 then 53 else if n == 3 then 123 else 51000

-- With the filters of `init_filters` and the number that `main` derives from the user's answer, a packet
-- is let through exactly if one of its ports is that of the filter, whatever its addresses are.
pub apply_filter-chosen_filter :
    (choice : Option ℤ) (src_ip dst_ip : Bytes) (src_port dst_port : ℕ)
    → apply_filter init_filters (chosen_filter choice) src_ip dst_ip src_port dst_port
      ≡ ((src_port == chosen_port choice) || (dst_port == chosen_port choice))
unfolding apply_filter init_filters add_filter address_field uses_nothing wrong_port wrong_address
    chosen_filter chosen_port
apply_filter-chosen_filter none src_ip dst_ip src_port dst_port = ground arith
apply_filter-chosen_filter (some (negsuc n)) src_ip dst_ip src_port dst_port = ground arith
apply_filter-chosen_filter (some (pos zero)) src_ip dst_ip src_port dst_port = ground arith
apply_filter-chosen_filter (some (pos (suc zero))) src_ip dst_ip src_port dst_port = ground arith
apply_filter-chosen_filter (some (pos (suc (suc zero)))) src_ip dst_ip src_port dst_port =
    ground arith
apply_filter-chosen_filter (some (pos (suc (suc (suc zero))))) src_ip dst_ip src_port dst_port =
    ground arith
apply_filter-chosen_filter (some (pos (suc (suc (suc (suc n)))))) src_ip dst_ip src_port dst_port =
    ground arith

-- The test of the model whether the copying leaves the buffer
leaves_eq :
    (buffer : Buffer) (len : ℕ) (ok : Bool)
    → 0 < len
    → len ≤ buffer_size
    → ((ltb 0 (payload_length buffer len) && ok)
        && ltb buffer_size (udp_at buffer + 8 + payload_length buffer len))
      ≡ (ltb len (udp_at buffer + 8) && ok)
unfolding payload_length udp_at
leaves_eq buffer len ok some_bytes fits = ground arith

none_iff :
    (len headers : ℕ) (ok : Bool) (t : CaptureState)
    → ((if ltb len headers && ok then none else some t) ≡ none) ↔ ((len < headers) × (ok ≡ true))
none_iff len headers true t = ground arith
none_iff len headers false t = ground arith

-- A frame of at least one byte that the tests let through while the table has room: the copying of its
-- payload leaves the buffer exactly if the frame is shorter than its headers, options included, and
-- `malloc` succeeds. In all other cases there is a result.
pub process_packet-none :
    (env : Env) (buffer : Buffer) (len : ℕ) (s : CaptureState)
    → 0 < len
    → len ≤ buffer_size
    → is_wanted env buffer s ≡ true
    → length s.packets < s.max_packets
    → (process_packet env buffer len s ≡ none)
      ↔ ((len < udp_at buffer + 8) × (env.malloc_ok (length s.packets) ≡ true))
unfolding process_packet add_packet payload_length udp_at
process_packet-none env buffer len s some_bytes fits wanted room =
    let full : leb s.max_packets (length s.packets) ≡ false = ground arith in
    simp (wanted, full, leaves_eq buffer len (env.malloc_ok (length s.packets)) some_bytes fits)
      (none_iff len (udp_at buffer + 8) (env.malloc_ok (length s.packets)) _)

size_eq :
    (buffer : Buffer) (len : ℕ)
    → udp_at buffer + 8 ≤ len
    → len ≤ buffer_size
    → payload_length buffer len ≡ len - (udp_at buffer + 8)
unfolding payload_length
size_eq buffer len h fits = omega arith

-- For a whole frame with bytes behind its headers, when `malloc` succeeds: the entry has exactly these
-- bytes as its payload, and their number.
pub decode-drop :
    (env : Env) (f : Bytes) (n : ℕ)
    → IsWhole f
    → udp_at (as_buffer f) + 8 < length f
    → env.malloc_ok n ≡ true
    → ((decode env (as_buffer f) (length f) n).payload ≡ some (drop (udp_at (as_buffer f) + 8) f))
      × ((decode env (as_buffer f) (length f) n).payload_length
          ≡ length (drop (udp_at (as_buffer f) + 8) f))
unfolding decode as_buffer udp_at
decode-drop env f n w more ok =
    let size : payload_length (as_buffer f) (length f) ≡ length f - (udp_at (as_buffer f) + 8) =
      size_eq (as_buffer f) (length f) w.headers w.fits in
    let positive : ltb 0 (length f - (udp_at (as_buffer f) + 8)) ≡ true = ground arith in
    (
      simp (size, positive, ok)
          (ap some (bytes_at-drop f (λ i. 0) (udp_at (as_buffer f) + 8) _ (omega arith))),
      size ∙ sym (length-drop (udp_at (as_buffer f) + 8) f),
    )
