-- ===== src/UdpChat/Examples.antt =====
-- Ann writes a line.
use eltex_summer.Base.{◌≡◌, refl, true, [], ◌∷◌, codes, str_eq, starts_with, find_text, arith}
use eltex_summer.Base.Scan.{is_digit}
use eltex_summer.UdpChat.{
  is_alnum, all_in_name, is_valid_nickname, is_my_message, chat_message, ChatRun, handle_line,
  handle_datagram,
}
use eltex_summer.UdpChat.Delivery.{handle_line-handle_datagram}

abbrev quiet : ChatRun
quiet = record { goes_on = true; sent = []; shown = [] }

handle_line-handle_datagram_example :
    ((handle_line (codes "ann") (codes "hi") quiet).sent
      ≡ chat_message (codes "ann") (codes "hi") ∷ [])
    × (handle_datagram (codes "ann") (chat_message (codes "ann") (codes "hi")) quiet ≡ quiet)
    × ((handle_datagram (codes "bob") (chat_message (codes "ann") (codes "hi")) quiet).shown
        ≡ codes "[ann]: hi" ∷ [])
unfolding is_valid_nickname all_in_name is_alnum is_digit str_eq is_my_message find_text starts_with
handle_line-handle_datagram_example =
    handle_line-handle_datagram (codes "ann") (codes "bob") (codes "hi") quiet quiet refl
      (omega arith) (omega arith, (omega arith, tt)) (omega arith) refl refl refl
