-- ===== src/Firewall/Examples.antt =====
-- The firewall on a short list and on a full one.
use eltex_summer.Base.{
  ℕ, zero, suc, ◌+◌, ◌++◌, ◌≡◌, refl, true, some, List, [], ◌∷◌, Bytes, codes, if◌then◌else◌, ◌&&◌,
  ◌==◌, str_eq, arith,
}
use eltex_summer.Base.Scan.{decimal}
use eltex_summer.Firewall.{
  Header, accept, drop_packet, add_ip, delete_ip, firewall_hook, firewall_write, is_blocked, erase,
  dotted,
}
use eltex_summer.Firewall.Writes.{
  IsValid, AfterReply, firewall_write-IsValid, firewall_hook-add_ip, firewall_hook-delete_ip,
}

abbrev two_blocked : List Bytes
two_blocked = codes "10.0.0.1" ∷ codes "10.0.0.2" ∷ []

two_blocked-IsValid : IsValid two_blocked
unfolding is_blocked str_eq
two_blocked-IsValid = record {
  distinct = (refl, (refl, tt));
  bounded = omega arith;
  fit = omega arith;
}

-- A packet to 10.0.0.2.
abbrev to_second : Header
to_second = record { version = 4; daddr = (10, 0, 0, 2) }

abbrev del_command : Bytes
del_command = codes "del 10.0.0.2"

firewall_write-IsValid_example : AfterReply IsValid (firewall_write two_blocked true del_command)
firewall_write-IsValid_example =
    firewall_write-IsValid two_blocked true del_command two_blocked-IsValid

firewall_hook-add_ip_example : firewall_hook two_blocked (some to_second) ≡ (
    if (4 == 4) && str_eq (codes "10.0.0.2") (dotted (10, 0, 0, 2))
    then drop_packet
    else firewall_hook (codes "10.0.0.1" ∷ []) (some to_second))
unfolding add_ip is_blocked str_eq
firewall_hook-add_ip_example =
    firewall_hook-add_ip (codes "10.0.0.1" ∷ []) two_blocked (codes "10.0.0.2") 12 12 to_second refl

firewall_hook-delete_ip_example : firewall_hook (codes "10.0.0.1" ∷ []) (some to_second) ≡ (
    if str_eq (codes "10.0.0.2") (dotted (10, 0, 0, 2))
    then accept
    else firewall_hook two_blocked (some to_second))
unfolding delete_ip erase str_eq
firewall_hook-delete_ip_example =
    firewall_hook-delete_ip two_blocked (codes "10.0.0.1" ∷ []) (codes "10.0.0.2") 12 12 to_second
      two_blocked-IsValid refl

-- Each of these addresses takes 16 bytes of the report.
abbrev long_list : ℕ → List Bytes
long_list zero = []
long_list (suc n) = (codes "192.168.100." ++ decimal (100 + n)) ∷ long_list n
