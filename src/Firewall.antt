-- ===== src/Firewall.antt =====
-- module5/06/firewall.c: a kernel module that drops packets to the addresses of a list, which is
-- written and read through /proc. The list stands for the first `ip_count` slots of `blocked_ips`.
pub mod Writes
pub mod Reads
mod Examples
use eltex_summer.Base.{
  ℕ, zero, suc, ◌+◌, ◌-◌, Bool, true, false, not, ◌||◌, Option, none, some, List, [], ◌∷◌, ◌++◌,
  Bytes, codes, c_str, str_eq, starts_with, drop, length, ltb, leb, ◌==◌, if◌then◌else◌,
}
use eltex_summer.Base.Scan.{decimal}

abbrev pub max_ips : ℕ
max_ips = 32

abbrev pub ip_str_len : ℕ
ip_str_len = 16

pub data Verdict : Type 0 where
  accept drop_packet : Verdict

-- What the hook reads of a packet. `none`: no `skb`, or no network header in it.
pub record Header : Type 0 where
  pub version : ℕ
  pub daddr : ℕ × ℕ × ℕ × ℕ

-- `%pI4`
unfoldable pub dotted : ℕ × ℕ × ℕ × ℕ → Bytes
dotted (a, b, c, d) = decimal a ++ b'.' ∷ (decimal b ++ b'.' ∷ (decimal c ++ b'.' ∷ decimal d))

-- The search loop over `blocked_ips`.
unfoldable pub is_blocked : List Bytes → Bytes → Bool
is_blocked [] ip = false
is_blocked (b ∷ blocked) ip = str_eq b ip || is_blocked blocked ip

-- `firewall_hook`
unfoldable pub firewall_hook : List Bytes → Option Header → Verdict
firewall_hook blocked none = accept
firewall_hook blocked (some h) =
    if not (h.version == 4)
    then accept
    else if is_blocked blocked (dotted h.daddr)
    then drop_packet
    else accept

-- `fault`: the handler reads or writes outside one of its arrays.
pub data Reply : Type 0 where
  written : ℕ → List Bytes → Reply
  einval efault enospc : Reply
  fault : Reply

-- A final newline becomes the end of the string.
unfoldable pub strip_newline : Bytes → Bytes
strip_newline [] = []
strip_newline (c ∷ []) = if c == 10 then [] else c ∷ []
strip_newline (c ∷ d ∷ s) = c ∷ strip_newline (d ∷ s)

-- The loop of `del`: the entries behind the first that matches move up one slot.
unfoldable pub erase : List Bytes → Bytes → List Bytes
erase [] ip = []
erase (b ∷ blocked) ip = if str_eq b ip then blocked else b ∷ erase blocked ip

unfoldable pub add_ip : List Bytes → Bytes → ℕ → Reply
add_ip blocked ip len =
    if leb ip_str_len (length ip)
    then fault
    else if leb max_ips (length blocked)
    then enospc
    else if is_blocked blocked ip
    then written len blocked
    else written len (blocked ++ ip ∷ [])

unfoldable pub delete_ip : List Bytes → Bytes → ℕ → Reply
delete_ip blocked ip len =
    if leb ip_str_len (length ip) then fault else written len (erase blocked ip)

-- `firewall_write`: `copied` says whether `copy_from_user` succeeds on the bytes `buf`.
unfoldable pub firewall_write : List Bytes → Bool → Bytes → Reply
firewall_write blocked copied buf =
    let len = length buf in
    let command = c_str (strip_newline buf) in
    if leb 64 len
    then einval
    else if not copied
    then efault
    else if len == 0
    then fault
    else if starts_with command (codes "add ")
    then add_ip blocked (drop 4 command) len
    else if starts_with command (codes "del ")
    then delete_ip blocked (drop 4 command) len
    else if str_eq command (codes "clear")
    then written len []
    else einval

-- The bytes of the UTF-8 text in front of the number of addresses.
abbrev pub head_len : ℕ
head_len = 27

-- The loop of `firewall_read` behind the position `pos`. Once `pos` is past the page,
-- `sizeof(page) - pos` wraps round, and the kernel's `snprintf` refuses such a size: it returns 0.
unfoldable pub read_entries : List Bytes → ℕ → ℕ
read_entries [] pos = pos
read_entries (b ∷ blocked) pos =
    read_entries blocked (if ltb 512 pos then pos else pos + length b + 1)

-- `copy_to_user(buf, page, pos)`. `none`: it reads behind the end of the page.
unfoldable pub copied_len : ℕ → Option ℕ
copied_len pos = if ltb 512 pos then none else some pos

-- `firewall_read` at offset 0, where the copy succeeds: the number of bytes copied from the page.
unfoldable pub firewall_read : List Bytes → Option ℕ
unfolding copied_len
firewall_read blocked =
    copied_len (read_entries blocked (head_len + length (decimal (length blocked)) + 1))
