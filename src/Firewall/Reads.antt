-- ===== src/Firewall/Reads.antt =====
-- The page that `firewall_read` fills.
use eltex_summer.Base.{
  ◌∙◌, ℕ, ◌+◌, ◌<◌, ◌≤◌, ◌≡◌, inl, inr, true, false, none, some, List, [], ◌∷◌, Bytes, length, ltb,
  Bool-cases, arith,
}
use eltex_summer.Base.Scan.{decimal}
use eltex_summer.Firewall.{read_entries, copied_len, firewall_read, head_len}

-- The bytes of the listed addresses, with a newline each.
unfoldable pub entries_len : List Bytes → ℕ
entries_len [] = 0
entries_len (b ∷ blocked) = length b + 1 + entries_len blocked

-- The bytes of the whole report.
unfoldable pub report_len : List Bytes → ℕ
report_len blocked = head_len + length (decimal (length blocked)) + 1 + entries_len blocked

read_entries-fits :
    (blocked : List Bytes) (pos : ℕ)
    → pos + entries_len blocked ≤ 512
    → read_entries blocked pos ≡ pos + entries_len blocked
unfolding read_entries entries_len
read_entries-fits [] pos h = omega arith
read_entries-fits (b ∷ blocked) pos h =
    let inside : ltb 512 pos ≡ false = ground arith in
    rw inside (read_entries-fits blocked (pos + length b + 1) (omega arith) ∙ omega arith)

read_entries-grows : (blocked : List Bytes) (pos : ℕ) → pos ≤ read_entries blocked pos
unfolding read_entries
read_entries-grows [] pos = omega arith
read_entries-grows (b ∷ blocked) pos = elim (Bool-cases (ltb 512 pos)) [
  | inl out ↦ rw out (read_entries-grows blocked pos)
  | inr inside ↦ rw inside (omega (arith, read_entries-grows blocked (pos + length b + 1)))
]

read_entries-overruns :
    (blocked : List Bytes) (pos : ℕ)
    → 512 < pos + entries_len blocked
    → 512 < read_entries blocked pos
unfolding read_entries entries_len
read_entries-overruns [] pos h = omega arith
read_entries-overruns (b ∷ blocked) pos h = elim (Bool-cases (ltb 512 pos)) [
  | inl out ↦ rw out (omega (arith, read_entries-grows blocked pos, ltb_out pos out))
  | inr inside ↦ rw inside (read_entries-overruns blocked (pos + length b + 1) (omega arith))
]
  where
    ltb_out : (pos : ℕ) → ltb 512 pos ≡ true → 512 < pos
    ltb_out pos e = ground arith

-- `firewall_read` returns the length of its report when that fits the page of 512 bytes.
pub firewall_read-fits :
    (blocked : List Bytes)
    → report_len blocked ≤ 512
    → firewall_read blocked ≡ some (report_len blocked)
unfolding firewall_read report_len copied_len
firewall_read-fits blocked h =
    ground (arith, read_entries-fits blocked (head_len + length (decimal (length blocked)) + 1) h)

-- The defect: when the report is longer, `firewall_read` copies memory from behind its page.
pub firewall_read_overruns :
    (blocked : List Bytes) → 512 < report_len blocked → firewall_read blocked ≡ none
unfolding firewall_read report_len copied_len
firewall_read_overruns blocked h =
    let out : ltb 512 (read_entries blocked (head_len + length (decimal (length blocked)) + 1))
        ≡ true =
      ground (
        arith,
        read_entries-overruns blocked (head_len + length (decimal (length blocked)) + 1) h,
      ) in
    rw out
