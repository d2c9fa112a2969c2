-- ===== src/Drivers/ProcFile.antt =====
-- module5/02/procmod.c: the file /proc/mydata. The copies to and from the user are taken to succeed, since
-- the code does not look at their results.
use eltex_summer.Base.{
  ℕ, suc, ◌+◌, ◌-◌, ◌≤◌, ◌<◌, ◌≡◌, refl, false, [], ◌∷◌, ◌++◌, Bytes, length, length-take, take,
  take-append, drop, min, ltb, ◌==◌, if◌then◌else◌, arith,
}

-- The variables `msg`, `len` and `temp`
pub record ProcData : Type 0 where
  pub msg : Bytes
  pub len : ℕ
  pub temp : ℕ

-- `read_proc`: the bytes that the caller gets, whose number is returned
unfoldable pub read_proc : ℕ → ProcData → Bytes × ProcData
read_proc count p =
    let n = if ltb p.temp count then p.temp else count in
    (take n p.msg, record p { temp = if n == 0 then p.len else p.temp - n })

-- `write_proc`, of `count` bytes of what the caller gives: the number that is returned
unfoldable pub write_proc : Bytes → ℕ → ProcData → ℕ × ProcData
write_proc user count p =
    let n = if ltb 99 count then 99 else count in
    (n, record { msg = take n user ++ 0 ∷ drop (suc n) p.msg; len = n; temp = n })

-- All that is left is read, or nothing is left.
read_proc_all :
    (msg : Bytes) (len temp count : ℕ)
    → 0 < temp
    → temp ≤ count
    → read_proc count (record { msg = msg; len = len; temp = temp })
      ≡ (take temp msg, record { msg = msg; len = len; temp = 0 })
unfolding read_proc
read_proc_all msg len temp count h k =
    let n : (if ltb temp count then temp else count) ≡ temp = ground arith in
    let some_left : (temp == 0) ≡ false = ground arith in
    let none_left : temp - temp ≡ 0 = omega arith in rw (n, some_left, none_left) refl

read_proc_end :
    (msg : Bytes) (len count : ℕ)
    → read_proc count (record { msg = msg; len = len; temp = 0 })
      ≡ ([], record { msg = msg; len = len; temp = len })
unfolding read_proc
read_proc_end msg len count =
    let n : (if ltb 0 count then 0 else count) ≡ 0 = ground arith in rw (n) refl

-- Three reads of a message of `n` bytes
three_reads :
    (user behind : Bytes) (n first second third : ℕ)
    → 0 < n
    → n ≤ length user
    → n ≤ first
    → n ≤ third
    → (p : ProcData) → p ≡ record { msg = take n user ++ behind; len = n; temp = n }
    → ((read_proc first p).0 ≡ take n user)
      × ((read_proc second (read_proc first p).1).0 ≡ [])
      × ((read_proc third (read_proc second (read_proc first p).1).1).0 ≡ take n user)
three_reads user behind n first second third some_bytes enough large large' p e =
    let msg : Bytes = take n user ++ behind in
    let whole : take n msg ≡ take n user =
      take-append n (take n user) behind (omega (arith, length-take n user)) in
    rw
      (
        e,
        read_proc_all msg n n first some_bytes large,
        read_proc_end msg n second,
        read_proc_all msg n n third some_bytes large',
      )
      (whole, refl, whole)

-- After a write of some bytes, a read with room for all of them gives what was written, at most 99 bytes;
-- the next read gives nothing, the sign of the end, and the one behind it the same bytes again. The
-- caller gives at least `count` bytes.
pub read_proc-write_proc :
    (user : Bytes) (count first second third : ℕ) (p : ProcData)
    → 0 < count
    → count ≤ length user
    → min count 99 ≤ first
    → min count 99 ≤ third
    → ((read_proc first (write_proc user count p).1).0 ≡ take (min count 99) user)
      × ((read_proc second (read_proc first (write_proc user count p).1).1).0 ≡ [])
      × ((read_proc third (read_proc second (read_proc first (write_proc user count p).1).1).1).0
          ≡ take (min count 99) user)
unfolding write_proc
read_proc-write_proc user count first second third p some_bytes enough large large' =
    let n : (if ltb 99 count then 99 else count) ≡ min count 99 = ground arith in
    rw (n) (
      three_reads user (0 ∷ drop (suc (min count 99)) p.msg) (min count 99) first second third
        (omega arith) (omega arith) large large' _ refl)

-- The defect: each read copies from the start of the message. After two reads of `first` and `second` bytes,
-- not 0, that are all still to be read, the caller has the first bytes twice and not what follows them.
pub read_proc_repeats :
    (first second : ℕ) (p : ProcData)
    → 0 < first
    → 0 < second
    → first + second ≤ p.temp
    → ((read_proc first p).0 ≡ take first p.msg)
      × ((read_proc second (read_proc first p).1).0 ≡ take second p.msg)
unfolding read_proc
read_proc_repeats first second p h k fits =
    let less : ltb p.temp first ≡ false = ground arith in
    let some_first : (first == 0) ≡ false = ground arith in
    let less' : ltb (p.temp - first) second ≡ false = ground arith in
    rw (less, some_first, less') (refl, refl)
