-- ===== src/Drivers/CharDevice.antt =====
-- module5/04/chardev.c: a device that hands out what was last written to it.
use eltex_summer.Base.{
  take-append, ℕ, zero, suc, ◌+◌, ◌-◌, ◌≤◌, ◌≡◌, refl, sym, ap, ◌∙◌, inl, inr, List, [], ◌∷◌, ◌++◌,
  Bytes, length, length-append, length-take, length-drop, take, take_all, drop, min, leb, ltb,
  if◌then◌else◌, Bool-cases, arith,
}

-- `device_buffer` and `buffer_len`
pub record Device : Type 0 where
  pub device_buffer : Bytes
  pub buffer_len : ℕ

-- Whether `copy_from_user` or `copy_to_user` copies all; if not, what the buffer holds then
pub data Copied : Type 0 where
  all_copied : Copied
  stopped : Bytes → Copied

-- What the calls return: a number of bytes or -EFAULT
pub data Returned : Type 0 where
  bytes : ℕ → Returned
  efault : Returned

-- `chardev_write`; `user` are the bytes that the caller gives, `count` or more.
unfoldable pub bytes_to_write : ℕ → ℕ
bytes_to_write count = if leb 128 count then 127 else count

unfoldable pub chardev_write : Copied → Bytes → ℕ → Device → Returned × Device
chardev_write (stopped buffer) user count d = (efault, record d { device_buffer = buffer })
chardev_write all_copied user count d =
    let n = bytes_to_write count in
    (
      bytes n,
      record { device_buffer = take n user ++ 0 ∷ drop (suc n) d.device_buffer; buffer_len = n },
    )

-- `chardev_read` from an offset: what it returns, the bytes that the caller gets, and the new offset
unfoldable pub bytes_to_read : ℕ → ℕ → Device → ℕ
bytes_to_read count offset d =
    if ltb count (d.buffer_len - offset) then count else d.buffer_len - offset

unfoldable pub chardev_read : Copied → ℕ → ℕ → Device → Returned × Bytes × ℕ
chardev_read copied count offset d =
    let n = bytes_to_read count offset d in
    if leb d.buffer_len offset then (bytes 0, [], offset) else elim copied [
      | all_copied ↦ (bytes n, take n (drop offset d.device_buffer), offset + n)
      | stopped user ↦ (efault, user, offset)
    ]

-- The bytes of several reads, one after the other, that all succeed
unfoldable pub reads : List ℕ → ℕ → Device → Bytes
reads [] offset d = []
reads (count ∷ counts) offset d =
    let r = chardev_read all_copied count offset d in r.1 ++ reads counts r.2 d

unfoldable pub total : List ℕ → ℕ
total [] = 0
total (count ∷ counts) = count + total counts

take-drop :
    (n m o : ℕ) (xs : Bytes)
    → o + n ≤ m
    → m ≤ length xs
    → take n (drop o (take m xs)) ≡ take n (drop o xs)
take-drop n m zero xs h l = front n m xs (omega arith)
  where
    front : (n m : ℕ) (xs : Bytes) → n ≤ m → take n (take m xs) ≡ take n xs
    front zero m xs h = refl
    front (suc n) zero xs h = absurd (omega arith)
    front (suc n) (suc m) [] h = refl
    front (suc n) (suc m) (x ∷ xs) h = ap (λ l. x ∷ l) (front n m xs (omega arith))
take-drop n zero (suc o) xs h l = absurd (omega arith)
take-drop n (suc m) (suc o) [] h l = absurd (omega (arith, l))
take-drop n (suc m) (suc o) (x ∷ xs) h l = take-drop n m o xs (omega arith) (omega arith)

drop_nil : (o : ℕ) → drop {A = ℕ} o [] ≡ []
drop_nil zero = refl
drop_nil (suc o) = refl

take_nil : (n : ℕ) → take {A = ℕ} n [] ≡ []
take_nil zero = refl
take_nil (suc n) = refl

drop_all : (o : ℕ) (xs : Bytes) → length xs ≤ o → drop o xs ≡ []
drop_all o [] h = drop_nil o
drop_all zero (x ∷ xs) h = absurd (omega arith)
drop_all (suc o) (x ∷ xs) h = drop_all o xs (omega arith)

take_split :
    (n m o : ℕ) (xs : Bytes)
    → take n (drop o xs) ++ take m (drop (o + n) xs) ≡ take (n + m) (drop o xs)
take_split zero m zero xs = ap (λ k. take k xs) (omega arith)
take_split (suc n) m zero [] =
    ap (take m) (drop_nil (0 + suc n)) ∙ (take_nil m ∙ sym (take_nil (suc n + m)))
take_split (suc n) m zero (x ∷ xs) =
    let next : 0 + suc n ≡ suc (0 + n) = omega arith in
    let sum : suc n + m ≡ suc (n + m) = omega arith in
    rw (next, sum) (ap (λ l. x ∷ l) (take_split n m zero xs))
take_split n m (suc o) [] = rw (drop_nil (suc o + n), take_nil n, take_nil m, take_nil (n + m)) refl
take_split n m (suc o) (x ∷ xs) =
    let next : suc o + n ≡ suc (o + n) = omega arith in rw (next) (take_split n m o xs)

-- No more is read than is there; where less is read than was asked for, that is all there is.
bytes_to_read_fits :
    (count offset : ℕ) (d : Device)
    → offset ≤ d.buffer_len
    → offset + bytes_to_read count offset d ≤ d.buffer_len
unfolding bytes_to_read
bytes_to_read_fits count offset d h = ground arith

take-bytes_to_read :
    (count offset more : ℕ) (d : Device) (xs : Bytes)
    → length xs ≡ d.buffer_len - offset
    → take (bytes_to_read count offset d + more) xs ≡ take (count + more) xs
unfolding bytes_to_read
take-bytes_to_read count offset more d xs l =
    elim (Bool-cases (ltb count (d.buffer_len - offset))) [
      | inl e ↦ simp (e) refl
      | inr e ↦ simp (e) (
          take_all (d.buffer_len - offset + more) xs (omega (arith, l))
          ∙ sym (take_all (count + more) xs (ground (arith, l))))
    ]

-- Reads with any counts hand out in turn what the device holds from the offset on, without gaps or
-- repetitions: together the first bytes of it, as many as the counts add up to, if `buffer_len` is
-- not more than the buffer has.
pub reads-take :
    (counts : List ℕ) (offset : ℕ) (d : Device)
    → d.buffer_len ≤ length d.device_buffer
    → reads counts offset d ≡ take (total counts) (drop offset (take d.buffer_len d.device_buffer))
unfolding reads total chardev_read bytes_to_read
reads-take [] offset d h = refl
reads-take (count ∷ counts) offset d h =
    let held : Bytes = take d.buffer_len d.device_buffer in
    let size : length held ≡ d.buffer_len =
      omega (arith, length-take d.buffer_len d.device_buffer) in
    let n : ℕ = bytes_to_read count offset d in
    elim (Bool-cases (leb d.buffer_len offset)) [
      | inl over ↦
          let nothing : drop offset held ≡ [] = drop_all offset held (ground (arith, size)) in
          simp (over) (
            reads-take counts offset d h
            ∙ rw (nothing, take_nil (total counts), take_nil (count + total counts)) refl)
      | inr more ↦ simp (more) (
          ap (λ l. l ++ reads counts (offset + n) d)
            (sym (
              take-drop n d.buffer_len offset d.device_buffer
                (bytes_to_read_fits count offset d (ground arith)) h))
          ∙ (ap (λ l. take n (drop offset held) ++ l) (reads-take counts (offset + n) d h)
              ∙ (take_split n (total counts) offset held
                  ∙ take-bytes_to_read count offset (total counts) d (drop offset held)
                      (omega (arith, length-drop offset held, size)))))
    ]

-- What is written comes back: after a write of `count` bytes that is copied as a whole, reads from the start
-- with any counts give the first of these bytes, at most 127 of them, as many as the counts add up to.
-- The caller gives at least `count` bytes.
pub reads-chardev_write :
    (user : Bytes) (count : ℕ) (counts : List ℕ) (d : Device)
    → count ≤ length user
    → ((chardev_write all_copied user count d).0 ≡ bytes (min count 127))
      × (reads counts 0 (chardev_write all_copied user count d).1
          ≡ take (total counts) (take (min count 127) user))
unfolding chardev_write bytes_to_write
reads-chardev_write user count counts d h =
    let n : ℕ = bytes_to_write count in
    let least : n ≡ min count 127 = ground arith in
    let rest : Bytes = 0 ∷ drop (suc n) d.device_buffer in
    let size : length (take n user) ≡ n = ground (arith, length-take n user, least) in
    let after : Device = record { device_buffer = take n user ++ rest; buffer_len = n } in
    (
      ap bytes least,
      reads-take counts 0 after (ground (arith, size, length-append (take n user) rest))
          ∙ ap (take (total counts))
              (take-append n (take n user) rest size ∙ ap (λ k. take k user) least),
    )
