-- ===== src/Ssd/Buffer.antt =====
-- The write buffer (`struct buffer` and its operations, nvmevirt/ssd.h and ssd.c). Each operation
-- runs under the buffer's spin lock from beginning to end, so it is one step.
use virtkv.Common.{
  ℕ, if◌then◌else◌, Bool, ◌<◌, ◌≡◌, ltb, true, ◌^◌, ◌+◌, u32, u64, ◌≤◌, arith, ◌-◌, ◌⊎◌, refl,
}

-- `struct buffer`, less its lock and the `data` that none of the operations touches.
pub record Buffer : Type 0 where
  pub size : ℕ
  pub remaining : ℕ

unfoldable pub buffer_init : ℕ → Buffer
buffer_init size = record { size = size; remaining = size }

-- The result has type `uint32_t`, the size `size_t`.
unfoldable pub buffer_allocate : Buffer → ℕ → ℕ × Buffer
buffer_allocate buf size =
    let granted = if ltb buf.remaining size then 0 else size in
    (u32 granted, record buf { remaining = buf.remaining - granted })

unfoldable pub buffer_release : Buffer → ℕ → Bool × Buffer
buffer_release buf size = (true, record buf { remaining = u64 (buf.remaining + size) })

pub buffer_refill : Buffer → Buffer
buffer_refill buf = record buf { remaining = buf.size }

-- A buffer together with the bytes that its users hold.
pub record Held : Type 0 where
  pub buffer : Buffer
  pub held : ℕ

-- What its users do: they ask for bytes and give back some that they hold.
pub data Use : Held → Held → Type 0 where
  asks :
      (h : Held) (n : ℕ)
      → n < 2 ^ 32
      → Use h (record {
        buffer = (buffer_allocate h.buffer n).1;
        held = h.held + (buffer_allocate h.buffer n).0;
      })
  returns :
      (h : Held) (n : ℕ)
      → n ≤ h.held
      → Use h (record { buffer = (buffer_release h.buffer n).1; held = h.held - n })

pub data Uses (h : Held) : Held → Type 0 where
  here : Uses h h
  next : {j k : Held} → Uses h j → Use j k → Uses h k

-- Nothing is lost or made up.
pub record Accounts (size : ℕ) (h : Held) : Type 0 where
  pub same_size : h.buffer.size ≡ size
  pub sum : h.buffer.remaining + h.held ≡ size

Use-Accounts : {size : ℕ} {h k : Held} → size < 2 ^ 64 → Use h k → Accounts size h → Accounts size k
unfolding buffer_allocate buffer_release
Use-Accounts s (asks h n small) a = ground arith
Use-Accounts s (returns h n le) a = ground arith

Uses-Accounts :
    {size : ℕ} {h k : Held} → size < 2 ^ 64 → Accounts size h → Uses h k → Accounts size k
Uses-Accounts s a here = a
Uses-Accounts s a (next r u) = Use-Accounts s u (Uses-Accounts s a r)

-- However a fresh buffer is used by clients that ask for less than 4 GiB at a time and return only
-- what they hold, the free bytes and the bytes held always make up its size, and `buffer_refill` makes it fresh again.
pub buffer-Accounts :
    (size : ℕ) (h : Held)
    → size < 2 ^ 64
    → Uses (record { buffer = buffer_init size; held = 0 }) h
    → Accounts size h × (buffer_refill h.buffer ≡ buffer_init size)
unfolding buffer_init buffer_refill
buffer-Accounts size h s r = let a = Uses-Accounts s (omega arith) r in (a, rw a.same_size refl)

-- A grant is all or nothing: too large a request changes nothing and gets nothing; any other is
-- granted whole, and giving the grant back restores the buffer.
buffer_allocate_cases :
    (buf : Buffer) (n : ℕ)
    → n < 2 ^ 32
    → buf.remaining < 2 ^ 64
    → ((buf.remaining < n) × (buffer_allocate buf n ≡ (0, buf)))
      ⊎ ((n ≤ buf.remaining)
          × ((buffer_allocate buf n).0 ≡ n)
          × (buffer_release (buffer_allocate buf n).1 n ≡ (true, buf)))
unfolding buffer_allocate buffer_release
buffer_allocate_cases buf n h k = ground arith
