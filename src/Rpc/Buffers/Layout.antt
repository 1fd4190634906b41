-- ===== src/Rpc/Buffers/Layout.antt =====
-- Where a message buffer's headers and data are in memory: the constructor of MsgBuffer, get_pkthdr_0
-- and get_pkthdr_n of peer/erpc/msg_buffer.h, and alloc_msg_buffer of peer/erpc/rpc.h.
use native.Mathlib.Nat.{mul-le-mul_right, add-mul, mul_assoc}
use native.Mathlib.Decide.{dec_lt}
use rdma_yuxi.Prelude.{
  ◌⊎◌, inl, inr, Bool-cases, ℕ, ◌+◌, ◌-◌, ◌*◌, ◌/◌, ◌%◌, ◌≤◌, ◌<◌, ◌≡◌, ap, arith, ◌==◌,
  if◌then◌else◌,
}
use rdma_yuxi.Wire.Header.{Traits}
use rdma_yuxi.Wire.Sizes.{data_size_to_num_pkts}
use rdma_yuxi.Alloc.Huge.{round_up}

-- `buf_`: the first byte of data, behind header 0.
abbrev pub data_addr : Traits → ℕ → ℕ
data_addr tr buffer = buffer + tr.hdr_size

unfoldable pub get_pkthdr_0 : Traits → ℕ → ℕ
get_pkthdr_0 tr buf = buf - tr.hdr_size

-- `get_pkthdr_n`, with `sizeof(size_t)` written out.
unfoldable pub get_pkthdr_n : Traits → ℕ → ℕ → ℕ → ℕ
unfolding get_pkthdr_0 round_up
get_pkthdr_n tr buf max_data_size n =
    if n == 0 then get_pkthdr_0 tr buf else buf + round_up 8 max_data_size + (n - 1) * tr.hdr_size

-- The size that `alloc_msg_buffer` asks the allocator for.
unfoldable pub alloc_size : Traits → ℕ → ℕ
unfolding data_size_to_num_pkts
alloc_size tr max_data_size = max_data_size + data_size_to_num_pkts tr max_data_size * tr.hdr_size

pub alloc_size_ge : (tr : Traits) (size : ℕ) → size ≤ alloc_size tr size
unfolding alloc_size
alloc_size_ge tr size = omega arith

mul_mod : (k h : ℕ) → h % 8 ≡ 0 → k * h % 8 ≡ 0
mul_mod k h e =
    omega (
      arith,
      ap (λ z. k * z) (let f : h ≡ h / 8 * 8 = omega (arith, e) in f),
      mul_assoc k (h / 8) 8,
    )

-- The next header starts where one ends.
step : (h m n : ℕ) → m < n → m * h + h ≤ n * h
step h m n lt = omega (arith, add-mul m 1 h, mul-le-mul_right {m = m + 1} {n = n} h (omega arith))

module _ (tr : Traits) (buffer size k class_size : ℕ) (aligned : tr.hdr_size % 8 ≡ 0)
    (class_aligned : class_size % 8 ≡ 0) (fits : size + k * tr.hdr_size ≤ class_size) where
  abbrev at : ℕ → ℕ
  at n = get_pkthdr_n tr (data_addr tr buffer) size n

  -- Every header of the buffer is in its memory, and those behind the first are behind the data.
  pub get_pkthdr_n-inside :
      (n : ℕ)
      → n < k
      → (buffer ≤ at n)
        × (at n + tr.hdr_size ≤ buffer + class_size)
        × (0 < n → data_addr tr buffer + size ≤ at n)
  unfolding get_pkthdr_n get_pkthdr_0 round_up
  get_pkthdr_n-inside n lt = ground (
    arith,
    fits,
    mul_mod k tr.hdr_size aligned,
    class_aligned,
    step tr.hdr_size (n - 1) n,
    step tr.hdr_size n k lt,
  )

  pub get_pkthdr_n-apart : (m n : ℕ) → m < n → at m + tr.hdr_size ≤ at n
  unfolding get_pkthdr_n get_pkthdr_0 round_up
  get_pkthdr_n-apart m n lt = ground (arith, step tr.hdr_size (m - 1) (n - 1))

  get_pkthdr_n-first : (n : ℕ) → n ≡ 0 → at n + tr.hdr_size ≤ data_addr tr buffer
  unfolding get_pkthdr_n get_pkthdr_0
  get_pkthdr_n-first n e = ground (arith, e)

  -- A header ends where the data start, or is behind them.
  pub get_pkthdr_n-off_data :
      (n : ℕ)
      → n < k
      → (at n + tr.hdr_size ≤ data_addr tr buffer) ⊎ (data_addr tr buffer + size ≤ at n)
  get_pkthdr_n-off_data n lt = elim (Bool-cases (n == 0)) [
    | inl e ↦ inl (get_pkthdr_n-first n (ground (arith, e)))
    | inr e ↦ inr ((get_pkthdr_n-inside n lt).2 (ground (arith, e)))
  ]

  pub get_pkthdr_n-disjoint :
      (m n : ℕ) → (m ≡ n) ⊎ ((at m + tr.hdr_size ≤ at n) ⊎ (at n + tr.hdr_size ≤ at m))
  get_pkthdr_n-disjoint m n = elim (dec_lt m n) [
    | yes h ↦ inr (inl (get_pkthdr_n-apart m n h))
    | no h ↦ elim (dec_lt n m) [
      | yes k ↦ inr (inr (get_pkthdr_n-apart n m k))
      | no k ↦ inl (omega (arith, h, k))
    ]
  ]
