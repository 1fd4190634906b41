-- ===== src/Prelude/Maps.antt =====
-- Arrays and maps as functions of a native index, and sums over the indices below a bound.
use Prim.Native.Nat.{ℕ, zero, suc, ◌+◌, ◌≤◌, ◌<◌}
use mathlib.Core.Path.{◌≡◌, refl, ap}
use mathlib.Core.Logic.{◌≢◌}
use native.Mathlib.Decide.{dec_lt}
use native.Mathlib.Omega.{arith}
use rdma_yuxi.Prelude.Tests.{◌==◌, if◌then◌else◌}

-- `f[i] = v`
abbrev pub update {ℓ} : {A : Type ℓ} → (ℕ → A) → ℕ → A → ℕ → A
update f i v j = if i == j then v else f j

-- The sum of `f` over the indices below `n`.
abbrev pub sum_below : ℕ → (ℕ → ℕ) → ℕ
sum_below zero f = 0
sum_below (suc n) f = f n + sum_below n f

module _ {ℓ} {A : Type ℓ} (g : A → ℕ) (f : ℕ → A) (i : ℕ) (v : A) where
  pub sum_below-update_out :
      (n : ℕ) → n ≤ i → sum_below n (λ j. g (update f i v j)) ≡ sum_below n (λ j. g (f j))
  sum_below-update_out zero h = refl
  sum_below-update_out (suc n) h = ground (arith, sum_below-update_out n)

  -- A write at an index in range exchanges one summand.
  pub sum_below-update :
      (n : ℕ)
      → i < n
      → sum_below n (λ j. g (update f i v j)) + g (f i) ≡ sum_below n (λ j. g (f j)) + g v
  sum_below-update zero h = absurd (omega arith)
  sum_below-update (suc n) h = ground (arith, sum_below-update n, sum_below-update_out n)

-- A summand is at most the sum.
pub sum_below-ge : (n i : ℕ) (f : ℕ → ℕ) → i < n → f i ≤ sum_below n f
sum_below-ge zero i f h = absurd (omega arith)
sum_below-ge (suc n) i f h = ground (arith, sum_below-ge n i f)

-- A write of a value that looks the same under `g` changes nothing that `g` shows.
pub update_same {ℓ κ} :
    {A : Type ℓ} {B : Type κ} (g : A → B) (f : ℕ → A) (i : ℕ) (x : A)
    → g x ≡ g (f i)
    → (j : ℕ) → g (update f i x j) ≡ g (f j)
update_same g f i x h j = ground (arith, h)

pub sum_below_cong : (n : ℕ) (f g : ℕ → ℕ) → ((j : ℕ) → g j ≡ f j) → sum_below n g ≡ sum_below n f
sum_below_cong zero f g h = refl
sum_below_cong (suc n) f g h = omega (arith, h n, sum_below_cong n f g h)

-- Two functions that agree except at `k`, from the sums below `n`.
sum_below_agree :
    (n k : ℕ) (f g : ℕ → ℕ) → ((j : ℕ) → j ≢ k → g j ≡ f j) → n ≤ k → sum_below n g ≡ sum_below n f
sum_below_agree zero k f g h le = refl
sum_below_agree (suc n) k f g h le =
    omega (arith, h n (omega arith), sum_below_agree n k f g h (omega arith))

pub sum_below_change :
    (n k : ℕ) (f g : ℕ → ℕ)
    → ((j : ℕ) → j ≢ k → g j ≡ f j)
    → k < n
    → sum_below n g + f k ≡ sum_below n f + g k
sum_below_change zero k f g h lt = absurd (omega arith)
sum_below_change (suc n) k f g h lt = elim (dec_lt k n) [
  | yes p ↦ omega (arith, sum_below_change n k f g h p, h n (omega arith))
  | no p ↦
      let e : n ≡ k = omega arith in
      omega (arith, ap f e, ap g e, sum_below_agree n k f g h (omega arith))
]
