-- ===== src/Core/Ring/Links.antt =====
-- Doubly linked runs of coroutines.
use rdma_yuxi.Prelude.{
  zero, suc, ◌≤◌, ◌<◌, if◌then◌else◌, length, sum_below, sum_below_change, ℕ, ◌≡◌, ◌≢◌, refl, true,
  false, ◌||◌, List, [], ◌∷◌, ◌++◌, mem, IsDistinct, arith, ap, ◌∙◌, ==_iff,
}
use native.Mathlib.Decide.{ℕ_discrete}
use mathlib.Core.Bool.{false≢true}
use rdma_yuxi.Core.Scheduler.{Coroutine}

-- From `a` the links lead through `l` and then to `b`, and back through `l`.
abbrev pub Chain : (ℕ → Coroutine) → ℕ → List ℕ → ℕ → Type 0
Chain f a [] b = (f a).next_coro ≡ b
Chain f a (c ∷ l) b = ((f a).next_coro ≡ c) × ((f c).prev_coro ≡ a) × Chain f c l b

abbrev pub last_of : ℕ → List ℕ → ℕ
last_of a [] = a
last_of a (c ∷ l) = last_of c l

pub mem-append : (a : ℕ) (xs ys : List ℕ) → mem a (xs ++ ys) ≡ (mem a xs || mem a ys)
mem-append a [] ys = refl
mem-append a (x ∷ xs) ys = ground (arith, mem-append a xs ys)

pub last_of-append : (a c : ℕ) (xs ys : List ℕ) → last_of a (xs ++ (c ∷ ys)) ≡ last_of c ys
last_of-append a c [] ys = refl
last_of-append a c (x ∷ xs) ys = last_of-append x c xs ys

pub last_of-mem : (a : ℕ) (l : List ℕ) → mem (last_of a l) (a ∷ l) ≡ true
last_of-mem a [] = ground arith
last_of-mem a (c ∷ l) = ground (arith, last_of-mem c l)

-- What is distinct stays so in parts, and the parts share nothing.
pub IsDistinct-left : (xs ys : List ℕ) → IsDistinct (xs ++ ys) → IsDistinct xs
IsDistinct-left [] ys d = tt
IsDistinct-left (x ∷ xs) ys (out, d) = (ground (arith, mem-append x xs ys), IsDistinct-left xs ys d)

pub IsDistinct-right : (xs ys : List ℕ) → IsDistinct (xs ++ ys) → IsDistinct ys
IsDistinct-right [] ys d = d
IsDistinct-right (x ∷ xs) ys (out, d) = IsDistinct-right xs ys d

pub IsDistinct-apart :
    (a : ℕ) (xs ys : List ℕ) → IsDistinct (xs ++ ys) → mem a xs ≡ true → mem a ys ≡ false
IsDistinct-apart a [] ys d m = ground arith
IsDistinct-apart a (x ∷ xs) ys (out, d) m =
    ground (arith, mem-append x xs ys, IsDistinct-apart a xs ys d)

pub IsDistinct-append :
    (xs ys : List ℕ)
    → IsDistinct xs
    → IsDistinct ys
    → ((a : ℕ) → mem a xs ≡ true → mem a ys ≡ false)
    → IsDistinct (xs ++ ys)
IsDistinct-append [] ys d e apart = e
IsDistinct-append (x ∷ xs) ys (out, d) e apart = (
  ground (arith, mem-append x xs ys, apart x),
  IsDistinct-append xs ys d e (λ a m. ground (arith, apart a)),
)

-- A run splits where one of its coroutines stands.
pub Chain-split :
    (f : ℕ → Coroutine) (a c b : ℕ) (xs ys : List ℕ)
    → Chain f a (xs ++ (c ∷ ys)) b
    → Chain f a xs c × ((f c).prev_coro ≡ last_of a xs) × Chain f c ys b
Chain-split f a c b [] ys h = h
Chain-split f a c b (x ∷ xs) ys (e, p, h) =
    let (k, q, l) = Chain-split f x c b xs ys h in ((e, p, k), q, l)

pub Chain-join :
    (f : ℕ → Coroutine) (a c b : ℕ) (xs ys : List ℕ)
    → Chain f a xs c
    → (f c).prev_coro ≡ last_of a xs
    → Chain f c ys b
    → Chain f a (xs ++ (c ∷ ys)) b
Chain-join f a c b [] ys k q l = (k, q, l)
Chain-join f a c b (x ∷ xs) ys (e, p, k) q l = (e, p, Chain-join f x c b xs ys k q l)

-- A run of which the last link is turned to `c`, and no other link is changed.
pub Chain-relink :
    (f g : ℕ → Coroutine) (a b c : ℕ) (l : List ℕ)
    → IsDistinct (a ∷ l)
    → ((x : ℕ) → mem x (a ∷ l) ≡ true → x ≢ last_of a l → (g x).next_coro ≡ (f x).next_coro)
    → ((x : ℕ) → mem x l ≡ true → (g x).prev_coro ≡ (f x).prev_coro)
    → (g (last_of a l)).next_coro ≡ c
    → Chain f a l b
    → Chain g a l c
Chain-relink f g a b c [] d n p e h = e
Chain-relink f g a b c (x ∷ l) (out, d) n p e (h, q, k) = (
  n a (ground arith) (λ same. ground (arith, last_of-mem x l, same, out)) ∙ h,
  p x (ground arith) ∙ q,
  Chain-relink f g x b c l d (λ y m ne. n y (ground arith) ne) (λ y m. p y (ground arith)) e k,
)

-- A run that no change touches.
pub Chain-frame :
    (f g : ℕ → Coroutine) (a b : ℕ) (l : List ℕ)
    → ((x : ℕ) → mem x (a ∷ l) ≡ true → (g x).next_coro ≡ (f x).next_coro)
    → ((x : ℕ) → mem x l ≡ true → (g x).prev_coro ≡ (f x).prev_coro)
    → Chain f a l b
    → Chain g a l b
Chain-frame f g a b [] n p h = n a (ground arith) ∙ h
Chain-frame f g a b (x ∷ l) n p (h, q, k) = (
  n a (ground arith) ∙ h,
  p x (ground arith) ∙ q,
  Chain-frame f g x b l (λ y m. n y (ground arith)) (λ y m. p y (ground arith)) k,
)

-- What is in a list stands between two parts of it.
pub mem-split :
    (c : ℕ) (l : List ℕ) → mem c l ≡ true → (xs : List ℕ) × (ys : List ℕ) × (l ≡ xs ++ (c ∷ ys))
mem-split c [] m = absurd (false≢true m)
mem-split c (x ∷ l) m = elim (ℕ_discrete x c) [
  | yes e ↦ ([], l, ap (λ y. y ∷ l) e)
  | no ne ↦ let (xs, ys, e) = mem-split c l (ground (arith, ne)) in (x ∷ xs, ys, ap (◌∷◌ x) e)
]

-- The next coroutine of one in the run is in the run, or is the end.
pub next-mem :
    (f : ℕ → Coroutine) (a b c : ℕ) (l : List ℕ)
    → Chain f a l b
    → mem c (a ∷ l) ≡ true
    → mem (f c).next_coro (b ∷ l) ≡ true
next-mem f a b c [] e m = ground (arith, ap (λ x. (f x).next_coro) ((==_iff a c).0 (ground arith)))
next-mem f a b c (d ∷ l) (e, p, h) m = elim (ℕ_discrete a c) [
  | yes same ↦ ground (arith, ap (λ x. (f x).next_coro) same)
  | no other ↦ ground (arith, next-mem f d b c l h (ground (arith, other)))
]

-- The numbers of a list among those below `n`.
abbrev among : List ℕ → ℕ → ℕ
among l j = if mem j l then 1 else 0

among_le : (n : ℕ) (l : List ℕ) → sum_below n (among l) ≤ n
among_le zero l = omega arith
among_le (suc n) l = ground (arith, among_le n l)

length-among :
    (n : ℕ) (l : List ℕ)
    → IsDistinct l
    → ((c : ℕ) → mem c l ≡ true → c < n)
    → length l ≤ sum_below n (among l)
length-among n [] d lt = omega arith
length-among n (c ∷ l) (out, d) lt = omega (
  arith,
  length-among n l d (λ x m. lt x (ground (arith, m))),
  sum_below_change n c (among l) (among (c ∷ l)) (λ j ne. ground (arith, ne)) (lt c (ground arith)),
  (let e : among l c ≡ 0 = ground (arith, out) in e),
  (let e : among (c ∷ l) c ≡ 1 = ground arith in e),
)

-- Distinct numbers below `n` are at most `n`.
pub IsDistinct-length :
    (n : ℕ) (l : List ℕ) → IsDistinct l → ((c : ℕ) → mem c l ≡ true → c < n) → length l ≤ n
IsDistinct-length n l d lt = omega (arith, length-among n l d lt, among_le n l)
